-- ===== src/Records/Paths.antt =====
-- Which paths of record files are accepted.
use resolvit.Prelude.{◌≡◌, ◌↔◌, sym, ap, ◌∙◌, Option, none, some, arith}
use resolvit.Go.Text.{Text}
use resolvit.Go.Path.Files.{IsFilePath, file_path, file_path_iff}
use resolvit.Records.{Sanitized, ok, err, sanitize_records_path}

-- The path of an accepted one.
abbrev accepted : Sanitized → Option Text
accepted (ok path) = some path
accepted (err e) = none

sanitize_records_path_lem : (path : Text) → accepted (sanitize_records_path path) ≡ file_path path
unfolding sanitize_records_path
sanitize_records_path_lem path = ground arith

accepted-ok : (s : Sanitized) (path : Text) → accepted s ≡ some path → s ≡ ok path
accepted-ok (ok p) path e = cc e
accepted-ok (err x) path e = cc e

-- A path of a record file is accepted, and becomes `cleaned`, exactly if it is not empty, cleans to
-- `cleaned`, and that is neither `.` nor the root directory and has no component `..`.
pub sanitize_records_path_iff :
    (path cleaned : Text) → (sanitize_records_path path ≡ ok cleaned) ↔ IsFilePath path cleaned
sanitize_records_path_iff path cleaned = (
  λ e. (file_path_iff path cleaned).0 (sym (sanitize_records_path_lem path) ∙ ap accepted e),
  λ p.
      accepted-ok (sanitize_records_path path) cleaned
        (sanitize_records_path_lem path ∙ (file_path_iff path cleaned).1 p),
)

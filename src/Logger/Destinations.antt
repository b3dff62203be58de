-- ===== src/Logger/Destinations.antt =====
-- What a logger writes to.
use resolvit.Prelude.{
  ◌≡◌, ◌≢◌, ◌⊎◌, ◌↔◌, refl, sym, ap, ◌∙◌, inl, inr, Bool, true, false, arith, Bool-cases, Option,
  some, none,
}
use resolvit.Go.Text.{Text, codes, text_eq}
use resolvit.Go.Text.Equality.{text_eq_sound, text_ne}
use resolvit.Go.Path.Files.{IsFilePath, file_path, file_path_iff}
use resolvit.Logger.{
  LogPath, ok, err, file, stdout, Logger, logger, get_log_level, sanitize_log_path, setup, open_log,
}

abbrev accepted : LogPath → Option Text
accepted (ok path) = some path
accepted (err e) = none

sanitize_log_path_lem : (path : Text) → accepted (sanitize_log_path path) ≡ file_path path
unfolding sanitize_log_path
sanitize_log_path_lem path = ground arith

abbrev to_stdout : Text → Logger
to_stdout log_level = record { writer = stdout; level = get_log_level log_level; drops_time = true }

abbrev to_file : Text → Text → Logger
to_file log_level path = record {
  writer = file path;
  level = get_log_level log_level;
  drops_time = false;
}

-- The logger that the settings ask for: standard output, or a file whose path is accepted and opens.
abbrev pub IsAskedFor : (Text → Bool) → Text → Text → Logger → Type 0
IsAskedFor opens log_level log_file l =
    ((log_file ≡ codes "stdout") × (l ≡ to_stdout log_level))
    ⊎ ((log_file ≢ codes "stdout")
        × ((path : Text) × IsFilePath log_file path
            × (opens path ≡ true)
            × (l ≡ to_file log_level path)))

open_log_iff :
    (opens : Text → Bool) (level : Text) (p : LogPath) (l : Logger)
    → (open_log opens (get_log_level level) p ≡ logger l)
      ↔ ((path : Text) × (accepted p ≡ some path) × (opens path ≡ true) × (l ≡ to_file level path))
unfolding open_log
open_log_iff opens level (err e) l = (λ h. absurd (cc), λ (path, e, can, same). absurd (cc e))
open_log_iff opens level (ok path) l = elim (Bool-cases (opens path)) [
  | inl can ↦ (
    λ h. (path, refl, can, cc can),
    λ (path', e, can', same).
        let same_path : path ≡ path' = cc e in
        rw can (ap logger (ap (to_file level) same_path ∙ sym same)),
  )
  | inr cannot ↦ (λ h. absurd (cc cannot), λ (path', e, can', same). absurd (cc (e, can', cannot)))
]

sanitized_iff :
    (opens : Text → Bool) (level log_file : Text) (l : Logger)
    → (open_log opens (get_log_level level) (sanitize_log_path log_file) ≡ logger l)
      ↔ ((path : Text) × IsFilePath log_file path × (opens path ≡ true) × (l ≡ to_file level path))
sanitized_iff opens level log_file l =
    let (there, back) = open_log_iff opens level (sanitize_log_path log_file) l in
    (
      λ h.
          let (path, e, can, same) = there h in
          (
            path,
            (file_path_iff log_file path).0 (sym (sanitize_log_path_lem log_file) ∙ e),
            can,
            same,
          ),
      λ (path, good, can, same).
          back (
            path,
            sanitize_log_path_lem log_file ∙ (file_path_iff log_file path).1 good,
            can,
            same,
          ),
    )

-- The start of the log gives a logger exactly if it is the one asked for: on standard output if the
-- file is called `stdout`, else on the cleaned path of the file, which must be accepted and open;
-- in every other case the process exits.
pub setup_iff :
    (opens : Text → Bool) (log_level log_file : Text) (l : Logger)
    → (setup opens log_level log_file ≡ logger l) ↔ IsAskedFor opens log_level log_file l
unfolding setup
setup_iff opens log_level log_file l = elim (Bool-cases (text_eq log_file (codes "stdout"))) [
  | inl std ↦
      let is_std = text_eq_sound log_file (codes "stdout") std in
      (
        λ h. inl (is_std, sym (cc (rw std at h))),
        λ asked. elim asked [
          | inl (e, same) ↦ rw std (ap logger (sym same))
          | inr (ne, rest) ↦ absurd (ne is_std)
        ],
      )
  | inr other ↦
      let (there, back) = sanitized_iff opens log_level log_file l in
      (
        λ h. inr (text_ne log_file (codes "stdout") other, there (rw other at h)),
        λ asked. elim asked [
          | inl (e, same) ↦ absurd (text_ne log_file (codes "stdout") other e)
          | inr (ne, rest) ↦ rw other (back rest)
        ],
      )
]

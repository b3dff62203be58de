-- ===== src/Logger.antt =====
-- pkg/logger/logger.go: the level and the destination of the log. Whether `os.OpenFile` succeeds is a
-- parameter. The handler of package slog is what the program asks of it.
pub mod Destinations
use resolvit.Prelude.{
  ◌≡◌, refl, Bool, true, false, not, ◌||◌, List, [], ◌∷◌, ◌++◌, if◌then◌else◌, ℕ,
}
use resolvit.Go.Text.{Text, codes, is_empty, text_eq, to_lower, has_prefix}
use resolvit.Go.Path.{clean, here, parent, slash}

pub data Level : Type 0 where
  level_debug level_info level_warn level_error : Level

pub data LogPathError : Type 0 where
  path_empty path_directory path_escapes : LogPathError

pub data LogPath : Type 0 where
  ok : Text → LogPath
  err : LogPathError → LogPath

pub data Writer : Type 0 where
  stdout : Writer
  file : Text → Writer

pub record Logger : Type 0 where
  pub writer : Writer
  pub level : Level
  -- whether `ReplaceAttr` takes the time out of a line
  pub drops_time : Bool

pub data Setup : Type 0 where
  logger : Logger → Setup
  exited : ℕ → Setup

unfoldable pub get_log_level : Text → Level
get_log_level log_level =
    let lowered = to_lower log_level in
    if text_eq lowered (codes "debug")
    then level_debug
    else if text_eq lowered (codes "info")
    then level_info
    else if text_eq lowered (codes "warn")
    then level_warn
    else if text_eq lowered (codes "error")
    then level_error
    else level_info

unfoldable pub sanitize_log_path : Text → LogPath
sanitize_log_path path =
    let cleaned = clean path in
    if is_empty path
    then err path_empty
    else if text_eq cleaned here || text_eq cleaned (slash ∷ [])
    then err path_directory
    else if text_eq cleaned parent || has_prefix cleaned (parent ++ slash ∷ [])
    then err path_escapes
    else ok cleaned

pub open_log : (Text → Bool) → Level → LogPath → Setup
open_log opens level (err e) = exited 1
open_log opens level (ok path) =
    if opens path
    then logger (record { writer = file path; level = level; drops_time = false })
    else exited 1

unfoldable pub setup : (Text → Bool) → Text → Text → Setup
unfolding open_log
setup opens log_level log_file =
    if not (text_eq log_file (codes "stdout"))
    then open_log opens (get_log_level log_level) (sanitize_log_path log_file)
    else logger (record { writer = stdout; level = get_log_level log_level; drops_time = true })

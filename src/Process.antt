-- ===== src/Process.antt =====
-- main.go: the records at the start and the loop over signals. What the file system holds when a
-- signal arrives is a parameter of each step; the cache is the server's, which `ClearCache` empties.
pub mod Life
pub mod Start
pub mod Goroutines
use resolvit.Prelude.{
  ℕ, ◌≡◌, refl, ap, ◌∙◌, Option, none, some, true, false, List, [], ◌∷◌, if◌then◌else◌,
}
use resolvit.Go.Text.{Text, is_empty}
use resolvit.Go.Scan.{File}
use resolvit.Records.{
  Store, LoadError, load_from_file, sanitize_records_path, ok, load_sanitized, load_opened,
  load_lines, scan_failed,
}
use resolvit.Records.Paths.{sanitize_records_path_iff}
use resolvit.Records.Load.{AllValid, load_from_file-AllValid}
use resolvit.DnsCache
use resolvit.DnsCache.{Cache, clear}
use resolvit.Dns.{Msg}
use resolvit.Go.Outcome.{done}
use resolvit.Go.Dict.{lookup}

pub data Signal : Type 0 where
  interrupt terminate hangup unknown : Signal

pub record State : Type 0 where
  pub records : Store
  pub cache : Cache

pub data Process : Type 0 where
  running : State → Process
  exited : ℕ → Process

-- A file system: what opening a path gives.
abbrev pub Files : Type 0
Files = Text → Option File

unfoldable pub load_records : Files → Store → Text → Store × Option LoadError
load_records files records path =
    if is_empty path then (records, none) else load_from_file files records path

unfoldable pub reload : State → Store × Option LoadError → State
reload s (records, some e) = record s { records = records }
reload s (records, none) = record { records = records; cache = clear s.cache }

unfoldable pub on_signal : Text → Files → State → Signal → Process
unfolding reload
on_signal path files s interrupt = exited 0
on_signal path files s terminate = exited 0
on_signal path files s hangup = running (reload s (load_records files s.records path))
on_signal path files s unknown = exited 1

-- The signals as they come, each with the files of that moment, until one ends the process.
unfoldable pub run_signals : Text → Process → List (Signal × Files) → Process
unfolding on_signal
run_signals path p [] = p
run_signals path (exited code) ((signal, files) ∷ rest) = exited code
run_signals path (running s) ((signal, files) ∷ rest) =
    run_signals path (on_signal path files s signal) rest

-- A process that runs has only valid records.
abbrev pub RunsValid : Process → Type 0
RunsValid (running s) = AllValid s.records
RunsValid (exited code) = Unit

pub load_records-AllValid :
    (files : Files) (records : Store) (path : Text)
    → AllValid records
    → AllValid (load_records files records path).0
unfolding load_records
load_records-AllValid files records path all =
    elim (is_empty path)
      as (λ b. AllValid (if b then (records, none) else load_from_file files records path).0) [
        | true ↦ all
        | false ↦ load_from_file-AllValid files records path all
      ]

reload-AllValid :
    (s : State) (loaded : Store × Option LoadError)
    → AllValid loaded.0
    → AllValid (reload s loaded).records
unfolding reload
reload-AllValid s (records, some e) all = all
reload-AllValid s (records, none) all = all

on_signal-RunsValid :
    (path : Text) (files : Files) (s : State) (signal : Signal)
    → AllValid s.records
    → RunsValid (on_signal path files s signal)
unfolding on_signal
on_signal-RunsValid path files s interrupt all = tt
on_signal-RunsValid path files s terminate all = tt
on_signal-RunsValid path files s unknown all = tt
on_signal-RunsValid path files s hangup all =
    reload-AllValid s (load_records files s.records path)
      (load_records-AllValid files s.records path all)

-- Whatever signals arrive and whatever the files are by then, a process whose records are valid has
-- valid records for as long as it runs: each has a known type and, as an address, one that parses,
-- and stands under a normal name.
pub run_signals-RunsValid :
    (path : Text) (p : Process) (events : List (Signal × Files))
    → RunsValid p
    → RunsValid (run_signals path p events)
unfolding run_signals
run_signals-RunsValid path p [] v = v
run_signals-RunsValid path (exited code) ((signal, files) ∷ rest) v = tt
run_signals-RunsValid path (running s) ((signal, files) ∷ rest) v =
    run_signals-RunsValid path (on_signal path files s signal) rest
      (on_signal-RunsValid path files s signal v)

-- After a hangup whose load reports no error, the process runs with the records that were loaded,
-- and no answer from before is found in the cache, at any time and under any key.
pub hangup_forgets :
    (path : Text) (files : Files) (s : State)
    → (load_records files s.records path).1 ≡ none
    → (s' : State) × (on_signal path files s hangup ≡ running s')
      × (s'.records ≡ (load_records files s.records path).0)
      × ((heap : List Msg) (now : ℕ) (key : Text) → DnsCache.get heap s'.cache now key ≡ done none)
unfolding on_signal reload clear DnsCache.get lookup
hangup_forgets path files s loads =
    let loaded = load_records files s.records path in
    (
      record { records = loaded.0; cache = [] },
      ap (λ e. running (reload s (loaded.0, e))) loads,
      refl,
      λ heap now key. refl,
    )

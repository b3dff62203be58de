-- ===== src/Process/Start.antt =====
-- The start in main.go: the configuration, the log, the records, the filter and the server, one after
-- the other. What the machine holds by then is a parameter; the listeners run in the background.
pub mod Ready
pub mod Blocking
use resolvit.Prelude.{
  ◌≡◌, refl, Bool, true, false, Option, none, some, List, [], ◌∷◌, if◌then◌else◌, ℕ,
}
use resolvit.Go.Text.{Text, codes, text_eq}
use resolvit.Go.Int.{ℤ}
use resolvit.Records.{Store}
use resolvit.Filtering.Filter.{Filter}
use resolvit.Filtering.Loader.{Host, Response}
use resolvit.Filtering.Refresh
use resolvit.Filtering.Refresh.{FilterOptions, new_filter}
use resolvit.Filtering.Sources.{catalog, build_sources}
use resolvit.Config.{Config}
use resolvit.Config.Load
use resolvit.Config.Load.{Others, FilteringConfig, LoadedConfig, load_config}
use resolvit.Logger
use resolvit.Logger.{Logger, Setup}
use resolvit.Server.Wiring.{Server, new_server}
use resolvit.Process.{Files, load_records}

pub record Machine (Viper Table Disk Request : Type 0) : Type 0 where
  pub getenv : Text → Text
  pub library : Load.Library Viper Table
  pub time_parse : Text → Option ℤ
  pub lookup_port : Text → Bool
  pub stat : Text → Bool
  pub opens_log : Text → Bool
  pub files : Files
  pub opens_blocked_log : Text → Bool
  pub host : Host Disk Request
  pub disk : Disk

pub data StartError : Type 0 where
  config_failed : Load.LoadError → StartError
  records_failed : resolvit.Records.LoadError → StartError

-- A process that waits for signals.
pub record Running (Disk : Type 0) : Type 0 where
  pub cfg : Config Others
  pub log : Logger
  pub records : Store
  pub filter : Option Filter
  pub disk : Disk
  pub srv : Server

pub data Started (Disk : Type 0) : Type 0 where
  failed : StartError → Started Disk
  exits : ℕ → Started Disk
  serving : Running Disk → Started Disk

abbrev pub filter_options : Config Others → FilterOptions
filter_options cfg =
    let filtering = cfg.rest.filtering in
    record {
      enabled = filtering.enabled;
      block_subdomains = filtering.block_subdomains;
      allowlist_path = filtering.allowlist.path;
      sources = build_sources catalog filtering.lists filtering.custom.list;
      cache_dir = filtering.cache_dir;
      update_interval = filtering.update_interval;
      blocked_log_path = filtering.blocked_log;
      error_limit = cfg.blocklist_error_limit;
    }

abbrev pub made_from :
    {Disk : Type 0} → Config Others → Logger → Store → Disk × Option Filter → Running Disk
made_from cfg log records (disk, filter) = record {
  cfg = cfg;
  log = log;
  records = records;
  filter = filter;
  disk = disk;
  srv = new_server cfg.listen cfg.servers filter;
}

module _ {Viper Table Disk Request : Type 0} (machine : Machine Viper Table Disk Request) where
  -- The filter after its start and some ticks of its refresh loop.
  unfoldable pub start_filter :
      Config Others → List (Request → Option Response) → Disk × Option Filter
  start_filter cfg ticks =
      let f = new_filter machine.opens_blocked_log (filter_options cfg) in
      let (disk, started) = Refresh.start machine.host machine.disk f ticks in
      if cfg.rest.filtering.enabled then (disk, some started) else (machine.disk, none)

  pub start_server :
      Config Others → Logger → Store → List (Request → Option Response) → Started Disk
  unfolding start_filter
  start_server cfg log records ticks = serving (made_from cfg log records (start_filter cfg ticks))

  pub start_loaded :
      Config Others
      → Logger
      → Store × Option resolvit.Records.LoadError
      → List (Request → Option Response)
      → Started Disk
  unfolding start_server
  start_loaded cfg log (records, some e) ticks = failed (records_failed e)
  start_loaded cfg log (records, none) ticks = start_server cfg log records ticks

  pub start_logged : Config Others → Setup → List (Request → Option Response) → Started Disk
  unfolding start_loaded
  start_logged cfg (Logger.exited code) ticks = exits code
  start_logged cfg (Logger.logger log) ticks =
      start_loaded cfg log (load_records machine.files [] cfg.resolve_from) ticks

  pub start_configured : LoadedConfig → List (Request → Option Response) → Started Disk
  unfolding start_logged
  start_configured (Load.err e) ticks = failed (config_failed e)
  start_configured (Load.ok cfg) ticks =
      start_logged cfg (Logger.setup machine.opens_log cfg.level cfg.rest.file) ticks

  -- `run` up to its loop over signals.
  unfoldable pub start_up : List (Request → Option Response) → Started Disk
  unfolding start_configured
  start_up ticks =
      start_configured
        (load_config machine.lookup_port machine.stat machine.time_parse machine.library
          machine.getenv)
        ticks

-- `main`, with what it is called with: the version is printed, or the start ends or goes on.
pub data Main (Disk : Type 0) : Type 0 where
  version_printed : Main Disk
  exited : ℕ → Main Disk
  goes_on : Running Disk → Main Disk

unfoldable pub handle_version_flag : List Text → Bool
handle_version_flag [] = false
handle_version_flag (arg ∷ args) =
    let rest = handle_version_flag args in if text_eq arg (codes "--version") then true else rest

of_started : {Disk : Type 0} → Started Disk → Main Disk
of_started (failed e) = exited 1
of_started (exits code) = exited code
of_started (serving p) = goes_on p

unfoldable pub main :
    {Viper Table Disk Request : Type 0}
    → Machine Viper Table Disk Request
    → List Text
    → List (Request → Option Response)
    → Main Disk
unfolding handle_version_flag of_started
main machine args ticks =
    if handle_version_flag args then version_printed else of_started (start_up machine ticks)

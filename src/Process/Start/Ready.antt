-- ===== src/Process/Start/Ready.antt =====
-- What holds once the process waits for signals.
use resolvit.Prelude.{ℕ, ◌≡◌, ◌≢◌, refl, subst, Option, none, some, List, []}
use resolvit.Records
use resolvit.Records.{Store}
use resolvit.Records.Load.{AllValid, AllValid-nil}
use resolvit.Filtering.Loader.{Response}
use resolvit.Config.{Config}
use resolvit.Config.Usable.{IsUsable}
use resolvit.Config.Load
use resolvit.Config.Load.{Others, LoadedConfig, load_config}
use resolvit.Config.Load.Accepted.{load_config_iff}
use resolvit.Logger
use resolvit.Logger.{Logger, Setup}
use resolvit.Logger.Destinations.{IsAskedFor, setup_iff}
use resolvit.Server.Wiring.{new_server}
use resolvit.Process.{load_records, load_records-AllValid}
use resolvit.Process.Start.{
  StartError, made_from, Machine, Running, Started, serving, exits, start_filter, start_server,
  start_loaded, start_logged, start_configured, start_up,
}

module _ {Viper Table Disk Request : Type 0} (machine : Machine Viper Table Disk Request)
    (ticks : List (Request → Option Response)) where
  -- The configuration is usable and its file gave it, the log goes where it asks, the records are
  -- those of its file and valid, and the server and the filter are made from it.
  pub record IsReady (p : Running Disk) : Type 0 where
    pub read :
        load_config machine.lookup_port machine.stat machine.time_parse machine.library
          machine.getenv
        ≡ Load.ok p.cfg
    pub usable : IsUsable machine.lookup_port machine.stat p.cfg
    pub logs : IsAskedFor machine.opens_log p.cfg.level p.cfg.rest.file p.log
    pub has_records : load_records machine.files [] p.cfg.resolve_from ≡ (p.records, none)
    pub valid : AllValid p.records
    pub filters : (p.disk, p.filter) ≡ start_filter machine p.cfg ticks
    pub serves : p.srv ≡ new_server p.cfg.listen p.cfg.servers p.filter

  failed_not : {e : StartError} {p : Running Disk} → Started.failed e ≢ serving p
  failed_not h = cc

  exits_not : {code : ℕ} {p : Running Disk} → ◌≢◌ {A = Started Disk} (exits code) (serving p)
  exits_not h = cc

  from_server :
      (cfg : Config Others) (log : Logger) (records : Store) (p : Running Disk)
      → start_server machine cfg log records ticks ≡ serving p
      → made_from cfg log records (start_filter machine cfg ticks) ≡ p
  unfolding start_server
  from_server cfg log records p h = cc

  from_loaded :
      (cfg : Config Others) (log : Logger) (loaded : Store × Option resolvit.Records.LoadError)
      (p : Running Disk)
      → start_loaded machine cfg log loaded ticks ≡ serving p
      → (records : Store) × (loaded ≡ (records, none))
        × (made_from cfg log records (start_filter machine cfg ticks) ≡ p)
  unfolding start_loaded
  from_loaded cfg log (records, some e) p h = absurd (failed_not h)
  from_loaded cfg log (records, none) p h = (records, refl, from_server cfg log records p h)

  from_logged :
      (cfg : Config Others) (s : Setup) (p : Running Disk)
      → start_logged machine cfg s ticks ≡ serving p
      → (log : Logger) × (s ≡ Logger.logger log)
        × (start_loaded machine cfg log (load_records machine.files [] cfg.resolve_from) ticks
            ≡ serving p)
  unfolding start_logged
  from_logged cfg (Logger.exited code) p h = absurd (exits_not h)
  from_logged cfg (Logger.logger log) p h = (log, refl, h)

  from_configured :
      (c : LoadedConfig) (p : Running Disk)
      → start_configured machine c ticks ≡ serving p
      → (cfg : Config Others) × (c ≡ Load.ok cfg)
        × (start_logged machine cfg (Logger.setup machine.opens_log cfg.level cfg.rest.file) ticks
            ≡ serving p)
  unfolding start_configured
  from_configured (Load.err e) p h = absurd (failed_not h)
  from_configured (Load.ok cfg) p h = (cfg, refl, h)

  -- A process that comes to wait for signals is ready: its configuration is usable, its log goes to
  -- standard output or to a file with an accepted path, its records loaded without an error and are
  -- valid, and its filter and its server are made from the configuration.
  pub start_up-IsReady : (p : Running Disk) → start_up machine ticks ≡ serving p → IsReady p
  unfolding start_up
  start_up-IsReady p h =
      let config =
        load_config machine.lookup_port machine.stat machine.time_parse machine.library
          machine.getenv in
      let (cfg, has_cfg, h) = from_configured config p h in
      let (log, has_log, h) =
        from_logged cfg (Logger.setup machine.opens_log cfg.level cfg.rest.file) p h in
      let (records, has_records, same) =
        from_loaded cfg log (load_records machine.files [] cfg.resolve_from) p h in
      let usable =
        (load_config_iff machine.lookup_port machine.stat machine.time_parse machine.library
            machine.getenv cfg).0
          has_cfg in
      let valid = load_records-AllValid machine.files [] cfg.resolve_from AllValid-nil in
      subst IsReady same (record {
        read = has_cfg;
        usable = usable.2;
        logs = (setup_iff machine.opens_log cfg.level cfg.rest.file log).0 has_log;
        has_records = has_records;
        valid =
            subst (λ (l : Store × Option resolvit.Records.LoadError). AllValid l.0) has_records
              valid;
        filters = refl;
        serves = refl;
      })

-- ===== src/Process/Goroutines/Started.antt =====
-- The goroutines of a process that main.go has started.
use resolvit.Prelude.{ℕ, ◌≡◌, ◌≢◌, sym, ap, ◌∙◌, [], length, sum_of, All, arith}
use resolvit.Go.Text.{Text}
use resolvit.Records.Load.{AllValid}
use resolvit.Handler.Local.{Descends}
use resolvit.Handler.Total.{IsSound}
use resolvit.Server.{new_world}
use resolvit.Server.Run.{new_world-IsSound}
use resolvit.Server.Wiring.{Server, Surroundings}
use resolvit.Process.Start
use resolvit.Process.Start.{Running, serving, start_up}
use resolvit.Process.Start.Ready.{start_up-IsReady}
use resolvit.Process.Goroutines.{Machine, Reach, idle}
use resolvit.Process.Goroutines.Safe.{IsBehaved}
use resolvit.Process.Goroutines.Replies.{replies_of, HasNotPanicked, interleaved_runs_safe}
use resolvit.Process.Goroutines.Scheduled.{IsReturned}
use resolvit.Process.Goroutines.Finish.{requests_finish}

-- The process when it waits for its first signal and nothing has been asked.
abbrev pub at_start : {Disk : Type 0} → Running Disk → Machine Disk
at_start p = idle (record { records = p.records; filter = p.filter; disk = p.disk }) new_world

module _ {Viper Table Disk Request : Type 0}
    (machine : Start.Machine Viper Table Disk Request) where
  -- The machines that the process leads to.
  abbrev pub LeadsTo : Running Disk → (Surroundings → Type 0) → Machine Disk → Machine Disk → Type 0
  LeadsTo p Allowed m m' = Reach p.cfg.resolve_from p.srv.handler machine.host Allowed m m'

  has_upstream :
      (p : Running Disk)
      → start_up machine [] ≡ serving p
      → p.srv.handler.forwarder.upstream_servers ≢ []
  has_upstream p starts e =
      let ready = start_up-IsReady machine [] p starts in
      let served = ap (λ (s : Server). s.handler.forwarder.upstream_servers) ready.serves in
      ready.usable.some_server (sym served ∙ e)

  -- Once `run` waits for signals, whatever requests arrive and however the steps of their goroutines, of
  -- the main loop and of the refresh loop follow one another: the records are valid and the cache is
  -- sound, no goroutine has panicked, and as many messages have been written as goroutines have
  -- returned. For each request that arrives the library and the upstreams behave as documented.
  pub started_runs_safe :
      (p : Running Disk) (Allowed : Surroundings → Type 0) (m : Machine Disk)
      → start_up machine [] ≡ serving p
      → ((around : Surroundings) → Allowed around → IsBehaved around)
      → LeadsTo p Allowed (at_start p) m
      → AllValid m.settings.records
        × IsSound m.world
        × All HasNotPanicked m.goroutines
        × (length m.world.written ≡ sum_of replies_of m.goroutines)
  started_runs_safe p Allowed m starts behave r =
      let (valid, sound, unpanicked, counted) =
        interleaved_runs_safe p.cfg.resolve_from p.srv.handler machine.host Allowed
          (at_start p).settings new_world m (has_upstream p starts) behave
          (start_up-IsReady machine [] p starts).valid new_world-IsSound r in
      (valid, sound, unpanicked, omega arith)

  -- However requests have arrived since `run` waits for signals and the steps of their goroutines, of the
  -- main loop and of the refresh loop have followed one another: if a rank falls along every local alias
  -- of the records of that moment, then some steps lead to the same settings with every goroutine
  -- returned, and with one message written for each request that had arrived. For each request the
  -- library and the upstreams behave as documented.
  pub started_requests_finish :
      (p : Running Disk) (Allowed : Surroundings → Type 0) (rank : Text → ℕ) (m : Machine Disk)
      → start_up machine [] ≡ serving p
      → ((around : Surroundings) → Allowed around → IsBehaved around)
      → LeadsTo p Allowed (at_start p) m
      → Descends m.settings.records rank
      → (m' : Machine Disk) × LeadsTo p Allowed m m'
        × (m'.settings ≡ m.settings)
        × All IsReturned m'.goroutines
        × (length m'.world.written ≡ length m.goroutines)
  started_requests_finish p Allowed rank m starts behave r falls =
      let (m', r', same, all, counted) =
        requests_finish p.cfg.resolve_from p.srv.handler machine.host Allowed
          (has_upstream p starts) behave rank (at_start p).settings new_world m
          (start_up-IsReady machine [] p starts).valid new_world-IsSound r falls in
      (m', r', same, all, omega arith)

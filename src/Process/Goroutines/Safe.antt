-- ===== src/Process/Goroutines/Safe.antt =====
-- What holds in every machine that steps lead to: no goroutine has panicked, and the cache and the
-- records are in order.
use resolvit.Prelude.{
  ◌≡◌, ◌≢◌, Option, none, some, List, [], ℕ, get_elem?, All, All-append, All-get_elem?, All-set,
  All-imp,
}
use resolvit.Go.Text.{Text}
use resolvit.Dns.{Msg, IsDocumented}
use resolvit.Records.{Store, LoadError}
use resolvit.Records.Load.{AllValid}
use resolvit.Filtering.Loader.{Host}
use resolvit.Forward.{Protocol}
use resolvit.Forward.Laws.{Answers}
use resolvit.Handler.Total.{IsSound, IsOrderly}
use resolvit.Handler.Tasks.{advance}
use resolvit.Handler.Tasks.Shared.{IsFit, Keeps-IsFit}
use resolvit.Handler.Tasks.Safe.{advance-IsSafe}
use resolvit.Server.Run.{clear_cache-IsSound}
use resolvit.Server.Wiring.{Handler, Surroundings}
use resolvit.Process.{load_records-AllValid}
use resolvit.Process.Life.{Settings, env_at}
use resolvit.Process.Goroutines.{
  Reach-kept, Goroutine, Machine, begin, run_goroutine, after_load, clear_loaded, load_lists,
  store_blocklist, store_allowlist, Step, arrives, runs, hangs_up, clears, ticks, stores_blocklist,
  stores_allowlist, Reach,
}

-- The library and the upstreams of a request behave as documented: an upstream gives a message or an
-- error, and a message repeats the question.
pub record IsBehaved (around : Surroundings) : Type 0 where
  pub documented : IsDocumented around.lib
  pub answers : Answers around.net
  pub questioned :
      (p : Protocol) (server : Text) (r m : Msg)
      → (around.net p server r).msg ≡ some m
      → m.question ≢ []

-- The goroutine has what its next step needs, in surroundings that behave.
abbrev pub IsWell : List Msg → Goroutine → Type 0
IsWell heap g = IsBehaved g.around × IsFit heap g.task

pub record IsRunning {Disk : Type 0} (m : Machine Disk) : Type 0 where
  pub valid : AllValid m.settings.records
  pub sound : IsSound m.world
  pub well : All (IsWell m.world.heap) m.goroutines

module _ {Disk Request : Type 0} (path : Text) (handler : Handler) (host : Host Disk Request) where
  env_at-IsOrderly :
      (s : Settings Disk) (around : Surroundings)
      → handler.forwarder.upstream_servers ≢ []
      → AllValid s.records
      → IsBehaved around
      → IsOrderly (env_at path handler host s around)
  env_at-IsOrderly s around upstream valid b = record {
    documented = b.documented;
    answers = b.answers;
    questioned = b.questioned;
    upstream = upstream;
    valid = valid;
  }

  run_goroutine-IsRunning :
      (m : Machine Disk) (i : ℕ) (g : Goroutine)
      → handler.forwarder.upstream_servers ≢ []
      → get_elem? m.goroutines i ≡ some g
      → IsRunning m
      → IsRunning (run_goroutine path handler host m i g)
  unfolding run_goroutine
  run_goroutine-IsRunning m i g upstream e ok =
      let (b, fits) = All-get_elem? (IsWell m.world.heap) m.goroutines i g ok.well e in
      let env = env_at path handler host m.settings g.around in
      let orderly = env_at-IsOrderly m.settings g.around upstream ok.valid b in
      let (sound, fits', kept) = advance-IsSafe env m.world g.task orderly ok.sound fits in
      let heap' = (advance env m.world g.task).0.heap in
      let others =
        All-imp {P = IsWell m.world.heap} {Q = IsWell heap'} m.goroutines
          (λ g w. (w.0, Keeps-IsFit m.world.heap heap' g.task kept w.1)) ok.well in
      record {
        valid = ok.valid;
        sound = sound;
        well = All-set (IsWell heap') m.goroutines i _ others (b, fits');
      }

  after_load-IsRunning :
      (m : Machine Disk) (loaded : Store × Option LoadError)
      → AllValid loaded.0
      → IsRunning m
      → IsRunning (after_load path handler host m loaded)
  unfolding after_load
  after_load-IsRunning m (records, some e) valid ok = record {
    valid = valid;
    sound = ok.sound;
    well = ok.well;
  }
  after_load-IsRunning m (records, none) valid ok = record {
    valid = valid;
    sound = ok.sound;
    well = ok.well;
  }

  Step-IsRunning :
      (Allowed : Surroundings → Type 0) (m m' : Machine Disk)
      → handler.forwarder.upstream_servers ≢ []
      → ((around : Surroundings) → Allowed around → IsBehaved around)
      → IsRunning m
      → Step path handler host Allowed m m'
      → IsRunning m'
  unfolding begin clear_loaded load_lists store_blocklist store_allowlist
  Step-IsRunning Allowed m m' upstream behave ok (arrives around request allowed) = record {
    valid = ok.valid;
    sound = ok.sound;
    well =
        All-append (IsWell m.world.heap) m.goroutines _ ok.well ((behave around allowed, tt), tt);
  }
  Step-IsRunning Allowed m m' upstream behave ok (runs i g e) =
      run_goroutine-IsRunning m i g upstream e ok
  Step-IsRunning Allowed m m' upstream behave ok (hangs_up files e) =
      after_load-IsRunning m _ (load_records-AllValid files m.settings.records path ok.valid) ok
  Step-IsRunning Allowed m m' upstream behave ok (clears e) = record {
    valid = ok.valid;
    sound = clear_cache-IsSound m.world;
    well = ok.well;
  }
  Step-IsRunning Allowed m m' upstream behave ok (ticks send f e has positive) = record {
    valid = ok.valid;
    sound = ok.sound;
    well = ok.well;
  }
  Step-IsRunning Allowed m m' upstream behave ok (stores_blocklist f blocklist allowlist e has) =
      record { valid = ok.valid; sound = ok.sound; well = ok.well }
  Step-IsRunning Allowed m m' upstream behave ok (stores_allowlist f allowlist e has) = record {
    valid = ok.valid;
    sound = ok.sound;
    well = ok.well;
  }

  pub Reach-IsRunning :
      (Allowed : Surroundings → Type 0) (m m' : Machine Disk)
      → handler.forwarder.upstream_servers ≢ []
      → ((around : Surroundings) → Allowed around → IsBehaved around)
      → IsRunning m
      → Reach path handler host Allowed m m'
      → IsRunning m'
  Reach-IsRunning Allowed m m' upstream behave =
      Reach-kept path handler host IsRunning
        (λ m₁ m₂ ok s. Step-IsRunning Allowed m₁ m₂ upstream behave ok s) m m'

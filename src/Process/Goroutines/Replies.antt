-- ===== src/Process/Goroutines/Replies.antt =====
-- How many messages the goroutines have written, in every machine that steps lead to.
use resolvit.Prelude.{All, All-imp}
use resolvit.Prelude.{
  ◌≡◌, ◌≢◌, subst, Option, none, some, [], ◌∷◌, ℕ, ◌+◌, get_elem?, length, arith, sum_of,
  sum_of-append, sum_of-set,
}
use resolvit.Go.Text.{Text}
use resolvit.Records.{Store, LoadError}
use resolvit.Records.Load.{AllValid}
use resolvit.Filtering.Loader.{Host}
use resolvit.Handler.{World}
use resolvit.Handler.Total.{IsSound}
use resolvit.Handler.Tasks.{starts, panicked, advance}
use resolvit.Handler.Tasks.Shared.{IsFit}
use resolvit.Handler.Tasks.Replies.{replies, advance-Counts}
use resolvit.Server.Wiring.{Handler, Surroundings}
use resolvit.Process.{load_records}
use resolvit.Process.Life.{Settings, env_at}
use resolvit.Process.Goroutines.{
  Reach-kept, Goroutine, Machine, begin, run_goroutine, after_load, clear_loaded, load_lists,
  store_blocklist, store_allowlist, Step, arrives, runs, hangs_up, clears, ticks, stores_blocklist,
  stores_allowlist, Reach, idle,
}
use resolvit.Process.Goroutines.Safe.{IsBehaved, IsWell, IsRunning, Reach-IsRunning}

abbrev pub HasNotPanicked : Goroutine → Type 0
HasNotPanicked g = g.task ≢ panicked

abbrev pub replies_of : Goroutine → ℕ
replies_of g = replies g.task

module _ {Disk Request : Type 0} (path : Text) (handler : Handler) (host : Host Disk Request) where
  -- The messages that were written before the goroutines began.
  abbrev pub Counted : ℕ → Machine Disk → Type 0
  Counted before m = length m.world.written ≡ before + sum_of replies_of m.goroutines

  run_goroutine-Counted :
      (before : ℕ) (m : Machine Disk) (i : ℕ) (g : Goroutine)
      → get_elem? m.goroutines i ≡ some g
      → Counted before m
      → Counted before (run_goroutine path handler host m i g)
  unfolding run_goroutine
  run_goroutine-Counted before m i g e c =
      let env = env_at path handler host m.settings g.around in
      let t' = (advance env m.world g.task).1 in
      let step = advance-Counts env m.world g.task in
      let sums = sum_of-set replies_of m.goroutines i g (record g { task = t' }) e in omega arith

  after_load-Counted :
      (before : ℕ) (m : Machine Disk) (loaded : Store × Option LoadError)
      → Counted before m
      → Counted before (after_load path handler host m loaded)
  unfolding after_load
  after_load-Counted before m (records, some e) c = c
  after_load-Counted before m (records, none) c = c

  Step-Counted :
      (Allowed : Surroundings → Type 0) (before : ℕ) (m m' : Machine Disk)
      → Counted before m
      → Step path handler host Allowed m m'
      → Counted before m'
  unfolding begin clear_loaded load_lists store_blocklist store_allowlist
  Step-Counted Allowed before m m' c (arrives around request allowed) =
      let more =
        sum_of-append replies_of m.goroutines
          (record { around = around; request = request; task = starts request } ∷ []) in
      omega arith
  Step-Counted Allowed before m m' c (runs i g e) = run_goroutine-Counted before m i g e c
  Step-Counted Allowed before m m' c (hangs_up files e) =
      after_load-Counted before m (load_records files m.settings.records path) c
  Step-Counted Allowed before m m' c (clears e) = c
  Step-Counted Allowed before m m' c (ticks send f e has positive) = c
  Step-Counted Allowed before m m' c (stores_blocklist f blocklist allowlist e has) = c
  Step-Counted Allowed before m m' c (stores_allowlist f allowlist e has) = c

  pub Reach-Counted :
      (Allowed : Surroundings → Type 0) (before : ℕ) (m m' : Machine Disk)
      → Counted before m
      → Reach path handler host Allowed m m'
      → Counted before m'
  Reach-Counted Allowed before m m' =
      Reach-kept path handler host (Counted before)
        (λ m₁ m₂ c s. Step-Counted Allowed before m₁ m₂ c s) m m'

  -- From a process without goroutines, whose records are valid and whose cache is sound, whatever
  -- requests arrive and however the steps of their goroutines, of the main loop and of the refresh loop
  -- follow one another: the records stay valid and the cache stays sound, no goroutine has panicked, and
  -- as many messages have been written as goroutines have returned. The handler has an upstream, and
  -- the library and the upstreams of each request that arrives behave as documented.
  pub interleaved_runs_safe :
      (Allowed : Surroundings → Type 0) (s : Settings Disk) (w : World) (m : Machine Disk)
      → handler.forwarder.upstream_servers ≢ []
      → ((around : Surroundings) → Allowed around → IsBehaved around)
      → AllValid s.records
      → IsSound w
      → Reach path handler host Allowed (idle s w) m
      → AllValid m.settings.records
        × IsSound m.world
        × All HasNotPanicked m.goroutines
        × (length m.world.written ≡ length w.written + sum_of replies_of m.goroutines)
  interleaved_runs_safe Allowed s w m upstream behave valid sound r =
      let at_first : IsRunning (idle s w) = record { valid = valid; sound = sound; well = tt } in
      let ok = Reach-IsRunning path handler host Allowed (idle s w) m upstream behave at_first r in
      (
        ok.valid,
        ok.sound,
        All-imp {P = IsWell m.world.heap} {Q = HasNotPanicked} m.goroutines
            (λ g w e. subst (IsFit m.world.heap) e w.1) ok.well,
        Reach-Counted Allowed (length w.written) (idle s w) m (omega arith) r,
      )

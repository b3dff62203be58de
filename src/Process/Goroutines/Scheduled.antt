-- ===== src/Process/Goroutines/Scheduled.antt =====
-- A life in which one thing happens after the other is one of the orders in which the goroutines'
-- steps can follow one another.
use resolvit.Prelude.{
  ◌≡◌, refl, sym, ap, subst, ◌∙◌, inl, inr, Bool, true, not, ◌&&◌, Option, none, some, List, [],
  ◌∷◌, ◌++◌, ℕ, zero, suc, length, All, All-append, Bool-cases, arith, if◌then◌else◌,
}
use resolvit.Go.Text.{Text}
use resolvit.Go.Int.{is_positive}
use resolvit.Go.Heap.{get_elem?-snoc, set-snoc}
use resolvit.Go.Outcome.{done, ◌>>=◌, >>=-eq-done}
use resolvit.Dns.{Msg}
use resolvit.Records.{Store, LoadError}
use resolvit.Filtering.Filter.{Filter}
use resolvit.Filtering.Loader.{Host, Response}
use resolvit.Filtering.Refresh.{load_once}
use resolvit.Handler.{World, handle_dns_request}
use resolvit.Handler.Tasks.{Task, starts, returned, advance, advance_all}
use resolvit.Handler.Tasks.Alone.{alone_as_handler}
use resolvit.Server.Wiring.{Handler, Surroundings}
use resolvit.Process.{load_records, reload}
use resolvit.Process.Life.{
  Settings, Happening, asks, hangs_up, ticks, env_at, tick, after_hangup, on_happening, live,
}
use resolvit.Process.Goroutines
use resolvit.Process.Goroutines.{
  Goroutine, Machine, waits, sleeps, begin, run_goroutine, after_load, clear_loaded, load_lists,
  store_blocklist, store_allowlist, Step, arrives, runs, clears, stores_blocklist, stores_allowlist,
  Reach, here, later, idle,
}

then_branch : {A : Type 0} (b : Bool) (x y : A) → b ≡ true → (if b then x else y) ≡ x
then_branch b x y e = ground arith

past_guard : {A : Type 0} (b : Bool) (x y : A) → b ≡ true → (if not b then x else y) ≡ y
past_guard b x y e = ground arith

abbrev pub IsReturned : Goroutine → Type 0
IsReturned g = g.task ≡ returned

-- The process between two happenings, with goroutines that have returned.
abbrev pub idle_with : {Disk : Type 0} → Settings Disk → World → List Goroutine → Machine Disk
idle_with s w gs = record (idle s w) { goroutines = gs }

-- The requests of a life come with surroundings that are allowed.
abbrev pub IsAllowed : {Request : Type 0} → (Surroundings → Type 0) → Happening Request → Type 0
IsAllowed Allowed (asks around fuel request) = Allowed around
IsAllowed Allowed (hangs_up files) = Unit
IsAllowed Allowed (ticks send) = Unit

module _ {Disk Request : Type 0} (path : Text) (handler : Handler) (host : Host Disk Request)
    (Allowed : Surroundings → Type 0) where
  abbrev Leads : Machine Disk → Machine Disk → Type 0
  Leads m m' = Reach path handler host Allowed m m'

  -- The process idles again, with these settings and this world.
  abbrev Settles : Machine Disk → Settings Disk → World → Type 0
  Settles m s w = (gs : List Goroutine) × Leads m (idle_with s w gs) × All IsReturned gs

  runs_last :
      (m₀ : Machine Disk) (s : Settings Disk) (w : World) (gs : List Goroutine)
      (around : Surroundings) (request : Option Msg) (t : Task)
      → Leads m₀
          (idle_with s w (gs ++ record { around = around; request = request; task = t } ∷ []))
      → let (w', t') = advance (env_at path handler host s around) w t in
        Leads m₀
          (idle_with s w' (gs ++ record { around = around; request = request; task = t' } ∷ []))
  unfolding run_goroutine
  runs_last m₀ s w gs around request t r =
      let g : Goroutine = record { around = around; request = request; task = t } in
      let (w', t') = advance (env_at path handler host s around) w t in
      subst (λ l. Leads m₀ (idle_with s w' l))
        (set-snoc gs g (record { around = around; request = request; task = t' }))
        (later r (runs (length gs) g (get_elem?-snoc gs g)))

  runs_alone :
      (m₀ : Machine Disk) (s : Settings Disk) (w : World) (gs : List Goroutine)
      (around : Surroundings) (request : Option Msg) (t : Task) (n : ℕ)
      → Leads m₀
          (idle_with s w (gs ++ record { around = around; request = request; task = t } ∷ []))
      → let (w', t') = advance_all (env_at path handler host s around) n w t in
        Leads m₀
          (idle_with s w' (gs ++ record { around = around; request = request; task = t' } ∷ []))
  unfolding advance_all
  runs_alone m₀ s w gs around request t zero r = r
  runs_alone m₀ s w gs around request t (suc n) r =
      let (w', t') = advance (env_at path handler host s around) w t in
      runs_alone m₀ s w' gs around request t' n (runs_last m₀ s w gs around request t r)

  asks-Settles :
      (m₀ : Machine Disk) (s : Settings Disk) (w w' : World) (gs : List Goroutine)
      (around : Surroundings) (fuel : ℕ) (request : Option Msg)
      → Allowed around
      → handle_dns_request (env_at path handler host s around) fuel request w ≡ done w'
      → Leads m₀ (idle_with s w gs)
      → All IsReturned gs
      → Settles m₀ s w'
  unfolding begin
  asks-Settles m₀ s w w' gs around fuel request allowed h r ok =
      let (n, e) = alone_as_handler (env_at path handler host s around) fuel request w w' h in
      let ran =
        runs_alone m₀ s w gs around request (starts request) n
          (later r (arrives around request allowed)) in
      (
        gs ++ record { around = around; request = request; task = returned } ∷ [],
        subst
            (λ (x : World × Task). Leads m₀ (
              idle_with s x.0
                (gs ++ record { around = around; request = request; task = x.1 } ∷ [])))
            e ran,
        All-append IsReturned gs _ ok (refl, tt),
      )

  after_load-Settles :
      (m₀ : Machine Disk) (s : Settings Disk) (w : World) (gs : List Goroutine)
      (loaded : Store × Option LoadError)
      → Leads m₀ (after_load path handler host (idle_with s w gs) loaded)
      → let (s', w') = after_hangup path handler host s w loaded in Leads m₀ (idle_with s' w' gs)
  unfolding after_load after_hangup reload clear_loaded
  after_load-Settles m₀ s w gs (records, some e) r = r
  after_load-Settles m₀ s w gs (records, none) r = later r (clears refl)

  tick-Settles :
      (m₀ : Machine Disk) (s : Settings Disk) (w : World) (gs : List Goroutine)
      (send : Request → Option Response) (found : Option Filter)
      → s.filter ≡ found
      → Leads m₀ (idle_with s w gs)
      → Leads m₀ (idle_with (tick path handler host s send found) w gs)
  unfolding tick load_once load_lists store_blocklist store_allowlist
  tick-Settles m₀ s w gs send none e r = r
  tick-Settles m₀ s w gs send (some f) e r =
      elim (Bool-cases (f.enabled && is_positive f.update_interval)) [
        | inr off ↦ rw (off, tick) r
        | inl on ↦
            let ticked : tick path handler host s send (some f) ≡ _ =
              then_branch (f.enabled && is_positive f.update_interval) _ s on
              ∙ ap (λ (x : Disk × Filter). record s { filter = some x.1; disk = x.0 })
                  (past_guard f.enabled _ _ (ground arith)) in
            subst (λ s'. Leads m₀ (idle_with s' w gs)) (sym ticked)
              (later
                (later (later r (Goroutines.ticks send f refl e on))
                  (stores_blocklist f _ _ refl e))
                (stores_allowlist _ _ refl refl))
      ]

  live-Settles :
      (m₀ : Machine Disk) (hs : List (Happening Request)) (s s' : Settings Disk) (w w' : World)
      (gs : List Goroutine)
      → All (IsAllowed Allowed) hs
      → live path handler host s w hs ≡ done (s', w')
      → Leads m₀ (idle_with s w gs)
      → All IsReturned gs
      → Settles m₀ s' w'
  unfolding live on_happening
  live-Settles m₀ [] s s' w w' gs allowed h r ok =
      let same : (s, w) ≡ (s', w') = cc h in
      (gs, subst (λ (x : Settings Disk × World). Leads m₀ (idle_with x.0 x.1 gs)) same r, ok)
  live-Settles m₀ (asks around fuel request ∷ hs) s s' w w' gs allowed h r ok =
      let env = env_at path handler host s around in
      let rest = λ (x : Settings Disk × World). live path handler host x.0 x.1 hs in
      let (x, e, h₁) =
        >>=-eq-done (handle_dns_request env fuel request w >>= (λ w₁. done (s, w₁))) rest h in
      let (w₁, e₁, same) =
        >>=-eq-done (handle_dns_request env fuel request w) (λ w₁. done (s, w₁)) e in
      let (gs', r', ok') = asks-Settles m₀ s w w₁ gs around fuel request allowed.0 e₁ r ok in
      let eq : x ≡ (s, w₁) = cc in
      live-Settles m₀ hs s s' w₁ w' gs' allowed.1 (ap rest (sym eq) ∙ h₁) r' ok'
  live-Settles m₀ (hangs_up files ∷ hs) s s' w w' gs allowed h r ok =
      let loaded = load_records files s.records path in
      let (s₁, w₁) = after_hangup path handler host s w loaded in
      live-Settles m₀ hs s₁ s' w₁ w' gs allowed.1 h
        (after_load-Settles m₀ s w gs loaded (later r (Goroutines.hangs_up files refl))) ok
  live-Settles m₀ (ticks send ∷ hs) s s' w w' gs allowed h r ok =
      live-Settles m₀ hs (tick path handler host s send s.filter) s' w w' gs allowed.1 h
        (tick-Settles m₀ s w gs send s.filter refl r) ok

  -- Whatever a process does when requests, hangups and ticks come one after the other, and it returns
  -- from each, the goroutines can do: some order of their steps leads from the process without
  -- goroutines to the same settings and the same world, with every goroutine returned and both loops
  -- waiting. The requests come with surroundings that are allowed.
  pub live_scheduled :
      (s s' : Settings Disk) (w w' : World) (hs : List (Happening Request))
      → All (IsAllowed Allowed) hs
      → live path handler host s w hs ≡ done (s', w')
      → (gs : List Goroutine) × Reach path handler host Allowed (idle s w) (idle_with s' w' gs)
        × All IsReturned gs
  live_scheduled s s' w w' hs allowed h = live-Settles (idle s w) hs s s' w w' [] allowed h here tt

-- ===== src/Process/Goroutines/Finish.antt =====
-- Every request that is under way gets its reply.
use resolvit.Prelude.{
  ◌≡◌, ◌≢◌, ◌⊎◌, inl, inr, refl, ap, subst, ◌∙◌, some, List, [], ◌∷◌, ℕ, zero, suc, ◌+◌, ◌<◌,
  get_elem?, set, length, arith, sum_of, sum_of-set, All,
}
use resolvit.Go.Text.{Text}
use resolvit.Dns.{Msg}
use resolvit.Records.Load.{AllValid}
use resolvit.Filtering.Loader.{Host}
use resolvit.Handler.{World}
use resolvit.Handler.Local.{Descends}
use resolvit.Handler.Total.{IsSound}
use resolvit.Handler.Tasks.{advance}
use resolvit.Handler.Tasks.Shared.{IsFit}
use resolvit.Handler.Tasks.Replies.{replies}
use resolvit.Handler.Tasks.Bounds.{left, advance-falls, returned_or_panicked}
use resolvit.Server.Wiring.{Handler, Surroundings}
use resolvit.Process.Life.{Settings, env_at}
use resolvit.Process.Goroutines.{Goroutine, Machine, run_goroutine, Reach, here, later, runs, idle}
use resolvit.Process.Goroutines.Safe.{IsBehaved, IsWell, IsRunning, Reach-IsRunning}
use resolvit.Process.Goroutines.Replies.{replies_of, Reach-Counted}
use resolvit.Process.Goroutines.Scheduled.{IsReturned}

positive_or_zero : (n : ℕ) → (n ≡ 0) ⊎ (0 < n)
positive_or_zero zero = inl refl
positive_or_zero (suc n) = inr (omega arith)

module _ (rank : Text → ℕ) where
  abbrev pub left_of : Goroutine → ℕ
  left_of g = left rank g.task

  -- A goroutine that has steps left, if there is one.
  unfinished :
      (gs : List Goroutine)
      → (sum_of left_of gs ≡ 0)
        ⊎ ((i : ℕ) × (g : Goroutine) × (get_elem? gs i ≡ some g) × (0 < left_of g))
  unfinished [] = inl refl
  unfinished (g ∷ gs) = elim (positive_or_zero (left_of g)) [
    | inr more ↦ inr (0, g, refl, more)
    | inl zero_left ↦ elim (unfinished gs) [
      | inl rest ↦ inl (omega arith)
      | inr (i, g', e, more) ↦ inr (suc i, g', e, more)
    ]
  ]

  All-IsReturned :
      (heap : List Msg) (gs : List Goroutine)
      → All (IsWell heap) gs
      → sum_of left_of gs ≡ 0
      → All IsReturned gs
  All-IsReturned heap [] ok e = tt
  All-IsReturned heap (g ∷ gs) ok e = (
    elim (returned_or_panicked rank g.task (omega arith)) [
      | inl done ↦ done
      | inr p ↦ absurd (subst (IsFit heap) p ok.0.1)
    ],
    All-IsReturned heap gs ok.1 (omega arith),
  )

length-set : {A : Type 0} (xs : List A) (i : ℕ) (x : A) → length (set xs i x) ≡ length xs
length-set [] i x = refl
length-set (y ∷ xs) zero x = refl
length-set (y ∷ xs) (suc i) x = ap suc (length-set xs i x)

replies-returned : (gs : List Goroutine) → All IsReturned gs → sum_of replies_of gs ≡ length gs
replies-returned [] ok = refl
replies-returned (g ∷ gs) ok =
    let one : replies_of g ≡ 1 = ap replies ok.0 in
    let rest = replies-returned gs ok.1 in omega arith

module _ {Disk Request : Type 0} (path : Text) (handler : Handler) (host : Host Disk Request)
    (Allowed : Surroundings → Type 0) (upstream : handler.forwarder.upstream_servers ≢ [])
    (behave : (around : Surroundings) → Allowed around → IsBehaved around) (rank : Text → ℕ) where
  -- Steps of goroutines lead to a machine in which none has steps left.
  abbrev Finishes : Machine Disk → Machine Disk → Type 0
  Finishes m₀ m =
      (m' : Machine Disk) × Reach path handler host Allowed m₀ m'
      × (m'.settings ≡ m.settings)
      × (length m'.goroutines ≡ length m.goroutines)
      × (sum_of (left_of rank) m'.goroutines ≡ 0)

  run-falls :
      (m : Machine Disk) (i : ℕ) (g : Goroutine)
      → AllValid m.settings.records
      → Descends m.settings.records rank
      → get_elem? m.goroutines i ≡ some g
      → 0 < left_of rank g
      → sum_of (left_of rank) (run_goroutine path handler host m i g).goroutines
        < sum_of (left_of rank) m.goroutines
  unfolding run_goroutine
  run-falls m i g valid falls e h =
      let env = env_at path handler host m.settings g.around in
      let less = advance-falls rank env m.world g.task valid falls h in
      let t' = (advance env m.world g.task).1 in
      let sums = sum_of-set (left_of rank) m.goroutines i g (record g { task = t' }) e in
      omega arith

  run_all :
      (n : ℕ) (m₀ m : Machine Disk)
      → sum_of (left_of rank) m.goroutines < n
      → AllValid m.settings.records
      → Descends m.settings.records rank
      → Reach path handler host Allowed m₀ m
      → Finishes m₀ m
  unfolding run_goroutine
  run_all zero m₀ m h valid falls r = absurd (omega arith)
  run_all (suc n) m₀ m h valid falls r = elim (unfinished rank m.goroutines) [
    | inl over ↦ (m, r, refl, refl, over)
    | inr (i, g, e, more) ↦
        let m₁ = run_goroutine path handler host m i g in
        let less = run-falls m i g valid falls e more in
        let (m', r', same, long, over) =
          run_all n m₀ m₁ (omega arith) valid falls (later r (runs i g e)) in
        (m', r', same, long ∙ length-set m.goroutines i _, over)
  ]

  -- In every machine that steps lead to from a process without goroutines, whose records are valid and
  -- whose cache is sound, each request that is under way can be served to its end: if a rank falls along
  -- every local alias of the records of that moment, some steps of the goroutines lead to a machine with
  -- the same settings in which all of them have returned, and as many messages have been written as
  -- requests had arrived. The handler has an upstream, and the library and the upstreams of each request
  -- that arrives behave as documented.
  pub requests_finish :
      (s : Settings Disk) (w : World) (m : Machine Disk)
      → AllValid s.records
      → IsSound w
      → Reach path handler host Allowed (idle s w) m
      → Descends m.settings.records rank
      → (m' : Machine Disk) × Reach path handler host Allowed m m'
        × (m'.settings ≡ m.settings)
        × All IsReturned m'.goroutines
        × (length m'.world.written ≡ length w.written + length m.goroutines)
  requests_finish s w m valid sound r falls =
      let at_first : IsRunning (idle s w) = record { valid = valid; sound = sound; well = tt } in
      let ok = Reach-IsRunning path handler host Allowed (idle s w) m upstream behave at_first r in
      let (m', r', same, long, over) =
        run_all (suc (sum_of (left_of rank) m.goroutines)) m m (omega arith) ok.valid falls here in
      let ok' = Reach-IsRunning path handler host Allowed m m' upstream behave ok r' in
      let all = All-IsReturned rank m'.world.heap m'.goroutines ok'.well over in
      let counted =
        Reach-Counted path handler host Allowed (length w.written) m m'
          (Reach-Counted path handler host Allowed (length w.written) (idle s w) m (omega arith) r)
          r' in
      let each = replies-returned m'.goroutines all in (m', r', same, all, omega arith)

-- ===== src/Process/Goroutines/Headings.antt =====
-- The headings of the replies, in every machine that steps lead to.
use resolvit.Prelude.{
  ◌≡◌, refl, inl, inr, Option, none, some, List, [], ◌∷◌, ℕ, ◌+◌, ◌==◌, if◌then◌else◌, get_elem?,
  arith, Bool-cases, sum_of, sum_of-append, sum_of-set, All, All-append, All-get_elem?, All-set,
  All-imp,
}
use resolvit.Go.Text.{Text}
use resolvit.Dns.{Msg, IsDocumented}
use resolvit.Records.{Store, LoadError}
use resolvit.Filtering.Loader.{Host}
use resolvit.Handler.{World}
use resolvit.Handler.Tasks.{Task, starts, advance}
use resolvit.Handler.Tasks.Replies.{replies}
use resolvit.Handler.Tasks.Replies.Held.{
  Heading, Echoes, heading, heading_of, Asked, IsOwn, IsKeyed, KeepsHeadings-IsOwn, Writes,
}
use resolvit.Go.Text.{text_eq}
use resolvit.Go.Dict.{lookup}
use resolvit.DnsCache
use resolvit.Server.{clear_cache}
use resolvit.Prelude.{Bool, ◌&&◌, true, false, ap}
use resolvit.Handler.Tasks.Replies.Owned.{advance-Owns}
use resolvit.Server.Wiring.{Handler, Surroundings}
use resolvit.Process.{load_records}
use resolvit.Process.Life.{Settings, env_at}
use resolvit.Process.Goroutines.{
  Reach-kept, Goroutine, Machine, begin, run_goroutine, after_load, clear_loaded, load_lists,
  store_blocklist, store_allowlist, Step, arrives, runs, hangs_up, clears, ticks, stores_blocklist,
  stores_allowlist, Reach, idle,
}

abbrev asks_same : Option Asked → Option Asked → Bool
asks_same none none = true
asks_same (some a) (some b) = text_eq a.name b.name && a.qtype == b.qtype
asks_same none (some b) = false
asks_same (some a) none = false

-- The same id, name and type.
abbrev pub is_same : Heading → Heading → Bool
is_same h k = h.id == k.id && asks_same h.asked k.asked

-- One for a message with this heading, and for a goroutine that has replied to a request with it.
abbrev pub has_heading : Heading → Msg → ℕ
has_heading k m = if is_same (heading m) k then 1 else 0

abbrev pub replies_to : Heading → Goroutine → ℕ
replies_to k g = if is_same (heading_of g.request) k then replies g.task else 0

-- The messages of the goroutine bear its heading, in surroundings that echo headings.
abbrev IsOwner : List Msg → Goroutine → Type 0
IsOwner heap g =
    IsDocumented g.around.lib
    × Echoes g.around.lib g.around.net
    × IsOwn (heading_of g.request) heap g.task

replies_to-Writes :
    (k : Heading) (w w' : World) (g : Goroutine) (t' : Task)
    → Writes (heading_of g.request) w g.task (w', t')
    → sum_of (has_heading k) w'.written + replies_to k g
      ≡ sum_of (has_heading k) w.written + replies_to k (record g { task = t' })
replies_to-Writes k w w' g t' (inl (same, none_more)) = rw (same, none_more) refl
replies_to-Writes k w w' g t' (inr (m, one, own, before, after)) =
    let more = sum_of-append (has_heading k) w.written (m ∷ []) in
    let as_asked : has_heading k m ≡ (if is_same (heading_of g.request) k then 1 else 0) =
      ap (λ h. if is_same h k then 1 else 0) own in
    rw (one, before, after, more, as_asked)
      (elim (Bool-cases (is_same (heading_of g.request) k)) [
        | inl e ↦ rw e (omega arith)
        | inr e ↦ rw e (omega arith)
      ])

clear_cache-IsKeyed : (w : World) → IsKeyed (clear_cache w)
unfolding DnsCache.clear lookup
clear_cache-IsKeyed w = record { keyed = λ key e q is_tcp l kq. absurd (cc) }

module _ {Disk Request : Type 0} (path : Text) (handler : Handler) (host : Host Disk Request) where
  record Owned (k : Heading) (before : ℕ) (m : Machine Disk) : Type 0 where
    keyed : IsKeyed m.world
    owners : All (IsOwner m.world.heap) m.goroutines
    counted : sum_of (has_heading k) m.world.written ≡ before + sum_of (replies_to k) m.goroutines

  run_goroutine-Owned :
      (k : Heading) (before : ℕ) (m : Machine Disk) (i : ℕ) (g : Goroutine)
      → get_elem? m.goroutines i ≡ some g
      → Owned k before m
      → Owned k before (run_goroutine path handler host m i g)
  unfolding run_goroutine
  run_goroutine-Owned k before m i g e o =
      let env = env_at path handler host m.settings g.around in
      let h = heading_of g.request in
      let (documented, echo, own) =
        All-get_elem? (IsOwner m.world.heap) m.goroutines i g o.owners e in
      let (own', kept, wrote, keyed) =
        advance-Owns env h m.world g.task documented echo o.keyed own in
      let w' = (advance env m.world g.task).0 in
      let t' = (advance env m.world g.task).1 in
      let sums = sum_of-set (replies_to k) m.goroutines i g (record g { task = t' }) e in
      let written = replies_to-Writes k m.world w' g t' wrote in
      let before_step = o.counted in
      let others =
        All-imp {P = IsOwner m.world.heap} {Q = IsOwner w'.heap} m.goroutines
          (λ g (d, c, own).
            (d, c, KeepsHeadings-IsOwn (heading_of g.request) m.world.heap w'.heap g.task kept own))
          o.owners in
      record {
        keyed = keyed;
        owners = All-set (IsOwner w'.heap) m.goroutines i _ others (documented, echo, own');
        counted = omega arith;
      }

  after_load-Owned :
      (k : Heading) (before : ℕ) (m : Machine Disk) (loaded : Store × Option LoadError)
      → Owned k before m
      → Owned k before (after_load path handler host m loaded)
  unfolding after_load
  after_load-Owned k before m (records, some e) o = record {
    keyed = o.keyed;
    owners = o.owners;
    counted = o.counted;
  }
  after_load-Owned k before m (records, none) o = record {
    keyed = o.keyed;
    owners = o.owners;
    counted = o.counted;
  }

  Step-Owned :
      (Allowed : Surroundings → Type 0) (k : Heading) (before : ℕ) (m m' : Machine Disk)
      → ((around : Surroundings)
          → Allowed around
          → IsDocumented around.lib × Echoes around.lib around.net)
      → Owned k before m
      → Step path handler host Allowed m m'
      → Owned k before m'
  unfolding begin clear_loaded load_lists store_blocklist store_allowlist
  Step-Owned Allowed k before m m' behave o (arrives around request allowed) =
      let g : Goroutine = record { around = around; request = request; task = starts request } in
      let more = sum_of-append (replies_to k) m.goroutines (g ∷ []) in
      let none_yet : replies_to k g ≡ 0 = ground arith in
      let before_step = o.counted in
      let (documented, echo) = behave around allowed in
      record {
        keyed = o.keyed;
        owners =
            All-append (IsOwner m.world.heap) m.goroutines (g ∷ []) o.owners
              ((documented, echo, refl), tt);
        counted = omega arith;
      }
  Step-Owned Allowed k before m m' behave o (runs i g e) = run_goroutine-Owned k before m i g e o
  Step-Owned Allowed k before m m' behave o (hangs_up files e) =
      after_load-Owned k before m (load_records files m.settings.records path) o
  Step-Owned Allowed k before m m' behave o (clears e) = record {
    keyed = clear_cache-IsKeyed m.world;
    owners = o.owners;
    counted = o.counted;
  }
  Step-Owned Allowed k before m m' behave o (ticks send f e has positive) = record {
    keyed = o.keyed;
    owners = o.owners;
    counted = o.counted;
  }
  Step-Owned Allowed k before m m' behave o (stores_blocklist f blocklist allowlist e has) =
      record { keyed = o.keyed; owners = o.owners; counted = o.counted }
  Step-Owned Allowed k before m m' behave o (stores_allowlist f allowlist e has) = record {
    keyed = o.keyed;
    owners = o.owners;
    counted = o.counted;
  }

  Reach-Owned :
      (Allowed : Surroundings → Type 0) (k : Heading) (before : ℕ) (m m' : Machine Disk)
      → ((around : Surroundings)
          → Allowed around
          → IsDocumented around.lib × Echoes around.lib around.net)
      → Owned k before m
      → Reach path handler host Allowed m m'
      → Owned k before m'
  Reach-Owned Allowed k before m m' behave =
      Reach-kept path handler host (Owned k before)
        (λ m₁ m₂ o s. Step-Owned Allowed k before m₁ m₂ behave o s) m m'

  -- From a process without goroutines, in whose cache the message under the key of a question answers
  -- that question, however the steps of the goroutines, of the main loop and of the refresh loop follow
  -- one another: for each id, name and type, as many messages with this id and with a first question for
  -- this name and type have been written as requests with them have been replied to, letters compared
  -- without their case, a message without a question counting apart, and a request that is missing
  -- counting as a new message. For each request that arrives the library behaves as documented and
  -- repeats the question, and an upstream's message bears the id and the question of its request.
  pub replies_bear_headings :
      (Allowed : Surroundings → Type 0) (s : Settings Disk) (w : World) (m : Machine Disk)
      (k : Heading)
      → ((around : Surroundings)
          → Allowed around
          → IsDocumented around.lib × Echoes around.lib around.net)
      → IsKeyed w
      → Reach path handler host Allowed (idle s w) m
      → sum_of (has_heading k) m.world.written
        ≡ sum_of (has_heading k) w.written + sum_of (replies_to k) m.goroutines
  replies_bear_headings Allowed s w m k behave keyed r =
      let at_first : Owned k (sum_of (has_heading k) w.written) (idle s w) = record {
        keyed = keyed;
        owners = tt;
        counted = omega arith;
      } in
      (Reach-Owned Allowed k (sum_of (has_heading k) w.written) (idle s w) m behave at_first
        r).counted

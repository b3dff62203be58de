-- ===== src/Process/Goroutines/Blocked.antt =====
-- A name that stays blocked while lists are refreshed and records are loaded.
use resolvit.Prelude.{
  ◌≡◌, refl, sym, subst, true, Option, none, some, ℕ, get_elem?, All, All-append, All-get_elem?,
  All-set,
}
use resolvit.Go.Text.{Text}
use resolvit.Dns.{IsDocumented}
use resolvit.Records
use resolvit.Records.{Store, LoadError}
use resolvit.Filtering.Filter.{should_block}
use resolvit.Filtering.Loader.{Host}
use resolvit.Handler.{World}
use resolvit.Handler.Tasks.Refused.{Asks, Refuses, advance-Refuses}
use resolvit.Server.Wiring.{Handler, Surroundings}
use resolvit.Process.{load_records}
use resolvit.Process.Life.{Settings, env_at}
use resolvit.Process.Goroutines.{
  Goroutine, Machine, begin, run_goroutine, after_load, clear_loaded, load_lists, store_blocklist,
  store_allowlist, Step, arrives, runs, hangs_up, clears, ticks, stores_blocklist, stores_allowlist,
  Reach, here, later, idle,
}

-- The records do not hold the name and the filter blocks it.
abbrev pub IsBlocked : {Disk : Type 0} → Text → Settings Disk → Type 0
IsBlocked name s = (Records.get s.records name ≡ none) × (should_block s.filter name ≡ true)

-- A goroutine whose question is for the name refuses it; its library is documented.
abbrev pub IsRefusing : Text → Goroutine → Type 0
IsRefusing name g = IsDocumented g.around.lib × (Asks name g.request → Refuses name g.task)

module _ {Disk Request : Type 0} (path : Text) (handler : Handler) (host : Host Disk Request) where
  -- The settings are so in each machine on the way.
  abbrev pub Always :
      {Allowed : Surroundings → Type 0}
      → (Settings Disk → Type 0)
      → (m m' : Machine Disk) → Reach path handler host Allowed m m'
      → Type 0
  Always P m m' here = P m.settings
  Always P m m' (later {m' = m₁} r s) = Always P m m₁ r × P m'.settings

  Always-last :
      {Allowed : Surroundings → Type 0} (P : Settings Disk → Type 0) (m m' : Machine Disk)
      (r : Reach path handler host Allowed m m')
      → Always P m m' r
      → P m'.settings
  Always-last P m m' here a = a
  Always-last P m m' (later r s) a = a.1

  run_goroutine-IsRefusing :
      (name : Text) (m : Machine Disk) (i : ℕ) (g : Goroutine)
      → get_elem? m.goroutines i ≡ some g
      → IsBlocked name m.settings
      → All (IsRefusing name) m.goroutines
      → All (IsRefusing name) (run_goroutine path handler host m i g).goroutines
  unfolding run_goroutine
  run_goroutine-IsRefusing name m i g e (unlisted, blocked) all =
      let (documented, refuses) = All-get_elem? (IsRefusing name) m.goroutines i g all e in
      let env = env_at path handler host m.settings g.around in
      All-set (IsRefusing name) m.goroutines i _ all (
        documented,
        λ asks. advance-Refuses env name unlisted blocked m.world g.task documented (refuses asks),
      )

  after_load-goroutines :
      (m : Machine Disk) (loaded : Store × Option LoadError)
      → (after_load path handler host m loaded).goroutines ≡ m.goroutines
  unfolding after_load
  after_load-goroutines m (records, some e) = refl
  after_load-goroutines m (records, none) = refl

  Step-IsRefusing :
      (Allowed : Surroundings → Type 0) (name : Text) (m m' : Machine Disk)
      → ((around : Surroundings) → Allowed around → IsDocumented around.lib)
      → IsBlocked name m.settings
      → All (IsRefusing name) m.goroutines
      → Step path handler host Allowed m m'
      → All (IsRefusing name) m'.goroutines
  unfolding begin clear_loaded load_lists store_blocklist store_allowlist
  Step-IsRefusing Allowed name m m' documented b all (arrives around request allowed) =
      All-append (IsRefusing name) m.goroutines _ all
        ((documented around allowed, λ asks. asks), tt)
  Step-IsRefusing Allowed name m m' documented b all (runs i g e) =
      run_goroutine-IsRefusing name m i g e b all
  Step-IsRefusing Allowed name m m' documented b all (hangs_up files e) =
      let same = after_load-goroutines m (load_records files m.settings.records path) in
      subst (All (IsRefusing name)) (sym same) all
  Step-IsRefusing Allowed name m m' documented b all (clears e) = all
  Step-IsRefusing Allowed name m m' documented b all (ticks send f e has positive) = all
  Step-IsRefusing Allowed name m m' documented b all
        (stores_blocklist f blocklist allowlist e has) =
      all
  Step-IsRefusing Allowed name m m' documented b all (stores_allowlist f allowlist e has) = all

  Reach-IsRefusing :
      (Allowed : Surroundings → Type 0) (name : Text) (s : Settings Disk) (w : World)
      (m : Machine Disk) (r : Reach path handler host Allowed (idle s w) m)
      → ((around : Surroundings) → Allowed around → IsDocumented around.lib)
      → Always (IsBlocked name) (idle s w) m r
      → All (IsRefusing name) m.goroutines
  Reach-IsRefusing Allowed name s w m here documented a = tt
  Reach-IsRefusing Allowed name s w m (later {m' = m₁} r step) documented a =
      Step-IsRefusing Allowed name m₁ m documented
        (Always-last (IsBlocked name) (idle s w) m₁ r a.0)
        (Reach-IsRefusing Allowed name s w m₁ r documented a.0) step

  -- From a process without goroutines, however requests arrive, records are loaded and lists are
  -- refreshed: if in every machine on the way the records do not hold a name and the filter blocks it,
  -- then no goroutine whose first question is for that name is about to follow an alias, to read the
  -- cache, to ask an upstream, to cache a message or to write a shared one, or has panicked, and the
  -- message that it is about to write says that the name does not exist. The library of each request
  -- behaves as documented.
  pub blocked_stays_refused :
      (Allowed : Surroundings → Type 0) (name : Text) (s : Settings Disk) (w : World)
      (m : Machine Disk) (r : Reach path handler host Allowed (idle s w) m) (i : ℕ) (g : Goroutine)
      → ((around : Surroundings) → Allowed around → IsDocumented around.lib)
      → Always (IsBlocked name) (idle s w) m r
      → get_elem? m.goroutines i ≡ some g
      → Asks name g.request
      → Refuses name g.task
  blocked_stays_refused Allowed name s w m r i g documented a e =
      (All-get_elem? (IsRefusing name) m.goroutines i g
        (Reach-IsRefusing Allowed name s w m r documented a) e).1

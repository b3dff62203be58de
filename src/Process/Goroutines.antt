-- ===== src/Process/Goroutines.antt =====
-- The goroutines of a process that waits for signals: the main loop of main.go, the refresh loop of
-- pkg/filtering/filter.go and one goroutine for each request, with their steps in any order. A step
-- is what the code does between two accesses to what goroutines share.
pub mod Safe
pub mod Replies
pub mod Scheduled
pub mod Finish
pub mod Headings
pub mod Blocked
pub mod Started
use resolvit.Prelude.{
  ℕ, ◌≡◌, refl, Bool, true, false, ◌&&◌, Option, none, some, List, [], ◌∷◌, ◌++◌, get_elem?, set,
}
use resolvit.Go.Text.{Text}
use resolvit.Go.Int.{is_positive}
use resolvit.Dns.{Msg}
use resolvit.Records.{Store, LoadError}
use resolvit.Filtering.DomainSet.{DomainSet}
use resolvit.Filtering.Filter.{Filter}
use resolvit.Filtering.Loader.{Host, Response, load_sources, load_allowlist}
use resolvit.Filtering.Refresh.{or_new}
use resolvit.Handler.{World}
use resolvit.Handler.Tasks.{Task, starts, advance}
use resolvit.Server.{clear_cache}
use resolvit.Server.Wiring.{Handler, Surroundings}
use resolvit.Process.{Files, load_records}
use resolvit.Process.Life.{Settings, env_at}

-- The goroutine of a request, with what is left of it to do. Its surroundings hold the times at which it will read the cache and
-- write it.
pub record Goroutine : Type 0 where
  pub around : Surroundings
  pub request : Option Msg
  pub task : Task

-- Where the main loop is: before it takes a signal, or between the load of the records and
-- `ClearCache`.
pub data MainLoop : Type 0 where
  waits : MainLoop
  has_loaded : MainLoop

-- Where the refresh loop is: before a tick, or before one of the two stores of `LoadOnce`.
pub data RefreshLoop : Type 0 where
  sleeps : RefreshLoop
  has_lists : DomainSet → DomainSet → RefreshLoop
  has_allowlist : DomainSet → RefreshLoop

pub record Machine (Disk : Type 0) : Type 0 where
  pub settings : Settings Disk
  pub world : World
  pub goroutines : List Goroutine
  pub main_loop : MainLoop
  pub refresh_loop : RefreshLoop

abbrev pub with_filter : {Disk : Type 0} → Machine Disk → Filter → Machine Disk
with_filter m f = record m { settings = record m.settings { filter = some f } }

module _ {Disk Request : Type 0} (path : Text) (handler : Handler) (host : Host Disk Request) where
  unfoldable pub begin : Machine Disk → Surroundings → Option Msg → Machine Disk
  begin m around request =
      let g : Goroutine = record { around = around; request = request; task = starts request } in
      record m { goroutines = m.goroutines ++ g ∷ [] }

  unfoldable pub run_goroutine : Machine Disk → ℕ → Goroutine → Machine Disk
  run_goroutine m i g =
      let (w, t) = advance (env_at path handler host m.settings g.around) m.world g.task in
      record m { world = w; goroutines = set m.goroutines i (record g { task = t }) }

  -- What the main loop does with the result of the load.
  unfoldable pub after_load : Machine Disk → Store × Option LoadError → Machine Disk
  after_load m (records, some e) = record m { settings = record m.settings { records = records } }
  after_load m (records, none) = record m {
    settings = record m.settings { records = records };
    main_loop = has_loaded;
  }

  unfoldable pub clear_loaded : Machine Disk → Machine Disk
  clear_loaded m = record m { world = clear_cache m.world; main_loop = waits }

  -- The part of `LoadOnce` that loads the lists.
  unfoldable pub load_lists : Machine Disk → (Request → Option Response) → Filter → Machine Disk
  load_lists m send f =
      let web : Host Disk Request = record host { send = send } in
      let (disk, blocklist) =
        load_sources web m.settings.disk f.sources f.cache_dir f.error_limit in
      let allowlist = or_new (load_allowlist web disk f.allowlist_path f.error_limit) in
      record m {
        settings = record m.settings { disk = disk };
        refresh_loop = has_lists blocklist allowlist;
      }

  unfoldable pub store_blocklist : Machine Disk → Filter → DomainSet → DomainSet → Machine Disk
  store_blocklist m f blocklist allowlist =
      record (with_filter m (record f { blocklist = some blocklist })) {
        refresh_loop = has_allowlist allowlist;
      }

  unfoldable pub store_allowlist : Machine Disk → Filter → DomainSet → Machine Disk
  store_allowlist m f allowlist = record (with_filter m (record f { allowlist = some allowlist })) {
    refresh_loop = sleeps;
  }

  -- A step of one of the goroutines, or the arrival of a request, which comes with surroundings that
  -- are allowed.
  pub data Step (Allowed : Surroundings → Type 0) (m : Machine Disk) : Machine Disk → Type 0 where
    arrives :
        (around : Surroundings) (request : Option Msg)
        → Allowed around
        → Step Allowed m (begin m around request)
    runs :
        (i : ℕ) (g : Goroutine)
        → get_elem? m.goroutines i ≡ some g
        → Step Allowed m (run_goroutine m i g)
    hangs_up :
        (files : Files)
        → m.main_loop ≡ waits
        → Step Allowed m (after_load m (load_records files m.settings.records path))
    clears : m.main_loop ≡ has_loaded → Step Allowed m (clear_loaded m)
    ticks :
        (send : Request → Option Response) (f : Filter)
        → m.refresh_loop ≡ sleeps
        → m.settings.filter ≡ some f
        → (f.enabled && is_positive f.update_interval) ≡ true
        → Step Allowed m (load_lists m send f)
    stores_blocklist :
        (f : Filter) (blocklist allowlist : DomainSet)
        → m.refresh_loop ≡ has_lists blocklist allowlist
        → m.settings.filter ≡ some f
        → Step Allowed m (store_blocklist m f blocklist allowlist)
    stores_allowlist :
        (f : Filter) (allowlist : DomainSet)
        → m.refresh_loop ≡ has_allowlist allowlist
        → m.settings.filter ≡ some f
        → Step Allowed m (store_allowlist m f allowlist)

  -- The machines that some steps lead to.
  pub data Reach (Allowed : Surroundings → Type 0) (m : Machine Disk) : Machine Disk → Type 0 where
    here : Reach Allowed m m
    later : {m' m'' : Machine Disk} → Reach Allowed m m' → Step Allowed m' m'' → Reach Allowed m m''

  -- What holds at first and is kept by every step holds in each machine that steps lead to.
  pub Reach-kept :
      {Allowed : Surroundings → Type 0} (P : Machine Disk → Type 0)
      → ((m m' : Machine Disk) → P m → Step Allowed m m' → P m')
      → (m m' : Machine Disk) → P m
      → Reach Allowed m m'
      → P m'
  Reach-kept P kept m m' p here = p
  Reach-kept P kept m m' p (later {m' = m₁} r s) = kept m₁ m' (Reach-kept P kept m m₁ p r) s

-- The process once its start is over: no request has come.
abbrev pub idle : {Disk : Type 0} → Settings Disk → World → Machine Disk
idle s w = record {
  settings = s;
  world = w;
  goroutines = [];
  main_loop = waits;
  refresh_loop = sleeps;
}

-- ===== src/Filtering/Manager.antt =====
-- pkg/filtering/manager.go: a set of blocklists that is loaded again and again. The program itself
-- uses the filter in its place.
pub mod Agreement
use resolvit.Prelude.{
  ◌≡◌, refl, Bool, true, false, not, Option, none, some, List, [], ◌∷◌, if◌then◌else◌,
}
use resolvit.Go.Text.{Text}
use resolvit.Go.Int.{ℤ, is_positive}
use resolvit.Filtering.DomainSet.{DomainSet, new_domain_set}
use resolvit.Filtering.Filter.{Source}
use resolvit.Filtering.Loader.{Host, Response, load_sources}

pub record Manager : Type 0 where
  pub sources : List Source
  pub cache_dir : Text
  pub update_interval : ℤ
  pub error_limit : ℤ
  -- the atomic value, `none` before a store
  pub current_set : Option DomainSet

abbrev pub new_manager : List Source → Text → ℤ → ℤ → Manager
new_manager sources cache_dir update_interval error_limit = record {
  sources = sources;
  cache_dir = cache_dir;
  update_interval = update_interval;
  error_limit = error_limit;
  current_set = some new_domain_set;
}

abbrev or_empty : Option DomainSet → DomainSet
or_empty none = new_domain_set
or_empty (some set) = set

unfoldable pub current : Manager → DomainSet
current m = or_empty m.current_set

-- `LoadSources` gives no error.
unfoldable pub load_once :
    {Disk Request : Type 0} → Host Disk Request → Disk → Manager → Disk × Manager
load_once host disk m =
    let (disk', set) = load_sources host disk m.sources m.cache_dir m.error_limit in
    (disk', record m { current_set = some set })

run_ticks :
    {Disk Request : Type 0}
    → Host Disk Request
    → Disk
    → Manager
    → List (Request → Option Response)
    → Disk × Manager
unfolding load_once
run_ticks host disk m [] = (disk, m)
run_ticks host disk m (send ∷ ticks) =
    let (disk', m') = load_once (record host { send = send }) disk m in
    run_ticks host disk' m' ticks

-- `Start` loads nothing before its first tick.
unfoldable pub start :
    {Disk Request : Type 0}
    → Host Disk Request
    → Disk
    → Manager
    → List (Request → Option Response)
    → Disk × Manager
unfolding run_ticks
start host disk m ticks =
    if not (is_positive m.update_interval) then (disk, m) else run_ticks host disk m ticks

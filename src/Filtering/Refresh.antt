-- ===== src/Filtering/Refresh.antt =====
-- The part of pkg/filtering/filter.go that makes a filter and loads its lists. The file of the log of
-- blocked queries is opened by a parameter.
use resolvit.Prelude.{
  ◌≡◌, refl, sym, ap, ◌∙◌, Bool, true, false, not, ◌&&◌, Option, none, some, List, [], ◌∷◌, arith,
  if◌then◌else◌,
}
use resolvit.Go.Text.{Text, is_empty}
use resolvit.Go.Int.{ℤ, is_positive}
use resolvit.Filtering.DomainSet.{DomainSet, new_domain_set, matches}
use resolvit.Filtering.Filter.{Filter, Source, should_block, current_blocklist, current_allowlist}
use resolvit.Filtering.Loader.{
  Host, Response, Loaded, ok, err, load_sources, load_allowlist, ensure_cache_dir,
}
use resolvit.Filtering.Loader.Merged.{any_matches, sets_of, matches-load_sources}

pub record FilterOptions : Type 0 where
  pub enabled : Bool
  pub block_subdomains : Bool
  pub allowlist_path : Text
  pub sources : List Source
  pub cache_dir : Text
  pub update_interval : ℤ
  pub blocked_log_path : Text
  pub error_limit : ℤ

-- Whether `newBlockedLogger` gives a logger.
abbrev new_blocked_logger : (Text → Bool) → Text → Bool
new_blocked_logger opens path = if is_empty path then false else opens path

abbrev pub new_filter : (Text → Bool) → FilterOptions → Filter
new_filter opens opts = record {
  enabled = opts.enabled;
  block_subdomains = opts.block_subdomains;
  allowlist_path = opts.allowlist_path;
  sources = opts.sources;
  cache_dir = opts.cache_dir;
  update_interval = opts.update_interval;
  error_limit = opts.error_limit;
  has_blocked_log = new_blocked_logger opens opts.blocked_log_path;
  blocklist = some new_domain_set;
  allowlist = some new_domain_set;
}

abbrev pub or_new : Loaded DomainSet → DomainSet
or_new (ok set) = set
or_new (err e) = new_domain_set

module _ {Disk Request : Type 0} (host : Host Disk Request) where
  unfoldable pub load_once : Disk → Filter → Disk × Filter
  load_once disk f =
      let (disk', blocklist) = load_sources host disk f.sources f.cache_dir f.error_limit in
      let allowlist = or_new (load_allowlist host disk' f.allowlist_path f.error_limit) in
      if not f.enabled
      then (disk, f)
      else (disk', record f { blocklist = some blocklist; allowlist = some allowlist })

-- The ticks of the refresh loop, each with what the web answers by then.
unfoldable pub run_ticks :
    {Disk Request : Type 0}
    → Host Disk Request
    → Disk
    → Filter
    → List (Request → Option Response)
    → Disk × Filter
run_ticks host disk f [] = (disk, f)
run_ticks host disk f (send ∷ ticks) =
    let (disk', f') = load_once (record host { send = send }) disk f in
    run_ticks host disk' f' ticks

-- `Start` and the ticks after it.
unfoldable pub start :
    {Disk Request : Type 0}
    → Host Disk Request
    → Disk
    → Filter
    → List (Request → Option Response)
    → Disk × Filter
unfolding run_ticks
start host disk f ticks =
    let (disk', f') = load_once host disk f in
    if not f.enabled
    then (disk, f)
    else if not (is_positive f.update_interval)
    then (disk', f')
    else run_ticks host disk' f' ticks

-- What the lists decide about a name when they are all loaded from a disk: it is not matched by the
-- allowlist, which is empty if it cannot be loaded, and matched by the list of some enabled source.
abbrev pub decides : {Disk Request : Type 0} → Host Disk Request → Disk → Filter → Text → Bool
decides host disk f name =
    let (dir_disk, dir) = ensure_cache_dir host disk f.cache_dir in
    let disk' = (load_sources host disk f.sources f.cache_dir f.error_limit).0 in
    let allowlist = or_new (load_allowlist host disk' f.allowlist_path f.error_limit) in
    not (matches (some allowlist) name f.block_subdomains)
    && any_matches (sets_of host dir_disk f.sources dir f.error_limit) name f.block_subdomains

-- The parts of a filter that stay as they are: all but its two lists.
abbrev pub options : Filter → Filter
options f = record f { blocklist = none; allowlist = none }

pub options-load_once :
    {Disk Request : Type 0} (host : Host Disk Request) (disk : Disk) (f : Filter)
    → options (load_once host disk f).1 ≡ options f
unfolding load_once
options-load_once host disk f = ground arith

load_once_blocks :
    {Disk Request : Type 0} (host : Host Disk Request) (disk : Disk) (f : Filter) (name : Text)
    → f.enabled ≡ true
    → should_block (some (load_once host disk f).1) name ≡ decides host disk f name
unfolding load_once should_block current_blocklist current_allowlist
load_once_blocks host disk f name e = ground (
  arith,
  matches-load_sources host disk f.sources f.cache_dir f.error_limit name f.block_subdomains,
)

load_once_stores :
    {Disk Request : Type 0} (host : Host Disk Request) (disk : Disk) (f : Filter)
    → f.enabled ≡ true
    → (load_once host disk f).0 ≡ (load_sources host disk f.sources f.cache_dir f.error_limit).0
unfolding load_once
load_once_stores host disk f e = ground arith

-- The last of a number of loads: what the web answers to it, and the disk that it starts from. Each
-- load leaves its disk to the next one.
abbrev pub last_load :
    {Disk Request : Type 0}
    → Host Disk Request
    → Filter
    → (Request → Option Response)
    → Disk
    → List (Request → Option Response)
    → (Request → Option Response) × Disk
last_load host f send disk [] = (send, disk)
last_load host f send disk (next ∷ ticks) =
    let now = record host { send = send } in
    last_load host f next (load_sources now disk f.sources f.cache_dir f.error_limit).0 ticks

module _ {Disk Request : Type 0} (host : Host Disk Request) (f : Filter) (name : Text)
    (enabled : f.enabled ≡ true) where
  run_ticks_blocks :
      (send : Request → Option Response) (disk : Disk) (g : Filter)
      (ticks : List (Request → Option Response))
      → options g ≡ options f
      → let once = load_once (record host { send = send }) disk g in
        let (send', disk') = last_load host f send disk ticks in
        should_block (some (run_ticks host once.0 once.1 ticks).1) name
        ≡ decides (record host { send = send' }) disk' f name
  unfolding run_ticks
  run_ticks_blocks send disk g [] same =
      let now : Host Disk Request = record host { send = send } in
      let on : g.enabled ≡ true = ap (λ o. o.enabled) same ∙ enabled in
      load_once_blocks now disk g name on ∙ ap (λ o. decides now disk o name) same
  run_ticks_blocks send disk g (next ∷ ticks) same =
      let now : Host Disk Request = record host { send = send } in
      let once = load_once now disk g in
      let on : g.enabled ≡ true = ap (λ o. o.enabled) same ∙ enabled in
      let stored : once.0 ≡ (load_sources now disk f.sources f.cache_dir f.error_limit).0 =
        load_once_stores now disk g on
        ∙ ap (λ o. (load_sources now disk o.sources o.cache_dir o.error_limit).0) same in
      run_ticks_blocks next once.0 once.1 ticks (options-load_once now disk g ∙ same)
      ∙ ap
          (λ d.
            let (send', disk') = last_load host f next d ticks in
            decides (record host { send = send' }) disk' f name)
          stored

past_guards :
    {A : Type 0} {Tick : Type 0} (b c : Bool) (x y : A) (ticks : List Tick) (run : List Tick → A)
    → b ≡ true
    → run [] ≡ y
    → (if not b then x else if not c then y else run ticks) ≡ run (if c then ticks else [])
past_guards true true x y ticks run e q = refl
past_guards true false x y ticks run e q = sym q
past_guards false c x y ticks run e q = cc

-- Once an enabled filter is started, and after the refreshes that ran since, each with its own
-- answers of the web, every name is decided by the last load: by the allowlist and the lists of the
-- enabled sources, loaded with the last refresh's answers of the web from the disk that all the loads
-- before it left. Without a positive interval the load at the start is the last.
pub start_blocks :
    {Disk Request : Type 0} (host : Host Disk Request) (disk : Disk) (f : Filter)
    (ticks : List (Request → Option Response)) (name : Text)
    → f.enabled ≡ true
    → let active = if is_positive f.update_interval then ticks else [] in
      let (send', disk') = last_load host f host.send disk active in
      should_block (some (start host disk f ticks).1) name
      ≡ decides (record host { send = send' }) disk' f name
unfolding start run_ticks
start_blocks host disk f ticks name e =
    let once = load_once host disk f in
    let active = if is_positive f.update_interval then ticks else [] in
    let ran =
      past_guards f.enabled (is_positive f.update_interval) (disk, f) once ticks
        (run_ticks host once.0 once.1) e refl in
    ap (λ r. should_block (some r.1) name) ran
    ∙ run_ticks_blocks host f name e host.send disk f active refl

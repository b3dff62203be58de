-- ===== src/Filtering/Manager/Agreement.antt =====
-- The manager against the filter.
use resolvit.Prelude.{
  ◌≡◌, refl, sym, ap, ◌∙◌, Bool, true, false, not, Option, some, List, [], ◌∷◌, arith,
  if◌then◌else◌,
}
use resolvit.Go.Text.{Text}
use resolvit.Go.Int.{is_positive}
use resolvit.Filtering.DomainSet.{new_domain_set, matches}
use resolvit.Filtering.DomainSet.Matching.{matches-new_domain_set}
use resolvit.Filtering.Filter.{Filter, should_block, current_blocklist, current_allowlist}
use resolvit.Filtering.Loader.{Host, Response, load_allowlist}
use resolvit.Filtering.Refresh
use resolvit.Filtering.Refresh.{options-load_once}
use resolvit.Filtering.Manager
use resolvit.Filtering.Manager.{Manager, current}

-- The manager that loads what the filter loads and holds its blocklist.
abbrev pub managed : Filter → Manager
managed f = record {
  sources = f.sources;
  cache_dir = f.cache_dir;
  update_interval = f.update_interval;
  error_limit = f.error_limit;
  current_set = f.blocklist;
}

-- The filter is enabled, and its allowlist is and stays empty.
record IsPlain (f : Filter) : Type 0 where
  on : f.enabled ≡ true
  no_path : f.allowlist_path ≡ []
  no_allowlist : f.allowlist ≡ some new_domain_set

module _ {Disk Request : Type 0} (host : Host Disk Request) where
  load_once_agrees :
      (disk : Disk) (f : Filter)
      → f.enabled ≡ true
      → Manager.load_once host disk (managed f)
        ≡ ((Refresh.load_once host disk f).0, managed (Refresh.load_once host disk f).1)
  unfolding Manager.load_once Refresh.load_once
  load_once_agrees disk f on = ground arith

  load_once-IsPlain :
      (disk : Disk) (f : Filter)
      → f.enabled ≡ true
      → f.allowlist_path ≡ []
      → IsPlain (Refresh.load_once host disk f).1
  unfolding Refresh.load_once load_allowlist
  load_once-IsPlain disk f on no_path = record {
    on = ground arith;
    no_path = ground arith;
    no_allowlist = ground arith;
  }

module _ {Disk Request : Type 0} (host : Host Disk Request) where
  run_ticks_agrees :
      (disk : Disk) (f : Filter) (ticks : List (Request → Option Response))
      → IsPlain f
      → (Manager.run_ticks host disk (managed f) ticks ≡ (
        (Refresh.run_ticks host disk f ticks).0,
        managed (Refresh.run_ticks host disk f ticks).1,
      ))
        × IsPlain (Refresh.run_ticks host disk f ticks).1
        × ((Refresh.run_ticks host disk f ticks).1.block_subdomains ≡ f.block_subdomains)
  unfolding Manager.run_ticks Refresh.run_ticks
  run_ticks_agrees disk f [] p = (refl, p, refl)
  run_ticks_agrees disk f (send ∷ ticks) p =
      let later : Host Disk Request = record host { send = send } in
      let next = Refresh.load_once later disk f in
      let agrees = load_once_agrees later disk f p.on in
      let (rest, plain, same) =
        run_ticks_agrees next.0 next.1 ticks (load_once-IsPlain later disk f p.on p.no_path) in
      (
        ap (λ r. Manager.run_ticks host r.0 r.1 ticks) agrees ∙ rest,
        plain,
        same ∙ ap (λ (o : Filter). o.block_subdomains) (options-load_once later disk f),
      )

plain_decides :
    (f : Filter) (name : Text)
    → IsPlain f
    → should_block (some f) name ≡ matches (some (current (managed f))) name f.block_subdomains
unfolding should_block current_blocklist current_allowlist current
plain_decides f name p =
    ground (arith, p.on, p.no_allowlist, matches-new_domain_set name f.block_subdomains)

agreed :
    {Disk : Type 0} (x : Disk × Filter) (y : Disk × Manager) (name : Text) (sub : Bool)
    → y ≡ (x.0, managed x.1)
    → IsPlain x.1
    → x.1.block_subdomains ≡ sub
    → should_block (some x.1) name ≡ matches (some (current y.1)) name sub
agreed x y name sub e p q =
    plain_decides x.1 name p
    ∙ ap (λ b. matches (some (current (managed x.1))) name b) q
    ∙ ap (λ z. matches (some (current z.1)) name sub) (sym e)

-- A manager that loads once and is then started decides as an enabled filter without an allowlist
-- that is started, for the same sources, directory, interval and limit: after any ticks the filter
-- blocks the names that the manager's current set matches.
pub manager_agrees :
    {Disk Request : Type 0} (host : Host Disk Request) (disk : Disk) (f : Filter)
    (ticks : List (Request → Option Response)) (name : Text)
    → f.enabled ≡ true
    → f.allowlist_path ≡ []
    → let (disk', m) = Manager.load_once host disk (managed f) in
      should_block (some (Refresh.start host disk f ticks).1) name
      ≡ matches (some (current (Manager.start host disk' m ticks).1)) name f.block_subdomains
unfolding Manager.start Refresh.start
manager_agrees host disk f ticks name on no_path =
    let once = Refresh.load_once host disk f in
    let plain = load_once-IsPlain host disk f on no_path in
    let same = ap (λ (o : Filter). o.block_subdomains) (options-load_once host disk f) in
    let once_agrees = load_once_agrees host disk f on in
    let interval : is_positive once.1.update_interval ≡ is_positive f.update_interval =
      ap (λ (o : Filter). is_positive o.update_interval) (options-load_once host disk f) in
    let filter_ran =
      λ (c : Bool). if not c then once else Refresh.run_ticks host once.0 once.1 ticks in
    let manager_ran = λ (c : Bool).
      if not c
      then (once.0, managed once.1)
      else Manager.run_ticks host once.0 (managed once.1) ticks in
    let filter_side : Refresh.start host disk f ticks ≡ filter_ran (is_positive f.update_interval) =
      ap (λ b. if not b then (disk, f) else filter_ran (is_positive f.update_interval)) on in
    let loaded = Manager.load_once host disk (managed f) in
    let manager_side : Manager.start host loaded.0 loaded.1 ticks
        ≡ manager_ran (is_positive f.update_interval) =
      ap (λ r. Manager.start host r.0 r.1 ticks) once_agrees ∙ ap manager_ran interval in
    let (ticked, still_plain, kept) = run_ticks_agrees host once.0 once.1 ticks plain in
    let decided : (c : Bool)
        → should_block (some (filter_ran c).1) name
          ≡ matches (some (current (manager_ran c).1)) name f.block_subdomains =
      λ c.
        elim c
          as (λ k.
            should_block (some (filter_ran k).1) name
            ≡ matches (some (current (manager_ran k).1)) name f.block_subdomains) [
              | false ↦ agreed once (once.0, managed once.1) name f.block_subdomains refl plain same
              | true ↦
                  agreed (Refresh.run_ticks host once.0 once.1 ticks)
                    (Manager.run_ticks host once.0 (managed once.1) ticks) name f.block_subdomains
                    ticked still_plain (kept ∙ same)
            ] in
    ap (λ r. should_block (some r.1) name) filter_side
    ∙ decided (is_positive f.update_interval)
    ∙ ap (λ r. matches (some (current r.1)) name f.block_subdomains) (sym manager_side)

-- ===== src/Filtering/Loader/Merged.antt =====
-- The lists of several sources together.
use resolvit.Prelude.{
  ◌≡◌, refl, ◌∙◌, Bool, true, false, ◌||◌, some, List, [], ◌∷◌, arith, Bool-cases, inl, inr,
}
use resolvit.Go.Text.{Text}
use resolvit.Go.Int.{ℤ}
use resolvit.Filtering.DomainSet.{DomainSet, new_domain_set, matches}
use resolvit.Filtering.DomainSet.Matching.{matches-merge, matches-new_domain_set}
use resolvit.Filtering.Filter.{Source}
use resolvit.Filtering.Loader.{
  Host, Loaded, ok, err, load_source, merge_loaded, load_each, load_sources, ensure_cache_dir,
}

abbrev loaded_set : Loaded DomainSet → List DomainSet → List DomainSet
loaded_set (ok s) sets = s ∷ sets
loaded_set (err e) sets = sets

-- Some set of the list matches the name.
abbrev pub any_matches : List DomainSet → Text → Bool → Bool
any_matches [] name include_subdomains = false
any_matches (s ∷ sets) name include_subdomains =
    matches (some s) name include_subdomains || any_matches sets name include_subdomains

module _ {Disk Request : Type 0} (host : Host Disk Request) where
  -- The sets that the enabled sources yield one after the other, without those that fail.
  abbrev pub sets_of : Disk → List Source → Text → ℤ → List DomainSet
  sets_of disk [] cache_dir limit = []
  sets_of disk (source ∷ sources) cache_dir limit = elim source.enabled [
    | false ↦ sets_of disk sources cache_dir limit
    | true ↦
        let (disk', loaded) = load_source host disk source cache_dir limit in
        loaded_set loaded (sets_of disk' sources cache_dir limit)
  ]

  merge_loaded_lem :
      (merged : DomainSet) (loaded : Loaded DomainSet) (sets : List DomainSet) (name : Text)
      (sub : Bool)
      → (matches (some (merge_loaded host merged loaded)) name sub || any_matches sets name sub)
        ≡ (matches (some merged) name sub || any_matches (loaded_set loaded sets) name sub)
  merge_loaded_lem merged (ok s) sets name sub = ground (arith, matches-merge merged s name sub)
  merge_loaded_lem merged (err e) sets name sub = refl

  matches-load_each :
      (disk : Disk) (merged : DomainSet) (sources : List Source) (cache_dir : Text) (limit : ℤ)
      (name : Text) (sub : Bool)
      → matches (some (load_each host disk merged sources cache_dir limit).1) name sub ≡ (
          matches (some merged) name sub
          || any_matches (sets_of disk sources cache_dir limit) name sub)
  unfolding load_each
  matches-load_each disk merged [] cache_dir limit name sub = ground arith
  matches-load_each disk merged (source ∷ sources) cache_dir limit name sub =
      let r = load_source host disk source cache_dir limit in
      elim (Bool-cases source.enabled) [
        | inr e ↦
            rw (e, load_each, sets_of)
              (matches-load_each disk merged sources cache_dir limit name sub)
        | inl e ↦
            rw (e, load_each, sets_of)
              (matches-load_each r.0 (merge_loaded host merged r.1) sources cache_dir limit name sub
                ∙ merge_loaded_lem merged r.1 (sets_of r.0 sources cache_dir limit) name sub)
      ]

  -- The set loaded from several sources matches what the set of some enabled source matches; a
  -- source that fails adds nothing and keeps nothing out.
  pub matches-load_sources :
      (disk : Disk) (sources : List Source) (cache_dir : Text) (limit : ℤ) (name : Text)
      (sub : Bool)
      → let (disk', dir) = ensure_cache_dir host disk cache_dir in
        matches (some (load_sources host disk sources cache_dir limit).1) name sub
        ≡ any_matches (sets_of disk' sources dir limit) name sub
  unfolding load_sources
  matches-load_sources disk sources cache_dir limit name sub =
      let (disk', dir) = ensure_cache_dir host disk cache_dir in
      ground (
        arith,
        matches-load_each disk' new_domain_set sources dir limit name sub,
        matches-new_domain_set name sub,
      )

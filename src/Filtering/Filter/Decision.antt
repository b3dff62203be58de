-- ===== src/Filtering/Filter/Decision.antt =====
-- Which names a filter blocks.
use resolvit.Prelude.{◌≡◌, ◌≢◌, ◌↔◌, refl, Bool, true, false, Option, none, some, [], arith}
use resolvit.Go.Text.{Text}
use resolvit.Filtering.DomainSet.{DomainSet, matches, normalize_lookup_name}
use resolvit.Filtering.DomainSet.Matching.{IsMatched, matches_iff, matches-new_domain_set}
use resolvit.Filtering.Filter.{Filter, or_empty, current_allowlist, current_blocklist, should_block}

-- A name is on a stored list if the list matches its normal form; on one that was never stored there
-- are no names.
abbrev pub IsListed : Option DomainSet → Text → Bool → Type 0
IsListed none name include_subdomains = ⊥
IsListed (some s) name include_subdomains =
    (normalize_lookup_name name ≢ []) × IsMatched s (normalize_lookup_name name) include_subdomains

or_empty-IsListed :
    (list : Option DomainSet) (name : Text) (sub : Bool)
    → (matches (some (or_empty list)) name sub ≡ true) ↔ IsListed list name sub
unfolding or_empty
or_empty-IsListed none name sub =
    (λ h. let none_matches = matches-new_domain_set name sub in cc, λ h. absurd h)
or_empty-IsListed (some s) name sub = matches_iff s name sub

passes_tests :
    (f : Filter) (name : Text)
    → should_block (some f) name ≡ true
    → (f.enabled ≡ true)
      × (matches (some (or_empty f.blocklist)) name f.block_subdomains ≡ true)
      × (matches (some (or_empty f.allowlist)) name f.block_subdomains ≡ false)
unfolding should_block current_blocklist current_allowlist
passes_tests f name h = ground arith

false_of_not : (b : Bool) → ¬ (b ≡ true) → b ≡ false
false_of_not true n = absurd (n refl)
false_of_not false n = refl

-- A filter blocks a name exactly if it is enabled, and the name is on its blocklist and not on its
-- allowlist. A name is on a list if its normal form is not empty and stands on the list itself, or is
-- below a wildcard of it, or, where subdomains count, below a name on it; a list that was never
-- stored has no names.
pub should_block_iff :
    (f : Filter) (name : Text)
    → (should_block (some f) name ≡ true) ↔ (
        (f.enabled ≡ true)
        × IsListed f.blocklist name f.block_subdomains
        × (¬ IsListed f.allowlist name f.block_subdomains))
unfolding should_block current_blocklist current_allowlist
should_block_iff f name =
    let sub = f.block_subdomains in
    let blocks = or_empty-IsListed f.blocklist name sub in
    let allows = or_empty-IsListed f.allowlist name sub in
    (
      λ h.
          let (on, blocked, clear) = passes_tests f name h in
          (on, blocks.0 blocked, λ l. let allowed = allows.1 l in absurd (cc)),
      λ h.
          let blocked = blocks.1 h.1 in
          let clear =
            false_of_not (matches (some (or_empty f.allowlist)) name sub) (λ m. h.2 (allows.0 m)) in
          ground arith,
    )

-- ===== src/Filtering/DomainSet.antt =====
-- pkg/filtering/domainset.go: sets of domains, exact or by wildcard. A Go set is a map to empty
-- structs.
pub mod Laws
pub mod Matching
use resolvit.Prelude.{
  ◌≡◌, refl, Bool, true, false, Option, none, some, List, [], ◌∷◌, if◌then◌else◌, not,
}
use resolvit.Go.Text.{Text, dot, is_empty, to_lower, trim_space, trim_dot_suffix, split, join}
use resolvit.Go.Dict.{Dict, insert, has}

abbrev pub Domains : Type 0
Domains = Dict (Unit {0})

pub record DomainSet : Type 0 where
  pub exact : Domains
  pub wildcards : Domains

abbrev pub new_domain_set : DomainSet
new_domain_set = record { exact = []; wildcards = [] }

unfoldable pub add_exact : DomainSet → Text → DomainSet
add_exact s domain = if is_empty domain then s else record s { exact = insert domain tt s.exact }

unfoldable pub add_wildcard : DomainSet → Text → DomainSet
add_wildcard s domain =
    if is_empty domain then s else record s { wildcards = insert domain tt s.wildcards }

-- for domain := range other { s[domain] = struct{}{} }
unfoldable pub insert_all : Domains → Domains → Domains
insert_all s [] = s
insert_all s ((domain, _) ∷ other) = insert_all (insert domain tt s) other

unfoldable pub merge : DomainSet → Option DomainSet → DomainSet
unfolding insert_all
merge s none = s
merge s (some other) = record {
  exact = insert_all s.exact other.exact;
  wildcards = insert_all s.wildcards other.wildcards;
}

-- The two tests for an empty text return it.
unfoldable pub normalize_lookup_name : Text → Text
normalize_lookup_name name =
    let trimmed = trim_space name in
    if is_empty trimmed
    then []
    else if is_empty (trim_dot_suffix trimmed)
    then []
    else to_lower (trim_dot_suffix trimmed)

-- The loop over `labels[i:]`.
tail_in : List Text → Domains → Bool
tail_in [] domains = false
tail_in (l ∷ ls) domains =
    let rest = tail_in ls domains in if has (join (l ∷ ls) dot) domains then true else rest

-- The loop begins behind the first label.
unfoldable pub matches_wildcard : List Text → Domains → Bool
unfolding tail_in
matches_wildcard [] wildcards = false
matches_wildcard (l ∷ ls) wildcards = tail_in ls wildcards

unfoldable pub matches_suffix : List Text → Domains → Bool
unfolding tail_in
matches_suffix [] exact = false
matches_suffix (l ∷ ls) exact = tail_in ls exact

matches_name : DomainSet → Text → Bool → Bool
unfolding matches_wildcard matches_suffix
matches_name s normalised include_subdomains =
    let labels = split normalised dot in
    if is_empty normalised
    then false
    else if has normalised s.exact
    then true
    else if matches_wildcard labels s.wildcards
    then true
    else if not include_subdomains
    then false
    else matches_suffix labels s.exact

-- A nil set matches nothing.
unfoldable pub matches : Option DomainSet → Text → Bool → Bool
unfolding matches_name
matches none name include_subdomains = false
matches (some s) name include_subdomains =
    matches_name s (normalize_lookup_name name) include_subdomains

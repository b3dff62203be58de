-- ===== src/Filtering/DomainSet/Matching.antt =====
-- Which names a set of domains matches.
use resolvit.Prelude.{
  ℕ, ◌≡◌, ◌≢◌, refl, sym, ap, ◌∙◌, ◌⊎◌, inl, inr, ◌↔◌, Bool, true, false, ◌||◌, some, List, [], ◌∷◌,
  ◌++◌, arith, ◌==◌, Bool-cases, ==_iff,
}
use resolvit.Go.Text.{Text, dot, is_empty, split}
use resolvit.Go.Text.Suffixes.{suffixes, joined_tails, joined_tails-split}
use resolvit.Go.Dict.{has, lookup}
use resolvit.Filtering.DomainSet.{
  Domains, DomainSet, normalize_lookup_name, tail_in, matches_wildcard, matches_suffix,
  matches_name, matches, merge, insert_all, new_domain_set,
}
use resolvit.Filtering.DomainSet.Laws.{has-insert_all}

any_in : List Text → Domains → Bool
any_in [] domains = false
any_in (t ∷ ts) domains = has t domains || any_in ts domains

tail_in-any_in :
    (ls : List Text) (domains : Domains) → tail_in ls domains ≡ any_in (joined_tails dot ls) domains
unfolding tail_in any_in joined_tails
tail_in-any_in [] domains = refl
tail_in-any_in (l ∷ ls) domains = ground (arith, tail_in-any_in ls domains)

wildcard-any_in :
    (ls : List Text) (s : Text) (ts : List Text) (domains : Domains)
    → joined_tails dot ls ≡ s ∷ ts
    → matches_wildcard ls domains ≡ any_in ts domains
unfolding matches_wildcard joined_tails
wildcard-any_in [] s ts domains e = cc
wildcard-any_in (l ∷ ls) s ts domains e =
    let q : joined_tails dot ls ≡ ts = cc in
    tail_in-any_in ls domains ∙ ap (λ us. any_in us domains) q

suffix-any_in :
    (ls : List Text) (s : Text) (ts : List Text) (domains : Domains)
    → joined_tails dot ls ≡ s ∷ ts
    → matches_suffix ls domains ≡ any_in ts domains
unfolding matches_suffix joined_tails
suffix-any_in [] s ts domains e = cc
suffix-any_in (l ∷ ls) s ts domains e =
    let q : joined_tails dot ls ≡ ts = cc in
    tail_in-any_in ls domains ∙ ap (λ us. any_in us domains) q

-- Some suffix of the name behind a dot is in the set.
abbrev pub ParentIn : Text → Domains → Type 0
ParentIn name domains =
    (pre : Text) × (suf : Text) × (name ≡ pre ++ dot ∷ suf) × (has suf domains ≡ true)

ParentIn-cons :
    (c : ℕ) (s : Text) (domains : Domains) → ParentIn s domains → ParentIn (c ∷ s) domains
ParentIn-cons c s domains p = let (pre, suf, q, i) = p in (c ∷ pre, suf, ap (◌∷◌ c) q, i)

any_in-ParentIn :
    (s : Text) (domains : Domains) → any_in (suffixes dot s) domains ≡ true → ParentIn s domains
unfolding any_in suffixes
any_in-ParentIn [] domains h = cc
any_in-ParentIn (c ∷ s) domains h = elim (Bool-cases (c == dot)) [
  | inr e ↦ ParentIn-cons c s domains (any_in-ParentIn s domains (rw e at h))
  | inl e ↦ elim (Bool-cases (has s domains)) [
    | inl here ↦ ([], s, ap (λ x. x ∷ s) ((==_iff c dot).0 e), here)
    | inr gone ↦ ParentIn-cons c s domains (any_in-ParentIn s domains (rw (e, gone) at h))
  ]
]

ParentIn-any_in :
    (s : Text) (domains : Domains) (pre suf : Text)
    → s ≡ pre ++ dot ∷ suf
    → has suf domains ≡ true
    → any_in (suffixes dot s) domains ≡ true
unfolding any_in suffixes
ParentIn-any_in [] domains [] suf e h = cc
ParentIn-any_in [] domains (x ∷ pre) suf e h = cc
ParentIn-any_in (c ∷ s) domains [] suf e h =
    let same : s ≡ suf = cc in let first : c ≡ dot = cc in rw ((==_iff c dot).1 first, same, h) refl
ParentIn-any_in (c ∷ s) domains (x ∷ pre) suf e h =
    ground (arith, ParentIn-any_in s domains pre suf (cc) h)

-- A name in normal form, without the final dot, is matched by itself, by a wildcard for a domain
-- above it, or, with subdomains, by a domain above it.
abbrev pub IsMatched : DomainSet → Text → Bool → Type 0
IsMatched s name include_subdomains =
    (has name s.exact ≡ true)
    ⊎ ParentIn name s.wildcards
    ⊎ ((include_subdomains ≡ true) × ParentIn name s.exact)

module _ (s : DomainSet) (name : Text) (include_subdomains : Bool) where
  wildcards_iff : (matches_wildcard (split name dot) s.wildcards ≡ true) ↔ ParentIn name s.wildcards
  wildcards_iff =
      let e =
        wildcard-any_in (split name dot) name (suffixes dot name) s.wildcards
          (joined_tails-split dot name) in
      (
        λ h. any_in-ParentIn name s.wildcards (sym e ∙ h),
        λ p. e ∙ ParentIn-any_in name s.wildcards p.0 p.1 p.2 p.3,
      )

  suffix_iff : (matches_suffix (split name dot) s.exact ≡ true) ↔ ParentIn name s.exact
  suffix_iff =
      let e =
        suffix-any_in (split name dot) name (suffixes dot name) s.exact
          (joined_tails-split dot name) in
      (
        λ h. any_in-ParentIn name s.exact (sym e ∙ h),
        λ p. e ∙ ParentIn-any_in name s.exact p.0 p.1 p.2 p.3,
      )

  is_empty-ne : is_empty name ≡ false → name ≢ []
  is_empty-ne h e = cc (ap is_empty e)

  matches_name_sound :
      matches_name s name include_subdomains ≡ true
      → (name ≢ []) × IsMatched s name include_subdomains
  unfolding matches_name
  matches_name_sound h = elim (Bool-cases (is_empty name)) [
    | inl e ↦ absurd (ground arith)
    | inr e ↦ (
      is_empty-ne e,
      elim (Bool-cases (has name s.exact)) [
        | inl here ↦ inl here
        | inr gone ↦ elim (Bool-cases (matches_wildcard (split name dot) s.wildcards)) [
          | inl wild ↦ inr (inl (wildcards_iff.0 wild))
          | inr tame ↦ inr (inr (ground arith, suffix_iff.0 (ground arith)))
        ]
      ],
    )
  ]

  matches_name_complete :
      is_empty name ≡ false
      → IsMatched s name include_subdomains
      → matches_name s name include_subdomains ≡ true
  unfolding matches_name
  matches_name_complete e (inl here) = ground arith
  matches_name_complete e (inr (inl wild)) = let w = wildcards_iff.1 wild in ground arith
  matches_name_complete e (inr (inr (sub, parent))) = let w = suffix_iff.1 parent in ground arith

is_empty_of_ne : (name : Text) → name ≢ [] → is_empty name ≡ false
is_empty_of_ne [] n = absurd (n refl)
is_empty_of_ne (c ∷ s) n = refl

-- `Matches` holds exactly for the names that do not normalise to nothing and whose normal form is in
-- the exact domains, or has a suffix behind a dot among the wildcards, or, with subdomains, among
-- the exact domains.
pub matches_iff :
    (s : DomainSet) (name : Text) (include_subdomains : Bool)
    → (matches (some s) name include_subdomains ≡ true) ↔ (
        (normalize_lookup_name name ≢ [])
        × IsMatched s (normalize_lookup_name name) include_subdomains)
unfolding matches
matches_iff s name include_subdomains =
    let n = normalize_lookup_name name in
    (
      matches_name_sound s n include_subdomains,
      λ h. matches_name_complete s n include_subdomains (is_empty_of_ne n h.0) h.1,
    )

any_in-insert_all :
    (ts : List Text) (d e : Domains) → any_in ts (insert_all d e) ≡ (any_in ts d || any_in ts e)
unfolding any_in
any_in-insert_all [] d e = refl
any_in-insert_all (t ∷ ts) d e = ground (arith, has-insert_all t d e, any_in-insert_all ts d e)

matches_name-merge :
    (s other : DomainSet) (name : Text) (include_subdomains : Bool)
    → matches_name (merge s (some other)) name include_subdomains
      ≡ (matches_name s name include_subdomains || matches_name other name include_subdomains)
unfolding matches_name merge
matches_name-merge s other name include_subdomains =
    let ts = suffixes dot name in
    let parts = split name dot in
    let q = joined_tails-split dot name in
    ground (
      arith,
      has-insert_all name s.exact other.exact,
      wildcard-any_in parts name ts (insert_all s.wildcards other.wildcards) q,
      wildcard-any_in parts name ts s.wildcards q,
      wildcard-any_in parts name ts other.wildcards q,
      suffix-any_in parts name ts (insert_all s.exact other.exact) q,
      suffix-any_in parts name ts s.exact q,
      suffix-any_in parts name ts other.exact q,
      any_in-insert_all ts s.wildcards other.wildcards,
      any_in-insert_all ts s.exact other.exact,
    )

-- The merge of two sets matches what either of them matches.
pub matches-merge :
    (s other : DomainSet) (name : Text) (include_subdomains : Bool)
    → matches (some (merge s (some other))) name include_subdomains
      ≡ (matches (some s) name include_subdomains || matches (some other) name include_subdomains)
unfolding matches
matches-merge s other name include_subdomains =
    matches_name-merge s other (normalize_lookup_name name) include_subdomains

any_in-nil : (ts : List Text) → any_in ts [] ≡ false
unfolding any_in lookup
any_in-nil [] = refl
any_in-nil (t ∷ ts) = any_in-nil ts

pub matches-new_domain_set :
    (name : Text) (include_subdomains : Bool)
    → matches (some new_domain_set) name include_subdomains ≡ false
unfolding matches matches_name lookup
matches-new_domain_set name include_subdomains =
    let n = normalize_lookup_name name in
    let ts = suffixes dot n in
    let q = joined_tails-split dot n in
    ground (
      arith,
      wildcard-any_in (split n dot) n ts [] q,
      suffix-any_in (split n dot) n ts [] q,
      any_in-nil ts,
    )

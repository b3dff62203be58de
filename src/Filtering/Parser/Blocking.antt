-- ===== src/Filtering/Parser/Blocking.antt =====
-- What a parsed list blocks, said of the tokens of its lines.
use mathlib.Core.List.{Memᴰ}
use mathlib.Core.List.Memᴰ
use resolvit.Prelude.{
  ◌≡◌, ◌≢◌, ◌↔◌, ◌⊎◌, refl, sym, ap, ◌∙◌, Bool, true, false, Option, none, some, List, [], ◌∷◌,
  ◌++◌, arith, Bool-cases, inl, inr,
}
use resolvit.Go.Text.{Text, dot, text_eq}
use resolvit.Go.Text.Equality.{text_eq_iff}
use resolvit.Go.Dict.{insert, has, lookup}
use resolvit.Go.Int.{ℤ}
use resolvit.Go.Scan.{File}
use resolvit.Filtering.DomainSet.{
  DomainSet, Domains, new_domain_set, matches, normalize_lookup_name,
}
use resolvit.Filtering.DomainSet.Laws.{has-insert}
use resolvit.Filtering.DomainSet.Matching.{IsMatched, matches_iff}
use resolvit.Filtering.Parser.{parse_list, parse_lines, begin_parse}
use resolvit.Filtering.Parser.Tokens.{
  Entry, exact, wildcard, entry_of, insert_entry, insert_tokens, list_tokens, parse_lines-set,
}

-- The name ends in a dot and the domain.
abbrev pub Below : Text → Text → Type 0
Below name domain = (pre : Text) × (name ≡ pre ++ dot ∷ domain)

-- A name in normal form against an entry.
abbrev pub Blocks : Entry → Text → Bool → Type 0
Blocks (exact k) name include_subdomains = (name ≡ k) ⊎ ((include_subdomains ≡ true) × Below name k)
Blocks (wildcard k) name include_subdomains = Below name k

abbrev in_set : DomainSet → Entry → Bool
in_set s (exact k) = has k s.exact
in_set s (wildcard k) = has k s.wildcards

has-insert_iff :
    (j k : Text) (s : Domains) → (has j (insert k tt s) ≡ true) ↔ ((has j s ≡ true) ⊎ (k ≡ j))
has-insert_iff j k s = (
  λ h. elim (Bool-cases (text_eq k j)) [
    | inl e ↦ inr ((text_eq_iff k j).0 e)
    | inr e ↦ inl (ground (arith, has-insert j k s))
  ],
  λ h. elim h [
    | inl old ↦ ground (arith, has-insert j k s)
    | inr e ↦ let t = (text_eq_iff k j).1 e in ground (arith, has-insert j k s)
  ],
)

in_set-insert_entry :
    (s : DomainSet) (o : Option Entry) (e : Entry)
    → (in_set (insert_entry s o) e ≡ true) ↔ ((in_set s e ≡ true) ⊎ (o ≡ some e))
in_set-insert_entry s none e = (inl, λ h. elim h [ inl i ↦ i | inr n ↦ cc ])
in_set-insert_entry s (some (exact k)) (exact j) =
    let i = has-insert_iff j k s.exact in
    (
      λ h. elim (i.0 h) [ inl old ↦ inl old | inr q ↦ inr (ap (λ x. some (exact x)) q) ],
      λ h. elim h [ inl old ↦ i.1 (inl old) | inr q ↦ i.1 (inr (cc)) ],
    )
in_set-insert_entry s (some (wildcard k)) (wildcard j) =
    let i = has-insert_iff j k s.wildcards in
    (
      λ h. elim (i.0 h) [ inl old ↦ inl old | inr q ↦ inr (ap (λ x. some (wildcard x)) q) ],
      λ h. elim h [ inl old ↦ i.1 (inl old) | inr q ↦ i.1 (inr (cc)) ],
    )
in_set-insert_entry s (some (exact k)) (wildcard j) = (inl, λ h. elim h [ inl i ↦ i | inr n ↦ cc ])
in_set-insert_entry s (some (wildcard k)) (exact j) = (inl, λ h. elim h [ inl i ↦ i | inr n ↦ cc ])

module _ (is_domain_name : Text → Bool) where
  -- One of the tokens stands for the entry.
  abbrev pub Lists : List Text → Entry → Type 0
  Lists tokens e = (token : Text) × Memᴰ token tokens × (entry_of is_domain_name token ≡ some e)

  in_set-insert_tokens :
      (s : DomainSet) (tokens : List Text) (e : Entry)
      → (in_set (insert_tokens is_domain_name s tokens) e ≡ true)
        ↔ ((in_set s e ≡ true) ⊎ Lists tokens e)
  in_set-insert_tokens s [] e =
      (inl, λ h. elim h [ inl i ↦ i | inr (t, m, q) ↦ absurd (Memᴰ.not-nil m) ])
  in_set-insert_tokens s (t ∷ ts) e =
      let first = in_set-insert_entry s (entry_of is_domain_name t) e in
      let later = in_set-insert_tokens (insert_entry s (entry_of is_domain_name t)) ts e in
      (
        λ h. elim (later.0 h) [
          | inl i ↦ elim (first.0 i) [ inl old ↦ inl old | inr q ↦ inr (t, Memᴰ.head refl, q) ]
          | inr (u, m, q) ↦ inr (u, Memᴰ.tail m, q)
        ],
        λ h. elim h [
          | inl old ↦ later.1 (inl (first.1 (inl old)))
          | inr (u, m, q) ↦ elim (Memᴰ.cases_cons m) [
            | inl e ↦ later.1 (inl (first.1 (inr (ap (entry_of is_domain_name) (sym e) ∙ q))))
            | inr m' ↦ later.1 (inr (u, m', q))
          ]
        ],
      )

  nothing_in : (e : Entry) → in_set new_domain_set e ≡ false
  unfolding lookup
  nothing_in (exact k) = refl
  nothing_in (wildcard k) = refl

  parsed_set : List Text → ℤ → DomainSet
  parsed_set lines limit =
      (parse_lines is_domain_name (begin_parse is_domain_name limit) 1 lines).set

  in_parsed_set :
      (lines : List Text) (limit : ℤ) (e : Entry)
      → (in_set (parsed_set lines limit) e ≡ true) ↔ Lists (list_tokens is_domain_name lines) e
  unfolding parsed_set
  in_parsed_set lines limit e =
      let q = parse_lines-set is_domain_name (begin_parse is_domain_name limit) 1 lines in
      let i = in_set-insert_tokens new_domain_set (list_tokens is_domain_name lines) e in
      (
        λ h. elim (i.0 (ap (λ s. in_set s e) (sym q) ∙ h)) [
          | inl old ↦ absurd (cc (nothing_in e))
          | inr l ↦ l
        ],
        λ l. ap (λ s. in_set s e) q ∙ i.1 (inr l),
      )

cause_of_match :
    (s : DomainSet) (name : Text) (include_subdomains : Bool)
    → IsMatched s name include_subdomains
      ↔ ((e : Entry) × (in_set s e ≡ true) × Blocks e name include_subdomains)
cause_of_match s name include_subdomains = (to, from)
  where
    to :
        IsMatched s name include_subdomains
        → (e : Entry) × (in_set s e ≡ true) × Blocks e name include_subdomains
    to (inl here) = (exact name, here, inl refl)
    to (inr (inl (pre, suf, q, i))) = (wildcard suf, i, (pre, q))
    to (inr (inr (sub, (pre, suf, q, i)))) = (exact suf, i, inr (sub, (pre, q)))

    from :
        (e : Entry) × (in_set s e ≡ true) × Blocks e name include_subdomains
        → IsMatched s name include_subdomains
    from (exact k, i, inl q) = inl (rw q i)
    from (exact k, i, inr (sub, (pre, q))) = inr (inr (sub, (pre, k, q, i)))
    from (wildcard k, i, (pre, q)) = inr (inl (pre, k, q, i))

-- The set parsed from a file that is read to its end matches a name exactly when the name does not
-- normalise to nothing and some token of the lines, outside the comments, stands for an entry that
-- blocks its normal form: the domain itself, with subdomains a domain above it, or a wildcard for a
-- domain above it.
pub parse_list_iff :
    (is_domain_name : Text → Bool) (file : File) (limit : ℤ) (name : Text)
    (include_subdomains : Bool)
    → file.scan_fails ≡ false
    → (matches (parse_list is_domain_name file limit).0 name include_subdomains ≡ true) ↔ (
        (normalize_lookup_name name ≢ [])
        × ((e : Entry) × Lists is_domain_name (list_tokens is_domain_name file.lines) e
            × Blocks e (normalize_lookup_name name) include_subdomains))
unfolding parse_list parsed_set
parse_list_iff is_domain_name file limit name include_subdomains f =
    let s = parsed_set is_domain_name file.lines limit in
    let n = normalize_lookup_name name in
    let m = matches_iff s name include_subdomains in
    let split = cause_of_match s n include_subdomains in
    let listed = in_parsed_set is_domain_name file.lines limit in
    rw f (
      λ h.
          let (ne, matched) = m.0 h in
          let (e, i, b) = split.0 matched in (ne, (e, (listed e).0 i, b)),
      λ h. let (ne, (e, l, b)) = h in m.1 (ne, split.1 (e, (listed e).1 l, b)),
    )

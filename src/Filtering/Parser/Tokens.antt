-- ===== src/Filtering/Parser/Tokens.antt =====
-- Which entry a token of a list stands for, described with the normal form of a lookup, and that
-- `addToken` puts just that entry into the set.
use resolvit.Prelude.{
  ℕ, ◌+◌, ◌≡◌, refl, sym, ap, ◌∙◌, Bool, true, false, not, ◌||◌, Option, none, some, List, [], ◌∷◌,
  ◌++◌, if◌then◌else◌, is_some, arith,
}
use resolvit.Go.Text.{
  Text, codes, is_empty, to_lower, trim_space, has_prefix, trim_prefix, contains, trim_dot_suffix,
  after_prefix, fields,
}
use resolvit.Go.Dict.{insert}
use resolvit.Go.Ip.{parse_ip}
use resolvit.Filtering.DomainSet.{DomainSet, add_exact, add_wildcard, normalize_lookup_name}
use resolvit.Filtering.Parser.{
  Result, ok, err, Progress, add_token, add_canonical, normalize_domain, record_token, add_tokens,
  parse_line, parse_lines, entries, is_comment, strip_bom,
}

-- A domain by itself, or all domains below it.
pub data Entry : Type 0 where
  exact : Text → Entry
  wildcard : Text → Entry

abbrev pub insert_entry : DomainSet → Option Entry → DomainSet
insert_entry s none = s
insert_entry s (some (exact k)) = record s { exact = insert k tt s.exact }
insert_entry s (some (wildcard k)) = record s { wildcards = insert k tt s.wildcards }

-- The set after a token, which an error leaves as it was.
abbrev pub set_after : DomainSet → Result DomainSet → DomainSet
set_after s (ok s') = s'
set_after s (err e) = s

abbrev pub is_ok : {A : Type 0} → Result A → Bool
is_ok (ok a) = true
is_ok (err e) = false

is_empty-to_lower : (s : Text) → is_empty (to_lower s) ≡ is_empty s
unfolding to_lower
is_empty-to_lower [] = refl
is_empty-to_lower (c ∷ s) = refl

has_prefix_shorter :
    (s : Text) → has_prefix s (codes "://") ≡ true → has_prefix s (codes ":") ≡ true
unfolding has_prefix after_prefix
has_prefix_shorter [] h = cc
has_prefix_shorter (c ∷ s) h = ground arith

contains_shorter : (s : Text) → contains s (codes "://") ≡ true → contains s (codes ":") ≡ true
unfolding contains
contains_shorter [] h = has_prefix_shorter [] h
contains_shorter (c ∷ s) h = ground (arith, has_prefix_shorter (c ∷ s), contains_shorter s)

module _ (is_domain_name : Text → Bool) where
  -- The entry for a host name, if its normal form is a domain name.
  abbrev pub entry_for : (Text → Entry) → Text → Option Entry
  entry_for make name =
      let k = normalize_lookup_name name in
      if is_empty k || not (is_domain_name k) then none else some (make k)

  abbrev pub entry_of : Text → Option Entry
  entry_of token =
      let name = trim_space token in
      if contains name (codes "/") || contains name (codes ":") || is_some (parse_ip name)
      then none
      else if has_prefix name (codes "*.")
      then entry_for wildcard (trim_prefix name (codes "*."))
      else entry_for exact name

  exact-entry_for :
      (s : DomainSet) (name : Text)
      → set_after s
          (add_canonical is_domain_name (add_exact s) (normalize_domain is_domain_name name))
        ≡ insert_entry s (entry_for exact name)
  unfolding normalize_domain normalize_lookup_name add_exact
  exact-entry_for s name = ground (arith, is_empty-to_lower (trim_dot_suffix (trim_space name)))

  wildcard-entry_for :
      (s : DomainSet) (name : Text)
      → set_after s
          (add_canonical is_domain_name (add_wildcard s) (normalize_domain is_domain_name name))
        ≡ insert_entry s (entry_for wildcard name)
  unfolding normalize_domain normalize_lookup_name add_wildcard
  wildcard-entry_for s name = ground (arith, is_empty-to_lower (trim_dot_suffix (trim_space name)))

  entry_for-nil : entry_for exact [] ≡ none
  unfolding normalize_lookup_name trim_space
  entry_for-nil = refl

  no_prefix : has_prefix [] (codes "*.") ≡ false
  unfolding has_prefix
  no_prefix = refl

  is_empty-nil : (s : Text) → is_empty s ≡ true → s ≡ []
  is_empty-nil [] h = refl
  is_empty-nil (c ∷ s) h = cc

  entry_of_empty : (token : Text) → is_empty (trim_space token) ≡ true → entry_of token ≡ none
  entry_of_empty token h =
      rw (is_empty-nil (trim_space token) h, no_prefix, entry_for-nil) (ground arith)

  -- `addToken` adds the entry that the token stands for.
  pub add_token-entry_of :
      (s : DomainSet) (token : Text)
      → set_after s (add_token is_domain_name s token) ≡ insert_entry s (entry_of token)
  unfolding add_token
  add_token-entry_of s token =
      let name = trim_space token in
      let rest = trim_prefix name (codes "*.") in
      ground (
        arith,
        entry_of_empty token,
        contains_shorter name,
        exact-entry_for s name,
        wildcard-entry_for s rest,
      )

  is_ok-entry_for :
      (make : Text → Entry) (add : Text → DomainSet) (name : Text)
      → is_ok (add_canonical is_domain_name add (normalize_domain is_domain_name name))
        ≡ is_some (entry_for make name)
  unfolding normalize_domain normalize_lookup_name
  is_ok-entry_for make add name =
      ground (arith, is_empty-to_lower (trim_dot_suffix (trim_space name)))

  -- `addToken` fails exactly on the tokens that stand for no entry.
  pub is_ok-add_token :
      (s : DomainSet) (token : Text)
      → is_ok (add_token is_domain_name s token) ≡ is_some (entry_of token)
  unfolding add_token
  is_ok-add_token s token =
      let name = trim_space token in
      let rest = trim_prefix name (codes "*.") in
      ground (
        arith,
        entry_of_empty token,
        contains_shorter name,
        is_ok-entry_for exact (add_exact s) name,
        is_ok-entry_for wildcard (add_wildcard s) rest,
      )

  record_token-set :
      (p : Progress) (n : ℕ) (token : Text) (r : Result DomainSet)
      → (record_token is_domain_name p n token r).set ≡ set_after p.set r
  unfolding record_token
  record_token-set p n token (ok s) = refl
  record_token-set p n token (err e) = refl

  -- The tokens before the first that begins a comment.
  abbrev pub before_comment : List Text → List Text
  before_comment [] = []
  before_comment (t ∷ ts) = elim (is_comment t) [ true ↦ [] | false ↦ t ∷ before_comment ts ]

  -- The tokens of a line that are read as entries.
  abbrev pub line_tokens : Text → List Text
  line_tokens text =
      let line = trim_space (strip_bom text) in
      if is_empty line || is_comment line
      then []
      else before_comment (entries is_domain_name (fields line))

  abbrev pub list_tokens : List Text → List Text
  list_tokens [] = []
  list_tokens (text ∷ rest) = line_tokens text ++ list_tokens rest

  abbrev pub insert_tokens : DomainSet → List Text → DomainSet
  insert_tokens s [] = s
  insert_tokens s (t ∷ ts) = insert_tokens (insert_entry s (entry_of t)) ts

  insert_tokens-append :
      (s : DomainSet) (ts us : List Text)
      → insert_tokens s (ts ++ us) ≡ insert_tokens (insert_tokens s ts) us
  insert_tokens-append s [] us = refl
  insert_tokens-append s (t ∷ ts) us = insert_tokens-append (insert_entry s (entry_of t)) ts us

  add_tokens-set :
      (p : Progress) (n : ℕ) (ts : List Text)
      → (add_tokens is_domain_name p n ts).set ≡ insert_tokens p.set (before_comment ts)
  unfolding add_tokens
  add_tokens-set p n [] = refl
  add_tokens-set p n (t ∷ ts) =
      let added = add_token is_domain_name p.set t in
      let p' = record_token is_domain_name p n t added in
      elim (is_comment t)
        as (λ b.
          (elim b as (λ _. Progress) [ true ↦ p | false ↦ add_tokens is_domain_name p' n ts ]).set
          ≡ insert_tokens p.set
              (elim b as (λ _. List Text) [ true ↦ [] | false ↦ t ∷ before_comment ts ])) [
                | true ↦ refl
                | false ↦
                    add_tokens-set p' n ts
                    ∙ ap (λ s. insert_tokens s (before_comment ts))
                        (record_token-set p n t added ∙ add_token-entry_of p.set t)
              ]

  parse_line-set :
      (p : Progress) (n : ℕ) (text : Text)
      → (parse_line is_domain_name p n text).set ≡ insert_tokens p.set (line_tokens text)
  unfolding parse_line
  parse_line-set p n text =
      let line = trim_space (strip_bom text) in
      let counted : Progress = record p {
        stats = record p.stats { total_lines = p.stats.total_lines + 1 };
      } in
      let added = add_tokens-set counted n (entries is_domain_name (fields line)) in
      ground (arith, added)

  pub parse_lines-set :
      (p : Progress) (n : ℕ) (lines : List Text)
      → (parse_lines is_domain_name p n lines).set ≡ insert_tokens p.set (list_tokens lines)
  unfolding parse_lines
  parse_lines-set p n [] = refl
  parse_lines-set p n (text ∷ rest) =
      parse_lines-set (parse_line is_domain_name p n text) (n + 1) rest
      ∙ ap (λ s. insert_tokens s (list_tokens rest)) (parse_line-set p n text)
      ∙ sym (insert_tokens-append p.set (line_tokens text) (list_tokens rest))

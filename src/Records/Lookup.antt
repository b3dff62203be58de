-- ===== src/Records/Lookup.antt =====
-- What `Get` returns: the record of the name, or of the most specific wildcard above it.
mod Parts
use Parts.{first_wildcard, wildcard_match-suffixes}
use resolvit.Prelude.{
  ℕ, ◌<◌, ◌≡◌, ◌≢◌, refl, sym, ap, ◌∙◌, ◌⊎◌, inl, inr, Bool, true, false, not, ◌&&◌, Option, none,
  some, List, [], ◌∷◌, ◌++◌, arith, ◌==◌, length, Bool-cases, Option-cases, or_else, if◌then◌else◌,
  ==_iff,
}
use resolvit.Go.Text.{
  Text, dot, is_empty, text_eq, to_lower, trim_space, has_dot_suffix, split, join, cons_part,
}
use resolvit.Go.Text.Equality.{text_eq_iff, text_eq_refl}
use resolvit.Go.Text.Suffixes.{suffixes, joined_tails, joined_tails-split}
use resolvit.Go.Dict.{lookup, lookup-insert}
use resolvit.Records.{
  Record, Store, star_dot, normalize_name, wildcard_from, wildcard_match, get_normal, get,
  add_normal, add,
}
use resolvit.Records.Names.{IsNormal, normalize_name-IsNormal}

-- The wildcard for the text `suf` that follows a dot of the name answers, and none for a longer one.
pub record IsNearest (records : Store) (name : Text) (found : Record) (pre suf : Text)
    : Type 0 where
  pub splits : name ≡ pre ++ dot ∷ suf
  pub rest : suf ≢ []
  pub stored : lookup (star_dot ++ suf) records ≡ some found
  pub nearest :
      (pre' suf' : Text)
      → name ≡ pre' ++ dot ∷ suf'
      → suf' ≢ []
      → length pre' < length pre
      → lookup (star_dot ++ suf') records ≡ none

module _ (records : Store) where
  IsNearest-here :
      (c : ℕ) (s : Text) (found : Record)
      → c ≡ dot
      → s ≢ []
      → lookup (star_dot ++ s) records ≡ some found
      → IsNearest records (c ∷ s) found [] s
  IsNearest-here c s found e n h = record {
    splits = ap (λ x. x ∷ s) e;
    rest = n;
    stored = h;
    nearest = λ p t q m l. absurd (omega arith);
  }

  IsNearest-later :
      (c : ℕ) (s : Text) (found : Record) (pre suf : Text)
      → (c ≡ dot → s ≢ [] → lookup (star_dot ++ s) records ≡ none)
      → IsNearest records s found pre suf
      → IsNearest records (c ∷ s) found (c ∷ pre) suf
  IsNearest-later c s found pre suf missing h = record {
    splits = ap (◌∷◌ c) h.splits;
    rest = h.rest;
    stored = h.stored;
    nearest = longer;
  }
    where
      longer :
          (p t : Text)
          → (c ∷ s) ≡ p ++ dot ∷ t
          → t ≢ []
          → length p < length (c ∷ pre)
          → lookup (star_dot ++ t) records ≡ none
      longer [] t e n l =
          let same : s ≡ t = cc in rw (← same) (missing (cc) (λ q. n (sym same ∙ q)))
      longer (x ∷ p) t e n l = h.nearest p t (cc) n (omega arith)

  -- The search finds the wildcard of the longest suffix.
  pub first_wildcard-IsNearest :
      (s : Text) (found : Record)
      → first_wildcard records (suffixes dot s) ≡ some found
      → (pre : Text) × (suf : Text) × IsNearest records s found pre suf
  unfolding suffixes first_wildcard
  first_wildcard-IsNearest [] found h = cc
  first_wildcard-IsNearest (c ∷ s) found h = elim (Bool-cases (c == dot)) [
    | inr e ↦
        let (pre, suf, n) = first_wildcard-IsNearest s found (rw e at h) in
        (c ∷ pre, suf, IsNearest-later c s found pre suf (λ q. absurd (ground arith)) n)
    | inl e ↦ at_dot s ((==_iff c dot).0 e) (rw e at h) (first_wildcard-IsNearest s found)
  ]
    where
      at_dot :
          (t : Text)
          → c ≡ dot
          → first_wildcard records (t ∷ suffixes dot t) ≡ some found
          → (first_wildcard records (suffixes dot t) ≡ some found
              → (pre : Text) × (suf : Text) × IsNearest records t found pre suf)
          → (pre : Text) × (suf : Text) × IsNearest records (c ∷ t) found pre suf
      at_dot [] e h ih =
          let (pre, suf, n) = ih h in
          (c ∷ pre, suf, IsNearest-later c [] found pre suf (λ q m. absurd (m refl)) n)
      at_dot (d ∷ t) e h ih = elim (Option-cases (lookup (star_dot ++ d ∷ t) records)) [
        | inl miss ↦
            let (pre, suf, n) = ih (rw miss at h) in
            (c ∷ pre, suf, IsNearest-later c (d ∷ t) found pre suf (λ q m. miss) n)
        | inr (other, hit) ↦
            ([], d ∷ t, IsNearest-here c (d ∷ t) found e (cc) (hit ∙ (rw hit at h)))
      ]

  -- The search fails only if no suffix has a wildcard.
  first_wildcard-none :
      (s : Text)
      → first_wildcard records (suffixes dot s) ≡ none
      → (pre suf : Text) → s ≡ pre ++ dot ∷ suf
      → suf ≢ []
      → lookup (star_dot ++ suf) records ≡ none
  unfolding suffixes first_wildcard
  first_wildcard-none [] h [] suf e n = cc
  first_wildcard-none [] h (x ∷ pre) suf e n = cc
  first_wildcard-none (c ∷ s) h (x ∷ pre) suf e n = elim (Bool-cases (c == dot)) [
    | inr q ↦ first_wildcard-none s (rw q at h) pre suf (cc) n
    | inl q ↦ first_wildcard-none s (skip s (rw q at h)) pre suf (cc) n
  ]
    where
      skip :
          (t : Text)
          → first_wildcard records (t ∷ suffixes dot t) ≡ none
          → first_wildcard records (suffixes dot t) ≡ none
      skip [] k = k
      skip (d ∷ t) k = ground arith
  first_wildcard-none (c ∷ s) h [] suf e n = at_dot s (rw hit at h) (cc)
    where
      hit : (c == dot) ≡ true
      hit = (==_iff c dot).1 (cc)

      at_dot :
          (t : Text)
          → first_wildcard records (t ∷ suffixes dot t) ≡ none
          → t ≡ suf
          → lookup (star_dot ++ suf) records ≡ none
      at_dot [] k m = absurd (n (sym m))
      at_dot (d ∷ t) k m = rw (← m) (ground arith)

-- What a lookup of a normal name finds: the record under the name itself, or else the nearest
-- wildcard.
abbrev pub Answers : Store → Text → Record → Type 0
Answers records name found =
    (lookup name records ≡ some found)
    ⊎ ((pre : Text) × (suf : Text) × (lookup name records ≡ none)
        × IsNearest records name found pre suf)

get_normal-Answers :
    (records : Store) (name : Text) (found : Record)
    → has_dot_suffix name ≡ true
    → get_normal records name ≡ some found
    → Answers records name found
unfolding get_normal
get_normal-Answers records [] found d h = cc
get_normal-Answers records (c ∷ s) found d h = elim (Option-cases (lookup (c ∷ s) records)) [
  | inr (other, hit) ↦ inl (hit ∙ (rw (hit, get_normal) at h))
  | inl miss ↦
      let k : wildcard_match records (split (c ∷ s) dot) ≡ some found =
        rw (miss, get_normal) at h in
      let (pre, suf, near) =
        first_wildcard-IsNearest records (c ∷ s) found
          (sym (wildcard_match-suffixes records (c ∷ s) d) ∙ k) in
      inr (pre, suf, miss, near)
]

get_normal-nil : (records : Store) → get_normal records [] ≡ none
unfolding get_normal
get_normal-nil records = refl

-- If `Get` finds a record, then it stands under the normalised name itself, or the name itself has
-- no record, and the record stands under the wildcard of the longest suffix that has one.
pub get-Answers :
    (records : Store) (name : Text) (found : Record)
    → get records name ≡ some found
    → Answers records (normalize_name name) found
unfolding get
get-Answers records name found h = elim (normalize_name-IsNormal name) [
  | inl e ↦ absurd (cc (get_normal-nil records, ap (get_normal records) e))
  | inr n ↦ get_normal-Answers records (normalize_name name) found n.dotted h
]

get_normal-none :
    (records : Store) (name : Text)
    → has_dot_suffix name ≡ true
    → get_normal records name ≡ none
    → (lookup name records ≡ none)
      × ((pre suf : Text)
          → name ≡ pre ++ dot ∷ suf
          → suf ≢ []
          → lookup (star_dot ++ suf) records ≡ none)
unfolding get_normal
get_normal-none records [] d h = absurd (unfold has_dot_suffix in (cc))
get_normal-none records (c ∷ s) d h = elim (Option-cases (lookup (c ∷ s) records)) [
  | inr (other, hit) ↦ absurd (cc (rw (hit, get_normal) at h))
  | inl miss ↦
      let k : wildcard_match records (split (c ∷ s) dot) ≡ none = rw (miss, get_normal) at h in
      (
        miss,
        first_wildcard-none records (c ∷ s) (sym (wildcard_match-suffixes records (c ∷ s) d) ∙ k),
      )
]

-- If `Get` finds nothing for a name that does not normalise to nothing, then neither the name nor
-- any wildcard above it is stored.
pub get-none :
    (records : Store) (name : Text)
    → normalize_name name ≢ []
    → get records name ≡ none
    → (lookup (normalize_name name) records ≡ none)
      × ((pre suf : Text)
          → normalize_name name ≡ pre ++ dot ∷ suf
          → suf ≢ []
          → lookup (star_dot ++ suf) records ≡ none)
unfolding get
get-none records name n h = elim (normalize_name-IsNormal name) [
  | inl e ↦ absurd (n e)
  | inr k ↦ get_normal-none records (normalize_name name) k.dotted h
]

-- ===== src/Records/Lookup/Parts.antt =====
-- The loop of `Get` over the parts of a name, as a search of the name's suffixes.
use resolvit.Prelude.{
  ℕ, ◌≡◌, refl, ap, ◌∙◌, inl, inr, Bool, true, false, Option, none, List, [], ◌∷◌, ◌++◌, arith,
  ◌==◌, Bool-cases, or_else,
}
use resolvit.Go.Text.{Text, dot, is_empty, has_dot_suffix, split, join, cons_part}
use resolvit.Go.Text.Suffixes.{suffixes, joined_tails, joined_tails-split}
use resolvit.Go.Dict.{lookup}
use resolvit.Records.{Record, Store, star_dot, wildcard_from, wildcard_match}

ends_empty : List Text → Bool
ends_empty [] = false
ends_empty (l ∷ []) = is_empty l
ends_empty (l ∷ m ∷ ls) = ends_empty (m ∷ ls)

tail_ends_empty : List Text → Bool
tail_ends_empty [] = false
tail_ends_empty (p ∷ ps) = ends_empty ps

tail_ends_empty-cons_part :
    (c : ℕ) (ls : List Text) → tail_ends_empty (cons_part c ls) ≡ tail_ends_empty ls
unfolding tail_ends_empty cons_part ends_empty
tail_ends_empty-cons_part c [] = refl
tail_ends_empty-cons_part c (l ∷ ls) = refl

tail_ends_empty-cons :
    (ls : List Text) → tail_ends_empty ls ≡ true → tail_ends_empty ([] ∷ ls) ≡ true
unfolding tail_ends_empty ends_empty
tail_ends_empty-cons [] h = cc
tail_ends_empty-cons (l ∷ []) h = cc
tail_ends_empty-cons (l ∷ m ∷ ls) h = h

-- The last part of a name that ends in a dot is empty.
split-ends_empty : (s : Text) → has_dot_suffix s ≡ true → tail_ends_empty (split s dot) ≡ true
unfolding split has_dot_suffix
split-ends_empty [] h = cc
split-ends_empty (c ∷ []) h = rw h (unfold tail_ends_empty ends_empty in refl)
split-ends_empty (c ∷ d ∷ s) h =
    let ih = split-ends_empty (d ∷ s) h in
    let rest = split (d ∷ s) dot in
    elim (Bool-cases (c == dot)) [
      | inl e ↦ rw e (tail_ends_empty-cons rest ih)
      | inr e ↦ rw e (tail_ends_empty-cons_part c rest ∙ ih)
    ]

-- The first wildcard that is stored, over the texts of a list that are not empty.
unfoldable pub first_wildcard : Store → List Text → Option Record
first_wildcard records [] = none
first_wildcard records ([] ∷ ts) = first_wildcard records ts
first_wildcard records ((c ∷ t) ∷ ts) =
    or_else (lookup (star_dot ++ c ∷ t) records) (first_wildcard records ts)

first_wildcard-append_dot :
    (records : Store) (p t : Text) (ts : List Text)
    → first_wildcard records ((p ++ dot ∷ t) ∷ ts)
      ≡ or_else (lookup (star_dot ++ (p ++ dot ∷ t)) records) (first_wildcard records ts)
unfolding first_wildcard
first_wildcard-append_dot records [] t ts = refl
first_wildcard-append_dot records (c ∷ p) t ts = refl

wildcard_from-first :
    (records : Store) (ps : List Text)
    → ends_empty ps ≡ true
    → wildcard_from records ps ≡ first_wildcard records (joined_tails dot ps)
unfolding wildcard_from ends_empty joined_tails
wildcard_from-first records [] h = cc
wildcard_from-first records ([] ∷ []) h = unfold first_wildcard in refl
wildcard_from-first records ((c ∷ p) ∷ []) h = cc
wildcard_from-first records (p ∷ q ∷ ps) h =
    let rest = join (q ∷ ps) dot in
    rw (first_wildcard-append_dot records p rest (joined_tails dot (q ∷ ps)))
      (ground (arith, wildcard_from-first records (q ∷ ps) h))

wildcard_match-first :
    (records : Store) (ps : List Text) (s : Text) (ts : List Text)
    → tail_ends_empty ps ≡ true
    → joined_tails dot ps ≡ s ∷ ts
    → wildcard_match records ps ≡ first_wildcard records ts
unfolding wildcard_match tail_ends_empty joined_tails
wildcard_match-first records [] s ts h e = cc
wildcard_match-first records (p ∷ ps) s ts h e =
    wildcard_from-first records ps h ∙ ap (first_wildcard records) (cc)

-- On a name that ends in a dot the loop of `Get` searches the suffixes behind each dot.
pub wildcard_match-suffixes :
    (records : Store) (s : Text)
    → has_dot_suffix s ≡ true
    → wildcard_match records (split s dot) ≡ first_wildcard records (suffixes dot s)
wildcard_match-suffixes records s h =
    wildcard_match-first records (split s dot) s (suffixes dot s) (split-ends_empty s h)
      (joined_tails-split dot s)

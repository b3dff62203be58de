-- ===== src/Go/Text/Suffixes.antt =====
-- The suffixes that the program forms by splitting a name at a separator and joining the rest.
use resolvit.Prelude.{
  ℕ, ◌≡◌, refl, inl, inr, [], ◌∷◌, List, if◌then◌else◌, ◌==◌, ==_iff, Bool-cases,
}
use resolvit.Go.Text.{Text, split, join, cons_part}

module _ (sep : ℕ) where
  -- What follows each separator of a text, the longest first.
  unfoldable pub suffixes : Text → List Text
  suffixes [] = []
  suffixes (c ∷ s) = let rest = suffixes s in if c == sep then s ∷ rest else rest

  -- The texts that the parts from each index on spell.
  unfoldable pub joined_tails : List Text → List Text
  unfolding join
  joined_tails [] = []
  joined_tails (l ∷ ls) = join (l ∷ ls) sep ∷ joined_tails ls

  joined_tails_sep :
      (ls : List Text) (s : Text) (rest : List Text)
      → joined_tails ls ≡ s ∷ rest
      → joined_tails ([] ∷ ls) ≡ (sep ∷ s) ∷ s ∷ rest
  unfolding joined_tails
  joined_tails_sep [] s rest h = cc
  joined_tails_sep (l ∷ ls) s rest h = cc

  joined_tails-cons_part :
      (c : ℕ) (ls : List Text) (s : Text) (rest : List Text)
      → joined_tails ls ≡ s ∷ rest
      → joined_tails (cons_part c ls) ≡ (c ∷ s) ∷ rest
  unfolding joined_tails cons_part
  joined_tails-cons_part c [] s rest h = cc
  joined_tails-cons_part c (l ∷ []) s rest h = cc
  joined_tails-cons_part c (l ∷ m ∷ ls) s rest h = cc

  -- Splitting at the separators and joining from each part on gives the text and its suffixes.
  pub joined_tails-split : (s : Text) → joined_tails (split s sep) ≡ s ∷ suffixes s
  unfolding split suffixes
  joined_tails-split [] = unfold joined_tails in refl
  joined_tails-split (c ∷ s) = elim (Bool-cases (c == sep)) [
    | inl h ↦
        rw (h, (==_iff c sep).0 h)
          (joined_tails_sep (split s sep) s (suffixes s) (joined_tails-split s))
    | inr h ↦ rw h (joined_tails-cons_part c (split s sep) s (suffixes s) (joined_tails-split s))
  ]

-- ===== src/Go/Text/Parts.antt =====
-- Splitting at a separator, and joining again.
use resolvit.Prelude.{
  ℕ, ◌≡◌, refl, ap, ◌∙◌, inl, inr, false, [], ◌∷◌, ◌++◌, List, ◌==◌, ==_iff, Bool-cases, All,
}
use resolvit.Go.Text.{Text, split, join, cons_part}

module _ (sep : ℕ) where
  -- A text without the separator.
  abbrev pub IsPart : Text → Type 0
  IsPart = All (λ c. c == sep ≡ false)

  cons_part-IsPart :
      (c : ℕ) (ls : List Text) → c == sep ≡ false → All IsPart ls → All IsPart (cons_part c ls)
  unfolding cons_part
  cons_part-IsPart c [] h p = ((h, tt), tt)
  cons_part-IsPart c (l ∷ ls) h p = ((h, p.0), p.1)

  pub split-IsPart : (s : Text) → All IsPart (split s sep)
  unfolding split
  split-IsPart [] = (tt, tt)
  split-IsPart (c ∷ s) = elim (Bool-cases (c == sep)) [
    | inl h ↦ rw (h, split) (tt, split-IsPart s)
    | inr h ↦ rw (h, split) (cons_part-IsPart c (split s sep) h (split-IsPart s))
  ]

  split_part : (l : Text) → IsPart l → split l sep ≡ l ∷ []
  unfolding split cons_part
  split_part [] p = refl
  split_part (c ∷ l) p = rw (p.0, split_part l p.1) refl

  split_first : (l s : Text) → IsPart l → split (l ++ sep ∷ s) sep ≡ l ∷ split s sep
  unfolding split cons_part
  split_first [] s p = rw ((==_iff sep sep).1 refl) refl
  split_first (c ∷ l) s p = rw (p.0, split_first l s p.1) refl

  -- Parts without the separator are got back from their join.
  pub split-join :
      (l : Text) (ls : List Text) → All IsPart (l ∷ ls) → split (join (l ∷ ls) sep) sep ≡ l ∷ ls
  unfolding join
  split-join l [] p = split_part l p.0
  split-join l (m ∷ ls) p =
      split_first l (join (m ∷ ls) sep) p.0 ∙ ap (λ x. l ∷ x) (split-join m ls p.1)

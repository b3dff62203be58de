-- ===== src/Go/Dict.antt =====
-- Go maps with text keys. A map is a list of entries with the newest value of a key; a missing key
-- gives `none`.
use resolvit.Prelude.{
  Bool-cases, inl, inr, ◌⊎◌, ◌≡◌, Bool, Option, none, some, List, [], ◌∷◌, arith, if◌then◌else◌,
  is_some,
}
use resolvit.Go.Text.{Text, text_eq}
use resolvit.Go.Text.Equality.{text_eq_iff}

abbrev pub Dict {ℓ} : Type ℓ → Type ℓ
Dict V = List (Text × V)

module _ {ℓ} {V : Type ℓ} where
  unfoldable pub lookup : Text → Dict V → Option V
  lookup k [] = none
  lookup k ((j, v) ∷ m) = if text_eq j k then some v else lookup k m

  unfoldable pub insert : Text → V → Dict V → Dict V
  insert k v [] = (k, v) ∷ []
  insert k v ((j, w) ∷ m) = if text_eq j k then (k, v) ∷ m else (j, w) ∷ insert k v m

  abbrev pub has : Text → Dict V → Bool
  has k m = is_some (lookup k m)

  pub lookup-insert :
      (k j : Text) (v : V) (m : Dict V)
      → lookup j (insert k v m) ≡ (if text_eq k j then some v else lookup j m)
  unfolding lookup insert
  lookup-insert k j v [] = ground arith
  lookup-insert k j v ((i, w) ∷ m) =
      ground (arith, text_eq_iff k j, text_eq_iff i k, text_eq_iff i j, lookup-insert k j v m)

  -- What is found after an insertion is the new value or was there before.
  pub lookup-insert_found :
      (k j : Text) (v found : V) (m : Dict V)
      → lookup j (insert k v m) ≡ some found
      → (v ≡ found) ⊎ (lookup j m ≡ some found)
  lookup-insert_found k j v found m h = elim (Bool-cases (text_eq k j)) [
    | inl e ↦ let same : some v ≡ some found = rw (lookup-insert k j v m, e) at h in inl (cc)
    | inr e ↦ inr (rw (lookup-insert k j v m, e) at h)
  ]

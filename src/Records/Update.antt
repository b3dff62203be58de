-- ===== src/Records/Update.antt =====
-- What `Add` changes for later lookups.
use resolvit.Prelude.{
  ℕ, ◌≡◌, ◌≢◌, refl, ap, inl, inr, true, false, some, List, [], ◌∷◌, ◌++◌, arith, Bool-cases,
}
use resolvit.Go.Text.{Text, dot, text_eq, to_lower, join, split, has_prefix}
use resolvit.Go.Text.Equality.{text_eq_iff, text_eq_refl, text_eq_sound}
use resolvit.Go.Dict.{insert, lookup-insert}
use resolvit.Records.{
  Record, Store, star_dot, normalize_name, wildcard_from, wildcard_match, get_normal, get,
  add_normal, add,
}

get_normal-insert_self :
    (records : Store) (c : ℕ) (s : Text) (found : Record)
    → get_normal (insert (c ∷ s) found records) (c ∷ s) ≡ some found
unfolding get_normal
get_normal-insert_self records c s found =
    ground (arith, lookup-insert (c ∷ s) (c ∷ s) found records, text_eq_refl (c ∷ s))

get_normal-add_normal :
    (records : Store) (name : Text) (found : Record)
    → name ≢ []
    → get_normal (add_normal records name found) name ≡ some found
unfolding add_normal
get_normal-add_normal records [] found n = absurd (n refl)
get_normal-add_normal records (c ∷ s) found n = get_normal-insert_self records c s found

-- After `Add`, every name with the same normal form, whatever its case or final dot, gets the new
-- record, in lower case.
pub get-add_self :
    (records : Store) (name asked typ content : Text)
    → normalize_name asked ≡ normalize_name name
    → normalize_name name ≢ []
    → get (add records name typ content) asked
      ≡ some (record { typ = to_lower typ; content = to_lower content })
unfolding get add
get-add_self records name asked typ content e n =
    rw e (get_normal-add_normal records (normalize_name name) _ n)

-- A name that is not a wildcard.
abbrev pub IsPlain : Text → Type 0
IsPlain name = has_prefix name star_dot ≡ false

has_prefix-star : (t : Text) → has_prefix (star_dot ++ t) star_dot ≡ true
unfolding has_prefix
has_prefix-star t = refl

text_eq-star : (name t : Text) → IsPlain name → text_eq name (star_dot ++ t) ≡ false
text_eq-star name t p = elim (Bool-cases (text_eq name (star_dot ++ t))) [
  | inr e ↦ e
  | inl e ↦
      cc (has_prefix-star t, ap (λ x. has_prefix x star_dot) (text_eq_sound name (star_dot ++ t) e))
]

module _ (records : Store) (name : Text) (found : Record) (plain : IsPlain name) where
  wildcard_from-insert :
      (ps : List Text) → wildcard_from (insert name found records) ps ≡ wildcard_from records ps
  unfolding wildcard_from
  wildcard_from-insert [] = refl
  wildcard_from-insert (p ∷ []) = refl
  wildcard_from-insert (p ∷ q ∷ ps) =
      let rest = join (p ∷ q ∷ ps) dot in
      ground (
        arith,
        lookup-insert name (star_dot ++ rest) found records,
        text_eq-star name rest plain,
        wildcard_from-insert (q ∷ ps),
      )

  wildcard_match-insert :
      (ps : List Text) → wildcard_match (insert name found records) ps ≡ wildcard_match records ps
  unfolding wildcard_match
  wildcard_match-insert [] = refl
  wildcard_match-insert (p ∷ ps) = wildcard_from-insert ps

  get_normal-insert_ne :
      (asked : Text)
      → text_eq name asked ≡ false
      → get_normal (insert name found records) asked ≡ get_normal records asked
  unfolding get_normal
  get_normal-insert_ne [] n = refl
  get_normal-insert_ne (c ∷ s) n =
      ground
        (arith, lookup-insert name (c ∷ s) found records, wildcard_match-insert (split (c ∷ s) dot))

get_normal-add_normal_ne :
    (records : Store) (name asked : Text) (found : Record)
    → IsPlain name
    → name ≢ asked
    → get_normal (add_normal records name found) asked ≡ get_normal records asked
unfolding add_normal
get_normal-add_normal_ne records [] asked found p n = refl
get_normal-add_normal_ne records (c ∷ s) asked found p n =
    get_normal-insert_ne records (c ∷ s) found p asked (ground (arith, text_eq_iff (c ∷ s) asked))

-- Adding a record under a name that is no wildcard changes no lookup of a name with another normal
-- form.
pub get-add_ne :
    (records : Store) (name asked typ content : Text)
    → IsPlain (normalize_name name)
    → normalize_name name ≢ normalize_name asked
    → get (add records name typ content) asked ≡ get records asked
unfolding get add
get-add_ne records name asked typ content p n =
    get_normal-add_normal_ne records (normalize_name name) (normalize_name asked) _ p n

-- ===== src/Go/Text/Trim.antt =====
-- Laws of trimming and of lower case.
use resolvit.Prelude.{ℕ, ◌≡◌, refl, [], ◌∷◌, ◌++◌, arith, Bool, true, not, ◌==◌, ap}
use resolvit.Go.Text.{
  Text, dot, lower, to_lower, is_space, trim_left, trim_right, cons_trimmed, trim_space,
  has_dot_suffix, trim_dot_suffix,
}

pub lower_idem : (c : ℕ) → lower (lower c) ≡ lower c
unfolding lower
lower_idem c = ground arith

pub to_lower_idem : (s : Text) → to_lower (to_lower s) ≡ to_lower s
unfolding to_lower
to_lower_idem [] = refl
to_lower_idem (c ∷ s) = cc (lower_idem c, to_lower_idem s)

is_space-lower : (c : ℕ) → is_space (lower c) ≡ is_space c
unfolding is_space lower
is_space-lower c = ground arith

pub to_lower-append : (s t : Text) → to_lower (s ++ t) ≡ to_lower s ++ to_lower t
unfolding to_lower
to_lower-append [] t = refl
to_lower-append (c ∷ s) t = ap (◌∷◌ (lower c)) (to_lower-append s t)

-- The text does not begin with a space.
unfoldable pub starts_solid : Text → Bool
starts_solid [] = true
starts_solid (c ∷ s) = not (is_space c)

-- The text does not end in a space.
unfoldable pub ends_solid : Text → Bool
ends_solid [] = true
ends_solid (c ∷ []) = not (is_space c)
ends_solid (c ∷ d ∷ s) = ends_solid (d ∷ s)

trim_left-starts_solid : (s : Text) → starts_solid (trim_left s) ≡ true
unfolding trim_left starts_solid
trim_left-starts_solid [] = refl
trim_left-starts_solid (c ∷ s) = ground (arith, trim_left-starts_solid s)

trim_left_of_solid : (s : Text) → starts_solid s ≡ true → trim_left s ≡ s
unfolding trim_left starts_solid
trim_left_of_solid [] h = refl
trim_left_of_solid (c ∷ s) h = ground arith

cons_trimmed-ends_solid :
    (c : ℕ) (s : Text) → ends_solid s ≡ true → ends_solid (cons_trimmed c s) ≡ true
unfolding cons_trimmed ends_solid
cons_trimmed-ends_solid c [] h = ground arith
cons_trimmed-ends_solid c (d ∷ s) h = h

trim_right-ends_solid : (s : Text) → ends_solid (trim_right s) ≡ true
unfolding trim_right
trim_right-ends_solid [] = unfold ends_solid in refl
trim_right-ends_solid (c ∷ s) = cons_trimmed-ends_solid c (trim_right s) (trim_right-ends_solid s)

trim_right_of_solid : (s : Text) → ends_solid s ≡ true → trim_right s ≡ s
unfolding trim_right ends_solid
trim_right_of_solid [] h = refl
trim_right_of_solid (c ∷ []) h = ground arith
trim_right_of_solid (c ∷ d ∷ s) h = rw (trim_right_of_solid (d ∷ s) h) refl

trim_right-starts_solid : (s : Text) → starts_solid s ≡ true → starts_solid (trim_right s) ≡ true
unfolding trim_right starts_solid
trim_right-starts_solid [] h = refl
trim_right-starts_solid (c ∷ s) h = ground arith

-- Trimmed texts begin and end with no space.
pub trim_space-solid :
    (s : Text) → (starts_solid (trim_space s) ≡ true) × (ends_solid (trim_space s) ≡ true)
unfolding trim_space
trim_space-solid s = (
  trim_right-starts_solid (trim_left s) (trim_left-starts_solid s),
  trim_right-ends_solid (trim_left s),
)

-- Trimming leaves such a text alone.
pub trim_space_of_solid :
    (s : Text) → starts_solid s ≡ true → ends_solid s ≡ true → trim_space s ≡ s
unfolding trim_space
trim_space_of_solid s h k = rw (trim_left_of_solid s h) (trim_right_of_solid s k)

pub starts_solid-to_lower : (s : Text) → starts_solid (to_lower s) ≡ starts_solid s
unfolding starts_solid to_lower
starts_solid-to_lower [] = refl
starts_solid-to_lower (c ∷ s) = ap not (is_space-lower c)

pub ends_solid-to_lower : (s : Text) → ends_solid (to_lower s) ≡ ends_solid s
unfolding ends_solid to_lower
ends_solid-to_lower [] = refl
ends_solid-to_lower (c ∷ []) = ap not (is_space-lower c)
ends_solid-to_lower (c ∷ d ∷ s) = ends_solid-to_lower (d ∷ s)

pub starts_solid_snoc : (s : Text) → starts_solid s ≡ true → starts_solid (s ++ dot ∷ []) ≡ true
unfolding starts_solid is_space
starts_solid_snoc [] h = refl
starts_solid_snoc (c ∷ s) h = h

pub ends_solid_snoc : (s : Text) → ends_solid (s ++ dot ∷ []) ≡ true
unfolding ends_solid is_space
ends_solid_snoc [] = refl
ends_solid_snoc (c ∷ []) = refl
ends_solid_snoc (c ∷ d ∷ s) = ends_solid_snoc (d ∷ s)

pub has_dot_suffix_snoc : (s : Text) → has_dot_suffix (s ++ dot ∷ []) ≡ true
unfolding has_dot_suffix
has_dot_suffix_snoc [] = refl
has_dot_suffix_snoc (c ∷ []) = refl
has_dot_suffix_snoc (c ∷ d ∷ s) = has_dot_suffix_snoc (d ∷ s)

pub trim_dot_suffix_snoc : (s : Text) → trim_dot_suffix (s ++ dot ∷ []) ≡ s
unfolding trim_dot_suffix
trim_dot_suffix_snoc [] = refl
trim_dot_suffix_snoc (c ∷ []) = refl
trim_dot_suffix_snoc (c ∷ d ∷ s) = ap (◌∷◌ c) (trim_dot_suffix_snoc (d ∷ s))

lower-dot : (c : ℕ) → (lower c == dot) ≡ (c == dot)
unfolding lower
lower-dot c = ground arith

pub has_dot_suffix-to_lower : (s : Text) → has_dot_suffix (to_lower s) ≡ has_dot_suffix s
unfolding has_dot_suffix to_lower
has_dot_suffix-to_lower [] = refl
has_dot_suffix-to_lower (c ∷ []) = lower-dot c
has_dot_suffix-to_lower (c ∷ d ∷ s) = has_dot_suffix-to_lower (d ∷ s)

trim_left-to_lower : (s : Text) → trim_left (to_lower s) ≡ to_lower (trim_left s)
unfolding trim_left to_lower
trim_left-to_lower [] = refl
trim_left-to_lower (c ∷ s) = ground (arith, is_space-lower c, trim_left-to_lower s)

cons_trimmed-to_lower :
    (c : ℕ) (s : Text) → cons_trimmed (lower c) (to_lower s) ≡ to_lower (cons_trimmed c s)
unfolding cons_trimmed to_lower
cons_trimmed-to_lower c [] = ground (arith, is_space-lower c)
cons_trimmed-to_lower c (d ∷ s) = refl

trim_right-to_lower : (s : Text) → trim_right (to_lower s) ≡ to_lower (trim_right s)
unfolding trim_right to_lower
trim_right-to_lower [] = refl
trim_right-to_lower (c ∷ s) = rw (trim_right-to_lower s) (cons_trimmed-to_lower c (trim_right s))

-- Trimming and lower case commute.
pub trim_space-to_lower : (s : Text) → trim_space (to_lower s) ≡ to_lower (trim_space s)
unfolding trim_space
trim_space-to_lower s = rw trim_left-to_lower (trim_right-to_lower (trim_left s))

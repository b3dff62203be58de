-- ===== src/Go/Path/Stack.antt =====
-- The components that cleaning keeps: names above steps up in a relative path, and names only in a
-- rooted one.
use resolvit.Prelude.{
  ◌≡◌, ◌≢◌, ◌⊎◌, refl, sym, ap, subst, inl, inr, Bool, true, false, ◌||◌, List, [], ◌∷◌, ◌++◌,
  reverse, Bool-cases, All, All-append,
}
use mathlib.Core.List.{reverse-cons}
use resolvit.Go.Text.{Text, is_empty, text_eq}
use resolvit.Go.Text.Equality.{text_eq_sound, text_eq_refl}
use resolvit.Go.Text.Parts.{IsPart}
use resolvit.Go.Path.{slash, parent, here, step_up, enter, enter_all}

-- A component that is not `..`.
abbrev pub IsInner : Text → Type 0
IsInner c = c ≢ parent

-- A component that is `..`.
abbrev IsUp : Text → Type 0
IsUp c = c ≡ parent

-- The components read so far, the last one first: names above steps up, which a rooted path lacks.
abbrev IsSettled : Bool → List Text → Type 0
IsSettled rooted [] = Unit
IsSettled true (c ∷ stack) = IsInner c × IsSettled true stack
IsSettled false (c ∷ stack) = (IsInner c × IsSettled false stack) ⊎ All IsUp (c ∷ stack)

not_parent : (c : Text) → text_eq c parent ≡ false → IsInner c
not_parent c h e = cc (h, ap (λ t. text_eq t parent) e, text_eq_refl parent)

below_inner :
    (rooted : Bool) (c : Text) (stack : List Text)
    → IsInner c
    → IsSettled rooted (c ∷ stack)
    → IsSettled rooted stack
below_inner true c stack n p = p.1
below_inner false c stack n (inl p) = p.1
below_inner false c stack n (inr p) = absurd (n p.0)

ups_above :
    (c : Text) (stack : List Text) → IsUp c → IsSettled false (c ∷ stack) → All IsUp (c ∷ stack)
ups_above c stack u (inl p) = absurd (p.0 u)
ups_above c stack u (inr p) = p

name_above :
    (rooted : Bool) (c : Text) (stack : List Text)
    → IsInner c
    → IsSettled rooted stack
    → IsSettled rooted (c ∷ stack)
name_above true c stack n p = (n, p)
name_above false c stack n p = inl (n, p)

step_up-IsSettled :
    (rooted : Bool) (stack : List Text)
    → IsSettled rooted stack
    → IsSettled rooted (step_up rooted stack)
unfolding step_up
step_up-IsSettled true [] p = tt
step_up-IsSettled false [] p = inr (refl, tt)
step_up-IsSettled true (c ∷ stack) p = elim (Bool-cases (text_eq c parent)) [
  | inl h ↦ absurd (p.0 (text_eq_sound c parent h))
  | inr h ↦ rw (h, step_up) p.1
]
step_up-IsSettled false (c ∷ stack) p = elim (Bool-cases (text_eq c parent)) [
  | inl h ↦ rw (h, step_up) (inr (refl, ups_above c stack (text_eq_sound c parent h) p))
  | inr h ↦ rw (h, step_up) (below_inner false c stack (not_parent c h) p)
]

enter-IsSettled :
    (rooted : Bool) (stack : List Text) (c : Text)
    → IsSettled rooted stack
    → IsSettled rooted (enter rooted stack c)
unfolding enter
enter-IsSettled rooted stack c p = elim (Bool-cases (is_empty c || text_eq c here)) [
  | inl h ↦ rw (h, enter) p
  | inr h ↦ elim (Bool-cases (text_eq c parent)) [
    | inl u ↦ rw (h, u, enter) (step_up-IsSettled rooted stack p)
    | inr u ↦ rw (h, u, enter) (name_above rooted c stack (not_parent c u) p)
  ]
]

pub enter_all-IsSettled :
    (rooted : Bool) (stack cs : List Text)
    → IsSettled rooted stack
    → IsSettled rooted (enter_all rooted stack cs)
unfolding enter_all
enter_all-IsSettled rooted stack [] p = p
enter_all-IsSettled rooted stack (c ∷ cs) p =
    enter_all-IsSettled rooted (enter rooted stack c) cs (enter-IsSettled rooted stack c p)

step_up-IsPart :
    (rooted : Bool) (stack : List Text)
    → All (IsPart slash) stack
    → All (IsPart slash) (step_up rooted stack)
unfolding step_up
step_up-IsPart true [] p = tt
step_up-IsPart false [] p = ((refl, (refl, tt)), tt)
step_up-IsPart rooted (c ∷ stack) p = elim (Bool-cases (text_eq c parent)) [
  | inl h ↦ rw (h, step_up) ((refl, (refl, tt)), p)
  | inr h ↦ rw (h, step_up) p.1
]

enter-IsPart :
    (rooted : Bool) (stack : List Text) (c : Text)
    → IsPart slash c
    → All (IsPart slash) stack
    → All (IsPart slash) (enter rooted stack c)
unfolding enter
enter-IsPart rooted stack c q p = elim (Bool-cases (is_empty c || text_eq c here)) [
  | inl h ↦ rw (h, enter) p
  | inr h ↦ elim (Bool-cases (text_eq c parent)) [
    | inl u ↦ rw (h, u, enter) (step_up-IsPart rooted stack p)
    | inr u ↦ rw (h, u, enter) (q, p)
  ]
]

pub enter_all-IsPart :
    (rooted : Bool) (stack cs : List Text)
    → All (IsPart slash) cs
    → All (IsPart slash) stack
    → All (IsPart slash) (enter_all rooted stack cs)
unfolding enter_all
enter_all-IsPart rooted stack [] q p = p
enter_all-IsPart rooted stack (c ∷ cs) q p =
    enter_all-IsPart rooted (enter rooted stack c) cs q.1 (enter-IsPart rooted stack c q.0 p)

module _ (P : Text → Type 0) where
  pub All-reverse : (xs : List Text) → All P xs → All P (reverse xs)
  All-reverse [] p = tt
  All-reverse (x ∷ xs) p =
      subst (All P) (sym (reverse-cons x xs))
        (All-append P (reverse xs) (x ∷ []) (All-reverse xs p.1) (p.0, tt))

-- The list begins with `..`.
abbrev pub StartsUp : List Text → Type 0
StartsUp xs = (rest : List Text) × (xs ≡ parent ∷ rest)

StartsUp-append : (xs ys : List Text) → StartsUp xs → StartsUp (xs ++ ys)
StartsUp-append xs ys (rest, e) = (rest ++ ys, ap (λ l. l ++ ys) e)

ups_reversed :
    (c : Text) (stack : List Text) → All IsUp (c ∷ stack) → StartsUp (reverse (c ∷ stack))
ups_reversed c [] p = ([], ap (λ x. x ∷ []) p.0)
ups_reversed c (d ∷ stack) p =
    subst StartsUp (sym (reverse-cons c (d ∷ stack)))
      (StartsUp-append (reverse (d ∷ stack)) (c ∷ []) (ups_reversed d stack p.1))

pub rooted-IsInner : (stack : List Text) → IsSettled true stack → All IsInner stack
rooted-IsInner [] p = tt
rooted-IsInner (c ∷ stack) p = (p.0, rooted-IsInner stack p.1)

-- In order, the components are all names, or the first is `..`.
pub relative-IsInner :
    (stack : List Text)
    → IsSettled false stack
    → All IsInner (reverse stack) ⊎ StartsUp (reverse stack)
relative-IsInner [] p = inl tt
relative-IsInner (c ∷ stack) (inr p) = inr (ups_reversed c stack p)
relative-IsInner (c ∷ stack) (inl p) = elim (relative-IsInner stack p.1) [
  | inl q ↦ inl (
      subst (All IsInner) (sym (reverse-cons c stack))
        (All-append IsInner (reverse stack) (c ∷ []) q (p.0, tt)))
  | inr q ↦
      inr (subst StartsUp (sym (reverse-cons c stack)) (StartsUp-append (reverse stack) (c ∷ []) q))
]

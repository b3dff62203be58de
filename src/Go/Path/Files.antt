-- ===== src/Go/Path/Files.antt =====
-- The test that the program makes on the path of a file, and what it means.
use resolvit.Prelude.{
  ◌≡◌, ◌≢◌, ◌↔◌, refl, sym, ap, subst, ◌∙◌, inl, inr, Bool, true, false, ◌||◌, [], ◌∷◌, ◌++◌,
  if◌then◌else◌, Bool-cases, All, arith, Option, some, none,
}
use resolvit.Go.Text.{Text, is_empty, text_eq, split, has_prefix}
use resolvit.Go.Text.Equality.{text_ne, text_eq_of_ne}
use resolvit.Go.Path.{slash, parent, here, clean}
use resolvit.Go.Path.Stack.{IsInner}
use resolvit.Go.Path.Parents.{goes_up_iff}

-- The cleaned path names a file: it is neither `.` nor the root, and no component of it is `..`.
abbrev pub IsFilePath : Text → Text → Type 0
IsFilePath path cleaned =
    (path ≢ [])
    × (cleaned ≡ clean path)
    × (cleaned ≢ here)
    × (cleaned ≢ slash ∷ [])
    × All IsInner (split cleaned slash)

-- A cleaned path that fails one of the tests of the program.
abbrev pub is_refused : Text → Text → Bool
is_refused path cleaned =
    is_empty path
    || ((text_eq cleaned here || text_eq cleaned (slash ∷ []))
        || (text_eq cleaned parent || has_prefix cleaned (parent ++ slash ∷ [])))

nonempty : (s : Text) → is_empty s ≡ false → s ≢ []
nonempty s h e = cc (h, ap is_empty e)

is_empty_of_nonempty : (s : Text) → s ≢ [] → is_empty s ≡ false
is_empty_of_nonempty [] n = absurd (n refl)
is_empty_of_nonempty (c ∷ s) n = refl

refused-IsFilePath :
    (path : Text) → is_refused path (clean path) ≡ false → IsFilePath path (clean path)
refused-IsFilePath path h = (
  nonempty path (ground (arith, h)),
  refl,
  text_ne (clean path) here (ground (arith, h)),
  text_ne (clean path) (slash ∷ []) (ground (arith, h)),
  (goes_up_iff path).0 (ground (arith, h)),
)

file_path-refused :
    (path : Text) → IsFilePath path (clean path) → is_refused path (clean path) ≡ false
file_path-refused path (full, _, no_here, no_root, inner) =
    rw
      (
        is_empty_of_nonempty path full,
        text_eq_of_ne (clean path) here no_here,
        text_eq_of_ne (clean path) (slash ∷ []) no_root,
        (goes_up_iff path).1 inner,
      )
      refl

-- The cleaned path, if no test refuses it.
abbrev pub file_path : Text → Option Text
file_path path = if is_refused path (clean path) then none else some (clean path)

pub file_path_iff :
    (path cleaned : Text) → (file_path path ≡ some cleaned) ↔ IsFilePath path cleaned
file_path_iff path cleaned = (
  λ e. elim (Bool-cases (is_refused path (clean path))) [
    | inl bad ↦ absurd (refuted bad e)
    | inr good ↦ subst (IsFilePath path) (same good e) (refused-IsFilePath path good)
  ],
  λ p.
      let here_path = subst (IsFilePath path) p.1 p in
      let good = file_path-refused path here_path in
      ap (λ b. if b then none else some (clean path)) good ∙ ap some (sym p.1),
)
  where
    refuted : is_refused path (clean path) ≡ true → file_path path ≢ some cleaned
    refuted bad e = cc (ap (λ b. if◌then◌else◌ {A = Option Text} b none (some (clean path))) bad, e)

    same :
        is_refused path (clean path) ≡ false → file_path path ≡ some cleaned → clean path ≡ cleaned
    same good e = cc (ap (λ b. if◌then◌else◌ {A = Option Text} b none (some (clean path))) good, e)

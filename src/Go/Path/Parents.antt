-- ===== src/Go/Path/Parents.antt =====
-- The parent components of a cleaned path: a relative path has them at its start only, a rooted one
-- nowhere.
use resolvit.Prelude.{
  ◌≡◌, ◌⊎◌, ◌↔◌, refl, sym, ap, subst, ◌∙◌, inl, inr, Bool, true, false, ◌||◌, List, [], ◌∷◌, ◌++◌,
  reverse, ◌==◌, Bool-cases, All, arith, Option, some, none, is_some,
}
use resolvit.Go.Text.{Text, text_eq, split, join, has_prefix, after_prefix, cons_part}
use resolvit.Go.Text.Equality.{text_eq_sound, text_eq_refl}
use resolvit.Go.Text.Parts.{IsPart, split-IsPart, split-join}
use resolvit.Go.Path.{slash, parent, here, enter_all, show_relative, clean}
use resolvit.Go.Path.Stack.{
  IsInner, enter_all-IsSettled, enter_all-IsPart, All-reverse, rooted-IsInner, relative-IsInner,
}

empty-IsInner : IsInner []
empty-IsInner e = cc e

here-IsInner : IsInner here
here-IsInner e = cc

join-IsInner :
    (xs : List Text)
    → All (IsPart slash) xs
    → All IsInner xs
    → All IsInner (split (join xs slash) slash)
unfolding join split
join-IsInner [] q p = (empty-IsInner, tt)
join-IsInner (x ∷ xs) q p = subst (All IsInner) (sym (split-join slash x xs q)) p

show_relative-IsInner :
    (t : Text) → All IsInner (split t slash) → All IsInner (split (show_relative t) slash)
unfolding show_relative split
show_relative-IsInner [] p = (here-IsInner, tt)
show_relative-IsInner (c ∷ t) p = p

-- A relative path of components that begin with `..` is `..`, or begins with `../`.
show_relative_up :
    (rest : List Text)
    → (text_eq (show_relative (join (parent ∷ rest) slash)) parent ≡ true)
      ⊎ (has_prefix (show_relative (join (parent ∷ rest) slash)) (parent ++ slash ∷ []) ≡ true)
unfolding show_relative join has_prefix after_prefix
show_relative_up [] = inl (text_eq_refl parent)
show_relative_up (m ∷ rest) = inr refl

-- The tests that the program makes on a cleaned path leave one without any component `..`.
pub clean-IsInner :
    (path : Text)
    → text_eq (clean path) parent ≡ false
    → has_prefix (clean path) (parent ++ slash ∷ []) ≡ false
    → All IsInner (split (clean path) slash)
unfolding clean
clean-IsInner [] h k = unfold split in (here-IsInner, tt)
clean-IsInner (c ∷ s) h k = elim (Bool-cases (c == slash)) [
  | inl rooted ↦
      let stack = enter_all true [] (split s slash) in
      let parts = enter_all-IsPart true [] (split s slash) (split-IsPart slash s) tt in
      let settled = rooted-IsInner stack (enter_all-IsSettled true [] (split s slash) tt) in
      rw (rooted, clean, split)
        (
          empty-IsInner,
          join-IsInner (reverse stack) (All-reverse (IsPart slash) stack parts)
              (All-reverse IsInner stack settled),
        )
  | inr relative ↦
      let stack = enter_all false [] (split (c ∷ s) slash) in
      let parts = enter_all-IsPart false [] (split (c ∷ s) slash) (split-IsPart slash (c ∷ s)) tt in
      let cleaned : clean (c ∷ s) ≡ show_relative (join (reverse stack) slash) =
        rw (relative, clean) refl in
      elim (relative-IsInner stack (enter_all-IsSettled false [] (split (c ∷ s) slash) tt)) [
        | inl inner ↦
            subst (λ t. All IsInner (split t slash)) (sym cleaned)
              (show_relative-IsInner (join (reverse stack) slash)
                (join-IsInner (reverse stack) (All-reverse (IsPart slash) stack parts) inner))
        | inr (rest, up) ↦
            let spelled : clean (c ∷ s) ≡ show_relative (join (parent ∷ rest) slash) =
              cleaned ∙ ap (λ xs. show_relative (join xs slash)) up in
            elim (show_relative_up rest) [
              | inl bad ↦ cc (h, bad, ap (λ t. text_eq t parent) spelled)
              | inr bad ↦ cc (k, bad, ap (λ t. has_prefix t (parent ++ slash ∷ [])) spelled)
            ]
      ]
]

after_prefix_sound : (p s rest : Text) → after_prefix p s ≡ some rest → s ≡ p ++ rest
unfolding after_prefix
after_prefix_sound [] s rest h = cc
after_prefix_sound (x ∷ p) [] rest h = cc
after_prefix_sound (x ∷ p) (c ∷ s) rest h = ground (arith, after_prefix_sound p s rest)

-- The two tests that the program makes for steps up.
abbrev pub goes_up : Text → Bool
goes_up cleaned = text_eq cleaned parent || has_prefix cleaned (parent ++ slash ∷ [])

-- A text with the prefix `../` has `..` as its first component.
prefix_up :
    (s rest : Text) → s ≡ (parent ++ slash ∷ []) ++ rest → split s slash ≡ parent ∷ split rest slash
unfolding split cons_part
prefix_up s rest e = ap (λ t. split t slash) e

no_prefix_up :
    (s : Text) (after : Option Text)
    → after_prefix (parent ++ slash ∷ []) s ≡ after
    → All IsInner (split s slash)
    → is_some after ≡ false
no_prefix_up s none e inner = refl
no_prefix_up s (some rest) e inner = absurd (
    (subst (All IsInner) (prefix_up s rest (after_prefix_sound (parent ++ slash ∷ []) s rest e))
        inner).0
      refl)

not_up : (s : Text) → All IsInner (split s slash) → text_eq s parent ≡ false
unfolding split cons_part
not_up s inner = elim (Bool-cases (text_eq s parent)) [
  | inl h ↦
      absurd ((subst (λ t. All IsInner (split t slash)) (text_eq_sound s parent h) inner).0 refl)
  | inr h ↦ h
]

goes_up-refuted : (cleaned : Text) → All IsInner (split cleaned slash) → goes_up cleaned ≡ false
unfolding has_prefix
goes_up-refuted cleaned inner =
    rw
      (
        not_up cleaned inner,
        no_prefix_up cleaned (after_prefix (parent ++ slash ∷ []) cleaned) refl inner,
      )
      refl

-- The tests for steps up pass exactly the cleaned paths without any component `..`.
pub goes_up_iff :
    (path : Text) → (goes_up (clean path) ≡ false) ↔ All IsInner (split (clean path) slash)
goes_up_iff path =
    (λ h. clean-IsInner path (ground (arith, h)) (ground (arith, h)), goes_up-refuted (clean path))

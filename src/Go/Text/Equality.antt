-- ===== src/Go/Text/Equality.antt =====
-- `text_eq` decides equality of texts.
use resolvit.Prelude.{◌≡◌, ◌≢◌, refl, ap, ◌↔◌, true, false, [], ◌∷◌, arith, inl, inr, Bool-cases}
use resolvit.Go.Text.{Text, text_eq}

pub text_eq_sound : (s t : Text) → text_eq s t ≡ true → s ≡ t
unfolding text_eq
text_eq_sound [] [] h = refl
text_eq_sound [] (d ∷ t) h = cc
text_eq_sound (c ∷ s) [] h = cc
text_eq_sound (c ∷ s) (d ∷ t) h = ground (arith, text_eq_sound s t)

pub text_eq_refl : (s : Text) → text_eq s s ≡ true
unfolding text_eq
text_eq_refl [] = refl
text_eq_refl (c ∷ s) = ground (arith, text_eq_refl s)

pub text_eq_iff : (s t : Text) → (text_eq s t ≡ true) ↔ (s ≡ t)
text_eq_iff s t = (text_eq_sound s t, λ e. rw e (text_eq_refl t))

pub text_ne : (s t : Text) → text_eq s t ≡ false → s ≢ t
text_ne s t h e = cc (h, ap (λ x. text_eq x t) e, text_eq_refl t)

pub text_eq_of_ne : (s t : Text) → s ≢ t → text_eq s t ≡ false
text_eq_of_ne s t n = elim (Bool-cases (text_eq s t)) [
  | inl h ↦ absurd (n (text_eq_sound s t h))
  | inr h ↦ h
]

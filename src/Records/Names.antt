-- ===== src/Records/Names.antt =====
-- The normal form of a record's name, `normalizeName`.
use resolvit.Prelude.{
  ◌≡◌, ◌≢◌, refl, ap, ◌⊎◌, inl, inr, Bool-cases, true, false, [], ◌∷◌, ◌++◌, ◌∙◌,
}
use resolvit.Go.Text.{Text, dot, to_lower, trim_space, has_dot_suffix}
use resolvit.Go.Text.Trim.{
  starts_solid, ends_solid, trim_space-solid, trim_space_of_solid, starts_solid-to_lower,
  ends_solid-to_lower, starts_solid_snoc, ends_solid_snoc, has_dot_suffix_snoc,
  has_dot_suffix-to_lower, to_lower_idem, to_lower-append, trim_space-to_lower,
}
use resolvit.Records.{end_with_dot, normalize_trimmed, normalize_name}

-- Lower case, ending in a dot, with no space at either end.
pub record IsNormal (name : Text) : Type 0 where
  pub begins : starts_solid name ≡ true
  pub ends : ends_solid name ≡ true
  pub lowered : to_lower name ≡ name
  pub dotted : has_dot_suffix name ≡ true

end_with_dot-IsNormal :
    (s : Text)
    → starts_solid s ≡ true
    → ends_solid s ≡ true
    → to_lower s ≡ s
    → IsNormal (end_with_dot s)
unfolding end_with_dot
end_with_dot-IsNormal s h k l = elim (Bool-cases (has_dot_suffix s)) [
  | inl d ↦ rw d (record { begins = h; ends = k; lowered = l; dotted = d })
  | inr d ↦ rw d (record {
    begins = starts_solid_snoc s h;
    ends = ends_solid_snoc s;
    lowered =
        to_lower-append s (dot ∷ [])
        ∙ (unfold to_lower resolvit.Go.Text.lower in ap (λ t. t ++ dot ∷ []) l);
    dotted = has_dot_suffix_snoc s;
  })
]

normalize_trimmed-IsNormal :
    (s : Text)
    → starts_solid s ≡ true
    → ends_solid s ≡ true
    → (normalize_trimmed s ≡ []) ⊎ IsNormal (normalize_trimmed s)
unfolding normalize_trimmed
normalize_trimmed-IsNormal [] h k = inl refl
normalize_trimmed-IsNormal (c ∷ s) h k = inr (
    end_with_dot-IsNormal (to_lower (c ∷ s)) (starts_solid-to_lower (c ∷ s) ∙ h)
      (ends_solid-to_lower (c ∷ s) ∙ k) (to_lower_idem (c ∷ s)))

-- A name is normalised to nothing or to a normal name.
pub normalize_name-IsNormal :
    (name : Text) → (normalize_name name ≡ []) ⊎ IsNormal (normalize_name name)
unfolding normalize_name
normalize_name-IsNormal name =
    let (h, k) = trim_space-solid name in normalize_trimmed-IsNormal (trim_space name) h k

normalize_trimmed_of_IsNormal : (name : Text) → IsNormal name → normalize_trimmed name ≡ name
unfolding normalize_trimmed end_with_dot
normalize_trimmed_of_IsNormal [] n = refl
normalize_trimmed_of_IsNormal (c ∷ s) n = rw (n.lowered, n.dotted)

pub normalize_name_of_IsNormal : (name : Text) → IsNormal name → normalize_name name ≡ name
unfolding normalize_name
normalize_name_of_IsNormal name n =
    rw (trim_space_of_solid name n.begins n.ends) (normalize_trimmed_of_IsNormal name n)

normalize_name-nil : normalize_name [] ≡ []
unfolding normalize_name trim_space
normalize_name-nil = refl

-- Normalising a name twice is normalising it once.
pub normalize_name_idem : (name : Text) → normalize_name (normalize_name name) ≡ normalize_name name
normalize_name_idem name = elim (normalize_name-IsNormal name) [
  | inl e ↦ rw e normalize_name-nil
  | inr n ↦ normalize_name_of_IsNormal (normalize_name name) n
]

normalize_trimmed-to_lower : (s : Text) → normalize_trimmed (to_lower s) ≡ normalize_trimmed s
unfolding normalize_trimmed to_lower
normalize_trimmed-to_lower [] = refl
normalize_trimmed-to_lower (c ∷ s) = ap end_with_dot (to_lower_idem (c ∷ s))

-- The case of the letters does not matter.
pub normalize_name-to_lower : (name : Text) → normalize_name (to_lower name) ≡ normalize_name name
unfolding normalize_name
normalize_name-to_lower name = rw trim_space-to_lower (normalize_trimmed-to_lower (trim_space name))

normalize_trimmed_snoc :
    (s : Text)
    → s ≢ []
    → has_dot_suffix s ≡ false
    → normalize_trimmed (s ++ dot ∷ []) ≡ normalize_trimmed s
unfolding normalize_trimmed end_with_dot
normalize_trimmed_snoc [] h d = absurd (h refl)
normalize_trimmed_snoc (c ∷ s) h d =
    rw
      (
        has_dot_suffix-to_lower (c ∷ (s ++ dot ∷ [])),
        has_dot_suffix_snoc (c ∷ s),
        has_dot_suffix-to_lower (c ∷ s),
        d,
      )
      (to_lower-append (c ∷ s) (dot ∷ []) ∙ (unfold to_lower resolvit.Go.Text.lower in refl))

-- Nor does the final dot.
pub normalize_name_snoc :
    (name : Text)
    → name ≢ []
    → trim_space name ≡ name
    → has_dot_suffix name ≡ false
    → normalize_name (name ++ dot ∷ []) ≡ normalize_name name
unfolding normalize_name
normalize_name_snoc name h t d =
    let (b, e) = trim_space-solid name in
    rw
      (
        trim_space_of_solid (name ++ dot ∷ []) (starts_solid_snoc name (rw t at b))
            (ends_solid_snoc name),
        t,
      )
      (normalize_trimmed_snoc name h d)

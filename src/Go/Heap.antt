-- ===== src/Go/Heap.antt =====
-- Objects that are shared through pointers: an address is a position in the list of all objects
-- that were ever allocated.
use resolvit.Prelude.{
  ℕ, zero, suc, ◌<◌, ◌≡◌, ◌≢◌, refl, sym, ap, subst, ◌∙◌, inl, inr, ◌==◌, ==_iff, Bool-cases, some,
  List, [], ◌∷◌, ◌++◌, arith, length, get_elem?, set,
}

abbrev pub Ptr : Type 0
Ptr = ℕ

module _ {ℓ} {A : Type ℓ} where
  -- A new object at the next free address.
  unfoldable pub alloc : List A → A → Ptr × List A
  alloc h a = (length h, h ++ a ∷ [])

  pub get_elem?-snoc : (h : List A) (a : A) → get_elem? (h ++ a ∷ []) (length h) ≡ some a
  get_elem?-snoc [] a = refl
  get_elem?-snoc (x ∷ h) a = get_elem?-snoc h a

  pub get_elem?-append_left :
      (h k : List A) (p : Ptr) → p < length h → get_elem? (h ++ k) p ≡ get_elem? h p
  get_elem?-append_left [] k p l = absurd (omega arith)
  get_elem?-append_left (x ∷ h) k zero l = refl
  get_elem?-append_left (x ∷ h) k (suc p) l = get_elem?-append_left h k p (omega arith)

  pub get_elem?-set_self :
      (h : List A) (p : Ptr) (a : A) → p < length h → get_elem? (set h p a) p ≡ some a
  get_elem?-set_self [] p a l = absurd (omega arith)
  get_elem?-set_self (x ∷ h) zero a l = refl
  get_elem?-set_self (x ∷ h) (suc p) a l = get_elem?-set_self h p a (omega arith)

  pub get_elem?-set_ne :
      (h : List A) (p q : Ptr) (a : A) → p ≢ q → get_elem? (set h p a) q ≡ get_elem? h q
  get_elem?-set_ne [] p q a n = refl
  get_elem?-set_ne (x ∷ h) zero zero a n = absurd (n refl)
  get_elem?-set_ne (x ∷ h) zero (suc q) a n = refl
  get_elem?-set_ne (x ∷ h) (suc p) zero a n = refl
  get_elem?-set_ne (x ∷ h) (suc p) (suc q) a n = get_elem?-set_ne h p q a (λ e. n (ap suc e))

  pub length-set : (h : List A) (p : Ptr) (a : A) → length (set h p a) ≡ length h
  length-set [] p a = refl
  length-set (x ∷ h) zero a = refl
  length-set (x ∷ h) (suc p) a = ap suc (length-set h p a)

  pub lt_of_get_elem? : (h : List A) (p : Ptr) (a : A) → get_elem? h p ≡ some a → p < length h
  lt_of_get_elem? [] p a e = cc
  lt_of_get_elem? (x ∷ h) zero a e = omega arith
  lt_of_get_elem? (x ∷ h) (suc p) a e = omega (arith, lt_of_get_elem? h p a e)

  -- Overwriting the newest object.
  pub set-snoc : (h : List A) (x y : A) → set (h ++ x ∷ []) (length h) y ≡ h ++ y ∷ []
  set-snoc [] x y = refl
  set-snoc (z ∷ h) x y = ap (◌∷◌ z) (set-snoc h x y)

  -- An object that is allocated later changes no object that is there.
  pub get_elem?-append_some :
      (h k : List A) (p : Ptr) (a : A) → get_elem? h p ≡ some a → get_elem? (h ++ k) p ≡ some a
  get_elem?-append_some h k p a e = get_elem?-append_left h k p (lt_of_get_elem? h p a e) ∙ e

module _ {ℓ κ} {A : Type ℓ} (P : A → Type κ) where
  -- The pointer leads to an object of this kind.
  abbrev pub Holds : List A → Ptr → Type (ℓ ⊔ κ)
  Holds h p = (a : A) × (get_elem? h p ≡ some a) × P a

  pub Holds-append : (h k : List A) (p : Ptr) → Holds h p → Holds (h ++ k) p
  Holds-append h k p (a, e, x) = (a, get_elem?-append_some h k p a e, x)

  -- An overwritten object stays of its kind if the new one is of each kind that the old one was of.
  pub Holds-set :
      (h : List A) (p q : Ptr) (a b : A)
      → get_elem? h q ≡ some a
      → (P a → P b)
      → Holds h p
      → Holds (set h q b) p
  Holds-set h p q a b found kind (c, e, x) = elim (Bool-cases (q == p)) [
    | inl same ↦
        let here : q ≡ p = (==_iff q p).0 same in
        let below = lt_of_get_elem? h p c e in
        let eq : c ≡ a = cc in
        (
          b,
          subst (λ i. get_elem? (set h i b) p ≡ some b) (sym here) (get_elem?-set_self h p b below),
          kind (subst P eq x),
        )
    | inr other ↦
        let apart : q ≢ p = λ i. cc (other, (==_iff q p).1 i) in
        (c, get_elem?-set_ne h q p b apart ∙ e, x)
  ]

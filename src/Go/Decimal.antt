-- ===== src/Go/Decimal.antt =====
-- `strconv.Itoa` on a number that is not negative.
use resolvit.Prelude.{
  ℕ, zero, suc, ◌+◌, ◌*◌, ◌/◌, ◌%◌, ◌<◌, ◌≤◌, ◌-◌, ◌≡◌, refl, ap, ◌∙◌, sym, [], ◌∷◌, ◌++◌, arith,
  ltb, if◌then◌else◌, All, All-append, Bool-cases, inl, inr,
}
use resolvit.Go.Text.{Text, codes}

-- The digits of a number below `10 ^ fuel`, the fuel being at least the number itself or one.
digits : ℕ → ℕ → Text
digits zero n = []
digits (suc f) n =
    let rest = digits f (n / 10) ++ (b'0' + n % 10) ∷ [] in
    if ltb n 10 then (b'0' + n) ∷ [] else rest

unfoldable pub itoa : ℕ → Text
unfolding digits
itoa n = digits (suc n) n

itoa_runs : itoa 65535 ≡ codes "65535"
unfolding itoa
itoa_runs = refl

-- The number that a text of digits spells, the last digit last.
value : ℕ → Text → ℕ
value n [] = n
value n (c ∷ s) = value (n * 10 + (c - b'0')) s

value_snoc : (s : Text) (n c : ℕ) → value n (s ++ c ∷ []) ≡ value n s * 10 + (c - b'0')
unfolding value
value_snoc [] n c = refl
value_snoc (d ∷ s) n c = value_snoc s (n * 10 + (d - b'0')) c

value-digits : (f n : ℕ) → n < f → value 0 (digits f n) ≡ n
unfolding digits
value-digits zero n h = absurd (omega arith)
value-digits (suc f) n h = elim (Bool-cases (ltb n 10)) [
  | inl e ↦ rw e (unfold value in omega arith)
  | inr e ↦
      let small : n / 10 < f = ground arith in
      rw (e, value_snoc (digits f (n / 10)) 0 (b'0' + n % 10), value-digits f (n / 10) small)
        (omega arith)
]

-- Different numbers have different prints.
pub itoa_injective : (n m : ℕ) → itoa n ≡ itoa m → n ≡ m
unfolding itoa
itoa_injective n m e =
    sym (value-digits (suc n) n (omega arith))
    ∙ ap (value 0) e
    ∙ value-digits (suc m) m (omega arith)

abbrev pub IsDigit : ℕ → Type 0
IsDigit c = (b'0' ≤ c) × (c ≤ b'9')

digits-IsDigit : (f n : ℕ) → All IsDigit (digits f n)
unfolding digits
digits-IsDigit zero n = tt
digits-IsDigit (suc f) n = elim (Bool-cases (ltb n 10)) [
  | inl e ↦ rw e (ground arith)
  | inr e ↦ rw e (
      All-append IsDigit (digits f (n / 10)) ((b'0' + n % 10) ∷ []) (digits-IsDigit f (n / 10))
        (omega arith))
]

pub itoa-IsDigit : (n : ℕ) → All IsDigit (itoa n)
unfolding itoa
itoa-IsDigit n = digits-IsDigit (suc n) n

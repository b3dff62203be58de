-- ===== src/Filtering/Parser/Counts.antt =====
-- Which tokens of a list stand for an entry, and which of the others the log shows.
use resolvit.Prelude.{
  ℕ, zero, suc, ◌+◌, ◌≤◌, ◌≡◌, refl, sym, ap, ◌∙◌, Bool, true, false, List, [], ◌∷◌, ◌++◌,
  if◌then◌else◌, arith, is_some, leb, ltb, length, Bool-cases, inl, inr, append-nil,
}
use resolvit.Go.Text.{Text}
use resolvit.Go.Int.{ℤ, pos, negsuc, is_zero}
use resolvit.Filtering.Parser.{LogLine, ParseError, invalid_line, suppressed, parsed, log_error}
use resolvit.Filtering.Parser.Tokens.{entry_of}

-- How many of the invalid entries a limit lets into the log: none at zero, all below it.
abbrev pub allowed : ℤ → ℕ → ℕ
allowed (pos n) invalid = if leb n invalid then n else invalid
allowed (negsuc n) invalid = invalid

-- Whether a limit hides some of the invalid entries with a warning; at zero there is none.
abbrev pub hides : ℤ → ℕ → Bool
hides (pos zero) invalid = false
hides (pos (suc n)) invalid = ltb (suc n) invalid
hides (negsuc n) invalid = false

-- How many tokens stand for an entry, and how many for none.
abbrev pub valid_in : (Text → Bool) → List Text → ℕ
valid_in is_domain_name [] = 0
valid_in is_domain_name (t ∷ ts) =
    if is_some (entry_of is_domain_name t)
    then suc (valid_in is_domain_name ts)
    else valid_in is_domain_name ts

abbrev pub invalid_in : (Text → Bool) → List Text → ℕ
invalid_in is_domain_name [] = 0
invalid_in is_domain_name (t ∷ ts) =
    if is_some (entry_of is_domain_name t)
    then invalid_in is_domain_name ts
    else suc (invalid_in is_domain_name ts)

pub valid_in-append :
    (is_domain_name : Text → Bool) (ts us : List Text)
    → valid_in is_domain_name (ts ++ us) ≡ valid_in is_domain_name ts + valid_in is_domain_name us
valid_in-append is_domain_name [] us = omega arith
valid_in-append is_domain_name (t ∷ ts) us = ground (arith, valid_in-append is_domain_name ts us)

pub invalid_in-append :
    (is_domain_name : Text → Bool) (ts us : List Text)
    → invalid_in is_domain_name (ts ++ us)
      ≡ invalid_in is_domain_name ts + invalid_in is_domain_name us
invalid_in-append is_domain_name [] us = omega arith
invalid_in-append is_domain_name (t ∷ ts) us =
    ground (arith, invalid_in-append is_domain_name ts us)

-- The tokens that stand for no entry, in their order.
abbrev pub invalid_tokens : (Text → Bool) → List Text → List Text
invalid_tokens is_domain_name [] = []
invalid_tokens is_domain_name (t ∷ ts) =
    if is_some (entry_of is_domain_name t)
    then invalid_tokens is_domain_name ts
    else t ∷ invalid_tokens is_domain_name ts

-- The tokens that a log says are invalid.
abbrev pub logged_tokens : List LogLine → List Text
logged_tokens [] = []
logged_tokens (invalid_line n token e ∷ log) = token ∷ logged_tokens log
logged_tokens (suppressed n limit ∷ log) = logged_tokens log
logged_tokens (parsed n m ∷ log) = logged_tokens log

abbrev pub first_of : ℕ → List Text → List Text
first_of zero ts = []
first_of (suc n) [] = []
first_of (suc n) (t ∷ ts) = t ∷ first_of n ts

pub logged_tokens-append :
    (l m : List LogLine) → logged_tokens (l ++ m) ≡ logged_tokens l ++ logged_tokens m
logged_tokens-append [] m = refl
logged_tokens-append (invalid_line n t e ∷ l) m = ap (◌∷◌ t) (logged_tokens-append l m)
logged_tokens-append (suppressed n t ∷ l) m = logged_tokens-append l m
logged_tokens-append (parsed n t ∷ l) m = logged_tokens-append l m

pub invalid_tokens-append :
    (is_domain_name : Text → Bool) (ts us : List Text)
    → invalid_tokens is_domain_name (ts ++ us)
      ≡ invalid_tokens is_domain_name ts ++ invalid_tokens is_domain_name us
invalid_tokens-append is_domain_name [] us = refl
invalid_tokens-append is_domain_name (t ∷ ts) us =
    let rest = invalid_tokens-append is_domain_name ts us in
    elim (Bool-cases (is_some (entry_of is_domain_name t))) [
      | inl e ↦ rw e rest
      | inr e ↦ rw e (ap (◌∷◌ t) rest)
    ]

pub length-invalid_tokens :
    (is_domain_name : Text → Bool) (ts : List Text)
    → length (invalid_tokens is_domain_name ts) ≡ invalid_in is_domain_name ts
length-invalid_tokens is_domain_name [] = refl
length-invalid_tokens is_domain_name (t ∷ ts) =
    let rest = length-invalid_tokens is_domain_name ts in
    elim (Bool-cases (is_some (entry_of is_domain_name t))) [
      | inl e ↦ rw e rest
      | inr e ↦ rw e (ap suc rest)
    ]

first_of-append :
    (n : ℕ) (ts : List Text) (t : Text) → n ≤ length ts → first_of n (ts ++ t ∷ []) ≡ first_of n ts
first_of-append zero ts t h = refl
first_of-append (suc n) [] t h = absurd (omega arith)
first_of-append (suc n) (u ∷ ts) t h = ap (◌∷◌ u) (first_of-append n ts t (omega arith))

first_of-all : (n : ℕ) (ts : List Text) → n ≡ length ts → first_of n ts ≡ ts
first_of-all zero [] h = refl
first_of-all zero (t ∷ ts) h = absurd (omega arith)
first_of-all (suc n) [] h = refl
first_of-all (suc n) (t ∷ ts) h = ap (◌∷◌ t) (first_of-all n ts (omega arith))

length-snoc : (ts : List Text) (t : Text) → length (ts ++ t ∷ []) ≡ suc (length ts)
length-snoc [] t = refl
length-snoc (u ∷ ts) t = ap suc (length-snoc ts t)

-- The log grows by the next invalid token until the limit is reached.
grows :
    (m n : ℕ) (ts : List Text) (t : Text)
    → m ≡ length ts
    → n ≡ suc m
    → first_of m ts ++ t ∷ [] ≡ first_of n (ts ++ t ∷ [])
grows m n ts t e f =
    ap (λ l. l ++ t ∷ []) (first_of-all m ts e)
    ∙ sym (first_of-all n (ts ++ t ∷ []) (omega (arith, length-snoc ts t)))

stays :
    (m n : ℕ) (ts : List Text) (t : Text)
    → m ≤ length ts
    → n ≡ m
    → first_of m ts ++ [] ≡ first_of n (ts ++ t ∷ [])
stays m n ts t h e =
    append-nil (first_of m ts)
    ∙ sym (first_of-append m ts t h)
    ∙ ap (λ k. first_of k (ts ++ t ∷ [])) (sym e)

pub log_error-tokens :
    (limit : ℤ) (count n invalid : ℕ) (token : Text) (e : ParseError) (ts : List Text)
    → count ≡ (if is_zero limit then 0 else invalid)
    → invalid ≡ length ts
    → let r = log_error (record { limit = limit; count = count }) n token e in
      first_of (allowed limit invalid) ts ++ logged_tokens r.1
      ≡ first_of (allowed r.0.limit (invalid + 1)) (ts ++ token ∷ [])
unfolding log_error
log_error-tokens (pos zero) count n invalid token e ts c l =
    stays (allowed (pos zero) invalid) (allowed (pos zero) (invalid + 1)) ts token (ground arith)
      (ground arith)
log_error-tokens (pos (suc k)) count n invalid token e ts c l =
    elim (Bool-cases (leb (suc k) invalid)) [
      | inl full ↦
          let full' : leb (suc k) count ≡ true = rw c full in
          rw (full, full', log_error)
            (stays (suc k) (allowed (pos (suc k)) (invalid + 1)) ts token (ground arith)
              (ground arith))
      | inr free ↦
          let free' : leb (suc k) count ≡ false = rw c free in
          rw (free, free', log_error)
            (grows invalid (allowed (pos (suc k)) (invalid + 1)) ts token l (ground arith))
    ]
log_error-tokens (negsuc k) count n invalid token e ts c l =
    grows invalid (invalid + 1) ts token l (omega arith)

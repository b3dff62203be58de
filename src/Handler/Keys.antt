-- ===== src/Handler/Keys.antt =====
-- `cacheKeyFor`: the key of a question in the cache.
use resolvit.Prelude.{
  ℕ, ◌≡◌, ◌≢◌, refl, sym, Bool, true, false, [], ◌∷◌, ◌++◌, arith, if◌then◌else◌, All, subst,
  append_assoc,
}
use resolvit.Go.Text.{Text, codes, to_lower}
use resolvit.Go.Decimal.{itoa, itoa_injective, itoa-IsDigit, IsDigit}

abbrev bar : ℕ
bar = b'|'

-- The name of the transport in the key.
abbrev pub protocol_name : Bool → Text
protocol_name is_tcp = if is_tcp then codes "tcp" else codes "udp"

unfoldable pub cache_key_for : Text → ℕ → Text → Text
cache_key_for name qtype protocol =
    to_lower name ++ (codes "|" ++ (itoa qtype ++ (codes "|" ++ protocol)))

abbrev Lacks : Text → Type 0
Lacks = All (λ c. c ≢ bar)

no_bar_in : (s t u : Text) → s ++ bar ∷ t ≡ u → ¬ Lacks u
no_bar_in [] t u e l = (subst Lacks (sym e) l).0 refl
no_bar_in (c ∷ s) t [] e l = cc
no_bar_in (c ∷ s) t (d ∷ u) e l = no_bar_in s t u (cc) l.1

-- A text is cut at its last bar in one way only.
last_bar_injective :
    (s s' t t' : Text) → Lacks t → Lacks t' → s ++ bar ∷ t ≡ s' ++ bar ∷ t' → (s ≡ s') × (t ≡ t')
last_bar_injective [] [] t t' l l' e = (refl, cc)
last_bar_injective [] (c ∷ s') t t' l l' e = absurd (no_bar_in s' t' t (cc) l)
last_bar_injective (c ∷ s) [] t t' l l' e = absurd (no_bar_in s t t' (cc) l')
last_bar_injective (c ∷ s) (d ∷ s') t t' l l' e =
    let (p, q) = last_bar_injective s s' t t' l l' (cc) in let first : c ≡ d = cc in (cc, q)

digits-Lacks : (s : Text) → All IsDigit s → Lacks s
digits-Lacks [] h = tt
digits-Lacks (c ∷ s) h = (λ e. absurd (omega arith), digits-Lacks s h.1)

protocol-Lacks : (is_tcp : Bool) → Lacks (protocol_name is_tcp)
protocol-Lacks true = omega arith
protocol-Lacks false = omega arith

protocol-injective : (b b' : Bool) → protocol_name b ≡ protocol_name b' → b ≡ b'
protocol-injective true true e = refl
protocol-injective true false e = absurd (ground arith)
protocol-injective false true e = absurd (ground arith)
protocol-injective false false e = refl

-- Two questions share a key only if their names agree up to the case of the letters, their types
-- are equal and both came over UDP or both over TCP.
pub cache_key_for_injective :
    (name name' : Text) (qtype qtype' : ℕ) (is_tcp is_tcp' : Bool)
    → cache_key_for name qtype (protocol_name is_tcp)
      ≡ cache_key_for name' qtype' (protocol_name is_tcp')
    → (to_lower name ≡ to_lower name') × (qtype ≡ qtype') × (is_tcp ≡ is_tcp')
unfolding cache_key_for
cache_key_for_injective name name' qtype qtype' is_tcp is_tcp' e =
    let outer =
      last_bar_injective (to_lower name ++ bar ∷ itoa qtype) (to_lower name' ++ bar ∷ itoa qtype')
        (protocol_name is_tcp) (protocol_name is_tcp') (protocol-Lacks is_tcp)
        (protocol-Lacks is_tcp') (simp append_assoc e) in
    let inner =
      last_bar_injective (to_lower name) (to_lower name') (itoa qtype) (itoa qtype')
        (digits-Lacks (itoa qtype) (itoa-IsDigit qtype))
        (digits-Lacks (itoa qtype') (itoa-IsDigit qtype')) outer.0 in
    (inner.0, itoa_injective qtype qtype' inner.1, protocol-injective is_tcp is_tcp' outer.1)

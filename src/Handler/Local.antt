-- ===== src/Handler/Local.antt =====
-- The loop of `handleCNAME` against the chain of aliases that it follows.
use resolvit.Prelude.{
  ℕ, zero, suc, ◌<◌, ◌≤◌, ◌≡◌, refl, ap, ◌∙◌, inl, inr, false, none, some, List, [], ◌∷◌, ◌++◌,
  arith, length, Option-cases, append_assoc, append-nil,
}
use resolvit.Go.Text.{Text, dot, text_eq}
use resolvit.Go.Text.Equality.{text_eq_refl}
use resolvit.Go.Outcome.{done, hang}
use resolvit.Go.Ip.{parse_ip}
use resolvit.Dns.{Rr, RrHeader, a, cname}
use resolvit.Records.{Record, Store, cname_type, a_type, get}
use resolvit.Records.Load.{AllValid, get-IsValid}
use resolvit.Handler.{Chain, ends_at, resolves, follow, a_record, cname_record}

abbrev pub dotted : Text → Text
dotted s = s ++ dot ∷ []

-- The answers for local records: in the class IN, to be kept for ten minutes.
abbrev pub local_header : Text → ℕ → RrHeader
local_header name rrtype = record { name = name; rrtype = rrtype; class = 1; ttl = 600 }

abbrev pub local_a : Text → Text → Rr
local_a name content = a (local_header name 1) (parse_ip content)

abbrev pub local_cname : Text → Text → Rr
local_cname name target = cname (local_header name 5) target

-- Where a chain of local aliases leads: to a name without a local record, or to an address.
pub data Goal : Type 0 where
  outside : Text → Goal
  address : Goal

-- From a name, the records of a chain and its end.
pub data Chases (records : Store) : Text → List Rr → Goal → Type 0 where
  stop : (t : Text) → get records t ≡ none → Chases records t [] (outside t)
  local :
      (t : Text) (found : Record)
      → get records t ≡ some found
      → found.typ ≡ a_type
      → Chases records t (local_a t found.content ∷ []) address
  alias :
      (t : Text) (found : Record) (rrs : List Rr) (goal : Goal)
      → get records t ≡ some found
      → found.typ ≡ cname_type
      → Chases records (dotted found.content) rrs goal
      → Chases records t (local_cname t (dotted found.content) ∷ rrs) goal

abbrev pub chain_of : List Rr → Goal → Chain
chain_of rrs (outside t) = ends_at t rrs
chain_of rrs address = resolves rrs

pub cname_ne_a : text_eq a_type cname_type ≡ false
unfolding text_eq
cname_ne_a = refl

module _ (records : Store) where
  -- A chain that exists is what the loop finds, with one round more than it has records.
  pub follow_complete :
      (fuel : ℕ) {t : Text} {rrs : List Rr} {goal : Goal} (before : List Rr)
      → Chases records t rrs goal
      → length rrs < fuel
      → follow records fuel t before ≡ done (chain_of (before ++ rrs) goal)
  unfolding follow
  follow_complete zero before c h = absurd (omega arith)
  follow_complete (suc fuel) before (stop t e) h = rw (e, follow, append-nil before)
  follow_complete (suc fuel) before (local t found e q) h =
      rw (e, follow, q, cname_ne_a, q, text_eq_refl a_type)
  follow_complete (suc fuel) before (alias t found rrs goal e q c) h =
      rw (e, follow, q, text_eq_refl cname_type)
        (follow_complete fuel (before ++ cname_record t (dotted found.content) ∷ []) c (omega arith)
          ∙ ap (λ rs. done (chain_of rs goal)) (append_assoc before _ rrs))

  -- A rank that falls along every alias leads to the end of each chain.
  abbrev pub Descends : (Text → ℕ) → Type 0
  Descends rank =
      (t : Text) (found : Record)
      → get records t ≡ some found
      → found.typ ≡ cname_type
      → rank (dotted found.content) < rank t

  chase :
      (rank : Text → ℕ) (n : ℕ) (t : Text)
      → AllValid records
      → Descends rank
      → rank t < n
      → (rrs : List Rr) × (goal : Goal) × (Chases records t rrs goal) × (length rrs ≤ suc (rank t))
  chase rank zero t valid falls h = absurd (omega arith)
  chase rank (suc n) t valid falls h = elim (Option-cases (get records t)) [
    | inl miss ↦ ([], outside t, stop t miss, omega arith)
    | inr (found, hit) ↦ elim ((get-IsValid records t found valid hit).known) [
      | inr q ↦ (a_record t found.content ∷ [], address, local t found hit q, omega arith)
      | inl q ↦
          let less = falls t found hit q in
          let (rrs, goal, c, l) = chase rank n (dotted found.content) valid falls (omega arith) in
          (
            cname_record t (dotted found.content) ∷ rrs,
            goal,
            alias t found rrs goal hit q c,
            omega arith,
          )
    ]
  ]

  -- In a store of valid records whose aliases descend, the loop ends within the rank of the name and
  -- two rounds, with the chain.
  pub follow_total :
      (rank : Text → ℕ) (fuel : ℕ) (t : Text) (before : List Rr)
      → AllValid records
      → Descends rank
      → suc (rank t) < fuel
      → (rrs : List Rr) × (goal : Goal) × (Chases records t rrs goal)
        × (follow records fuel t before ≡ done (chain_of (before ++ rrs) goal))
  follow_total rank fuel t before valid falls h =
      let (rrs, goal, c, l) = chase rank (suc (rank t)) t valid falls (omega arith) in
      (rrs, goal, c, follow_complete fuel before c (omega arith))

  -- Names whose records are aliases of one another.
  abbrev pub IsTrap : (Text → Type 0) → Type 0
  IsTrap P =
      (t : Text)
      → P t
      → (found : Record) × (get records t ≡ some found)
        × (found.typ ≡ cname_type)
        × P (dotted found.content)

  -- From such a name the loop never ends.
  pub follow_hangs :
      (P : Text → Type 0) (trap : IsTrap P) (fuel : ℕ) (t : Text) (before : List Rr)
      → P t
      → follow records fuel t before ≡ hang
  unfolding follow
  follow_hangs P trap zero t before p = refl
  follow_hangs P trap (suc fuel) t before p =
      let (found, hit, q, next) = trap t p in
      rw (hit, follow, q, text_eq_refl cname_type)
        (follow_hangs P trap fuel (dotted found.content) _ next)

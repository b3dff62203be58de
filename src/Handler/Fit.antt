-- ===== src/Handler/Fit.antt =====
-- The size limit of `writeResponse`.
use resolvit.Prelude.{
  ℕ, zero, suc, ◌<◌, ◌≤◌, ◌≡◌, refl, sym, ap, ◌∙◌, ◌⊎◌, inl, inr, Bool, true, false, not, ◌&&◌,
  List, [], ◌∷◌, ◌++◌, ltb, if◌then◌else◌, arith, length, Bool-cases, append_assoc, append-nil,
}
use resolvit.Dns.{Msg, Rr, Library}

abbrev pub max_msg_size : ℕ
max_msg_size = 512

abbrev pub has_answers : List Rr → Bool
has_answers [] = false
has_answers (rr ∷ rrs) = true

-- msg.Answer[:len(msg.Answer)-1]
drop_last : List Rr → List Rr
drop_last [] = []
drop_last (rr ∷ []) = []
drop_last (rr ∷ rr' ∷ rrs) = rr ∷ drop_last (rr' ∷ rrs)

-- The loop, with a round for each answer; `size` is the variable `msgSize`.
shrink : Library → ℕ → ℕ → Msg → Msg
unfolding drop_last
shrink lib zero size m = m
shrink lib (suc rounds) size m =
    let shorter = record m { answer = drop_last m.answer } in
    let rest = shrink lib rounds (lib.len shorter) shorter in
    if ltb max_msg_size size && has_answers m.answer then rest else m

-- The message as it is written to the client.
unfoldable pub fit : Library → Bool → Msg → Msg
unfolding shrink
fit lib is_tcp m =
    if has_answers m.answer && ltb max_msg_size (lib.len m) && not is_tcp
    then shrink lib (length m.answer) (lib.len m) (record m { truncated = true })
    else m

length-drop_last : (rr : Rr) (rrs : List Rr) → length (drop_last (rr ∷ rrs)) ≡ length rrs
unfolding drop_last
length-drop_last rr [] = refl
length-drop_last rr (rr' ∷ rrs) = ap suc (length-drop_last rr' rrs)

length-drop_last-le : (rrs : List Rr) (n : ℕ) → length rrs ≤ suc n → length (drop_last rrs) ≤ n
length-drop_last-le [] n h = unfold drop_last in omega arith
length-drop_last-le (rr ∷ rrs) n h = omega (arith, length-drop_last rr rrs)

nil_of_length : (rrs : List Rr) → length rrs ≤ 0 → rrs ≡ []
nil_of_length [] h = refl
nil_of_length (rr ∷ rrs) h = absurd (omega arith)

has_answers-nil : (rrs : List Rr) → has_answers rrs ≡ false → rrs ≡ []
has_answers-nil [] h = refl
has_answers-nil (rr ∷ rrs) h = cc

-- The answers are those of a message without some at the end.
abbrev pub IsPrefix : List Rr → List Rr → Type 0
IsPrefix kept all = (cut : List Rr) × (all ≡ kept ++ cut)

drop_last-IsPrefix : (rrs : List Rr) → IsPrefix (drop_last rrs) rrs
unfolding drop_last
drop_last-IsPrefix [] = ([], refl)
drop_last-IsPrefix (rr ∷ []) = (rr ∷ [], refl)
drop_last-IsPrefix (rr ∷ rr' ∷ rrs) =
    let (cut, e) = drop_last-IsPrefix (rr' ∷ rrs) in (cut, ap (◌∷◌ rr) e)

IsPrefix-trans : (xs ys zs : List Rr) → IsPrefix xs ys → IsPrefix ys zs → IsPrefix xs zs
IsPrefix-trans xs ys zs (c, e) (d, f) = (c ++ d, f ∙ ap (λ t. t ++ d) e ∙ append_assoc xs c d)

module _ (lib : Library) where
  shrink-IsPrefix :
      (rounds size : ℕ) (m : Msg) → IsPrefix (shrink lib rounds size m).answer m.answer
  unfolding shrink
  shrink-IsPrefix zero size m = ([], sym (append-nil m.answer))
  shrink-IsPrefix (suc rounds) size m =
      elim (Bool-cases (ltb max_msg_size size && has_answers m.answer)) [
        | inr e ↦ rw (e, shrink) ([], sym (append-nil m.answer))
        | inl e ↦
            let shorter : Msg = record m { answer = drop_last m.answer } in
            rw (e, shrink)
              (IsPrefix-trans (shrink lib rounds (lib.len shorter) shorter).answer
                (drop_last m.answer) m.answer (shrink-IsPrefix rounds (lib.len shorter) shorter)
                (drop_last-IsPrefix m.answer))
      ]

  shrink_fits :
      (rounds size : ℕ) (m : Msg)
      → length m.answer ≤ rounds
      → size ≡ lib.len m
      → ((shrink lib rounds size m).answer ≡ [])
        ⊎ (lib.len (shrink lib rounds size m) ≤ max_msg_size)
  unfolding shrink
  shrink_fits zero size m h e = inl (nil_of_length m.answer h)
  shrink_fits (suc rounds) size m h e =
      let shorter : Msg = record m { answer = drop_last m.answer } in
      elim (Bool-cases (has_answers m.answer)) [
        | inr n ↦ inl (rw (n, shrink) (ground (arith, has_answers-nil m.answer n)))
        | inl n ↦ elim (Bool-cases (ltb max_msg_size size)) [
          | inr small ↦ inr (rw (small, shrink) (ground arith))
          | inl big ↦
              rw (big, n, shrink)
                (shrink_fits rounds (lib.len shorter) shorter
                  (length-drop_last-le m.answer rounds h) refl)
        ]
      ]

  shrink_from :
      (rrs : List Rr) (m : Msg)
      → m.answer ≡ rrs
      → ltb max_msg_size (lib.len m) ≡ true
      → let cut = shrink lib (length rrs) (lib.len m) (record m { truncated = true }) in
        (cut.answer ≡ []) ⊎ (lib.len cut ≤ max_msg_size)
  unfolding shrink
  shrink_from [] m e h = inl e
  shrink_from (rr ∷ rrs) m e h =
      let shorter : Msg = record m { truncated = true; answer = drop_last (rr ∷ rrs) } in
      rw (h, e, shrink)
        (shrink_fits (length rrs) (lib.len shorter) shorter
          (length-drop_last-le (rr ∷ rrs) (length rrs) (omega arith)) refl)

-- Over UDP a response that `writeResponse` sends has no answers or fits in 512 bytes.
pub fit_fits :
    (lib : Library) (m : Msg)
    → ((fit lib false m).answer ≡ []) ⊎ (lib.len (fit lib false m) ≤ max_msg_size)
unfolding fit
fit_fits lib m = elim (Bool-cases (has_answers m.answer)) [
  | inr n ↦ inl (rw (n, fit) (has_answers-nil m.answer n))
  | inl n ↦ elim (Bool-cases (ltb max_msg_size (lib.len m))) [
    | inr small ↦ inr (rw (n, small, fit) (ground arith))
    | inl big ↦ rw (n, big, fit) (shrink_from lib m.answer m refl big)
  ]
]

shrink_keeps :
    (lib : Library) (rounds size : ℕ) (m : Msg)
    → ((shrink lib rounds size m).truncated ≡ m.truncated)
      × ((shrink lib rounds size m).id ≡ m.id)
      × ((shrink lib rounds size m).rcode ≡ m.rcode)
      × ((shrink lib rounds size m).question ≡ m.question)
unfolding shrink
shrink_keeps lib zero size m = (refl, refl, refl, refl)
shrink_keeps lib (suc rounds) size m =
    let shorter : Msg = record m { answer = drop_last m.answer } in
    ground (arith, shrink_keeps lib rounds (lib.len shorter) shorter)

-- What a response keeps when it is written: its answers are a prefix of those it had, and over TCP
-- all of them; it is marked as truncated if it had answers and is over UDP and too long, and else
-- is not changed; and the id, the code and the question stay.
pub fit_keeps :
    (lib : Library) (is_tcp : Bool) (m : Msg)
    → IsPrefix (fit lib is_tcp m).answer m.answer
      × ((is_tcp ≡ true) → fit lib is_tcp m ≡ m)
      × ((has_answers m.answer && ltb max_msg_size (lib.len m) && not is_tcp) ≡ true
          → (fit lib is_tcp m).truncated ≡ true)
      × ((has_answers m.answer && ltb max_msg_size (lib.len m) && not is_tcp) ≡ false
          → fit lib is_tcp m ≡ m)
      × ((fit lib is_tcp m).id ≡ m.id)
      × ((fit lib is_tcp m).rcode ≡ m.rcode)
      × ((fit lib is_tcp m).question ≡ m.question)
unfolding fit
fit_keeps lib is_tcp m =
    let cut : Msg = record m { truncated = true } in
    let kept = shrink_keeps lib (length m.answer) (lib.len m) cut in
    (
      elim (Bool-cases (has_answers m.answer && ltb max_msg_size (lib.len m) && not is_tcp)) [
        | inl e ↦ rw (e, fit) (shrink-IsPrefix lib (length m.answer) (lib.len m) cut)
        | inr e ↦ rw (e, fit) ([], sym (append-nil m.answer))
      ],
      λ e. ground arith,
      λ e. ground arith,
      λ e. ground arith,
      ground arith,
      ground arith,
      ground arith,
    )

shrink-authoritative :
    (lib : Library) (rounds size : ℕ) (m : Msg)
    → (shrink lib rounds size m).authoritative ≡ m.authoritative
unfolding shrink
shrink-authoritative lib zero size m = refl
shrink-authoritative lib (suc rounds) size m =
    let shorter : Msg = record m { answer = drop_last m.answer } in
    ground (arith, shrink-authoritative lib rounds (lib.len shorter) shorter)

pub fit-authoritative :
    (lib : Library) (is_tcp : Bool) (m : Msg) → (fit lib is_tcp m).authoritative ≡ m.authoritative
unfolding fit
fit-authoritative lib is_tcp m =
    let kept =
      shrink-authoritative lib (length m.answer) (lib.len m) (record m { truncated = true }) in
    ground arith

-- The client gets the whole of a message's answers, or, over UDP and with a message of more than 512
-- bytes, some of the first of them in a message that is marked as truncated.
abbrev pub IsDelivered : Library → Bool → Msg → Msg → Type 0
IsDelivered lib is_tcp whole sent =
    IsPrefix sent.answer whole.answer
    × ((sent.answer ≡ whole.answer)
        ⊎ ((is_tcp ≡ false) × (512 < lib.len whole) × (sent.truncated ≡ true)))

too_long :
    (answers long tcp : Bool) → (answers && long && not tcp) ≡ true → (long ≡ true) × (tcp ≡ false)
too_long answers long tcp h = (ground arith, ground arith)

pub fit-IsDelivered :
    (lib : Library) (is_tcp : Bool) (m : Msg) → IsDelivered lib is_tcp m (fit lib is_tcp m)
fit-IsDelivered lib is_tcp m =
    let kept = fit_keeps lib is_tcp m in
    (
      kept.0,
      elim (Bool-cases (has_answers m.answer && ltb max_msg_size (lib.len m) && not is_tcp)) [
        | inr e ↦ inl (ap (λ (x : Msg). x.answer) (kept.3 e))
        | inl e ↦
            let (long, udp) =
              too_long (has_answers m.answer) (ltb max_msg_size (lib.len m)) is_tcp e in
            inr (udp, ground arith, kept.2 e)
      ],
    )

-- A message that was cut once is not cut again, if it differs in neither question, answers nor rest.
pub fit_again :
    (lib : Library) (is_tcp : Bool) (m copied : Msg)
    → lib.len copied ≡ lib.len (fit lib is_tcp m)
    → copied.answer ≡ (fit lib is_tcp m).answer
    → fit lib is_tcp copied ≡ copied
fit_again lib true m copied e a = (fit_keeps lib true copied).1 refl
fit_again lib false m copied e a = elim (fit_fits lib m) [
  | inl empty ↦ let none_left : copied.answer ≡ [] = a ∙ empty in unfold fit in ground arith
  | inr small ↦ let fits : lib.len copied ≤ max_msg_size = rw e small in unfold fit in ground arith
]

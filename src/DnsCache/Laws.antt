-- ===== src/DnsCache/Laws.antt =====
-- What `Get` returns after `Set` and `Clear`, and when it panics.
use resolvit.Prelude.{
  ℕ, ◌+◌, ◌^◌, ◌<◌, ◌≡◌, ◌≢◌, refl, inl, inr, none, some, List, [], ◌∷◌, ltb, if◌then◌else◌,
  get_elem?, arith, Option, Option-cases, Bool-cases,
}
use resolvit.Go.Text.{Text}
use resolvit.Go.Text.Equality.{text_eq_refl, text_eq_iff}
use resolvit.Go.Dict.{lookup, lookup-insert}
use resolvit.Go.Heap.{Ptr}
use resolvit.Go.Outcome.{done, panic}
use resolvit.Dns.{Msg, Question, Rr, header}
use resolvit.DnsCache.{
  Cache, CacheEntry, get, get_entry, log_expired, log_question, ttl_of, set, clear,
}

-- After `Set`, a `Get` of the same key, in a heap where the message has a question, finds the message
-- until the time to live has passed, and nothing after that.
pub get-set_self :
    (heap later : List Msg) (cache after : Cache) (now then_ : ℕ) (key : Text) (p : Ptr)
    (m m' : Msg)
    → get_elem? heap p ≡ some m
    → get_elem? later p ≡ some m'
    → m'.question ≢ []
    → set heap cache now key (some p) ≡ done after
    → get later after then_ key
      ≡ (if ltb (now + ttl_of m.answer) then_ then done none else done (some p))
unfolding get set
get-set_self heap later cache after now then_ key p m m' e e' q h = ground (
  arith,
  lookup-insert key key (record { msg = p; expires_at = now + ttl_of m.answer }) cache,
  text_eq_refl key,
)

-- `Set` of one key leaves the other keys alone.
pub get-set_ne :
    (heap later : List Msg) (cache after : Cache) (now then_ : ℕ) (key other : Text) (p : Ptr)
    → key ≢ other
    → set heap cache now key (some p) ≡ done after
    → get later after then_ other ≡ get later cache then_ other
unfolding get set
get-set_ne heap later cache after now then_ key other p n h =
    elim (Option-cases (get_elem? heap p)) [
      | inl e ↦ ground arith
      | inr (m, e) ↦ ground (
        arith,
        lookup-insert key other (record { msg = p; expires_at = now + ttl_of m.answer }) cache,
        text_eq_iff key other,
      )
    ]

-- After `Clear`, no key is found.
pub get-clear :
    (heap : List Msg) (cache : Cache) (now : ℕ) (key : Text)
    → get heap (clear cache) now key ≡ done none
unfolding get clear lookup
get-clear heap cache now key = refl

-- `Get` panics on every expired entry whose message has no question.
pub get_expired_panics :
    (heap : List Msg) (cache : Cache) (now : ℕ) (key : Text) (entry : CacheEntry) (m : Msg)
    → lookup key cache ≡ some entry
    → get_elem? heap entry.msg ≡ some m
    → m.question ≡ []
    → entry.expires_at < now
    → get heap cache now key ≡ panic
unfolding get
get_expired_panics heap cache now key entry m e e' q h = ground arith

-- The expiry of a time to live of 32 bits fits the signed 64 bits of a duration.
pub ttl_of-fits : (rr : Rr) (rrs : List Rr) → (header rr).ttl < 2 ^ 32 → ttl_of (rr ∷ rrs) < 2 ^ 63
unfolding ttl_of
ttl_of-fits rr rrs h = omega arith

not_logged : {A : Type 0} (qs : List Question) (p : Ptr) → log_question qs ≡ done (some p) → A
unfolding log_question
not_logged [] p got = absurd (cc)
not_logged (q ∷ qs) p got = absurd (cc)

entry_found :
    (heap : List Msg) (now : ℕ) (found : Option CacheEntry) (p : Ptr)
    → get_entry heap now found ≡ done (some p)
    → (e : CacheEntry) × (found ≡ some e) × (e.msg ≡ p)
unfolding get_entry log_expired log_question
entry_found heap now none p h = absurd (cc)
entry_found heap now (some e) p h = elim (Bool-cases (ltb e.expires_at now)) [
  | inr fresh ↦ let got = rw (fresh, get_entry) at h in (e, refl, cc)
  | inl old ↦ elim (Option-cases (get_elem? heap e.msg)) [
    | inl gone ↦ let got = rw (old, gone, get_entry) at h in absurd (cc)
    | inr (m, there) ↦
        let got = rw (old, there, get_entry, log_expired) at h in not_logged m.question p got
  ]
]

-- What the cache gives stands in it under the key.
pub get-entry_msg :
    (heap : List Msg) (cache : Cache) (now : ℕ) (key : Text) (p : Ptr)
    → get heap cache now key ≡ done (some p)
    → (e : CacheEntry) × (lookup key cache ≡ some e) × (e.msg ≡ p)
unfolding get
get-entry_msg heap cache now key p = entry_found heap now (lookup key cache) p

-- ===== src/Handler/Tasks/Shared.antt =====
-- What a goroutine needs of the messages that it shares with others, and what keeps it.
use resolvit.Prelude.{◌≡◌, ◌≢◌, sym, ap, subst, ◌∙◌, inl, inr, some, List, [], Bool-cases}
use resolvit.Go.Text.{Text, text_eq}
use resolvit.Go.Dict.{lookup, insert, lookup-insert}
use resolvit.Go.Heap.{Holds, Ptr}
use resolvit.Dns.{Msg}
use resolvit.DnsCache.{CacheEntry}
use resolvit.Handler.{World}
use resolvit.Handler.Total.{IsSound}
use resolvit.Handler.Tasks.{
  Task, starts, looks_up, follows, tests_allowlist, tests_blocklist, logs_blocked, reads_cache,
  copies, forwards, caches, writes, answers, returned, panicked,
}

abbrev pub IsAsked : Msg → Type 0
IsAsked m = m.question ≢ []

-- The pointer leads to a message that has a question.
abbrev pub IsShared : List Msg → Ptr → Type 0
IsShared heap p = Holds IsAsked heap p

-- What a goroutine holds is fit for its next step: requests and replies that will be cached have a
-- question, and pointers lead to messages.
abbrev pub IsFit : List Msg → Task → Type 0
IsFit heap (starts request) = Unit
IsFit heap (looks_up r q) = r.question ≢ []
IsFit heap (follows q m target rrs) = m.question ≢ []
IsFit heap (tests_allowlist r q) = r.question ≢ []
IsFit heap (tests_blocklist r q) = r.question ≢ []
IsFit heap (logs_blocked r q) = r.question ≢ []
IsFit heap (reads_cache r q) = r.question ≢ []
IsFit heap (copies r q p) = (r.question ≢ []) × IsShared heap p
IsFit heap (forwards r q) = r.question ≢ []
IsFit heap (caches key m) = m.question ≢ []
IsFit heap (writes p) = IsShared heap p
IsFit heap (answers m) = Unit
IsFit heap returned = Unit
IsFit heap panicked = ⊥

-- Every message with a question stays one, at its pointer.
abbrev pub Keeps : List Msg → List Msg → Type 0
Keeps heap heap' = (p : Ptr) → IsShared heap p → IsShared heap' p

pub Keeps-IsFit :
    (heap heap' : List Msg) (t : Task) → Keeps heap heap' → IsFit heap t → IsFit heap' t
Keeps-IsFit heap heap' (copies r q p) k (asks, s) = (asks, k p s)
Keeps-IsFit heap heap' (writes p) k s = k p s
Keeps-IsFit heap heap' (starts request) k s = s
Keeps-IsFit heap heap' (looks_up r q) k s = s
Keeps-IsFit heap heap' (follows q m target rrs) k s = s
Keeps-IsFit heap heap' (tests_allowlist r q) k s = s
Keeps-IsFit heap heap' (tests_blocklist r q) k s = s
Keeps-IsFit heap heap' (logs_blocked r q) k s = s
Keeps-IsFit heap heap' (reads_cache r q) k s = s
Keeps-IsFit heap heap' (forwards r q) k s = s
Keeps-IsFit heap heap' (caches key m) k s = s
Keeps-IsFit heap heap' (answers m) k s = s
Keeps-IsFit heap heap' returned k s = s
Keeps-IsFit heap heap' panicked k s = elim s [ ]

-- A sound cache stays sound while its messages are kept.
pub Keeps-IsSound :
    (w w' : World) → w'.cache ≡ w.cache → Keeps w.heap w'.heap → IsSound w → IsSound w'
Keeps-IsSound w w' same k s = record {
  cached = λ key e h. k e.msg (s.cached key e (ap (lookup key) (sym same) ∙ h));
}

pub insert-IsSound :
    (w : World) (heap : List Msg) (key : Text) (e : CacheEntry)
    → IsShared heap e.msg
    → Keeps w.heap heap
    → IsSound w
    → IsSound (record w { heap = heap; cache = insert key e w.cache })
insert-IsSound w heap key e shared k s = record { cached = found }
  where
    found :
        (k' : Text) (e' : CacheEntry)
        → lookup k' (insert key e w.cache) ≡ some e'
        → IsShared heap e'.msg
    found k' e' h = elim (Bool-cases (text_eq key k')) [
      | inl here ↦
          let same : some e ≡ some e' = rw (lookup-insert key k' e w.cache, here) at h in
          let eq : e ≡ e' = cc in subst (λ (x : CacheEntry). IsShared heap x.msg) eq shared
      | inr other ↦ k e'.msg (s.cached k' e' (rw (lookup-insert key k' e w.cache, other) at h))
    ]

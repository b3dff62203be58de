-- ===== src/Handler/Tasks/Replies/Held.antt =====
-- The headings of the messages that a goroutine holds and writes: the id and what is asked.
use resolvit.Prelude.{
  ℕ, ◌≡◌, ◌⊎◌, refl, sym, ap, subst, ◌∙◌, inl, inr, Bool, Option, none, some, List, [], ◌∷◌, ◌++◌,
  Bool-cases,
}
use resolvit.Go.Text.{Text, to_lower, text_eq}
use resolvit.Go.Text.Equality.{text_eq_iff}
use resolvit.Go.Dict.{lookup, insert, lookup-insert}
use resolvit.Go.Heap.{Ptr, Holds}
use resolvit.Dns.{Msg, Question, Library, new_msg}
use resolvit.DnsCache.{CacheEntry}
use resolvit.Forward.{Net, Protocol}
use resolvit.Handler.{World}
use resolvit.Handler.Keys.{cache_key_for, protocol_name, cache_key_for_injective}
use resolvit.Handler.Tasks.Replies.{replies}
use resolvit.Handler.Tasks.{
  Task, starts, looks_up, follows, tests_allowlist, tests_blocklist, logs_blocked, reads_cache,
  copies, forwards, caches, writes, answers, returned, panicked,
}

-- What a question asks, whatever the case of its letters.
pub record Asked : Type 0 where
  pub name : Text
  pub qtype : ℕ

pub record Heading : Type 0 where
  pub id : ℕ
  pub asked : Option Asked

abbrev pub asked_of : Question → Asked
asked_of q = record { name = to_lower q.name; qtype = q.qtype }

abbrev pub first_asked : List Question → Option Asked
first_asked [] = none
first_asked (q ∷ qs) = some (asked_of q)

abbrev pub heading : Msg → Heading
heading m = record { id = m.id; asked = first_asked m.question }

-- The heading that the reply to a request bears.
abbrev pub heading_of : Option Msg → Heading
heading_of none = heading new_msg
heading_of (some r) = heading r

-- The library makes a reply with the question of the request, and an upstream's message has the id and
-- the question of the request.
pub record Echoes (lib : Library) (net : Net) : Type 0 where
  pub reply_asked :
      (r : Msg) → first_asked (lib.set_reply new_msg r).question ≡ first_asked r.question
  pub rcode_asked :
      (r : Msg) (c : ℕ) → first_asked (lib.set_rcode new_msg r c).question ≡ first_asked r.question
  pub reply_heading :
      (p : Protocol) (server : Text) (r m : Msg)
      → (net p server r).msg ≡ some m
      → heading m ≡ heading r

abbrev pub Bears : Heading → Msg → Type 0
Bears h m = heading m ≡ h

-- The request has the heading, which asks this question.
abbrev pub Mine : Heading → Msg → Question → Type 0
Mine h m q = Bears h m × (h.asked ≡ some (asked_of q))

-- The key is the one of a question that the heading asks.
abbrev pub IsKey : Heading → Text → Type 0
IsKey h key =
    (q : Question) × (is_tcp : Bool) × (h.asked ≡ some (asked_of q))
    × (key ≡ cache_key_for q.name q.qtype (protocol_name is_tcp))

abbrev pub Answers : Option Asked → Msg → Type 0
Answers asked m = first_asked m.question ≡ asked

-- The messages that a goroutine holds bear the heading of its request.
abbrev pub IsOwn : Heading → List Msg → Task → Type 0
IsOwn h heap (starts request) = heading_of request ≡ h
IsOwn h heap (looks_up r q) = Mine h r q
IsOwn h heap (follows q m target rrs) = Mine h m q
IsOwn h heap (tests_allowlist r q) = Mine h r q
IsOwn h heap (tests_blocklist r q) = Mine h r q
IsOwn h heap (logs_blocked r q) = Mine h r q
IsOwn h heap (reads_cache r q) = Mine h r q
IsOwn h heap (copies r q p) = Mine h r q × Holds (Answers h.asked) heap p
IsOwn h heap (forwards r q) = Mine h r q
IsOwn h heap (caches key m) = Bears h m × IsKey h key
IsOwn h heap (writes p) = Holds (Bears h) heap p
IsOwn h heap (answers m) = Bears h m
IsOwn h heap returned = Unit
IsOwn h heap panicked = Unit

-- A message that is overwritten keeps its heading.
abbrev pub KeepsHeadings : List Msg → List Msg → Type 1
KeepsHeadings heap heap' =
    (P : Heading → Type 0) (p : Ptr)
    → Holds (λ (m : Msg). P (heading m)) heap p
    → Holds (λ (m : Msg). P (heading m)) heap' p

pub KeepsHeadings-IsOwn :
    (h : Heading) (heap heap' : List Msg) (t : Task)
    → KeepsHeadings heap heap'
    → IsOwn h heap t
    → IsOwn h heap' t
KeepsHeadings-IsOwn h heap heap' (starts request) k s = s
KeepsHeadings-IsOwn h heap heap' (looks_up r q) k s = s
KeepsHeadings-IsOwn h heap heap' (follows q m target rrs) k s = s
KeepsHeadings-IsOwn h heap heap' (tests_allowlist r q) k s = s
KeepsHeadings-IsOwn h heap heap' (tests_blocklist r q) k s = s
KeepsHeadings-IsOwn h heap heap' (logs_blocked r q) k s = s
KeepsHeadings-IsOwn h heap heap' (reads_cache r q) k s = s
KeepsHeadings-IsOwn h heap heap' (copies r q p) k (mine, s) =
    (mine, k (λ h'. h'.asked ≡ h.asked) p s)
KeepsHeadings-IsOwn h heap heap' (forwards r q) k s = s
KeepsHeadings-IsOwn h heap heap' (caches key m) k s = s
KeepsHeadings-IsOwn h heap heap' (writes p) k s = k (λ h'. h' ≡ h) p s
KeepsHeadings-IsOwn h heap heap' (answers m) k s = s
KeepsHeadings-IsOwn h heap heap' returned k s = s
KeepsHeadings-IsOwn h heap heap' panicked k s = s

-- The message that the cache holds under the key of a question answers that question.
pub record IsKeyed (w : World) : Type 0 where
  pub keyed :
      (key : Text) (e : CacheEntry) (q : Question) (is_tcp : Bool)
      → lookup key w.cache ≡ some e
      → key ≡ cache_key_for q.name q.qtype (protocol_name is_tcp)
      → Holds (Answers (some (asked_of q))) w.heap e.msg

pub KeepsHeadings-IsKeyed :
    (w w' : World) → w'.cache ≡ w.cache → KeepsHeadings w.heap w'.heap → IsKeyed w → IsKeyed w'
KeepsHeadings-IsKeyed w w' same k s = record {
  keyed = λ key e q is_tcp l kq.
      k (λ h. h.asked ≡ some (asked_of q)) e.msg
        (s.keyed key e q is_tcp (ap (lookup key) (sym same) ∙ l) kq);
}

same_asked :
    (q q' : Question) (is_tcp is_tcp' : Bool)
    → cache_key_for q.name q.qtype (protocol_name is_tcp)
      ≡ cache_key_for q'.name q'.qtype (protocol_name is_tcp')
    → asked_of q ≡ asked_of q'
same_asked q q' is_tcp is_tcp' e =
    let (name, qtype, net) =
      cache_key_for_injective q.name q'.name q.qtype q'.qtype is_tcp is_tcp' e in
    rw (name, qtype) refl

pub insert-IsKeyed :
    (w : World) (heap : List Msg) (key : Text) (e : CacheEntry) (h : Heading)
    → IsKey h key
    → Holds (Bears h) heap e.msg
    → KeepsHeadings w.heap heap
    → IsKeyed w
    → IsKeyed (record w { heap = heap; cache = insert key e w.cache })
insert-IsKeyed w heap key e h (q, is_tcp, asks, kq) (m, at, bears) k s = record { keyed = found }
  where
    found :
        (key' : Text) (e' : CacheEntry) (q' : Question) (is_tcp' : Bool)
        → lookup key' (insert key e w.cache) ≡ some e'
        → key' ≡ cache_key_for q'.name q'.qtype (protocol_name is_tcp')
        → Holds (Answers (some (asked_of q'))) heap e'.msg
    found key' e' q' is_tcp' l kq' = elim (Bool-cases (text_eq key key')) [
      | inl here ↦
          let same : some e ≡ some e' = rw (lookup-insert key key' e w.cache, here) at l in
          let eq : e ≡ e' = cc in
          let keys : key ≡ key' = (text_eq_iff key key').0 here in
          let asked = same_asked q q' is_tcp is_tcp' (sym kq ∙ keys ∙ kq') in
          subst (λ (x : CacheEntry). Holds (Answers (some (asked_of q'))) heap x.msg) eq
            (m, at, ap (λ (x : Heading). x.asked) bears ∙ asks ∙ ap some asked)
      | inr other ↦
          k (λ h. h.asked ≡ some (asked_of q')) e'.msg
            (s.keyed key' e' q' is_tcp' (rw (lookup-insert key key' e w.cache, other) at l) kq')
    ]

-- What a step writes: nothing, or, with the return of the goroutine, one message with its heading.
abbrev pub Writes : Heading → World → Task → World × Task → Type 0
Writes h w t x =
    ((x.0.written ≡ w.written) × (replies x.1 ≡ replies t))
    ⊎ ((m : Msg) × (x.0.written ≡ w.written ++ m ∷ [])
        × Bears h m
        × (replies t ≡ 0)
        × (replies x.1 ≡ 1))

-- After a step: what the goroutine holds bears its heading, the messages keep theirs, so does what is
-- written, and the cache is keyed.
abbrev pub Owns : Heading → World → Task → World × Task → Type 1
Owns h w t x = IsOwn h x.0.heap x.1 × KeepsHeadings w.heap x.0.heap × Writes h w t x × IsKeyed x.0

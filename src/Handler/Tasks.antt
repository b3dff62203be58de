-- ===== src/Handler/Tasks.antt =====
-- A request as a goroutine serves it, an access to shared state at a time: the records, the filter's
-- two sets, the cache and the message at a pointer are read and changed under their own locks or
-- atomically, and other goroutines run in between. The environment holds what the records and the
-- filter are at the moment of the step.
pub mod Alone
pub mod Shared
pub mod Safe
pub mod Replies
pub mod Bounds
pub mod Refused
use resolvit.Prelude.{
  ◌≡◌, refl, Bool, true, false, not, Option, none, some, List, [], ◌∷◌, ◌++◌, ℕ, zero, suc,
  if◌then◌else◌, get_elem?,
}
use resolvit.Go.Text.{Text, dot, text_eq}
use resolvit.Go.Heap.{Ptr, alloc}
use resolvit.Go.Outcome.{Outcome, done, panic, hang, ◌>>=◌}
use resolvit.Dns.{Msg, Question, Rr, new_msg, rcode_format_error}
use resolvit.Records
use resolvit.Records.{Record, Store, cname_type, a_type}
use resolvit.DnsCache
use resolvit.Forward.{Exchanged, forward}
use resolvit.Filtering.Filter.{Filter, current_blocklist, current_allowlist, log_blocked}
use resolvit.Filtering.DomainSet.{matches}
use resolvit.Handler.{
  Env, World, Chain, ends_at, resolves, key_of, a_record, cname_record, add_answers, start_reply,
  finish_chain, handle_a, write_msg, write_response, respond, copy_cached, server_failure,
  name_error,
}

-- What a goroutine does next, with the local variables that are live there.
pub data Task : Type 0 where
  -- the start of `HandleDNSRequest`
  starts : Option Msg → Task
  -- before `records.Get` in `handleLocalRecord`
  looks_up : Msg → Question → Task
  -- before `records.Get` in the loop of `handleCNAME`: the reply so far, the target and its answers
  follows : Question → Msg → Text → List Rr → Task
  -- before the reads of the filter's two sets in `ShouldBlock`
  tests_allowlist : Msg → Question → Task
  tests_blocklist : Msg → Question → Task
  logs_blocked : Msg → Question → Task
  -- before `cache.Get` and before the copy of what it gave
  reads_cache : Msg → Question → Task
  copies : Msg → Question → Ptr → Task
  forwards : Msg → Question → Task
  -- before `cache.Set`, and before `writeResponse` with a message that is shared or not
  caches : Text → Msg → Task
  writes : Ptr → Task
  answers : Msg → Task
  returned : Task
  panicked : Task

-- One round of the loop over local aliases.
pub data Round : Type 0 where
  goes_on : Text → List Rr → Round
  ended : Chain → Round

follow_found : Text → List Rr → Option Record → Round
follow_found target rrs none = ended (ends_at target rrs)
follow_found target rrs (some found) =
    if text_eq found.typ cname_type
    then goes_on (found.content ++ dot ∷ [])
        (rrs ++ cname_record target (found.content ++ dot ∷ []) ∷ [])
    else if text_eq found.typ a_type
    then ended (resolves (rrs ++ a_record target found.content ∷ []))
    else goes_on target rrs

follow_once : Store → Text → List Rr → Round
unfolding follow_found
follow_once records target rrs = follow_found target rrs (Records.get records target)

to_cache : Text → Outcome Msg → Task
to_cache key (done m) = caches key m
to_cache key panic = panicked
to_cache key hang = panicked

after_round : Env → Question → Msg → Round → Task
unfolding to_cache
after_round env q m (goes_on target rrs) = follows q m target rrs
after_round env q m (ended chain) = to_cache (key_of env q) (finish_chain env m chain)

after_lookup : Env → Msg → Question → Option Record → Task
after_lookup env r q none = tests_allowlist r q
after_lookup env r q (some found) =
    let target = found.content ++ dot ∷ [] in
    if text_eq found.typ cname_type
    then follows q (add_answers (start_reply env r) (cname_record q.name target ∷ [])) target []
    else if text_eq found.typ a_type
    then caches (key_of env q) (handle_a env r q found)
    else tests_allowlist r q

after_allowlist : Msg → Question → Option Filter → Task
after_allowlist r q none = reads_cache r q
after_allowlist r q (some f) =
    if not f.enabled
    then reads_cache r q
    else if matches (some (current_allowlist f)) q.name f.block_subdomains
    then reads_cache r q
    else tests_blocklist r q

after_blocklist : Msg → Question → Option Filter → Task
after_blocklist r q none = reads_cache r q
after_blocklist r q (some f) =
    if matches (some (current_blocklist f)) q.name f.block_subdomains
    then logs_blocked r q
    else reads_cache r q

after_get : Msg → Question → Outcome (Option Ptr) → Task
after_get r q (done none) = forwards r q
after_get r q (done (some p)) = copies r q p
after_get r q panic = panicked
after_get r q hang = panicked

after_copy : Msg → Question → Outcome (Option Msg) → Task
after_copy r q (done none) = forwards r q
after_copy r q (done (some m)) = answers m
after_copy r q panic = panicked
after_copy r q hang = panicked

after_forward : Env → Msg → Question → Exchanged → Task
after_forward env r q reply = elim reply.err [
  | some e ↦ answers (server_failure env r)
  | none ↦ elim reply.msg [ none ↦ panicked | some m ↦ caches (key_of env q) m ]
]

after_set : World → List Msg → Ptr → Outcome DnsCache.Cache → World × Task
after_set w heap p (done cache) = (record w { heap = heap; cache = cache }, writes p)
after_set w heap p panic = (w, panicked)
after_set w heap p hang = (w, panicked)

after_write : World → Outcome World → World × Task
after_write w (done w') = (w', returned)
after_write w panic = (w, panicked)
after_write w hang = (w, panicked)

start_request : Env → World → Msg → List Question → World × Task
unfolding write_msg
start_request env w r [] = (write_msg w (env.lib.set_rcode new_msg r rcode_format_error), returned)
start_request env w r (q ∷ qs) = (w, looks_up r q)

-- One step of a goroutine.
unfoldable pub advance : Env → World → Task → World × Task
unfolding start_request after_lookup after_round follow_once after_allowlist after_blocklist
    after_get after_copy after_forward after_set after_write alloc write_msg
advance env w (starts none) =
    (write_msg w (record new_msg { rcode = rcode_format_error }), returned)
advance env w (starts (some r)) = start_request env w r r.question
advance env w (looks_up r q) = (w, after_lookup env r q (Records.get env.records q.name))
advance env w (follows q m target rrs) =
    (w, after_round env q m (follow_once env.records target rrs))
advance env w (tests_allowlist r q) = (w, after_allowlist r q env.filter)
advance env w (tests_blocklist r q) = (w, after_blocklist r q env.filter)
advance env w (logs_blocked r q) = (
  record w { blocked = w.blocked ++ log_blocked env.filter env.remote_addr q.name q.qtype },
  answers (name_error env r),
)
advance env w (reads_cache r q) =
    (w, after_get r q (DnsCache.get w.heap w.cache env.now_get (key_of env q)))
advance env w (copies r q p) = (w, after_copy r q (copy_cached env r.id (get_elem? w.heap p)))
advance env w (forwards r q) = (w, after_forward env r q (forward env.net env.upstreams r))
advance env w (caches key m) =
    let (p, heap) = alloc w.heap m in
    after_set w heap p (DnsCache.set heap w.cache env.now_set key (some p))
advance env w (writes p) = after_write w (write_response env w p)
advance env w (answers m) = after_write w (respond env w m)
advance env w returned = (w, returned)
advance env w panicked = (w, panicked)

-- Some steps with nothing in between.
unfoldable pub advance_all : Env → ℕ → World → Task → World × Task
unfolding advance
advance_all env zero w t = (w, t)
advance_all env (suc n) w t = let (w', t') = advance env w t in advance_all env n w' t'

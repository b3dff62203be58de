-- ===== src/Handler/Tasks/Replies.antt =====
-- A goroutine hands one message to the client's writer: the step with which it returns does, and no
-- other.
pub mod Held
pub mod Owned
use resolvit.Prelude.{
  ℕ, ◌+◌, ◌≡◌, refl, sym, ap, ◌∙◌, inl, inr, Bool, true, false, Option, none, some, List, [], ◌∷◌,
  ◌++◌, length, get_elem?, set, Bool-cases, Option-cases, arith, length-append,
}
use resolvit.Go.Text.{text_eq}
use resolvit.Go.Heap.{Ptr, alloc}
use resolvit.Go.Outcome.{Outcome, done, panic, hang}
use resolvit.Dns.{Msg, Question}
use resolvit.Records
use resolvit.Records.{Record, cname_type, a_type}
use resolvit.DnsCache
use resolvit.Forward.{Exchanged, forward}
use resolvit.Filtering.Filter.{Filter}
use resolvit.Handler.{
  Env, World, is_tcp, write_msg, write_loaded, write_response, respond, finish_chain, copy_cached,
  key_of,
}
use resolvit.Handler.Respond.{respond_lem, after_respond, sent}
use resolvit.Handler.Tasks.{
  Task, starts, looks_up, follows, tests_allowlist, tests_blocklist, logs_blocked, reads_cache,
  copies, forwards, caches, writes, answers, returned, panicked, Round, goes_on, ended, follow_once,
  to_cache, after_round, after_lookup, start_request, after_allowlist, after_blocklist, after_get,
  after_copy, after_forward, after_set, after_write, advance,
}

-- The messages that a goroutine has written.
abbrev pub replies : Task → ℕ
replies (starts request) = 0
replies (looks_up r q) = 0
replies (follows q m target rrs) = 0
replies (tests_allowlist r q) = 0
replies (tests_blocklist r q) = 0
replies (logs_blocked r q) = 0
replies (reads_cache r q) = 0
replies (copies r q p) = 0
replies (forwards r q) = 0
replies (caches key m) = 0
replies (writes p) = 0
replies (answers m) = 0
replies returned = 1
replies panicked = 0

-- A step writes as many messages as it adds to what its goroutine has written.
abbrev pub Counts : World → Task → World × Task → Type 0
Counts w t x = length x.0.written + replies t ≡ length w.written + replies x.1

one_more : (ms : List Msg) (m : Msg) → length (ms ++ m ∷ []) + 0 ≡ length ms + 1
one_more ms m = rw (length-append ms (m ∷ [])) (omega arith)

writes_one :
    (env : Env) (w : World) (p : Ptr) (found : Option Msg)
    → length (after_write w (write_loaded env w p found)).0.written + 0
      ≡ length w.written + replies (after_write w (write_loaded env w p found)).1
unfolding after_write write_loaded write_msg
writes_one env w p none = refl
writes_one env w p (some m) = one_more w.written _

silent_lookup :
    (env : Env) (r : Msg) (q : Question) (found : Option Record)
    → replies (after_lookup env r q found) ≡ 0
unfolding after_lookup
silent_lookup env r q none = refl
silent_lookup env r q (some found) = ground arith

silent_to_cache :
    (env : Env) (q : Question) (o : Outcome Msg) → replies (to_cache (key_of env q) o) ≡ 0
unfolding to_cache
silent_to_cache env q (done m) = refl
silent_to_cache env q panic = refl
silent_to_cache env q hang = refl

silent_round :
    (env : Env) (q : Question) (m : Msg) (round : Round) → replies (after_round env q m round) ≡ 0
unfolding after_round
silent_round env q m (goes_on target rrs) = refl
silent_round env q m (ended chain) = silent_to_cache env q (finish_chain env m chain)

silent_allowlist :
    (r : Msg) (q : Question) (f : Option Filter) → replies (after_allowlist r q f) ≡ 0
unfolding after_allowlist
silent_allowlist r q none = refl
silent_allowlist r q (some f) = ground arith

silent_blocklist :
    (r : Msg) (q : Question) (f : Option Filter) → replies (after_blocklist r q f) ≡ 0
unfolding after_blocklist
silent_blocklist r q none = refl
silent_blocklist r q (some f) = ground arith

silent_get : (r : Msg) (q : Question) (o : Outcome (Option Ptr)) → replies (after_get r q o) ≡ 0
unfolding after_get
silent_get r q (done none) = refl
silent_get r q (done (some p)) = refl
silent_get r q panic = refl
silent_get r q hang = refl

silent_copy : (r : Msg) (q : Question) (o : Outcome (Option Msg)) → replies (after_copy r q o) ≡ 0
unfolding after_copy
silent_copy r q (done none) = refl
silent_copy r q (done (some m)) = refl
silent_copy r q panic = refl
silent_copy r q hang = refl

silent_forward :
    (env : Env) (r : Msg) (q : Question) (reply : Exchanged)
    → replies (after_forward env r q reply) ≡ 0
unfolding after_forward
silent_forward env r q reply = ground arith

silent_set :
    (w : World) (heap : List Msg) (p : Ptr) (o : Outcome DnsCache.Cache)
    → Counts w (writes p) (after_set w heap p o)
unfolding after_set
silent_set w heap p (done cache) = refl
silent_set w heap p panic = refl
silent_set w heap p hang = refl

start_one :
    (env : Env) (w : World) (r : Msg) (qs : List Question)
    → Counts w (starts (some r)) (start_request env w r qs)
unfolding start_request write_msg
start_one env w r [] = one_more w.written _
start_one env w r (q ∷ qs) = refl

silent :
    (w : World) (t' : Task) → replies t' ≡ 0 → length w.written + 0 ≡ length w.written + replies t'
silent w t' e = ap (λ n. length w.written + n) (sym e)

-- In any surroundings, the step with which a goroutine returns writes one message, and every other
-- step writes none.
pub advance-Counts : (env : Env) (w : World) (t : Task) → Counts w t (advance env w t)
unfolding advance write_msg write_response
advance-Counts env w (starts none) = one_more w.written _
advance-Counts env w (starts (some r)) = start_one env w r r.question
advance-Counts env w (looks_up r q) =
    silent w _ (silent_lookup env r q (Records.get env.records q.name))
advance-Counts env w (follows q m target rrs) =
    silent w _ (silent_round env q m (follow_once env.records target rrs))
advance-Counts env w (tests_allowlist r q) = silent w _ (silent_allowlist r q env.filter)
advance-Counts env w (tests_blocklist r q) = silent w _ (silent_blocklist r q env.filter)
advance-Counts env w (logs_blocked r q) = refl
advance-Counts env w (reads_cache r q) =
    silent w _ (silent_get r q (DnsCache.get w.heap w.cache env.now_get (key_of env q)))
advance-Counts env w (copies r q p) =
    silent w _ (silent_copy r q (copy_cached env r.id (get_elem? w.heap p)))
advance-Counts env w (forwards r q) =
    silent w _ (silent_forward env r q (forward env.net env.upstreams r))
advance-Counts env w (caches key m) =
    let (p, heap) = alloc w.heap m in
    silent_set w heap p (DnsCache.set heap w.cache env.now_set key (some p))
advance-Counts env w (writes p) = writes_one env w p (get_elem? w.heap p)
advance-Counts env w (answers m) = rw (respond_lem env w m) (one_more w.written (sent env w m))
advance-Counts env w returned = refl
advance-Counts env w panicked = refl

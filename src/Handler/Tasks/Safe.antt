-- ===== src/Handler/Tasks/Safe.antt =====
-- No step of a goroutine panics, and each keeps the cache sound, while other goroutines change the
-- messages that they share.
use resolvit.Prelude.{
  ◌+◌, ◌≡◌, ◌≢◌, refl, sym, subst, ◌∙◌, inl, inr, Option, none, some, List, [], ◌∷◌, ◌++◌, length,
  get_elem?, set, Bool-cases, Option-cases, arith,
}
use resolvit.Go.Text.{Text, text_eq}
use resolvit.Go.Heap.{Holds-append, Holds-set, Ptr, alloc, get_elem?-snoc}
use resolvit.Dns.{Msg, Question, Rr, new_msg}
use resolvit.Records
use resolvit.Records.{Record, cname_type, a_type}
use resolvit.DnsCache
use resolvit.DnsCache.{CacheEntry, ttl_of}
use resolvit.Forward.{Exchanged, forward}
use resolvit.Forward.Laws.{IsResult, forward-IsResult, forward_from}
use resolvit.Filtering.Filter.{Filter}
use resolvit.Handler.{
  Env, World, is_tcp, key_of, a_record, finish_chain, write_response, write_loaded, write_msg,
  respond, copy_cached,
}
use resolvit.Handler.Fit.{fit, fit_keeps}
use resolvit.Handler.Local.{Goal, chain_of, outside, address}
use resolvit.Handler.Respond.{respond_lem, sent, after_respond}
use resolvit.Handler.Total.{IsSound, IsOrderly, finish_chain_total, handle_a_questioned}
use resolvit.Handler.Served.{get_total}
use resolvit.Handler.Tasks.{
  Task, starts, looks_up, follows, tests_allowlist, tests_blocklist, logs_blocked, reads_cache,
  copies, forwards, caches, writes, answers, returned, panicked, follow_found, follow_once,
  to_cache, after_round, after_lookup, start_request, after_allowlist, after_blocklist, after_get,
  after_copy, after_forward, after_set, after_write, advance,
}
use resolvit.Handler.Tasks.Shared.{IsAsked, IsShared, IsFit, Keeps, Keeps-IsSound, insert-IsSound}

-- After a step: the cache is sound, what the goroutine holds is fit, and the messages are kept.
abbrev pub IsSafe : World → World × Task → Type 0
IsSafe w x = IsSound x.0 × IsFit x.0.heap x.1 × Keeps w.heap x.0.heap

same_world : (w : World) (t : Task) → IsSound w → IsFit w.heap t → IsSafe w (w, t)
same_world w t s fits = (s, fits, λ p h. h)

fit-questioned :
    (env : Env) (m : Msg) → m.question ≢ [] → (fit env.lib (is_tcp env) m).question ≢ []
fit-questioned env m n e = n (sym (fit_keeps env.lib (is_tcp env) m).6 ∙ e)

module _ (env : Env) (w : World) (s : IsSound w) where
  write_shared : (p : Ptr) → IsShared w.heap p → IsSafe w (after_write w (write_response env w p))
  unfolding after_write write_response write_loaded write_msg
  write_shared p (m, e, n) =
      let sent = fit env.lib (is_tcp env) m in
      let k = λ (p' : Ptr). Holds-set IsAsked w.heap p' p m sent e (fit-questioned env m) in
      subst (λ o. IsSafe w (after_write w (write_loaded env w p o))) (sym e)
        (
          Keeps-IsSound w (record w { heap = set w.heap p sent; written = w.written ++ sent ∷ [] })
              refl k s,
          tt,
          k,
        )

  write_own : (m : Msg) → IsSafe w (after_write w (respond env w m))
  unfolding after_write
  write_own m =
      let k = λ (p : Ptr). Holds-append IsAsked w.heap (sent env w m ∷ []) p in
      rw (respond_lem env w m) (Keeps-IsSound w (after_respond env w m) refl k s, tt, k)

  caches-IsSafe : (key : Text) (m : Msg) → m.question ≢ [] → IsSafe w (advance env w (caches key m))
  unfolding advance after_set DnsCache.set alloc
  caches-IsSafe key m n =
      let k = λ (p : Ptr). Holds-append IsAsked w.heap (m ∷ []) p in
      let here : IsShared (w.heap ++ m ∷ []) (length w.heap) = (m, get_elem?-snoc w.heap m, n) in
      rw (get_elem?-snoc w.heap m) (
        insert-IsSound w (w.heap ++ m ∷ []) key
            (record { msg = length w.heap; expires_at = env.now_set + ttl_of m.answer }) here k s,
        here,
        k,
      )

module _ (env : Env) (ok : IsOrderly env) (heap : List Msg) (r : Msg) (asks : r.question ≢ [])
    (q : Question) where
  after_lookup-IsFit : (found : Option Record) → IsFit heap (after_lookup env r q found)
  unfolding after_lookup
  after_lookup-IsFit none = asks
  after_lookup-IsFit (some found) = elim (Bool-cases (text_eq found.typ cname_type)) [
    | inl alias ↦ rw (alias, after_lookup) (ok.documented.reply_question new_msg r asks)
    | inr other ↦ elim (Bool-cases (text_eq found.typ a_type)) [
      | inl direct ↦ rw (other, direct, after_lookup) (handle_a_questioned env ok r asks q found)
      | inr neither ↦ rw (other, neither, after_lookup) asks
    ]
  ]

  after_allowlist-IsFit : (f : Option Filter) → IsFit heap (after_allowlist r q f)
  unfolding after_allowlist
  after_allowlist-IsFit none = asks
  after_allowlist-IsFit (some f) = ground arith

  after_blocklist-IsFit : (f : Option Filter) → IsFit heap (after_blocklist r q f)
  unfolding after_blocklist
  after_blocklist-IsFit none = asks
  after_blocklist-IsFit (some f) = ground arith

  after_forward-IsFit :
      (reply : Exchanged)
      → IsResult reply
      → ((m : Msg) → reply.msg ≡ some m → m.question ≢ [])
      → IsFit heap (after_forward env r q reply)
  unfolding after_forward
  after_forward-IsFit reply (inl (has_msg, no_err)) asked = elim (Option-cases reply.msg) [
    | inl e ↦ absurd (cc)
    | inr (m, e) ↦ rw (no_err, after_forward, e) (asked m e)
  ]
  after_forward-IsFit reply (inr (no_msg, has_err)) asked = elim (Option-cases reply.err) [
    | inl e ↦ absurd (cc)
    | inr (text, e) ↦ rw (e, after_forward) tt
  ]

  after_get-IsFit :
      (w : World) (key : Text)
      → IsSound w
      → IsFit w.heap (after_get r q (DnsCache.get w.heap w.cache env.now_get key))
  unfolding after_get
  after_get-IsFit w key s = elim (get_total env w s key) [
    | inl miss ↦ rw miss asks
    | inr (e, hit, got) ↦ rw got (asks, s.cached key e hit)
  ]

  after_copy-IsFit :
      (p : Ptr)
      → IsShared heap p
      → IsFit heap (after_copy r q (copy_cached env r.id (get_elem? heap p)))
  unfolding after_copy copy_cached
  after_copy-IsFit p (m, e, n) = rw e tt

module _ (env : Env) (ok : IsOrderly env) (heap : List Msg) (m : Msg) (n : m.question ≢ []) where
  to_cache-IsFit :
      (key : Text) (rrs : List Rr) (goal : Goal)
      → IsFit heap (to_cache key (finish_chain env m (chain_of rrs goal)))
  unfolding to_cache
  to_cache-IsFit key rrs goal = let (m', e, n') = finish_chain_total env ok m rrs goal n in rw e n'

  after_round-IsFit :
      (q : Question) (target : Text) (rrs : List Rr) (found : Option Record)
      → IsFit heap (after_round env q m (follow_found target rrs found))
  unfolding after_round follow_found
  after_round-IsFit q target rrs none = to_cache-IsFit (key_of env q) rrs (outside target)
  after_round-IsFit q target rrs (some found) = elim (Bool-cases (text_eq found.typ cname_type)) [
    | inl alias ↦ rw (alias, follow_found, after_round) n
    | inr other ↦ elim (Bool-cases (text_eq found.typ a_type)) [
      | inl direct ↦
          rw (other, direct, follow_found, after_round)
            (to_cache-IsFit (key_of env q) (rrs ++ a_record target found.content ∷ []) address)
      | inr neither ↦ rw (other, neither, follow_found, after_round) n
    ]
  ]

start_request-IsSafe :
    (env : Env) (w : World) (r : Msg) (qs : List Question)
    → IsSound w
    → r.question ≡ qs
    → IsSafe w (start_request env w r qs)
unfolding start_request write_msg
start_request-IsSafe env w r [] s e = (record { cached = s.cached }, tt, λ p h. h)
start_request-IsSafe env w r (q ∷ qs) s e = same_world w (looks_up r q) s (λ none_asked. cc)

-- In orderly surroundings, from a sound cache and a goroutine that holds what its next step needs, a
-- step does not panic: the cache is sound after it, the goroutine again holds what it needs, and every
-- pointer that led to a message with a question still does.
pub advance-IsSafe :
    (env : Env) (w : World) (t : Task)
    → IsOrderly env
    → IsSound w
    → IsFit w.heap t
    → IsSafe w (advance env w t)
unfolding advance follow_once write_msg
advance-IsSafe env w (starts none) ok s fits = (record { cached = s.cached }, tt, λ p h. h)
advance-IsSafe env w (starts (some r)) ok s fits = start_request-IsSafe env w r r.question s refl
advance-IsSafe env w (looks_up r q) ok s asks =
    same_world w _ s (after_lookup-IsFit env ok w.heap r asks q (Records.get env.records q.name))
advance-IsSafe env w (follows q m target rrs) ok s n =
    same_world w _ s
      (after_round-IsFit env ok w.heap m n q target rrs (Records.get env.records target))
advance-IsSafe env w (tests_allowlist r q) ok s asks =
    same_world w _ s (after_allowlist-IsFit env ok w.heap r asks q env.filter)
advance-IsSafe env w (tests_blocklist r q) ok s asks =
    same_world w _ s (after_blocklist-IsFit env ok w.heap r asks q env.filter)
advance-IsSafe env w (logs_blocked r q) ok s asks = (record { cached = s.cached }, tt, λ p h. h)
advance-IsSafe env w (reads_cache r q) ok s asks =
    same_world w _ s (after_get-IsFit env ok w.heap r asks q w (key_of env q) s)
advance-IsSafe env w (copies r q p) ok s (asks, shared) =
    same_world w _ s (after_copy-IsFit env ok w.heap r asks q p shared)
advance-IsSafe env w (forwards r q) ok s asks = same_world w _ s (
    after_forward-IsFit env ok w.heap r asks q (forward env.net env.upstreams r)
      (forward-IsResult env.net ok.answers r env.upstreams ok.upstream)
      (forward_from env.net r (λ m. m.question ≢ []) (λ p server m h. ok.questioned p server r m h)
        env.upstreams))
advance-IsSafe env w (caches key m) ok s n = caches-IsSafe env w s key m n
advance-IsSafe env w (writes p) ok s shared = write_shared env w s p shared
advance-IsSafe env w (answers m) ok s fits = write_own env w s m
advance-IsSafe env w returned ok s fits = same_world w returned s tt
advance-IsSafe env w panicked ok s fits = elim fits [ ]

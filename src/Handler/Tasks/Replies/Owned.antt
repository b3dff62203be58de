-- ===== src/Handler/Tasks/Replies/Owned.antt =====
-- A goroutine replies with the id and the question of its own request, while other goroutines change
-- the cache and write to the messages that it shares with them.
use resolvit.Prelude.{
  ℕ, ◌≡◌, refl, sym, subst, ◌∙◌, inl, inr, Option, none, some, List, [], ◌∷◌, get_elem?,
  Option-cases, arith,
}
use resolvit.Go.Text.{Text}
use resolvit.Go.Heap.{Ptr, alloc, Holds, Holds-append, Holds-set, get_elem?-snoc}
use resolvit.Go.Outcome.{Outcome, done, panic, hang}
use resolvit.Dns.{
  Msg, Question, IsDocumented, new_msg, rcode_format_error, rcode_server_failure, rcode_name_error,
  type_a,
}
use resolvit.Records
use resolvit.Records.{Record, cname_type, a_type}
use resolvit.DnsCache
use resolvit.Forward.{Exchanged, forward}
use resolvit.Forward.Laws.{forward_from}
use resolvit.Filtering.Filter.{Filter}
use resolvit.Handler.{
  Env, World, Chain, ends_at, resolves, is_tcp, key_of, append_reply, finish_chain, handle_a,
  write_response, write_loaded, write_msg, respond, copy_cached, server_failure, name_error,
}
use resolvit.Handler.Tasks.Replies.{
  replies, silent_lookup, silent_round, silent_allowlist, silent_blocklist, silent_get, silent_copy,
  silent_forward,
}
use resolvit.Handler.Fit.{fit, fit_keeps}
use resolvit.Handler.Respond.{respond_lem, sent}
use resolvit.Handler.Tasks.{
  Task, starts, looks_up, follows, tests_allowlist, tests_blocklist, logs_blocked, reads_cache,
  copies, forwards, caches, writes, answers, returned, panicked, Round, goes_on, ended, follow_once,
  to_cache, after_round, after_lookup, start_request, after_allowlist, after_blocklist, after_get,
  after_copy, after_forward, after_set, after_write, advance,
}
use resolvit.DnsCache.Laws.{get-entry_msg}
use resolvit.Handler.Tasks.Replies.Held.{
  Heading, Echoes, Bears, Mine, IsKey, Answers, IsOwn, IsKeyed, KeepsHeadings,
  KeepsHeadings-IsKeyed, insert-IsKeyed, Owns, heading, first_asked, asked_of,
}
use resolvit.DnsCache.{CacheEntry, ttl_of}
use resolvit.Prelude.{ap, length, ◌++◌, set, ◌+◌}
use resolvit.Handler.Respond.{after_respond}
use resolvit.Go.Text.{text_eq}
use resolvit.Prelude.{Bool-cases}

quiet :
    (h : Heading) (w : World) (t t' : Task)
    → IsKeyed w
    → replies t ≡ 0
    → replies t' ≡ 0
    → IsOwn h w.heap t'
    → Owns h w t (w, t')
quiet h w t t' s e e' own = (own, λ P p x. x, inl (refl, e' ∙ sym e), s)

heading_eq :
    (m m' : Msg)
    → m.id ≡ m'.id
    → first_asked m.question ≡ first_asked m'.question
    → heading m ≡ heading m'
heading_eq m m' e a = rw (e, a) refl

fit-heading : (env : Env) (m : Msg) → heading (fit env.lib (is_tcp env) m) ≡ heading m
fit-heading env m =
    let kept = fit_keeps env.lib (is_tcp env) m in
    heading_eq (fit env.lib (is_tcp env) m) m kept.4 (ap first_asked kept.6)

same_cache : (w w' : World) → w'.cache ≡ w.cache → w'.heap ≡ w.heap → IsKeyed w → IsKeyed w'
same_cache w w' c p s =
    KeepsHeadings-IsKeyed w w' c
      (λ P q x. subst (λ heap. Holds (λ (m : Msg). P (heading m)) heap q) (sym p) x) s

module _ (env : Env) (h : Heading) (w : World) (s : IsKeyed w) where
  write_own :
      (m : Msg) (t : Task)
      → replies t ≡ 0
      → Bears h m
      → Owns h w t (after_write w (respond env w m))
  unfolding after_write
  write_own m t e own =
      let k : KeepsHeadings w.heap (w.heap ++ sent env w m ∷ []) =
        λ P p. Holds-append (λ (m : Msg). P (heading m)) w.heap (sent env w m ∷ []) p in
      rw (respond_lem env w m) (
        tt,
        k,
        inr (sent env w m, refl, fit-heading env m ∙ own, e, refl),
        KeepsHeadings-IsKeyed w (after_respond env w m) refl k s,
      )

  write_shared :
      (p : Ptr)
      → Holds (Bears h) w.heap p
      → Owns h w (writes p) (after_write w (write_response env w p))
  unfolding after_write write_response write_loaded write_msg
  write_shared p (m, e, own) =
      let cut = fit env.lib (is_tcp env) m in
      let k : KeepsHeadings w.heap (set w.heap p cut) = λ P p'.
        Holds-set (λ (m : Msg). P (heading m)) w.heap p' p m cut e
          (subst P (sym (fit-heading env m))) in
      subst (λ o. Owns h w (writes p) (after_write w (write_loaded env w p o))) (sym e)
        (
          tt,
          k,
          inr (cut, refl, fit-heading env m ∙ own, refl, refl),
          KeepsHeadings-IsKeyed w
              (record w { heap = set w.heap p cut; written = w.written ++ cut ∷ [] }) refl k s,
        )

  cache_own :
      (key : Text) (m : Msg)
      → Bears h m
      → IsKey h key
      → Owns h w (caches key m) (advance env w (caches key m))
  unfolding advance after_set DnsCache.set alloc
  cache_own key m own is_key =
      let k : KeepsHeadings w.heap (w.heap ++ m ∷ []) =
        λ P p. Holds-append (λ (m : Msg). P (heading m)) w.heap (m ∷ []) p in
      let here : Holds (Bears h) (w.heap ++ m ∷ []) (length w.heap) =
        (m, get_elem?-snoc w.heap m, own) in
      let e : CacheEntry = record {
        msg = length w.heap;
        expires_at = env.now_set + ttl_of m.answer;
      } in
      rw (get_elem?-snoc w.heap m)
        (here, k, inl (refl, refl), insert-IsKeyed w (w.heap ++ m ∷ []) key e h is_key here k s)

key_of-IsKey :
    (env : Env) (h : Heading) (q : Question) → h.asked ≡ some (asked_of q) → IsKey h (key_of env q)
unfolding key_of
key_of-IsKey env h q asks = (q, is_tcp env, asks, refl)

module _ (env : Env) (documented : IsDocumented env.lib) (echo : Echoes env.lib env.net)
    (h : Heading) (heap : List Msg) where
  reply-heading : (r : Msg) → Bears h r → heading (env.lib.set_reply new_msg r) ≡ h
  reply-heading r own =
      heading_eq (env.lib.set_reply new_msg r) r (documented.reply_id new_msg r)
        (echo.reply_asked r)
      ∙ own

  rcode-heading : (r : Msg) (c : ℕ) → Bears h r → heading (env.lib.set_rcode new_msg r c) ≡ h
  rcode-heading r c own =
      heading_eq (env.lib.set_rcode new_msg r c) r (documented.rcode_id new_msg r c)
        (echo.rcode_asked r c)
      ∙ own

  handle_a-heading :
      (r : Msg) (q : Question) (found : Record)
      → heading (handle_a env r q found) ≡ heading (env.lib.set_reply new_msg r)
  unfolding handle_a
  handle_a-heading r q found = ground arith

  after_lookup-IsOwn :
      (r : Msg) (q : Question) (found : Option Record)
      → Mine h r q
      → IsOwn h heap (after_lookup env r q found)
  unfolding after_lookup
  after_lookup-IsOwn r q none mine = mine
  after_lookup-IsOwn r q (some found) (own, asks) =
      elim (Bool-cases (text_eq found.typ cname_type)) [
        | inl alias ↦ rw (alias, after_lookup) (reply-heading r own, asks)
        | inr other ↦ elim (Bool-cases (text_eq found.typ a_type)) [
          | inl direct ↦
              rw (other, direct, after_lookup)
                (handle_a-heading r q found ∙ reply-heading r own, key_of-IsKey env h q asks)
          | inr neither ↦ rw (other, neither, after_lookup) (own, asks)
        ]
      ]

  to_cache-IsOwn :
      (key : Text) (m : Msg) (chain : Chain)
      → Bears h m
      → IsKey h key
      → IsOwn h heap (to_cache key (finish_chain env m chain))
  unfolding to_cache finish_chain append_reply
  to_cache-IsOwn key m (resolves rrs) own is_key = (own, is_key)
  to_cache-IsOwn key m (ends_at target rrs) own is_key =
      let reply = forward env.net env.upstreams (env.lib.set_question new_msg target type_a) in
      elim (Option-cases reply.err) [
        | inr (e, has) ↦ rw (has, append_reply) (own, is_key)
        | inl fine ↦ elim (Option-cases reply.msg) [
          | inl nil ↦ rw (fine, append_reply, nil) tt
          | inr (response, has) ↦ rw (fine, append_reply, has) (own, is_key)
        ]
      ]

  after_round-IsOwn :
      (q : Question) (m : Msg) (round : Round)
      → Mine h m q
      → IsOwn h heap (after_round env q m round)
  unfolding after_round
  after_round-IsOwn q m (goes_on target rrs) mine = mine
  after_round-IsOwn q m (ended chain) (own, asks) =
      to_cache-IsOwn (key_of env q) m chain own (key_of-IsKey env h q asks)

  after_allowlist-IsOwn :
      (r : Msg) (q : Question) (f : Option Filter)
      → Mine h r q
      → IsOwn h heap (after_allowlist r q f)
  unfolding after_allowlist
  after_allowlist-IsOwn r q none mine = mine
  after_allowlist-IsOwn r q (some f) mine = ground arith

  after_blocklist-IsOwn :
      (r : Msg) (q : Question) (f : Option Filter)
      → Mine h r q
      → IsOwn h heap (after_blocklist r q f)
  unfolding after_blocklist
  after_blocklist-IsOwn r q none mine = mine
  after_blocklist-IsOwn r q (some f) mine = ground arith

  after_get-IsOwn :
      (r : Msg) (q : Question) (o : Outcome (Option Ptr))
      → Mine h r q
      → ((p : Ptr) → o ≡ done (some p) → Holds (Answers h.asked) heap p)
      → IsOwn h heap (after_get r q o)
  unfolding after_get
  after_get-IsOwn r q (done none) mine found = mine
  after_get-IsOwn r q (done (some p)) mine found = (mine, found p refl)
  after_get-IsOwn r q panic mine found = tt
  after_get-IsOwn r q hang mine found = tt

  after_copy-IsOwn :
      (r : Msg) (q : Question) (p : Ptr)
      → Mine h r q
      → Holds (Answers h.asked) heap p
      → IsOwn h heap (after_copy r q (copy_cached env r.id (get_elem? heap p)))
  unfolding after_copy copy_cached
  after_copy-IsOwn r q p (own, asks) (m, e, answers_it) =
      let copied = ap (λ (x : Msg). first_asked x.question) (documented.copy_deep m) in
      rw e (
        ap (λ a. record { id = r.id; asked = a }) (copied ∙ answers_it)
        ∙ ap (λ i. record { id = i; asked = h.asked }) (ap (λ (x : Heading). x.id) own))

  after_forward-IsOwn :
      (r : Msg) (q : Question) (reply : Exchanged)
      → Mine h r q
      → ((m : Msg) → reply.msg ≡ some m → heading m ≡ heading r)
      → IsOwn h heap (after_forward env r q reply)
  unfolding after_forward server_failure
  after_forward-IsOwn r q reply (own, asks) echoed = elim (Option-cases reply.err) [
    | inr (e, has) ↦ rw (has, after_forward) (rcode-heading r rcode_server_failure own)
    | inl fine ↦ elim (Option-cases reply.msg) [
      | inl nil ↦ rw (fine, after_forward, nil) tt
      | inr (m, has) ↦ rw (fine, after_forward, has) (echoed m has ∙ own, key_of-IsKey env h q asks)
    ]
  ]

-- What the cache gives for a question answers it.
reads_cache-Answers :
    (env : Env) (h : Heading) (w : World) (q : Question) (p : Ptr)
    → IsKeyed w
    → h.asked ≡ some (asked_of q)
    → DnsCache.get w.heap w.cache env.now_get (key_of env q) ≡ done (some p)
    → Holds (Answers h.asked) w.heap p
unfolding key_of
reads_cache-Answers env h w q p s asks got =
    let (e, found, at) = get-entry_msg w.heap w.cache env.now_get (key_of env q) p got in
    subst (λ a. Holds (Answers a) w.heap p) (sym asks)
      (subst (λ i. Holds (Answers (some (asked_of q))) w.heap i) at
        (s.keyed (key_of env q) e q (is_tcp env) found refl))

start_request-Owns :
    (env : Env) (h : Heading) (w : World) (r : Msg) (qs : List Question)
    → IsDocumented env.lib
    → Echoes env.lib env.net
    → IsKeyed w
    → Bears h r
    → r.question ≡ qs
    → Owns h w (starts (some r)) (start_request env w r qs)
unfolding start_request write_msg
start_request-Owns env h w r [] documented echo s own e =
    let reply = env.lib.set_rcode new_msg r rcode_format_error in
    (
      tt,
      λ P p x. x,
      inr (
        reply,
        refl,
        rcode-heading env documented echo h w.heap r rcode_format_error own,
        refl,
        refl,
      ),
      same_cache w (record w { written = w.written ++ reply ∷ [] }) refl refl s,
    )
start_request-Owns env h w r (q ∷ qs) documented echo s own e =
    quiet h w (starts (some r)) (looks_up r q) s refl refl
      (own, sym (ap (λ (x : Heading). x.asked) own) ∙ ap first_asked e)

-- If the library and the upstreams behave as documented, and from a cache whose messages answer the
-- questions of their keys, a step of a goroutine whose messages bear the heading of its request leaves
-- it so, changes no heading of a message that is shared, and leaves the cache so; the message that it
-- writes when it returns bears that heading.
pub advance-Owns :
    (env : Env) (h : Heading) (w : World) (t : Task)
    → IsDocumented env.lib
    → Echoes env.lib env.net
    → IsKeyed w
    → IsOwn h w.heap t
    → Owns h w t (advance env w t)
unfolding advance write_msg name_error
advance-Owns env h w (starts none) documented echo s own =
    let reply : Msg = record new_msg { rcode = rcode_format_error } in
    (
      tt,
      λ P p x. x,
      inr (reply, refl, own, refl, refl),
      same_cache w (record w { written = w.written ++ reply ∷ [] }) refl refl s,
    )
advance-Owns env h w (starts (some r)) documented echo s own =
    start_request-Owns env h w r r.question documented echo s own refl
advance-Owns env h w (looks_up r q) documented echo s mine =
    let found = Records.get env.records q.name in
    quiet h w (looks_up r q) _ s refl (silent_lookup env r q found)
      (after_lookup-IsOwn env documented echo h w.heap r q found mine)
advance-Owns env h w (follows q m target rrs) documented echo s mine =
    let round = follow_once env.records target rrs in
    quiet h w (follows q m target rrs) _ s refl (silent_round env q m round)
      (after_round-IsOwn env documented echo h w.heap q m round mine)
advance-Owns env h w (tests_allowlist r q) documented echo s mine =
    quiet h w (tests_allowlist r q) _ s refl (silent_allowlist r q env.filter)
      (after_allowlist-IsOwn env documented echo h w.heap r q env.filter mine)
advance-Owns env h w (tests_blocklist r q) documented echo s mine =
    quiet h w (tests_blocklist r q) _ s refl (silent_blocklist r q env.filter)
      (after_blocklist-IsOwn env documented echo h w.heap r q env.filter mine)
advance-Owns env h w (logs_blocked r q) documented echo s (own, asks) = (
  rcode-heading env documented echo h w.heap r rcode_name_error own,
  λ P p x. x,
  inl (refl, refl),
  same_cache w (advance env w (logs_blocked r q)).0 refl refl s,
)
advance-Owns env h w (reads_cache r q) documented echo s mine =
    let got = DnsCache.get w.heap w.cache env.now_get (key_of env q) in
    quiet h w (reads_cache r q) _ s refl (silent_get r q got) (
      after_get-IsOwn env documented echo h w.heap r q got mine
        (λ p e. reads_cache-Answers env h w q p s mine.1 e))
advance-Owns env h w (copies r q p) documented echo s (mine, held) =
    quiet h w (copies r q p) _ s refl (silent_copy r q (copy_cached env r.id (get_elem? w.heap p)))
      (after_copy-IsOwn env documented echo h w.heap r q p mine held)
advance-Owns env h w (forwards r q) documented echo s mine =
    let reply = forward env.net env.upstreams r in
    quiet h w (forwards r q) _ s refl (silent_forward env r q reply) (
      after_forward-IsOwn env documented echo h w.heap r q reply mine (
        forward_from env.net r (λ m. heading m ≡ heading r)
          (λ p server m e. echo.reply_heading p server r m e) env.upstreams))
advance-Owns env h w (caches key m) documented echo s (own, is_key) =
    cache_own env h w s key m own is_key
advance-Owns env h w (writes p) documented echo s held = write_shared env h w s p held
advance-Owns env h w (answers m) documented echo s own = write_own env h w s m (answers m) refl own
advance-Owns env h w returned documented echo s own = (tt, λ P p x. x, inl (refl, refl), s)
advance-Owns env h w panicked documented echo s own = (tt, λ P p x. x, inl (refl, refl), s)

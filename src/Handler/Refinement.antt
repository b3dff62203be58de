-- ===== src/Handler/Refinement.antt =====
-- A request, with its heap of shared messages, refines what it promises.
use resolvit.Prelude.{
  ℕ, suc, ◌<◌, ◌≡◌, refl, sym, ap, subst, ◌∙◌, inl, inr, false, Option, none, some, List, [], ◌∷◌,
  ◌++◌, Bool-cases, Option-cases, ltb, append-nil,
}
use resolvit.Go.Text.{Text}
use resolvit.Go.Dict.{lookup}
use resolvit.Go.Outcome.{Outcome, done}
use resolvit.Dns.{Msg, Question, new_msg, rcode_format_error}
use resolvit.DnsCache
use resolvit.Records
use resolvit.DnsCache.{CacheEntry}
use resolvit.Forward.{Exchanged, forward}
use resolvit.Forward.Laws.{IsResult, forward-IsResult}
use resolvit.Filtering.Filter.{should_block, log_blocked}
use resolvit.Handler.{
  Env, World, key_of, respond, cache_and_respond, check_cache, load_cached, copy_cached,
  handle_upstream, handle_cached, handle_remote, handle_checked, handle_question,
  handle_dns_request, server_failure, name_error, handle_local_record, handle_record, write_msg,
  handle_blocked,
}
use resolvit.Handler.Local.{Descends}
use resolvit.Handler.Respond.{after_respond, after_cache, respond_lem, cache_and_respond_lem}
use resolvit.Handler.Served.{handle_dns_request-Serves, log_question_total}
use resolvit.Handler.Total.{IsSound, IsOrderly, handle_local_record_total}
use resolvit.Handler.Spec.{
  View, Reply, fresh, replies, holds, copy_of, copied, from_upstream, from_cache, from_remote,
  from_local, reply_to, specified,
}
use resolvit.Handler.View.{view, view-after_respond, view-after_cache}

-- A request does what is promised: the reply is written, the log and the cache are as they should be.
abbrev pub Refines : World → Outcome World → Reply → Type 0
Refines w o reply =
    (w' : World) × (o ≡ done w')
    × (view w' ≡ reply.view)
    × (w'.written ≡ w.written ++ reply.msg ∷ [])
    × (w'.blocked ≡ w.blocked ++ reply.blocked)

module _ (env : Env) (w : World) (s : IsSound w) where
  respond-Refines : (m : Msg) → Refines w (respond env w m) (replies env (view w) m)
  respond-Refines m = (
    after_respond env w m,
    respond_lem env w m,
    view-after_respond env w m s,
    refl,
    sym (append-nil w.blocked),
  )

  cache_and_respond-Refines :
      (key : Text) (m : Msg) → Refines w (cache_and_respond env key w m) (holds env key (view w) m)
  cache_and_respond-Refines key m = (
    after_cache env w m key,
    cache_and_respond_lem env w m key,
    view-after_cache env w m s key,
    refl,
    sym (append-nil w.blocked),
  )

  -- What is found in the cache is a copy of what is held and still fresh.
  pub check_cache_lem :
      (key : Text) (r : Msg)
      → check_cache env w key r.id ≡ done (copied env r (fresh env.now_get (view w key)))
  unfolding check_cache load_cached copy_cached DnsCache.get
  check_cache_lem key r = elim (Option-cases (lookup key w.cache)) [
    | inl miss ↦ rw (miss, DnsCache.get) refl
    | inr (e, hit) ↦
        let (m, found, n) = s.cached key e hit in
        elim (Bool-cases (ltb e.expires_at env.now_get)) [
          | inr young ↦ rw (hit, DnsCache.get, young, found, load_cached, copy_cached, young) refl
          | inl old ↦
              rw (hit, DnsCache.get, old, found, log_question_total m.question n, load_cached, old)
                refl
        ]
  ]

  handle_upstream-Refines :
      (key : Text) (r : Msg) (reply : Exchanged)
      → IsResult reply
      → Refines w (handle_upstream env key r w reply) (from_upstream env key r (view w) reply)
  unfolding handle_upstream
  handle_upstream-Refines key r reply (inl (has_msg, no_err)) = elim (Option-cases reply.msg) [
    | inl e ↦ absurd (cc)
    | inr (m, e) ↦ rw (no_err, handle_upstream, e) (cache_and_respond-Refines key m)
  ]
  handle_upstream-Refines key r reply (inr (no_msg, has_err)) = elim (Option-cases reply.err) [
    | inl e ↦ absurd (cc)
    | inr (text, e) ↦ rw (e, handle_upstream) (respond-Refines (server_failure env r))
  ]

  module _ (ok : IsOrderly env) (r : Msg) where
    handle_cached-Refines :
        (key : Text) (found : Option Msg)
        → Refines w (handle_cached env key r w found) (from_cache env key r (view w) found)
    unfolding handle_cached
    handle_cached-Refines key (some m) = respond-Refines m
    handle_cached-Refines key none =
        handle_upstream-Refines key r (forward env.net env.upstreams r)
          (forward-IsResult env.net ok.answers r env.upstreams ok.upstream)

    handle_remote-Refines :
        (q : Question)
        → Refines w (handle_remote env (key_of env q) r q w) (from_remote env r q (view w))
    unfolding handle_remote handle_blocked
    handle_remote-Refines q = elim (Bool-cases (should_block env.filter q.name)) [
      | inl b ↦
          let lines = log_blocked env.filter env.remote_addr q.name q.qtype in
          let logged : World = record w { blocked = w.blocked ++ lines } in
          rw b (
            after_respond env logged (name_error env r),
            respond_lem env logged (name_error env r),
            view-after_respond env w (name_error env r) s,
            refl,
            refl,
          )
      | inr b ↦
          rw (b, check_cache_lem (key_of env q) r)
            (handle_cached-Refines (key_of env q)
              (copied env r (fresh env.now_get (view w (key_of env q)))))
    ]

    handle_checked-Refines :
        (q : Question) (local : Option Msg)
        → Refines w
            (handle_checked env (key_of env q) r q w local)
            (from_local env r q (view w) local)
    unfolding handle_checked
    handle_checked-Refines q (some m) = cache_and_respond-Refines (key_of env q) m
    handle_checked-Refines q none = handle_remote-Refines q

    module _ (rank : Text → ℕ) (fuel : ℕ) (falls : Descends env.records rank)
        (enough : (t : Text) → suc (rank t) < fuel) where
      handle_question-Refines :
          (qs : List Question)
          → r.question ≡ qs
          → Refines w (handle_question env fuel r qs w) (reply_to env fuel r qs (view w))
      unfolding handle_question write_msg
      handle_question-Refines [] e = (
        record w { written = w.written ++ env.lib.set_rcode new_msg r rcode_format_error ∷ [] },
        refl,
        refl,
        refl,
        sym (append-nil w.blocked),
      )
      handle_question-Refines (q ∷ qs) e =
          let (local, h, n) =
            handle_local_record_total env ok r (λ z. cc) rank fuel falls enough q in
          rw h (handle_checked-Refines q local)

handle_dns_request-Refines :
    (env : Env) (rank : Text → ℕ) (fuel : ℕ) (request : Option Msg) (w : World)
    → IsOrderly env
    → Descends env.records rank
    → ((t : Text) → suc (rank t) < fuel)
    → IsSound w
    → Refines w (handle_dns_request env fuel request w) (specified env fuel request (view w))
unfolding handle_dns_request write_msg
handle_dns_request-Refines env rank fuel none w ok falls enough s = (
  record w { written = w.written ++ record new_msg { rcode = rcode_format_error } ∷ [] },
  refl,
  refl,
  refl,
  sym (append-nil w.blocked),
)
handle_dns_request-Refines env rank fuel (some r) w ok falls enough s =
    handle_question-Refines env w s ok r rank fuel falls enough r.question refl

-- In orderly surroundings, with fuel above a rank that falls along every local alias and with a sound
-- cache, a request returns and does what is promised of it: the reply and the lines of the log are
-- those of the specification, and so is the cache, seen as a function from keys to messages with
-- their expiry; the messages that others point at are not changed, and the cache stays sound.
pub handle_dns_request_refines :
    (env : Env) (rank : Text → ℕ) (fuel : ℕ) (request : Option Msg) (w : World)
    → IsOrderly env
    → Descends env.records rank
    → ((t : Text) → suc (rank t) < fuel)
    → IsSound w
    → let reply = specified env fuel request (view w) in
      (w' : World) × (handle_dns_request env fuel request w ≡ done w')
      × (view w' ≡ reply.view)
      × (w'.written ≡ w.written ++ reply.msg ∷ [])
      × (w'.blocked ≡ w.blocked ++ reply.blocked)
      × IsSound w'
handle_dns_request_refines env rank fuel request w ok falls enough s =
    let (w', e, v, m, b) = handle_dns_request-Refines env rank fuel request w ok falls enough s in
    let served = handle_dns_request-Serves env rank fuel request w ok falls enough s in
    let same : done served.0 ≡ done w' = sym served.1 ∙ e in
    (w', e, v, m, b, subst IsSound (cc) served.2)

-- A name without a local record that is not blocked is answered by what is held and fresh.
pub reply_while_young :
    (env : Env) (fuel : ℕ) (r : Msg) (q : Question) (qs : List Question) (f : View) (m : Msg)
    → r.question ≡ q ∷ qs
    → Records.get env.records q.name ≡ none
    → should_block env.filter q.name ≡ false
    → fresh env.now_get (f (key_of env q)) ≡ some m
    → specified env fuel (some r) f ≡ replies env f (copy_of env r m)
unfolding handle_local_record handle_record
reply_while_young env fuel r q qs f m asked gone open_ held =
    ap (λ l. reply_to env fuel r l f) asked ∙ rw (gone, handle_record, open_, held) refl

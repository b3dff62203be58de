-- ===== src/Handler/Served.antt =====
-- Every request is answered: no panic, no endless loop, one message written.
use resolvit.Prelude.{
  ℕ, suc, ◌<◌, ◌≤◌, ◌≡◌, ◌≢◌, refl, sym, subst, ◌∙◌, ◌⊎◌, inl, inr, true, false, Option, none, some,
  List, [], ◌∷◌, ◌++◌, get_elem?, Bool-cases, Option-cases, ltb,
}
use resolvit.Go.Text.{Text, text_eq}
use resolvit.Go.Dict.{lookup, lookup-insert}
use resolvit.Go.Heap.{get_elem?-append_some, get_elem?-snoc}
use resolvit.Go.Outcome.{Outcome, done}
use resolvit.Dns.{Msg, Question, new_msg, rcode_format_error}
use resolvit.DnsCache
use resolvit.DnsCache.{CacheEntry, log_question}
use resolvit.Forward.{Exchanged, forward}
use resolvit.Forward.Laws.{IsResult, forward-IsResult, forward_from}
use resolvit.Filtering.Filter.{should_block}
use resolvit.Handler.{
  Env, World, is_tcp, key_of, respond, cache_and_respond, check_cache, handle_upstream,
  handle_cached, handle_remote, handle_checked, handle_question, handle_dns_request, server_failure,
  name_error,
}
use resolvit.Handler.Local.{Descends}
use resolvit.Handler.Respond.{
  sent, after_respond, after_cache, entry, respond_lem, cache_and_respond_lem,
}
use resolvit.Handler.Fit.{fit_fits, fit_keeps, max_msg_size}
use resolvit.Handler.Total.{IsSound, IsOrderly, Questioned, handle_local_record_total}

-- The request returns, keeps the cache sound and writes exactly one message, which over UDP has no
-- answers or fits.
abbrev pub Serves : Env → World → Outcome World → Type 0
Serves env w o =
    (w' : World) × (o ≡ done w')
    × IsSound w'
    × (m : Msg) × (w'.written ≡ w.written ++ m ∷ [])
    × (is_tcp env ≡ false → (m.answer ≡ []) ⊎ (env.lib.len m ≤ max_msg_size))

module _ (env : Env) (w : World) (m : Msg) where
  sent_fits :
      is_tcp env ≡ false
      → ((sent env w m).answer ≡ []) ⊎ (env.lib.len (sent env w m) ≤ max_msg_size)
  sent_fits udp = rw udp (fit_fits env.lib m)

  respond-Serves : IsSound w → Serves env w (respond env w m)
  respond-Serves s = (
    after_respond env w m,
    respond_lem env w m,
    record {
      cached = λ key e h.
          let (m', found, n) = s.cached key e h in
          (m', get_elem?-append_some w.heap (sent env w m ∷ []) e.msg m' found, n);
    },
    sent env w m,
    refl,
    sent_fits,
  )

  pub cache-IsSound : (key : Text) → m.question ≢ [] → IsSound w → IsSound (after_cache env w m key)
  cache-IsSound key n s = record { cached = found }
    where
      found :
          (k : Text) (e : CacheEntry)
          → lookup k (after_cache env w m key).cache ≡ some e
          → (m' : Msg) × (get_elem? (w.heap ++ sent env w m ∷ []) e.msg ≡ some m')
            × (m'.question ≢ [])
      found k e h = elim (Bool-cases (text_eq key k)) [
        | inl q ↦
            let same : some (entry env w m) ≡ some e =
              rw (lookup-insert key k (entry env w m) w.cache, q) at h in
            let eq : entry env w m ≡ e = cc in
            subst
              (λ (x : CacheEntry).
                (m' : Msg) × (get_elem? (w.heap ++ sent env w m ∷ []) x.msg ≡ some m')
                × (m'.question ≢ []))
              eq (sent env w m, get_elem?-snoc w.heap (sent env w m), λ z. n (sym kept ∙ z))
        | inr q ↦
            let old : lookup k w.cache ≡ some e =
              rw (lookup-insert key k (entry env w m) w.cache, q) at h in
            let (m', f, n') = s.cached k e old in
            (m', get_elem?-append_some w.heap (sent env w m ∷ []) e.msg m' f, n')
      ]
        where
          kept : (sent env w m).question ≡ m.question
          kept = (fit_keeps env.lib (is_tcp env) m).6

  cache_and_respond-Serves :
      (key : Text) → m.question ≢ [] → IsSound w → Serves env w (cache_and_respond env key w m)
  cache_and_respond-Serves key n s = (
    after_cache env w m key,
    cache_and_respond_lem env w m key,
    cache-IsSound key n s,
    sent env w m,
    refl,
    sent_fits,
  )

pub log_question_total : (qs : List Question) → qs ≢ [] → log_question qs ≡ done none
log_question_total [] n = absurd (n refl)
log_question_total (q ∷ qs) n = unfold log_question in refl

module _ (env : Env) (w : World) (s : IsSound w) where
  pub get_total :
      (key : Text)
      → (DnsCache.get w.heap w.cache env.now_get key ≡ done none)
        ⊎ ((e : CacheEntry) × (lookup key w.cache ≡ some e)
            × (DnsCache.get w.heap w.cache env.now_get key ≡ done (some e.msg)))
  unfolding DnsCache.get
  get_total key = elim (Option-cases (lookup key w.cache)) [
    | inl miss ↦ inl (rw (miss, DnsCache.get) refl)
    | inr (e, hit) ↦
        let (m, found, n) = s.cached key e hit in
        elim (Bool-cases (ltb e.expires_at env.now_get)) [
          | inr fresh ↦ inr (e, hit, rw (hit, DnsCache.get, fresh) refl)
          | inl old ↦ inl (rw (hit, DnsCache.get, old, found) (log_question_total m.question n))
        ]
  ]

  check_cache_total :
      (key : Text) (id : ℕ) → (found : Option Msg) × (check_cache env w key id ≡ done found)
  unfolding check_cache
  check_cache_total key id = elim (get_total key) [
    | inl miss ↦ (none, rw miss refl)
    | inr (e, hit, got) ↦
        let (m, found, n) = s.cached key e hit in
        (
          some (record (env.lib.copy m) { id = id; recursion_available = true }),
          rw (got, found) refl,
        )
  ]

  module _ (ok : IsOrderly env) (r : Msg) where
    handle_upstream-Serves :
        (key : Text) (reply : Exchanged)
        → IsResult reply
        → ((m : Msg) → reply.msg ≡ some m → m.question ≢ [])
        → Serves env w (handle_upstream env key r w reply)
    unfolding handle_upstream
    handle_upstream-Serves key reply (inl (has_msg, no_err)) asked = elim (Option-cases reply.msg) [
      | inl e ↦ absurd (cc)
      | inr (m, e) ↦
          rw (no_err, handle_upstream, e) (cache_and_respond-Serves env w m key (asked m e) s)
    ]
    handle_upstream-Serves key reply (inr (no_msg, has_err)) asked = elim (Option-cases reply.err) [
      | inl e ↦ absurd (cc)
      | inr (text, e) ↦ rw (e, handle_upstream) (respond-Serves env w (server_failure env r) s)
    ]

    handle_cached-Serves :
        (key : Text) (found : Option Msg) → Serves env w (handle_cached env key r w found)
    unfolding handle_cached
    handle_cached-Serves key (some m) = respond-Serves env w m s
    handle_cached-Serves key none =
        handle_upstream-Serves key (forward env.net env.upstreams r)
          (forward-IsResult env.net ok.answers r env.upstreams ok.upstream)
          (forward_from env.net r (λ m. m.question ≢ [])
            (λ p server m h. ok.questioned p server r m h) env.upstreams)

module _ (env : Env) (ok : IsOrderly env) (r : Msg) (w : World) (s : IsSound w) where
  handle_remote-Serves : (key : Text) (q : Question) → Serves env w (handle_remote env key r q w)
  unfolding handle_remote
  handle_remote-Serves key q = elim (Bool-cases (should_block env.filter q.name)) [
    | inl b ↦ rw b (respond-Serves env _ (name_error env r) (record { cached = s.cached }))
    | inr b ↦
        let (found, e) = check_cache_total env w s key r.id in
        rw (b, e) (handle_cached-Serves env w s ok r key found)
  ]

  handle_checked-Serves :
      (key : Text) (q : Question) (local : Option Msg)
      → Questioned local
      → Serves env w (handle_checked env key r q w local)
  unfolding handle_checked
  handle_checked-Serves key q (some m) n = cache_and_respond-Serves env w m key n s
  handle_checked-Serves key q none n = handle_remote-Serves key q

  module _ (rank : Text → ℕ) (fuel : ℕ) (falls : Descends env.records rank)
      (enough : (t : Text) → suc (rank t) < fuel) where
    handle_question-Serves :
        (qs : List Question) → r.question ≡ qs → Serves env w (handle_question env fuel r qs w)
    unfolding handle_question
    handle_question-Serves [] e = (
      record w { written = w.written ++ env.lib.set_rcode new_msg r rcode_format_error ∷ [] },
      refl,
      record { cached = s.cached },
      env.lib.set_rcode new_msg r rcode_format_error,
      refl,
      λ udp. inl (ok.documented.rcode_answer new_msg r rcode_format_error),
    )
    handle_question-Serves (q ∷ qs) e =
        let (local, h, n) = handle_local_record_total env ok r (λ z. cc) rank fuel falls enough q in
        rw h (handle_checked-Serves (key_of env q) q local n)

-- In orderly surroundings, with fuel above a rank that falls along every local alias and with a sound
-- cache, `HandleDNSRequest` returns: it neither panics nor loops for ever, writes exactly one
-- message, which over UDP has no answers or is at most 512 bytes long, and leaves the cache sound.
pub handle_dns_request-Serves :
    (env : Env) (rank : Text → ℕ) (fuel : ℕ) (request : Option Msg) (w : World)
    → IsOrderly env
    → Descends env.records rank
    → ((t : Text) → suc (rank t) < fuel)
    → IsSound w
    → Serves env w (handle_dns_request env fuel request w)
unfolding handle_dns_request
handle_dns_request-Serves env rank fuel none w ok falls enough s = (
  record w { written = w.written ++ record new_msg { rcode = rcode_format_error } ∷ [] },
  refl,
  record { cached = s.cached },
  record new_msg { rcode = rcode_format_error },
  refl,
  λ udp. inl refl,
)
handle_dns_request-Serves env rank fuel (some r) w ok falls enough s =
    handle_question-Serves env ok r w s rank fuel falls enough r.question refl

-- ===== src/Handler/Cached.antt =====
-- Responses from upstream, and from the cache that they fill.
use resolvit.Prelude.{
  ℕ, ◌+◌, ◌<◌, ◌≤◌, ◌≡◌, refl, ap, ◌∙◌, true, false, none, some, List, [], ◌∷◌, ◌++◌, arith, length,
}
use resolvit.Go.Text.{Text, to_lower}
use resolvit.Go.Text.Equality.{text_eq_refl}
use resolvit.Go.Dict.{lookup-insert}
use resolvit.Go.Heap.{get_elem?-snoc}
use resolvit.Go.Outcome.{done, panic}
use resolvit.Dns.{Msg, Question, IsDocumented, new_msg, rcode_server_failure}
use resolvit.Records
use resolvit.Records.{Record, cname_type, a_type}
use resolvit.DnsCache
use resolvit.DnsCache.{ttl_of}
use resolvit.DnsCache.Laws.{get_expired_panics}
use resolvit.Forward.{Net, forward}
use resolvit.Filtering.Filter.{should_block}
use resolvit.Handler.{
  Env, World, is_tcp, key_of, check_cache, load_cached, copy_cached, handle_upstream, handle_cached,
  handle_remote, handle_dns_request, server_failure,
}
use resolvit.Handler.Keys.{cache_key_for}
use resolvit.Handler.Respond.{
  sent, after_respond, after_cache, entry, respond_lem, cache_and_respond_lem,
}
use resolvit.Handler.Stages.{to_remote, to_cache}
use resolvit.Handler.Fit.{fit_keeps, fit_again}

-- The surroundings of a later request: another client on the same transport, other upstreams and
-- other times.
abbrev pub later : Env → Net → List Text → Text → ℕ → ℕ → Env
later env net upstreams addr now_get now_set = record env {
  net = net;
  upstreams = upstreams;
  remote_addr = addr;
  now_get = now_get;
  now_set = now_set;
}

module _ (env : Env) (fuel : ℕ) (r : Msg) (q : Question) (qs : List Question) (w : World)
    (asked : r.question ≡ q ∷ qs) (miss : Records.get env.records q.name ≡ none)
    (allowed : should_block env.filter q.name ≡ false)
    (uncached : DnsCache.get w.heap w.cache env.now_get (key_of env q) ≡ done none) where
  to_upstream :
      handle_dns_request env fuel (some r) w
      ≡ handle_upstream env (key_of env q) r w (forward env.net env.upstreams r)
  unfolding handle_cached check_cache load_cached
  to_upstream = to_cache env fuel r q qs w asked none miss allowed (rw uncached refl)

  -- If the upstreams fail, the client gets SERVFAIL with its id, and nothing is cached.
  pub handle_upstream_failure :
      (text : Text)
      → IsDocumented env.lib
      → forward env.net env.upstreams r ≡ record { msg = none; err = some text }
      → (w' : World) × (handle_dns_request env fuel (some r) w ≡ done w')
        × (w'.cache ≡ w.cache)
        × (m : Msg) × (w'.written ≡ w.written ++ m ∷ [])
        × (m.rcode ≡ rcode_server_failure)
        × (m.id ≡ r.id)
  unfolding handle_upstream
  handle_upstream_failure text documented failed =
      let m = server_failure env r in
      let kept = fit_keeps env.lib (is_tcp env) m in
      (
        after_respond env w m,
        to_upstream ∙ ap (handle_upstream env (key_of env q) r w) failed ∙ respond_lem env w m,
        refl,
        sent env w m,
        refl,
        kept.5 ∙ documented.rcode_rcode new_msg r rcode_server_failure,
        kept.4 ∙ documented.rcode_id new_msg r rcode_server_failure,
      )

  -- An upstream that answers with neither a message nor an error makes the request panic.
  pub handle_nil_reply_panics :
      forward env.net env.upstreams r ≡ record { msg = none; err = none }
      → handle_dns_request env fuel (some r) w ≡ panic
  unfolding handle_upstream
  handle_nil_reply_panics nil = to_upstream ∙ ap (handle_upstream env (key_of env q) r w) nil

  module _ (m : Msg)
      (replied : forward env.net env.upstreams r ≡ record { msg = some m; err = none }) where
    handle_reply :
        handle_dns_request env fuel (some r) w ≡ done (after_cache env w m (key_of env q))
    unfolding handle_upstream
    handle_reply =
        to_upstream
        ∙ ap (handle_upstream env (key_of env q) r w) replied
        ∙ cache_and_respond_lem env w m (key_of env q)

    module _ (net : Net) (upstreams : List Text) (addr : Text) (now_get now_set : ℕ) (fuel' : ℕ)
        (r' : Msg) (q' : Question) (qs' : List Question) (asked' : r'.question ≡ q' ∷ qs')
        (same_name : to_lower q'.name ≡ to_lower q.name) (same_type : q'.qtype ≡ q.qtype)
        (miss' : Records.get env.records q'.name ≡ none)
        (allowed' : should_block env.filter q'.name ≡ false) where
      abbrev env' : Env
      env' = later env net upstreams addr now_get now_set

      abbrev key : Text
      key = key_of env q

      same_key : key_of env' q' ≡ key
      unfolding key_of cache_key_for
      same_key = rw (same_name, same_type) refl

      abbrev first_world : World
      first_world = after_cache env w m key

      abbrev first_sent : Msg
      first_sent = sent env w m

      abbrev cached_copy : Msg
      cached_copy = record (env.lib.copy first_sent) { id = r'.id; recursion_available = true }

      stored :
          now_get ≤ env.now_set + ttl_of m.answer
          → DnsCache.get first_world.heap first_world.cache now_get key
            ≡ done (some (length w.heap))
      unfolding DnsCache.get
      stored fresh = ground (arith, lookup-insert key key (entry env w m) w.cache, text_eq_refl key)

      found_again :
          now_get ≤ env.now_set + ttl_of m.answer
          → check_cache env' first_world key r'.id ≡ done (some cached_copy)
      unfolding check_cache load_cached copy_cached
      found_again fresh = rw (stored fresh, get_elem?-snoc w.heap first_sent) refl

      sent_again : IsDocumented env.lib → sent env' first_world cached_copy ≡ cached_copy
      sent_again documented =
          fit_again env.lib (is_tcp env) m cached_copy
            (documented.len_sections cached_copy first_sent (ap (λ (x : Msg). x.question) copied)
              (ap (λ (x : Msg). x.answer) copied) (ap (λ (x : Msg). x.rest) copied))
            (ap (λ (x : Msg). x.answer) copied)
        where
          copied : env.lib.copy first_sent ≡ first_sent
          copied = documented.copy_deep first_sent

      -- A question that upstream has answered is answered again from the cache until the time to live
      -- has passed, for any client on the same transport and whatever the upstreams would then say:
      -- with the code, the question and the answers that were sent before, and the new id.
      pub handle_again_from_cache :
          IsDocumented env.lib
          → now_get ≤ env.now_set + ttl_of m.answer
          → (w₁ : World) × (handle_dns_request env fuel (some r) w ≡ done w₁)
            × (w₂ : World) × (handle_dns_request env' fuel' (some r') w₁ ≡ done w₂)
            × (w₂.cache ≡ w₁.cache)
            × (s : Msg) × (w₁.written ≡ w.written ++ s ∷ [])
            × (s' : Msg) × (w₂.written ≡ w₁.written ++ s' ∷ [])
            × (s'.id ≡ r'.id)
            × (s'.rcode ≡ s.rcode)
            × (s'.question ≡ s.question)
            × (s'.answer ≡ s.answer)
      unfolding handle_cached
      handle_again_from_cache documented fresh =
          let copied = documented.copy_deep first_sent in
          let again = sent_again documented in
          let checked =
            ap (λ k. check_cache env' first_world k r'.id) same_key ∙ found_again fresh in
          (
            first_world,
            handle_reply,
            after_respond env' first_world cached_copy,
            to_cache env' fuel' r' q' qs' first_world asked' (some cached_copy) miss' allowed'
                  checked
                ∙ respond_lem env' first_world cached_copy,
            refl,
            first_sent,
            refl,
            sent env' first_world cached_copy,
            refl,
            ap (λ (x : Msg). x.id) again,
            ap (λ (x : Msg). x.rcode) again ∙ ap (λ (x : Msg). x.rcode) copied,
            ap (λ (x : Msg). x.question) again ∙ ap (λ (x : Msg). x.question) copied,
            ap (λ (x : Msg). x.answer) again ∙ ap (λ (x : Msg). x.answer) copied,
          )

      expired :
          m.question ≡ []
          → env.now_set + ttl_of m.answer < now_get
          → DnsCache.get first_world.heap first_world.cache now_get key ≡ panic
      expired unasked old =
          get_expired_panics first_world.heap first_world.cache now_get key (entry env w m)
            first_sent
            (lookup-insert key key (entry env w m) w.cache ∙ (rw (text_eq_refl key) refl))
            (get_elem?-snoc w.heap first_sent) ((fit_keeps env.lib (is_tcp env) m).6 ∙ unasked) old

      -- If upstream answered a question without repeating it, then the first request for it after the
      -- time to live panics.
      pub handle_unasked_reply_panics :
          m.question ≡ []
          → env.now_set + ttl_of m.answer < now_get
          → (w₁ : World) × (handle_dns_request env fuel (some r) w ≡ done w₁)
            × (handle_dns_request env' fuel' (some r') w₁ ≡ panic)
      unfolding handle_remote check_cache
      handle_unasked_reply_panics unasked old =
          let got =
            ap (DnsCache.get first_world.heap first_world.cache now_get) same_key
            ∙ expired unasked old in
          (
            first_world,
            handle_reply,
            to_remote env' fuel' r' q' qs' first_world asked' miss' ∙ (rw (allowed', got) refl),
          )

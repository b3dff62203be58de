-- ===== src/Handler/Answers.antt =====
-- Which response a request gets, by where it comes from.
use resolvit.Prelude.{
  ℕ, ◌<◌, ◌≡◌, refl, sym, inl, inr, Bool-cases, ap, subst, ◌∙◌, true, none, some, List, [], ◌∷◌,
  ◌++◌, arith, length, if◌then◌else◌, ◌==◌,
}
use resolvit.Go.Text.{Text}
use resolvit.Go.Text.Equality.{text_eq_refl}
use resolvit.Go.Outcome.{done, hang}
use resolvit.Dns.{Msg, Question, Rr, IsDocumented, new_msg, rcode_name_error, type_a}
use resolvit.Records
use resolvit.Records.{Record, cname_type, a_type}
use resolvit.Filtering.Filter.{Filter, should_block, log_blocked}
use resolvit.Handler.{
  Env, World, is_tcp, key_of, handle_cname, handle_a, handle_record, handle_local_record,
  handle_question, handle_dns_request, handle_blocked, name_error, a_record, cname_record,
  start_reply,
}
use resolvit.Handler.Local.{
  IsTrap, local_a, local_cname, follow_hangs, follow_complete, dotted, Chases, address,
}
use resolvit.Handler.Respond.{sent, after_respond, after_cache, respond_lem, cache_and_respond_lem}
use resolvit.Handler.Stages.{to_blocked, to_address, to_alias}
use resolvit.Handler.Fit.{fit_keeps, fit-authoritative, IsPrefix, IsDelivered, fit-IsDelivered}

-- The whole reply for a name with a local address record: the address to a query for one, and else
-- nothing.
abbrev pub address_reply : Env → Msg → Question → Record → Msg
address_reply env r q found =
    if q.qtype == 1
    then record (env.lib.set_reply new_msg r) {
      recursion_available = true;
      answer = local_a q.name found.content ∷ [];
      authoritative = true;
    }
    else record (env.lib.set_reply new_msg r) { recursion_available = true; answer = [] }

-- The whole reply for a name with a local alias and these records behind it.
abbrev pub alias_reply : Env → Msg → Question → Record → List Rr → Msg
alias_reply env r q found rrs = record (env.lib.set_reply new_msg r) {
  recursion_available = true;
  answer = local_cname q.name (dotted found.content) ∷ rrs;
  authoritative = true;
}

module _ (env : Env) (fuel : ℕ) (r : Msg) (q : Question) (qs : List Question) (w : World)
    (asked : r.question ≡ q ∷ qs) where
  -- A name whose alias leads to names that are aliases of one another is never answered, whatever the
  -- fuel: the request does not return.
  pub handle_alias_loop_hangs :
      (found : Record) (P : Text → Type 0)
      → Records.get env.records q.name ≡ some found
      → found.typ ≡ cname_type
      → IsTrap env.records P
      → P (dotted found.content)
      → handle_dns_request env fuel (some r) w ≡ hang
  unfolding handle_dns_request handle_question handle_local_record handle_record handle_cname
  handle_alias_loop_hangs found P hit alias trap p =
      rw
        (
          asked,
          handle_question,
          hit,
          handle_record,
          alias,
          text_eq_refl cname_type,
          follow_hangs env.records P trap fuel (dotted found.content) [] p,
        )
        refl

  module _ (documented : IsDocumented env.lib) where
    prefix_of_nil : (rrs : List Rr) → IsPrefix rrs [] → rrs ≡ []
    prefix_of_nil [] p = refl
    prefix_of_nil (rr ∷ rrs) p = cc

    logs_blocked_name :
        (f : Filter)
        → env.filter ≡ some f
        → should_block env.filter q.name ≡ true
        → log_blocked env.filter env.remote_addr q.name q.qtype ≡ (
            if f.has_blocked_log
            then record { client = env.remote_addr; qtype = q.qtype; name = q.name } ∷ []
            else [])
    unfolding log_blocked should_block
    logs_blocked_name f has blocked =
        ap (λ o. log_blocked o env.remote_addr q.name q.qtype) has
        ∙ logged f (ap (λ o. should_block o q.name) (sym has) ∙ blocked)
      where
        logged :
            (f : Filter)
            → should_block (some f) q.name ≡ true
            → log_blocked (some f) env.remote_addr q.name q.qtype ≡ (
                if f.has_blocked_log
                then record { client = env.remote_addr; qtype = q.qtype; name = q.name } ∷ []
                else [])
        logged f b = ground arith

    -- A name without a local record that the filter blocks gets one reply, NXDOMAIN without answers
    -- and with the request's id, whatever the cache and the upstreams hold; the cache is left as it
    -- was, and if the filter has a log of blocked queries, the client's address, the type and the name
    -- are appended to it, and else nothing.
    pub handle_blocked_name :
        (f : Filter)
        → env.filter ≡ some f
        → Records.get env.records q.name ≡ none
        → should_block env.filter q.name ≡ true
        → (w' : World) × (handle_dns_request env fuel (some r) w ≡ done w')
          × (w'.cache ≡ w.cache)
          × (w'.blocked
              ≡ w.blocked
                ++ (if f.has_blocked_log
                    then record { client = env.remote_addr; qtype = q.qtype; name = q.name } ∷ []
                    else []))
          × (m : Msg) × (w'.written ≡ w.written ++ m ∷ [])
          × (m.rcode ≡ rcode_name_error)
          × (m.id ≡ r.id)
          × (m.answer ≡ [])
    unfolding handle_blocked
    handle_blocked_name f has miss blocked =
        let w₁ : World = record w {
          blocked = w.blocked ++ log_blocked env.filter env.remote_addr q.name q.qtype;
        } in
        let m = name_error env r in
        let kept = fit_keeps env.lib (is_tcp env) m in
        (
          after_respond env w₁ m,
          to_blocked env fuel r q qs w asked miss blocked ∙ respond_lem env w₁ m,
          refl,
          ap (λ l. w.blocked ++ l) (logs_blocked_name f has blocked),
          sent env w₁ m,
          refl,
          kept.5 ∙ documented.rcode_rcode new_msg r rcode_name_error,
          kept.4 ∙ documented.rcode_id new_msg r rcode_name_error,
          prefix_of_nil (sent env w₁ m).answer (
              subst (IsPrefix (sent env w₁ m).answer)
                (documented.rcode_answer new_msg r rcode_name_error) kept.0),
        )

    handle_a-id : (found : Record) → (handle_a env r q found).id ≡ r.id
    unfolding handle_a
    handle_a-id found = ground (arith, documented.reply_id new_msg r)

    handle_a-address_reply : (found : Record) → handle_a env r q found ≡ address_reply env r q found
    unfolding handle_a
    handle_a-address_reply found =
        let reply = start_reply env r in
        let none_yet : reply.answer ≡ [] = documented.reply_answer new_msg r in
        elim (Bool-cases (q.qtype == type_a)) [
          | inl e ↦
              rw (e, handle_a)
                (ap
                  (λ l. record reply {
                    answer = l ++ a_record q.name found.content ∷ [];
                    authoritative = true;
                  })
                  none_yet)
          | inr e ↦ rw (e, handle_a) (ap (λ l. record reply { answer = l }) none_yet)
        ]

    -- A local address record answers a query for an address, whatever the filter, the cache and the
    -- upstreams hold, with that record alone and marked as authoritative, unless the query came over
    -- UDP and this reply is longer than 512 bytes: then it may come without the record, marked as
    -- truncated. A query of any other type for the name gets one reply without answers, although the
    -- README says that it is forwarded. Each reply has the request's id, and none is logged as blocked.
    pub handle_address :
        (found : Record)
        → Records.get env.records q.name ≡ some found
        → found.typ ≡ a_type
        → (w' : World) × (handle_dns_request env fuel (some r) w ≡ done w')
          × (w'.blocked ≡ w.blocked)
          × (m : Msg) × (w'.written ≡ w.written ++ m ∷ [])
          × (m.id ≡ r.id)
          × IsDelivered env.lib (is_tcp env) (address_reply env r q found) m
          × (m.authoritative ≡ (address_reply env r q found).authoritative)
    handle_address found hit typ =
        let m = handle_a env r q found in
        let same = handle_a-address_reply found in
        let kept = fit_keeps env.lib (is_tcp env) m in
        (
          after_cache env w m (key_of env q),
          to_address env fuel r q qs w asked found hit typ
              ∙ cache_and_respond_lem env w m (key_of env q),
          refl,
          sent env w m,
          refl,
          kept.4 ∙ handle_a-id found,
          subst (λ x. IsDelivered env.lib (is_tcp env) x (sent env w m)) same
              (fit-IsDelivered env.lib (is_tcp env) m),
          fit-authoritative env.lib (is_tcp env) m ∙ ap (λ (x : Msg). x.authoritative) same,
        )

    -- An alias whose chain of local records ends in an address is answered, if the fuel is above the
    -- number of its records, with the request's id and marked as authoritative: with the whole chain
    -- in order, or, if the query came over UDP and that reply is longer than 512 bytes, with the first
    -- records of the chain in a reply that is marked as truncated. Nothing is logged as blocked.
    pub handle_alias :
        (found : Record) (rrs : List Rr)
        → Records.get env.records q.name ≡ some found
        → found.typ ≡ cname_type
        → Chases env.records (dotted found.content) rrs address
        → length rrs < fuel
        → (w' : World) × (handle_dns_request env fuel (some r) w ≡ done w')
          × (w'.blocked ≡ w.blocked)
          × (m : Msg) × (w'.written ≡ w.written ++ m ∷ [])
          × (m.id ≡ r.id)
          × (m.authoritative ≡ true)
          × IsDelivered env.lib (is_tcp env) (alias_reply env r q found rrs) m
    unfolding handle_cname
    handle_alias found rrs hit typ chases enough =
        let reply = start_reply env r in
        let m : Msg = record reply {
          answer = (reply.answer ++ cname_record q.name (dotted found.content) ∷ []) ++ rrs;
          authoritative = true;
        } in
        let same : m ≡ alias_reply env r q found rrs =
          ap
            (λ x. record reply {
              answer = (x ++ cname_record q.name (dotted found.content) ∷ []) ++ rrs;
              authoritative = true;
            })
            (documented.reply_answer new_msg r) in
        (
          after_cache env w m (key_of env q),
          to_alias env fuel r q qs w asked found m hit typ
                (rw (follow_complete env.records fuel [] chases enough) refl)
              ∙ cache_and_respond_lem env w m (key_of env q),
          refl,
          sent env w m,
          refl,
          (fit_keeps env.lib (is_tcp env) m).4 ∙ documented.reply_id new_msg r,
          fit-authoritative env.lib (is_tcp env) m,
          subst (λ x. IsDelivered env.lib (is_tcp env) x (sent env w m)) same
              (fit-IsDelivered env.lib (is_tcp env) m),
        )

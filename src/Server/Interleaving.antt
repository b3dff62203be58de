-- ===== src/Server/Interleaving.antt =====
-- A request that is still under way while the records are reloaded: its steps on either side of the
-- clearing of the cache. `handle_local_record` reads the records, and `handle_checked` is what the
-- handler does with the local reply after that.
use resolvit.Prelude.{
  ℕ, ◌+◌, ◌≤◌, ◌≡◌, ◌≢◌, refl, sym, ap, subst, ◌∙◌, Bool, true, false, none, some, List, [], ◌∷◌,
  ◌++◌, arith,
}
use resolvit.Go.Text.{Text, to_lower}
use resolvit.Go.Text.Equality.{text_eq_refl}
use resolvit.Go.Outcome.{done}
use resolvit.Dns.{Msg, Question, IsDocumented, Library}
use resolvit.DnsCache.{ttl_of}
use resolvit.Records
use resolvit.Filtering.Filter.{should_block}
use resolvit.Handler.{
  Env, World, is_tcp, key_of, handle_local_record, handle_checked, handle_dns_request,
}
use resolvit.Handler.Fit.{fit, fit_again}
use resolvit.Handler.Keys.{cache_key_for}
use resolvit.Handler.Respond.{after_cache, cache_and_respond_lem}
use resolvit.Handler.Served.{cache-IsSound}
use resolvit.Handler.Spec.{Held, View, Reply, fresh, specified, held_of, copy_of, update}
use resolvit.Handler.View.{view, view-after_cache}
use resolvit.Handler.Refinement.{handle_dns_request_refines, reply_while_young}
use resolvit.Server.{arrives, clear_cache}
use resolvit.Server.Run.{IsServable, clear_cache-IsSound}

same_key :
    (env env' : Env) (q q' : Question)
    → to_lower q'.name ≡ to_lower q.name
    → q'.qtype ≡ q.qtype
    → is_tcp env' ≡ is_tcp env
    → key_of env' q' ≡ key_of env q
unfolding key_of cache_key_for
same_key env env' q q' name typ net = rw (name, typ, net) refl

held_fresh :
    (now : ℕ) (key : Text) (f : View) (h : Held)
    → now ≤ h.expires_at
    → fresh now (update f key h key) ≡ some h.msg
held_fresh now key f h young = ground (arith, text_eq_refl key)

-- A copy of a message that was cut is not cut again.
fit-copy :
    (lib : Library) (tcp : Bool) (id : ℕ) (old : Msg)
    → IsDocumented lib
    → (fit lib tcp
        (record (lib.copy (fit lib tcp old)) { id = id; recursion_available = true })).answer
      ≡ (fit lib tcp old).answer
fit-copy lib tcp id old documented =
    let fitted = fit lib tcp old in
    let again : Msg = record (lib.copy fitted) { id = id; recursion_available = true } in
    let copied = documented.copy_deep fitted in
    let same = ap (λ (x : Msg). x.answer) copied in
    ap (λ (x : Msg). x.answer)
      (fit_again lib tcp old again
        (documented.len_sections again fitted (ap (λ (x : Msg). x.question) copied) same
          (ap (λ (x : Msg). x.rest) copied))
        same)
    ∙ same

answer_again :
    (env env' : Env) (r old : Msg)
    → env'.lib ≡ env.lib
    → is_tcp env' ≡ is_tcp env
    → IsDocumented env'.lib
    → (fit env'.lib (is_tcp env') (copy_of env' r (fit env.lib (is_tcp env) old))).answer
      ≡ (fit env.lib (is_tcp env) old).answer
answer_again env env' r old lib net documented =
    let fitted = fit env.lib (is_tcp env) old in
    subst
      (λ l.
        (fit l (is_tcp env')
          (record (l.copy fitted) { id = r.id; recursion_available = true })).answer
        ≡ fitted.answer)
      (sym lib)
      (subst
        (λ t.
          (fit env.lib t
            (record (env.lib.copy fitted) { id = r.id; recursion_available = true })).answer
          ≡ fitted.answer)
        (sym net) (fit-copy env.lib (is_tcp env) r.id old (subst IsDocumented lib documented)))

-- If a request read its local reply before the records were reloaded and goes on after the cache was
-- cleared, then a later request for the same name and type on the same transport gets the answers of
-- the old records, while their time to live has not passed, although the name has no local record any
-- more and is not blocked.
pub stale_after_reload :
    (env env' : Env) (fuel fuel' : ℕ) (r r' old : Msg) (q q' : Question) (qs' : List Question)
    (w : World)
    → IsServable (arrives env' fuel' (some r'))
    → handle_local_record env fuel r q ≡ done (some old)
    → old.question ≢ []
    → r'.question ≡ q' ∷ qs'
    → env'.lib ≡ env.lib
    → is_tcp env' ≡ is_tcp env
    → to_lower q'.name ≡ to_lower q.name
    → q'.qtype ≡ q.qtype
    → Records.get env'.records q'.name ≡ none
    → should_block env'.filter q'.name ≡ false
    → env'.now_get ≤ env.now_set + ttl_of old.answer
    → (w₁ : World) × (handle_checked env (key_of env q) r q (clear_cache w) (some old) ≡ done w₁)
      × (w₂ : World) × (handle_dns_request env' fuel' (some r') w₁ ≡ done w₂)
      × (s : Msg) × (w₂.written ≡ w₁.written ++ s ∷ [])
      × (s.answer ≡ (fit env.lib (is_tcp env) old).answer)
unfolding handle_checked
stale_after_reload env env' fuel fuel' r r' old q q' qs' w (ok, rank, falls, enough) before asks
      asked lib net name typ gone open_ young =
    let key = key_of env q in
    let cleared = clear_cache w in
    let w₁ = after_cache env cleared old key in
    let s₁ = cache-IsSound env cleared old key asks (clear_cache-IsSound w) in
    let v₁ = view-after_cache env cleared old (clear_cache-IsSound w) key in
    let (w₂, e₂, v₂, m₂, b₂, s₂) =
      handle_dns_request_refines env' rank fuel' (some r') w₁ ok falls enough s₁ in
    let fitted = fit env.lib (is_tcp env) old in
    let held : fresh env'.now_get (view w₁ (key_of env' q')) ≡ some fitted =
      ap (λ k. fresh env'.now_get (view w₁ k)) (same_key env env' q q' name typ net)
      ∙ ap (λ f. fresh env'.now_get (f key)) v₁
      ∙ held_fresh env'.now_get key (view cleared) (held_of env old) young in
    let reply = reply_while_young env' fuel' r' q' qs' (view w₁) fitted asked gone open_ held in
    let s = (specified env' fuel' (some r') (view w₁)).msg in
    (
      w₁,
      cache_and_respond_lem env cleared old key,
      w₂,
      e₂,
      s,
      m₂,
      ap (λ (x : Reply). x.msg.answer) reply ∙ answer_again env env' r' old lib net ok.documented,
    )

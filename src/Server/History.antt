-- ===== src/Server/History.antt =====
-- Where a cached answer comes from, over any sequence of events.
pub mod Origin
use resolvit.Prelude.{
  ℕ, ◌+◌, ◌≤◌, ◌≡◌, refl, sym, ap, subst, ◌∙◌, ◌⊎◌, inl, inr, true, Option, none, some, List, [],
  ◌∷◌, ◌++◌, All, arith, Bool-cases, Option-cases, ltb,
}
use resolvit.Go.Text.{Text, text_eq, to_lower}
use resolvit.Go.Text.Equality.{text_eq_iff}
use resolvit.Go.Dict.{lookup}
use resolvit.Go.Outcome.{done}
use resolvit.Dns.{Msg, Question, new_msg}
use resolvit.DnsCache.{ttl_of}
use resolvit.Forward.{Exchanged, forward}
use resolvit.Filtering.Filter.{should_block}
use resolvit.Handler.{Env, World, key_of, is_tcp, check_cache, handle_local_record}
use resolvit.Handler.Spec.{
  Held, View, Reply, nothing, fresh, holds, held_of, copied, from_upstream, from_cache, from_local,
  local_of, reply_to, specified,
}
use resolvit.Server.{Event, arrives, clears, run, new_world}
use resolvit.Server.Run.{view_after, IsServable, run_refines, new_world-IsSound}
use resolvit.Handler.Total.{IsSound}
use resolvit.Handler.Fit.{fit}
use resolvit.Handler.Keys.{cache_key_for_injective}
use resolvit.Handler.View.{view}
use resolvit.Handler.Refinement.{check_cache_lem}
use resolvit.Server.History.Origin.{IsArrival, Stored, StoredIn, Holds, view_after-StoredIn}

keys_of :
    (env' env : Env) (q' q : Question)
    → key_of env' q' ≡ key_of env q
    → (to_lower q'.name ≡ to_lower q.name) × (q'.qtype ≡ q.qtype) × (is_tcp env' ≡ is_tcp env)
unfolding key_of
keys_of env' env q' q e =
    cache_key_for_injective q'.name q.name q'.qtype q.qtype (is_tcp env') (is_tcp env) e

-- What is found in the cache is held, and its time has not passed.
found-Held :
    (env : Env) (id now : ℕ) (held : Option Held) (m : Msg)
    → copied env (record new_msg { id = id }) (fresh now held) ≡ some m
    → (h : Held) × (held ≡ some h)
      × (now ≤ h.expires_at)
      × (m ≡ record (env.lib.copy h.msg) { id = id; recursion_available = true })
found-Held env id now none m e = cc
found-Held env id now (some h) m e = elim (Bool-cases (ltb h.expires_at now)) [
  | inl old ↦ let e' = rw old at e in cc
  | inr young ↦
      let same : some (record (env.lib.copy h.msg) { id = id; recursion_available = true })
          ≡ some m =
        rw young at e in
      (h, refl, ground arith, cc)
]

-- The message repeats the reply to an earlier request, but for the id and the recursion flag: a
-- request whose question has the same type and the same name up to the case of the letters and that
-- came over UDP or TCP as this one does. The cache was not cleared since, and the time to live of the
-- message behind that reply has not passed.
abbrev pub RepeatsReply : List Event → Env → Question → ℕ → Msg → Type 0
RepeatsReply events env q id m =
    (before : List Event) × (env' : Env) × (fuel : ℕ) × (r : Msg) × (after : List Event) × (events
      ≡ before ++ arrives env' fuel (some r) ∷ after)
    × All IsArrival after
    × (q' : Question) × (qs : List Question) × (r.question ≡ q' ∷ qs)
    × (to_lower q'.name ≡ to_lower q.name)
    × (q'.qtype ≡ q.qtype)
    × (is_tcp env' ≡ is_tcp env)
    × (full : Msg) × (env.now_get ≤ env'.now_set + ttl_of full.answer)
    × let reply = (specified env' fuel (some r) (view_after nothing before)).msg in
      (reply ≡ fit env'.lib (is_tcp env') full)
      × (m ≡ record (env.lib.copy reply) { id = id; recursion_available = true })

StoredIn-RepeatsReply :
    (events : List Event) (env : Env) (q : Question) (id : ℕ) (m : Msg) (h : Held)
    → env.now_get ≤ h.expires_at
    → m ≡ record (env.lib.copy h.msg) { id = id; recursion_available = true }
    → StoredIn nothing events (key_of env q) h
    → RepeatsReply events env q id m
StoredIn-RepeatsReply events env q id m h young copy (before, clears, after, split, stored, all) =
    absurd stored
StoredIn-RepeatsReply events env q id m h young copy
      (before, arrives env' fuel none, after, split, stored, all) =
    absurd stored
StoredIn-RepeatsReply events env q id m h young copy
      (
        before,
        arrives env' fuel (some r),
        after,
        split,
        (q', qs, asked, (same_key, full, held, replied)),
        all,
      ) =
    let (same_name, same_type, same_net) = keys_of env' env q' q same_key in
    let reply : (specified env' fuel (some r) (view_after nothing before)).msg ≡ h.msg =
      ap (λ l. (reply_to env' fuel r l (view_after nothing before)).msg) asked ∙ replied in
    (
      before,
      env',
      fuel,
      r,
      after,
      split,
      all,
      q',
      qs,
      asked,
      same_name,
      same_type,
      same_net,
      full,
      subst (λ (x : Held). env.now_get ≤ x.expires_at) held young,
      (
        reply ∙ ap (λ (x : Held). x.msg) held,
        copy
            ∙ ap (λ x. record (env.lib.copy x) { id = id; recursion_available = true }) (sym reply),
      ),
    )

-- After any servable events from the start of a server, a message that the cache yields for a
-- question repeats the reply to an earlier request of the sequence, but for the id and the
-- recursion flag: a request whose question has the same type and the same name up to the case of the
-- letters and came over UDP or TCP as this one does. The cache was not cleared since, and the time to
-- live of the message behind that reply has not passed.
pub cached_from_reply :
    (events : List Event) (w : World) (env : Env) (q : Question) (id : ℕ) (m : Msg)
    → All IsServable events
    → run new_world events ≡ done w
    → check_cache env w (key_of env q) id ≡ done (some m)
    → RepeatsReply events env q id m
unfolding lookup
cached_from_reply events w env q id m ok ran hit =
    let (w', e, v, written, blocked, s) = run_refines events new_world ok new_world-IsSound in
    let same : done w' ≡ done w = sym e ∙ ran in
    let eq : w' ≡ w = cc in
    let sound : IsSound w = subst IsSound eq s in
    let seen : view w ≡ view_after nothing events = sym (ap view eq) ∙ v in
    let key = key_of env q in
    let found : done (copied env (record new_msg { id = id }) (fresh env.now_get (view w key)))
        ≡ done (some m) =
      sym (check_cache_lem env w sound key (record new_msg { id = id })) ∙ hit in
    let (h, held, young, copy) = found-Held env id env.now_get (view w key) m (cc) in
    elim (view_after-StoredIn events nothing key h (sym (ap (λ f. f key) seen) ∙ held)) [
      | inl (none_held, all) ↦ absurd (cc)
      | inr stored ↦ StoredIn-RepeatsReply events env q id m h young copy stored
    ]

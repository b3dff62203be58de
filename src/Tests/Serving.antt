-- ===== src/Tests/Serving.antt =====
-- Sequences of requests.
use resolvit.Prelude.{
  ◌+◌, ◌≤◌, ◌≡◌, ◌≢◌, refl, ap, ◌∙◌, true, none, some, List, [], ◌∷◌, ◌++◌, arith, All,
}
use resolvit.Go.Text.{
  codes, text_eq, to_lower, trim_space, trim_dot_suffix, has_dot_suffix, split, join, is_space,
}
use resolvit.Go.Dict.{lookup, insert}
use resolvit.Go.Outcome.{done}
use resolvit.Go.Decimal.{itoa}
use resolvit.Dns.{Msg, Question}
use resolvit.Records
use resolvit.DnsCache.{ttl_of}
use resolvit.Forward.{exchange, forward}
use resolvit.Filtering.DomainSet.{add_exact, add_wildcard, matches, normalize_lookup_name}
use resolvit.Filtering.Filter.{should_block}
use resolvit.Handler.{
  Env, World, is_tcp, key_of, check_cache, handle_local_record, handle_a, handle_checked,
  handle_dns_request,
}
use resolvit.Handler.Cached.{later}
use resolvit.Handler.Fit.{fit}
use resolvit.Handler.Keys.{cache_key_for}
use resolvit.Handler.Total.{IsSound, IsOrderly}
use resolvit.Handler.Spec.{copied, fresh, nothing}
use resolvit.Handler.View.{view}
use resolvit.Handler.Refinement.{check_cache_lem}
use resolvit.Server.{Event, arrives, clears, run, new_world, clear_cache}
use resolvit.Server.Run.{
  view_after, all_replies, all_blocked, IsServable, new_world-IsSound, run_refines,
}
use resolvit.Server.History.{RepeatsReply, cached_from_reply}
use resolvit.Server.Interleaving.{stale_after_reload}
use resolvit.Tests.Zone.{rank, zone-Descends}
use resolvit.Tests.Requests.{ask, first_question, net, env, start, env-IsOrderly, rank_bound, reply}
use resolvit.Tests.Remote.{again, same_name, no_record_again, allowed_again}

abbrev next_env : Env
next_env = later env net env.upstreams (codes "10.0.0.8:999") 300 301

next_env-IsOrderly : IsOrderly next_env
next_env-IsOrderly = record {
  documented = env-IsOrderly.documented;
  answers = env-IsOrderly.answers;
  questioned = env-IsOrderly.questioned;
  upstream = env-IsOrderly.upstream;
  valid = env-IsOrderly.valid;
}

abbrev day : List Event
day =
    arrives env 3 (some (ask (codes "a.org.") 1))
    ∷ clears
    ∷ arrives env 3 (some (ask (codes "a.org.") 1))
    ∷ arrives next_env 3 none
    ∷ []

day-IsServable : All IsServable day
day-IsServable =
    let first : IsServable (arrives env 3 (some (ask (codes "a.org.") 1))) =
      (env-IsOrderly, rank, zone-Descends, rank_bound) in
    (first, (tt, (first, ((next_env-IsOrderly, rank, zone-Descends, rank_bound), tt))))

run_refines_example :
    (w' : World) × (run new_world day ≡ done w')
    × (view w' ≡ view_after (view new_world) day)
    × (w'.written ≡ new_world.written ++ all_replies (view new_world) day)
    × (w'.blocked ≡ new_world.blocked ++ all_blocked (view new_world) day)
    × IsSound w'
run_refines_example = run_refines day new_world day-IsServable new_world-IsSound

abbrev evening : World
evening = (run_refines day new_world day-IsServable new_world-IsSound).0

abbrev question : Question
question = first_question (codes "A.ORG.") 1

abbrev repeated : Msg
repeated = record reply { id = 8; recursion_available = true }

still_held :
    copied next_env again (fresh 300 (view_after nothing day (key_of next_env question)))
    ≡ some repeated
unfolding handle_local_record Records.get Records.normalize_name trim_space is_space has_dot_suffix
    to_lower lookup insert text_eq split join should_block matches normalize_lookup_name
    trim_dot_suffix add_exact add_wildcard key_of cache_key_for forward exchange fit ttl_of itoa
still_held = refl

found_in_evening : check_cache next_env evening (key_of next_env question) 8 ≡ done (some repeated)
found_in_evening =
    let (w, e, v, written, blocked, s) =
      run_refines day new_world day-IsServable new_world-IsSound in
    check_cache_lem next_env w s (key_of next_env question) again
    ∙ ap (λ f. done (copied next_env again (fresh 300 (f (key_of next_env question))))) v
    ∙ ap done still_held

cached_from_reply_example : RepeatsReply day next_env question 8 repeated
cached_from_reply_example =
    cached_from_reply day evening next_env question 8 repeated day-IsServable
      (run_refines day new_world day-IsServable new_world-IsSound).1 found_in_evening

-- The record is looked up, the zone loses it, and the cache is cleared before the answer is stored.
abbrev old_zone : Records.Store
old_zone = insert (codes "a.org.") (record { typ = codes "a"; content = codes "10.0.0.1" }) []

abbrev old_env : Env
old_env = record env { records = old_zone }

abbrev old_reply : Msg
old_reply =
    handle_a old_env (ask (codes "a.org.") 1) (first_question (codes "a.org.") 1)
      (record { typ = codes "a"; content = codes "10.0.0.1" })

read_before :
    handle_local_record old_env 3 (ask (codes "a.org.") 1) (first_question (codes "a.org.") 1)
    ≡ done (some old_reply)
unfolding handle_local_record Records.get Records.normalize_name trim_space is_space has_dot_suffix
    to_lower lookup insert text_eq
read_before = refl

asks : old_reply.question ≢ []
unfolding handle_a
asks = λ e. cc

still_young : 300 ≤ old_env.now_set + ttl_of old_reply.answer
unfolding ttl_of handle_a
still_young = omega arith

stale_after_reload_example :
    (w₁ : World) × (handle_checked old_env
        (key_of old_env (first_question (codes "a.org.") 1))
        (ask (codes "a.org.") 1)
        (first_question (codes "a.org.") 1)
        (clear_cache start)
        (some old_reply)
      ≡ done w₁)
    × (w₂ : World) × (handle_dns_request next_env 3 (some again) w₁ ≡ done w₂)
    × (s : Msg) × (w₂.written ≡ w₁.written ++ s ∷ [])
    × (s.answer ≡ (fit old_env.lib (is_tcp old_env) old_reply).answer)
stale_after_reload_example =
    stale_after_reload old_env next_env 3 3 (ask (codes "a.org.") 1) again old_reply
      (first_question (codes "a.org.") 1) question [] start
      (next_env-IsOrderly, rank, zone-Descends, rank_bound) read_before asks refl refl refl
      same_name refl no_record_again allowed_again still_young

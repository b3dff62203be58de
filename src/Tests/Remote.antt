-- ===== src/Tests/Remote.antt =====
-- Requests that go upstream, and the cache that they fill.
use resolvit.Prelude.{◌+◌, ◌≤◌, ◌<◌, ◌≡◌, refl, none, some, [], ◌∷◌, ◌++◌, arith, false}
use resolvit.Go.Text.{
  codes, text_eq, to_lower, trim_space, trim_dot_suffix, has_dot_suffix, split, join, is_space,
}
use resolvit.Go.Dict.{lookup, insert}
use resolvit.Go.Outcome.{done, panic}
use resolvit.Dns.{Msg, new_msg, sample-IsDocumented}
use resolvit.Records
use resolvit.DnsCache
use resolvit.DnsCache.{ttl_of}
use resolvit.Forward.{Net, exchange, forward}
use resolvit.Filtering.DomainSet.{add_exact, add_wildcard, matches, normalize_lookup_name}
use resolvit.Filtering.Filter.{should_block}
use resolvit.Handler.{Env, World, key_of, handle_dns_request}
use resolvit.Handler.Cached.{later, handle_again_from_cache, handle_unasked_reply_panics}
use resolvit.Tests.Zone.{zone}
use resolvit.Tests.Requests.{ask, first_question, reply, net, dead, env, start}

no_record : Records.get zone (codes "a.org.") ≡ none
unfolding Records.get lookup insert text_eq Records.normalize_name trim_space to_lower
    has_dot_suffix is_space split join
no_record = refl

pub no_record_again : Records.get zone (codes "A.ORG.") ≡ none
unfolding Records.get lookup insert text_eq Records.normalize_name trim_space to_lower
    has_dot_suffix is_space split join
no_record_again = refl

allowed : should_block env.filter (codes "a.org.") ≡ false
unfolding should_block matches add_exact add_wildcard insert lookup text_eq trim_space
    trim_dot_suffix to_lower is_space split join normalize_lookup_name
allowed = refl

pub allowed_again : should_block env.filter (codes "A.ORG.") ≡ false
unfolding should_block matches add_exact add_wildcard insert lookup text_eq trim_space
    trim_dot_suffix to_lower is_space split join normalize_lookup_name
allowed_again = refl

empty_cache :
    (e : Env)
    → DnsCache.get start.heap start.cache e.now_get (key_of e (first_question (codes "a.org.") 1))
      ≡ done none
unfolding DnsCache.get lookup
empty_cache e = refl

replied :
    forward net env.upstreams (ask (codes "a.org.") 1) ≡ record { msg = some reply; err = none }
unfolding forward exchange
replied = refl

abbrev dead_env : Env
dead_env = record env { net = dead }

failed :
    forward dead dead_env.upstreams (ask (codes "a.org.") 1)
    ≡ record { msg = none; err = some (codes "timeout") }
unfolding forward exchange
failed = refl

abbrev next_env : Env
next_env = later env dead [] (codes "10.0.0.8:999") 300 301

pub same_name : to_lower (codes "A.ORG.") ≡ to_lower (codes "a.org.")
unfolding to_lower
same_name = refl

in_time : 300 ≤ env.now_set + ttl_of reply.answer
unfolding ttl_of
in_time = omega arith

abbrev pub again : Msg
again = record (ask (codes "A.ORG.") 1) { id = 8 }

handle_again_from_cache_example :
    (w₁ : World) × (handle_dns_request env 0 (some (ask (codes "a.org.") 1)) start ≡ done w₁)
    × (w₂ : World) × (handle_dns_request next_env 0 (some again) w₁ ≡ done w₂)
    × (w₂.cache ≡ w₁.cache)
    × (s : Msg) × (w₁.written ≡ start.written ++ s ∷ [])
    × (s' : Msg) × (w₂.written ≡ w₁.written ++ s' ∷ [])
    × (s'.id ≡ 8)
    × (s'.rcode ≡ s.rcode)
    × (s'.question ≡ s.question)
    × (s'.answer ≡ s.answer)
handle_again_from_cache_example =
    handle_again_from_cache env 0 (ask (codes "a.org.") 1) (first_question (codes "a.org.") 1) []
      start refl no_record allowed (empty_cache env) reply replied dead [] (codes "10.0.0.8:999")
      300 301 0 again (first_question (codes "A.ORG.") 1) [] refl same_name refl no_record_again
      allowed_again sample-IsDocumented in_time

-- A server that answers with a bare header.
abbrev bare : Net
bare p server r = record { msg = some (record new_msg { id = r.id; rcode = 1 }); err = none }

abbrev bare_env : Env
bare_env = record env { net = bare }

bare_replied :
    forward bare bare_env.upstreams (ask (codes "a.org.") 1)
    ≡ record { msg = some (record new_msg { id = 7; rcode = 1 }); err = none }
unfolding forward exchange
bare_replied = refl

too_late : 200 + ttl_of [] < 60_000_000_201
unfolding ttl_of
too_late = omega arith

handle_unasked_reply_panics_example :
    (w₁ : World) × (handle_dns_request bare_env 0 (some (ask (codes "a.org.") 1)) start ≡ done w₁)
    × (handle_dns_request
          (later bare_env bare [] (codes "10.0.0.8:999") 60_000_000_201 60_000_000_202)
          0
          (some again)
          w₁
        ≡ panic)
handle_unasked_reply_panics_example =
    handle_unasked_reply_panics bare_env 0 (ask (codes "a.org.") 1)
      (first_question (codes "a.org.") 1) [] start refl no_record allowed (empty_cache bare_env)
      (record new_msg { id = 7; rcode = 1 }) bare_replied bare [] (codes "10.0.0.8:999")
      60_000_000_201 60_000_000_202 0 again (first_question (codes "A.ORG.") 1) [] refl same_name
      refl no_record_again allowed_again refl too_late

-- ===== src/Tests/Requests.antt =====
-- Requests, from the client's message to the response.
use resolvit.Prelude.{
  ℕ, suc, ◌<◌, ◌≤◌, ◌≡◌, ◌≢◌, refl, ◌⊎◌, inl, inr, ◌&&◌, true, false, not, none, some, List, [],
  ◌∷◌, ◌++◌, arith, length, ltb,
}
use resolvit.Go.Text.{
  Text, codes, text_eq, to_lower, trim_space, trim_dot_suffix, has_dot_suffix, split, join,
  is_space,
}
use resolvit.Go.Dict.{lookup, insert}
use resolvit.Go.Outcome.{done, hang}
use resolvit.Dns.{Msg, Question, Rr, other, new_msg, sample, sample-IsDocumented, rcode_name_error}
use resolvit.Records
use resolvit.Records.{Store, Record}
use resolvit.Forward.{Net}
use resolvit.Filtering.DomainSet.{add_exact, add_wildcard, matches}
use resolvit.Filtering.Filter.{should_block}
use resolvit.Handler.{Env, World, is_tcp, a_record, start_reply, handle_dns_request}
use resolvit.Handler.Keys.{cache_key_for, cache_key_for_injective}
use resolvit.Handler.Fit.{
  fit, fit_fits, fit_keeps, IsPrefix, IsDelivered, max_msg_size, has_answers,
}
use resolvit.Handler.Local.{local, IsTrap}
use resolvit.Handler.Total.{IsSound, IsOrderly}
use resolvit.Handler.Served.{Serves, handle_dns_request-Serves}
use resolvit.Handler.Answers.{
  handle_alias_loop_hangs, handle_blocked_name, handle_address, handle_alias, alias_reply,
}
use resolvit.Tests.Zone
use resolvit.Tests.Zone.{zone, rank, www, host, zone-AllValid, zone-Descends, get-www, get-host}
use resolvit.Tests.Domains.{filter}

abbrev pub ask : Text → ℕ → Msg
ask name qtype = record new_msg {
  id = 7;
  question = record { name = name; qtype = qtype; qclass = 1 } ∷ [];
}

abbrev pub first_question : Text → ℕ → Question
first_question name qtype = record { name = name; qtype = qtype; qclass = 1 }

abbrev pub reply : Msg
reply = record (ask (codes "a.org.") 1) {
  id = 9;
  answer = other (record { name = codes "a.org."; rrtype = 1; class = 1; ttl = 30 }) [] ∷ [];
}

-- Every server answers over UDP.
abbrev pub net : Net
net p server r = record { msg = some reply; err = none }

abbrev pub dead : Net
dead p server r = record { msg = none; err = some (codes "timeout") }

abbrev pub env : Env
env = record {
  lib = sample;
  net = net;
  records = zone;
  upstreams = codes "9.9.9.9:53" ∷ [];
  filter = some filter;
  network = codes "udp";
  remote_addr = codes "10.0.0.7:5353";
  now_get = 100;
  now_set = 200;
}

abbrev pub start : World
start = record { cache = []; heap = []; blocked = []; written = [] }

pub start-IsSound : IsSound start
unfolding lookup
start-IsSound = record { cached = λ key e h. cc }

pub env-IsOrderly : IsOrderly env
env-IsOrderly = record {
  documented = sample-IsDocumented;
  answers = λ p server r h. refl;
  questioned = λ p server r m h. reply_asked m h;
  upstream = cc;
  valid = zone-AllValid;
}
  where
    reply_asked : (m : Msg) → some reply ≡ some m → m.question ≢ []
    reply_asked m h e = ground arith

pub rank_bound : (t : Text) → suc (rank t) < 3
rank_bound t = ground arith

handle_dns_request-Serves_example :
    Serves env start (handle_dns_request env 3 (some (ask (codes "www.lan.") 1)) start)
handle_dns_request-Serves_example =
    handle_dns_request-Serves env rank 3 (some (ask (codes "www.lan.") 1)) start env-IsOrderly
      zone-Descends rank_bound start-IsSound

cache_key_for_injective_example :
    (to_lower (codes "A.org.") ≡ to_lower (codes "a.ORG.")) × (◌≡◌ {A = ℕ} 28 28) × (true ≡ true)
unfolding cache_key_for to_lower
cache_key_for_injective_example =
    cache_key_for_injective (codes "A.org.") (codes "a.ORG.") 28 28 true true refl

abbrev rr : Rr
rr = other (record { name = codes "a.org."; rrtype = 1; class = 1; ttl = 30 }) []

abbrev eight : List Rr → List Rr
eight rrs = rr ∷ rr ∷ rr ∷ rr ∷ rr ∷ rr ∷ rr ∷ rr ∷ rrs

abbrev long : Msg
long = record reply { answer = eight (eight (eight (eight (eight [])))) }

fit_fits_example :
    ((fit sample false long).answer ≡ []) ⊎ (sample.len (fit sample false long) ≤ max_msg_size)
fit_fits_example = fit_fits sample long

fit_cuts : length (fit sample false long).answer ≡ 31
unfolding fit
fit_cuts = refl

fit_keeps_example :
    IsPrefix (fit sample false long).answer long.answer
    × ((false ≡ true) → fit sample false long ≡ long)
    × ((has_answers long.answer && ltb max_msg_size (sample.len long) && not false) ≡ true
        → (fit sample false long).truncated ≡ true)
    × ((has_answers long.answer && ltb max_msg_size (sample.len long) && not false) ≡ false
        → fit sample false long ≡ long)
    × ((fit sample false long).id ≡ long.id)
    × ((fit sample false long).rcode ≡ long.rcode)
    × ((fit sample false long).question ≡ long.question)
fit_keeps_example = fit_keeps sample false long

blocked_locally : Records.get zone (codes "ads.org.") ≡ none
unfolding Records.get lookup insert text_eq Records.normalize_name trim_space to_lower
    has_dot_suffix is_space split join
blocked_locally = refl

blocked_ads : should_block env.filter (codes "ads.org.") ≡ true
unfolding should_block matches add_exact add_wildcard insert lookup text_eq trim_space
    trim_dot_suffix to_lower is_space split join resolvit.Filtering.DomainSet.normalize_lookup_name
blocked_ads = refl

handle_blocked_name_example :
    (w' : World) × (handle_dns_request env 0 (some (ask (codes "ads.org.") 1)) start ≡ done w')
    × (w'.cache ≡ start.cache)
    × (w'.blocked
        ≡ start.blocked
          ++ (record { client = env.remote_addr; qtype = 1; name = codes "ads.org." }) ∷ [])
    × (m : Msg) × (w'.written ≡ start.written ++ m ∷ [])
    × (m.rcode ≡ rcode_name_error)
    × (m.id ≡ 7)
    × (m.answer ≡ [])
handle_blocked_name_example =
    handle_blocked_name env 0 (ask (codes "ads.org.") 1) (first_question (codes "ads.org.") 1) []
      start refl sample-IsDocumented filter refl blocked_locally blocked_ads

handle_address_example :
    (w' : World) × (handle_dns_request env 0 (some (ask host 1)) start ≡ done w')
    × (w'.blocked ≡ start.blocked)
    × (m : Msg) × (w'.written ≡ start.written ++ m ∷ [])
    × (m.id ≡ 7)
    × IsDelivered sample
        (is_tcp env)
        (record (start_reply env (ask host 1)) {
          answer = a_record host Zone.address.content ∷ [];
          authoritative = true;
        })
        m
    × (m.authoritative ≡ true)
handle_address_example =
    handle_address env 0 (ask host 1) (first_question host 1) [] start refl sample-IsDocumented
      Zone.address get-host refl

handle_alias_example :
    (w' : World) × (handle_dns_request env 2 (some (ask www 1)) start ≡ done w')
    × (w'.blocked ≡ start.blocked)
    × (m : Msg) × (w'.written ≡ start.written ++ m ∷ [])
    × (m.id ≡ 7)
    × (m.authoritative ≡ true)
    × IsDelivered sample
        (is_tcp env)
        (alias_reply env
          (ask www 1)
          (first_question www 1)
          Zone.alias
          (a_record host Zone.address.content ∷ []))
        m
handle_alias_example =
    handle_alias env 2 (ask www 1) (first_question www 1) [] start refl sample-IsDocumented
      Zone.alias (a_record host Zone.address.content ∷ []) get-www refl
      (local host Zone.address get-host refl) (omega arith)

-- Two aliases of one another.
abbrev ring : Store
ring =
    insert (codes "a.lan.") (record { typ = codes "cname"; content = codes "b.lan" })
      (insert (codes "b.lan.") (record { typ = codes "cname"; content = codes "a.lan" }) [])

abbrev ring_env : Env
ring_env = record env { records = ring }

abbrev InRing : Text → Type 0
InRing t = (t ≡ codes "a.lan.") ⊎ (t ≡ codes "b.lan.")

get_a :
    Records.get ring (codes "a.lan.")
    ≡ some (record { typ = codes "cname"; content = codes "b.lan" })
unfolding Records.get lookup insert text_eq Records.normalize_name trim_space to_lower
    has_dot_suffix is_space
get_a = refl

get_b :
    Records.get ring (codes "b.lan.")
    ≡ some (record { typ = codes "cname"; content = codes "a.lan" })
unfolding Records.get lookup insert text_eq Records.normalize_name trim_space to_lower
    has_dot_suffix is_space
get_b = refl

ring-IsTrap : IsTrap ring InRing
ring-IsTrap t (inl e) =
    (record { typ = codes "cname"; content = codes "b.lan" }, rw e get_a, refl, inr refl)
ring-IsTrap t (inr e) =
    (record { typ = codes "cname"; content = codes "a.lan" }, rw e get_b, refl, inl refl)

handle_alias_loop_hangs_example :
    handle_dns_request ring_env 1000 (some (ask (codes "a.lan.") 1)) start ≡ hang
handle_alias_loop_hangs_example =
    handle_alias_loop_hangs ring_env 1000 (ask (codes "a.lan.") 1)
      (first_question (codes "a.lan.") 1) [] start refl
      (record { typ = codes "cname"; content = codes "b.lan" }) InRing get_a refl ring-IsTrap
      (inr refl)

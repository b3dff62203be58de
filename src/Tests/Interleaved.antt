-- ===== src/Tests/Interleaved.antt =====
-- Two requests whose goroutines take turns, with a reload in between.
use resolvit.Prelude.{ℕ, ◌+◌, ◌≡◌, refl, none, some, List, Option, All, length, sum_of}
use resolvit.Go.Text.{Text, codes}
use resolvit.Go.Outcome.{done}
use resolvit.Dns.{Msg, IsDocumented, new_msg}
use resolvit.Records.Load.{AllValid}
use resolvit.Handler.{World, handle_dns_request}
use resolvit.Handler.Total.{IsSound}
use resolvit.Handler.Served.{Serves, handle_dns_request-Serves}
use resolvit.Handler.Tasks.{starts, returned, advance, advance_all}
use resolvit.Handler.Tasks.Alone.{alone_as_handler}
use resolvit.Handler.Tasks.Replies.Held.{Echoes, Heading, heading, IsKeyed}
use resolvit.Prelude.{ap, sym, true}
use resolvit.Server.Wiring.{Surroundings}
use resolvit.Process.Life.{live}
use resolvit.Process.Life.Replies.{settings_after, live_refines}
use resolvit.Process.Goroutines.{
  Goroutine, Machine, Reach, here, later, arrives, runs, hangs_up, begin, run_goroutine, idle,
}
use resolvit.Process.Goroutines.Started.{
  at_start, LeadsTo, started_runs_safe, started_requests_finish,
}
use resolvit.Tests.Starting.{machine, process, started}
use resolvit.Go.Dict.{lookup}
use resolvit.Records.Lookup.{get-Answers}
use resolvit.Process.Goroutines.Replies.{replies_of, HasNotPanicked}
use resolvit.Process.Goroutines.Blocked.{blocked_stays_refused}
use resolvit.Handler.Tasks.{looks_up}
use resolvit.Handler.{key_of, handle_a}
use resolvit.Handler.Tasks.Refused.{Refuses}
use resolvit.Process.Life.{env_at}
use resolvit.Server.{new_world}
use resolvit.Tests.Requests.{first_question}
use resolvit.Tests.Starting.{no_record, listed}
use resolvit.Prelude.{inl, inr, []}
use resolvit.Handler.Local.{Descends}
use resolvit.Process.Goroutines.Safe.{IsBehaved}
use resolvit.Process.Goroutines.Scheduled.{IsReturned, idle_with, live_scheduled}
use resolvit.Process.Goroutines.Headings.{has_heading, replies_to, replies_bear_headings}
use resolvit.Tests.Zone.{zone, rank, zone-Descends}
use resolvit.Tests.Requests.{ask, env, start, start-IsSound, env-IsOrderly, rank_bound}
use resolvit.Tests.Loading.{host, Disk}
use resolvit.Tests.Living.{
  handler, around, path, zone_files, settings, with_records, afterwards, zone-IsServable,
}

abbrev asked : Option Msg
asked = some (ask (codes "www.lan.") 1)

abbrev served : Serves env start (handle_dns_request env 3 asked start)
served =
    handle_dns_request-Serves env rank 3 asked start env-IsOrderly zone-Descends rank_bound
      start-IsSound

alone_as_handler_example : (n : ℕ) × (advance_all env n start (starts asked) ≡ (served.0, returned))
alone_as_handler_example = alone_as_handler env 3 asked start served.0 served.1

around-IsBehaved : IsBehaved around
around-IsBehaved = record {
  documented = env-IsOrderly.documented;
  answers = env-IsOrderly.answers;
  questioned = env-IsOrderly.questioned;
}

abbrev Led : Machine Disk → Type 0
Led m = LeadsTo machine process IsBehaved (at_start process) m

-- The second request has begun before the first one looks up its name.
abbrev interleaved : (m : Machine Disk) × Led m
unfolding begin run_goroutine
interleaved = (
  _,
  later
      (later
        (later (later (later here (arrives around asked around-IsBehaved)) (runs 0 _ refl))
          (arrives around (some (ask (codes "a.org.") 1)) around-IsBehaved))
        (runs 1 _ refl))
      (runs 0 _ refl),
)

-- Then the records are loaded.
abbrev reloading : (m : Machine Disk) × Led m
unfolding begin run_goroutine
reloading = (_, later interleaved.1 (hangs_up zone_files refl))

started_runs_safe_example :
    AllValid reloading.0.settings.records
    × IsSound reloading.0.world
    × All HasNotPanicked reloading.0.goroutines
    × (length reloading.0.world.written ≡ sum_of replies_of reloading.0.goroutines)
unfolding begin run_goroutine
started_runs_safe_example =
    started_runs_safe machine process IsBehaved reloading.0 started (λ a b. b) reloading.1

no_aliases : Descends [] rank
unfolding lookup
no_aliases t found h typ = elim (get-Answers [] t found h) [
  | inl direct ↦ cc
  | inr (pre, suf, miss, near) ↦ let stored = near.stored in cc
]

started_requests_finish_example :
    (m' : Machine Disk) × LeadsTo machine process IsBehaved interleaved.0 m'
    × (m'.settings ≡ interleaved.0.settings)
    × All IsReturned m'.goroutines
    × (length m'.world.written ≡ length interleaved.0.goroutines)
unfolding begin run_goroutine
started_requests_finish_example =
    started_requests_finish machine process IsBehaved rank interleaved.0 started (λ a b. b)
      interleaved.1 no_aliases

abbrev advert : Text
advert = codes "x.ads.example.com."

-- A request for a blocked name, whose goroutine is about to read the filter.
abbrev refusing : (m : Machine Disk) × Led m
unfolding begin run_goroutine
refusing = (
  _,
  later (later (later here (arrives around (some (ask advert 1)) around-IsBehaved)) (runs 0 _ refl))
      (runs 0 _ refl),
)

blocked_stays_refused_example :
    Refuses advert
      (advance
        (env_at path handler host (at_start process).settings around)
        new_world
        (looks_up (ask advert 1) (first_question advert 1))).1
unfolding begin run_goroutine advance key_of handle_a
blocked_stays_refused_example =
    blocked_stays_refused process.cfg.resolve_from process.srv.handler machine.host IsBehaved advert
      (at_start process).settings new_world refusing.0 refusing.1 0 _ (λ a b. b.documented)
      ((((no_record, listed), (no_record, listed)), (no_record, listed)), (no_record, listed)) refl
      (ask advert 1, first_question advert 1, [], refl, refl, refl)

abbrev IsEchoing : Surroundings → Type 0
IsEchoing a = IsDocumented a.lib × Echoes a.lib a.net

abbrev echoing : Surroundings
echoing = record around {
  net = λ p server r. record { msg = some (record r { response = true }); err = none };
}

echoes : Echoes echoing.lib echoing.net
echoes = record {
  reply_asked = λ r. refl;
  rcode_asked = λ r c. refl;
  reply_heading = λ p server r m e. sent_back r m e;
}
  where
    sent_back : (r m : Msg) → some (record r { response = true }) ≡ some m → heading m ≡ heading r
    sent_back r m e = let same : record r { response = true } ≡ m = cc in ap heading (sym same)

start-IsKeyed : IsKeyed start
unfolding lookup
start-IsKeyed = record { keyed = λ key e q is_tcp l kq. cc }

-- A request for a name and one without a question, which is replied to.
abbrev replied : (m : Machine Disk) × Reach path handler host IsEchoing (idle settings start) m
unfolding begin run_goroutine
replied = (
  _,
  later
      (later
        (later (later here (arrives echoing asked (env-IsOrderly.documented, echoes)))
          (arrives echoing (some (record new_msg { id = 7 })) (env-IsOrderly.documented, echoes)))
        (runs 0 _ refl))
      (runs 1 _ refl),
)

abbrev unasked : Heading
unasked = record { id = 7; asked = none }

replies_bear_headings_example :
    sum_of (has_heading unasked) replied.0.world.written
    ≡ sum_of (has_heading unasked) start.written + sum_of (replies_to unasked) replied.0.goroutines
unfolding begin run_goroutine
replies_bear_headings_example =
    replies_bear_headings path handler host IsEchoing settings start replied.0 unasked (λ a b. b)
      start-IsKeyed replied.1

-- The request without a question got the one message.
one_reply :
    (sum_of (has_heading unasked) replied.0.world.written ≡ 1)
    × (sum_of (replies_to unasked) replied.0.goroutines ≡ 1)
unfolding begin run_goroutine advance
one_reply = (refl, refl)

abbrev lived :
    (w' : World) × (live path handler host (with_records zone) start afterwards
      ≡ done (settings_after path handler host (with_records zone) afterwards, w'))
lived =
    let x =
      live_refines path handler host (with_records zone) start afterwards zone-IsServable
        start-IsSound in
    (x.0, x.1)

live_scheduled_example :
    (gs : List Goroutine) × Reach path handler host IsBehaved
      (idle (with_records zone) start)
      (idle_with (settings_after path handler host (with_records zone) afterwards) lived.0 gs)
    × All IsReturned gs
live_scheduled_example =
    live_scheduled path handler host IsBehaved (with_records zone)
      (settings_after path handler host (with_records zone) afterwards) start lived.0 afterwards
      (around-IsBehaved, (tt, tt)) lived.1

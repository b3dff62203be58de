-- ===== src/Tests/Living.antt =====
-- A reload between two requests.
use resolvit.Prelude.{
  ◌≡◌, refl, sym, ap, subst, false, none, some, List, [], ◌∷◌, ◌++◌, Option, All,
}
use resolvit.Go.Text.{
  Text, codes, text_eq, to_lower, trim_space, is_space, has_dot_suffix, has_prefix, fields,
}
use resolvit.Go.Path.{clean}
use resolvit.Go.Dict.{insert}
use resolvit.Go.Ip.{parse_ip}
use resolvit.Go.Outcome.{done}
use resolvit.Handler.{World}
use resolvit.Handler.Total.{IsSound}
use resolvit.Handler.View.{view}
use resolvit.Records.{
  Store, LoadError, load_from_file, sanitize_records_path, load_lines, normalize_name,
}
use resolvit.Server.{new_world}
use resolvit.Server.Run.{IsServable, view_after, all_replies, all_blocked}
use resolvit.Server.Wiring.{Handler, Surroundings, new_server}
use resolvit.Process.{Files, load_records}
use resolvit.Process.Life.{Settings, Happening, asks, hangs_up, ticks, live}
use resolvit.Process.Life.Replies.{events_of, settings_after, live_refines, reload_starts_anew}
use resolvit.Tests.Zone.{zone, rank, zone-Descends}
use resolvit.Tests.Requests.{ask, env, start, start-IsSound, env-IsOrderly, rank_bound}
use resolvit.Tests.Loading.{host, Disk}

abbrev pub handler : Handler
handler = (new_server (codes "127.0.0.1:5300") env.upstreams env.filter).handler

abbrev pub around : Surroundings
around = record {
  lib = env.lib;
  net = env.net;
  records = [];
  network = env.network;
  remote_addr = env.remote_addr;
  now_get = env.now_get;
  now_set = env.now_set;
}

abbrev pub path : Text
path = codes "zone.txt"

abbrev pub zone_files : Files
zone_files name = some (record {
  lines =
      codes "*.dev.lan A 10.0.0.1"
      ∷ codes "host.lan A 10.0.0.1"
      ∷ codes "www.lan CNAME host.lan"
      ∷ [];
  scan_fails = false;
})

loads_zone : load_records zone_files [] path ≡ (zone, none)
unfolding load_records load_from_file sanitize_records_path clean text_eq has_prefix load_lines
    trim_space is_space fields normalize_name to_lower has_dot_suffix parse_ip insert
loads_zone = refl

abbrev pub settings : Settings Disk
settings = record { records = []; filter = env.filter; disk = [] }

abbrev pub afterwards : List (Happening Text)
afterwards = asks around 3 (some (ask (codes "a.org.") 1)) ∷ ticks (λ req. none) ∷ []

abbrev pub with_records : Store → Settings Disk
with_records records = record settings { records = records }

pub zone-IsServable : All IsServable (events_of path handler host (with_records zone) afterwards)
zone-IsServable = ((env-IsOrderly, rank, zone-Descends, rank_bound), tt)

loaded-IsServable :
    All IsServable
      (events_of path handler host (with_records (load_records zone_files [] path).0) afterwards)
loaded-IsServable =
    subst
      (λ (l : Store × Option LoadError).
        All IsServable (events_of path handler host (with_records l.0) afterwards))
      (sym loads_zone) zone-IsServable

reload_starts_anew_example :
    let s' = with_records (load_records zone_files [] path).0 in
    (w' : World) × (live path handler host settings start (hangs_up zone_files ∷ afterwards)
      ≡ done (settings_after path handler host s' afterwards, w'))
    × (w'' : World) × (live path handler host s' new_world afterwards
        ≡ done (settings_after path handler host s' afterwards, w''))
    × (w'.written ≡ start.written ++ w''.written)
    × (w'.blocked ≡ start.blocked ++ w''.blocked)
reload_starts_anew_example =
    reload_starts_anew path handler host settings start zone_files afterwards
      (ap (λ (l : Store × Option LoadError). l.1) loads_zone) loaded-IsServable start-IsSound

live_refines_example :
    (w' : World) × (live path handler host (with_records zone) start afterwards
      ≡ done (settings_after path handler host (with_records zone) afterwards, w'))
    × (view w'
        ≡ view_after (view start) (events_of path handler host (with_records zone) afterwards))
    × (w'.written
        ≡ start.written
          ++ all_replies (view start) (events_of path handler host (with_records zone) afterwards))
    × (w'.blocked
        ≡ start.blocked
          ++ all_blocked (view start) (events_of path handler host (with_records zone) afterwards))
    × IsSound w'
live_refines_example =
    live_refines path handler host (with_records zone) start afterwards zone-IsServable
      start-IsSound

-- ===== src/Tests/Records.antt =====
-- Local records.
use resolvit.Prelude.{◌≡◌, ◌↔◌, ◌≢◌, refl, none, some, [], ◌∷◌, arith, false, Option}
use resolvit.Go.Text.{
  Text, codes, text_eq, to_lower, trim_space, has_dot_suffix, split, join, is_space, has_prefix,
}
use resolvit.Go.Dict.{lookup, insert}
use resolvit.Go.Scan.{File}
use resolvit.Records.{get, normalize_name, star_dot}
use resolvit.Records.Lookup.{Answers, get-Answers}
use resolvit.Records.{sanitize_records_path, ok, err, path_escapes}
use resolvit.Records.Paths.{sanitize_records_path_iff}
use resolvit.Go.Path.{clean}
use resolvit.Go.Path.Files.{IsFilePath}
use resolvit.Tests.Zone.{address, zone}

normal_api : normalize_name (codes " API.Dev.Lan") ≡ codes "api.dev.lan."
unfolding normalize_name trim_space to_lower has_dot_suffix is_space
normal_api = refl

get_wild : get zone (codes " API.Dev.Lan") ≡ some address
unfolding get lookup insert text_eq normalize_name trim_space to_lower has_dot_suffix is_space split
    join
get_wild = refl

get_missing : get zone (codes "dev.lan") ≡ none
unfolding get lookup insert text_eq normalize_name trim_space to_lower has_dot_suffix is_space split
    join
get_missing = refl

get-Answers_example : Answers zone (normalize_name (codes " API.Dev.Lan")) address
get-Answers_example = get-Answers zone (codes " API.Dev.Lan") address get_wild

not_nil : normalize_name (codes "dev.lan") ≢ []
unfolding normalize_name trim_space to_lower has_dot_suffix is_space
not_nil = cc

same_host : normalize_name (codes "HOST.lan") ≡ normalize_name (codes "host.lan.")
unfolding normalize_name trim_space to_lower has_dot_suffix is_space
same_host = refl

host_not_nil : normalize_name (codes "host.lan.") ≢ []
unfolding normalize_name trim_space to_lower has_dot_suffix is_space
host_not_nil = cc

plain_host : has_prefix (normalize_name (codes "host.lan.")) star_dot ≡ false
unfolding normalize_name trim_space to_lower has_dot_suffix is_space has_prefix
plain_host = refl

other_name : normalize_name (codes "host.lan.") ≢ normalize_name (codes "www.lan")
unfolding normalize_name trim_space to_lower has_dot_suffix is_space
other_name e = ground arith

abbrev disk : Text → Option File
disk path = some (record {
  lines = codes "# zone" ∷ codes "host.lan A 10.0.0.1" ∷ codes "x.lan A nonsense" ∷ [];
  scan_fails = false;
})

sanitize_records_path_iff_example :
    (sanitize_records_path (codes "./zones/../etc//lan.txt") ≡ ok (codes "etc/lan.txt"))
    ↔ IsFilePath (codes "./zones/../etc//lan.txt") (codes "etc/lan.txt")
sanitize_records_path_iff_example =
    sanitize_records_path_iff (codes "./zones/../etc//lan.txt") (codes "etc/lan.txt")

paths_run :
    (sanitize_records_path (codes "./zones/../etc//lan.txt") ≡ ok (codes "etc/lan.txt"))
    × (sanitize_records_path (codes "a/../../etc") ≡ err path_escapes)
unfolding sanitize_records_path clean text_eq has_prefix
paths_run = (refl, refl)

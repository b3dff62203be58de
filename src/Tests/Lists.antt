-- ===== src/Tests/Lists.antt =====
-- Parsing of lists at concrete files.
use resolvit.Prelude.{
  ◌≡◌, ◌≢◌, ◌↔◌, refl, Bool, true, false, not, List, [], ◌∷◌, ◌++◌, length, if◌then◌else◌,
}
use resolvit.Go.Text.{
  Text, codes, is_empty, trim_space, is_space, trim_dot_suffix, to_lower, trim_prefix, has_prefix,
  fields, text_eq, split, join,
}
use resolvit.Go.Dict.{lookup, insert}
use resolvit.Go.Ip.{parse_ip}
use resolvit.Go.Int.{pos}
use resolvit.Go.Scan.{File}
use resolvit.Filtering.DomainSet.{matches, normalize_lookup_name, add_wildcard, add_exact}
use resolvit.Filtering.BlockedLog.{log, line, record_type}
use resolvit.Go.Decimal.{itoa}
use resolvit.Filtering.Parser.{parse_list, normalize_domain, LogLine, parsed}
use resolvit.Filtering.Parser.Tokens.{Entry, list_tokens}
use resolvit.Filtering.Parser.Blocking.{Lists, Blocks, parse_list_iff}
use resolvit.Filtering.Parser.Counts.{
  allowed, hides, valid_in, invalid_in, invalid_tokens, logged_tokens, first_of,
}
use resolvit.Filtering.Parser.Limits.{warnings_in, parse_list_log}

-- A stand-in for `dns.IsDomainName`.
abbrev some_name : Text → Bool
some_name name = not (is_empty name)

abbrev hosts : File
hosts = record {
  lines =
      codes "# hosts"
      ∷ codes "0.0.0.0 Ads.example.com tracker.example.net # two"
      ∷ codes "*.bad.example"
      ∷ codes "http://x.example/ 10.0.0.1:53"
      ∷ [];
  scan_fails = false;
}

abbrev asked : Text
asked = codes "ADS.example.com."

hosts_blocks :
    (matches (parse_list some_name hosts (pos 1)).0 asked false ≡ true)
    × (matches (parse_list some_name hosts (pos 1)).0 (codes "x.bad.example") false ≡ true)
    × (matches (parse_list some_name hosts (pos 1)).0 (codes "two") false ≡ false)
    × (logged_tokens (parse_list some_name hosts (pos 1)).1
        ≡ first_of 1 (invalid_tokens some_name (list_tokens some_name hosts.lines)))
    × (warnings_in (parse_list some_name hosts (pos 1)).1 ≡ 1)
    × (length (list_tokens some_name hosts.lines) ≡ 5)
unfolding matches parse_list normalize_lookup_name trim_space is_space trim_dot_suffix to_lower
    lookup trim_prefix has_prefix fields parse_ip normalize_domain add_wildcard add_exact insert
    text_eq split join
hosts_blocks = (refl, refl, refl, refl, refl, refl)

parse_list_iff_example : (matches (parse_list some_name hosts (pos 1)).0 asked false ≡ true) ↔ (
    (normalize_lookup_name asked ≢ [])
    × ((e : Entry) × Lists some_name (list_tokens some_name hosts.lines) e
        × Blocks e (normalize_lookup_name asked) false))
parse_list_iff_example = parse_list_iff some_name hosts (pos 1) asked false refl

parse_list_log_example :
    (front : List LogLine) × ((parse_list some_name hosts (pos 1)).1
      ≡ front
        ++ parsed
            (valid_in some_name (list_tokens some_name hosts.lines))
            (invalid_in some_name (list_tokens some_name hosts.lines))
          ∷ [])
    × (logged_tokens front
        ≡ first_of
            (allowed (pos 1) (invalid_in some_name (list_tokens some_name hosts.lines)))
            (invalid_tokens some_name (list_tokens some_name hosts.lines)))
    × (warnings_in front ≡ (
        if hides (pos 1) (invalid_in some_name (list_tokens some_name hosts.lines)) then 1 else 0))
parse_list_log_example = parse_list_log some_name hosts (pos 1) refl

blocked_line :
    log
      (λ qtype. [])
      true
      (codes "2024-01-02T03:04:05Z")
      []
      (record { client = codes "127.0.0.1:53"; qtype = 65; name = codes "ads.org." })
    ≡ codes "2024-01-02T03:04:05Z client=127.0.0.1:53 type=65 name=ads.org.\n"
unfolding log line record_type itoa
blocked_line = refl

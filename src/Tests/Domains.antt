-- ===== src/Tests/Domains.antt =====
-- Sets of domains and the filter's decision.
use resolvit.Prelude.{◌≡◌, ◌≢◌, ◌↔◌, true, some, []}
use resolvit.Go.Text.{codes}
use resolvit.Go.Int.{pos}
use resolvit.Filtering.DomainSet.{
  DomainSet, new_domain_set, add_exact, add_wildcard, matches, normalize_lookup_name,
}
use resolvit.Filtering.DomainSet.Matching.{IsMatched, matches_iff}
use resolvit.Filtering.Filter.{Filter, should_block}
use resolvit.Filtering.Filter.Decision.{IsListed, should_block_iff}

abbrev pub ads : DomainSet
ads = add_wildcard (add_exact new_domain_set (codes "ads.org")) (codes "track.net")

abbrev pub good : DomainSet
good = add_exact new_domain_set (codes "ok.track.net")

abbrev pub filter : Filter
filter = record {
  enabled = true;
  block_subdomains = true;
  allowlist_path = [];
  sources = [];
  cache_dir = [];
  update_interval = pos 0;
  error_limit = pos 0;
  has_blocked_log = true;
  blocklist = some ads;
  allowlist = some good;
}

matches_iff_example : (matches (some ads) (codes "X.Track.net.") true ≡ true) ↔ (
    (normalize_lookup_name (codes "X.Track.net.") ≢ [])
    × IsMatched ads (normalize_lookup_name (codes "X.Track.net.")) true)
matches_iff_example = matches_iff ads (codes "X.Track.net.") true

should_block_iff_example : (should_block (some filter) (codes "ads.org.") ≡ true) ↔ (
    (filter.enabled ≡ true)
    × IsListed (some ads) (codes "ads.org.") true
    × (¬ IsListed (some good) (codes "ads.org.") true))
should_block_iff_example = should_block_iff filter (codes "ads.org.")

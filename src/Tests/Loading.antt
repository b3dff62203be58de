-- ===== src/Tests/Loading.antt =====
-- Loading of lists with a disk that is a map and a web that answers every request.
use mathlib.Core.List.{Memᴰ}
use resolvit.Filtering.Sources.{
  ListConfig, catalog, configured_source, build_sources, configured_sources, custom_sources,
}
use resolvit.Filtering.Sources.Selection.{IsConfigured, IsCustom, build_sources_iff}
use resolvit.Go.Decimal.{itoa}
use resolvit.Prelude.{
  ◌↔◌, ◌⊎◌, List, ◌≡◌, refl, true, false, not, Option, none, some, [], ◌∷◌, ap, ◌∙◌, All,
  if◌then◌else◌, arith,
}
use resolvit.Go.Text.{
  Text, codes, is_empty, to_lower, trim_space, is_space, text_eq, has_prefix, trim_prefix, fields,
  trim_dot_suffix,
}
use resolvit.Go.Text.Equality.{text_eq_refl}
use resolvit.Go.Dict.{Dict, lookup, insert, lookup-insert}
use resolvit.Go.Int.{pos}
use resolvit.Filtering.DomainSet.{DomainSet, matches, add_exact}
use resolvit.Filtering.Parser.{parse_list, normalize_domain}
use resolvit.Go.Scan.{scan}
use resolvit.Go.Ip.{parse_ip}
use resolvit.Filtering.Filter.{Source, AuthConfig, Filter, should_block}
use resolvit.Filtering.Loader.{
  Host, Response, IsDocumented, ok, no_response, load_source, load_sources, ensure_cache_dir,
  cache_file_name, sanitize_id, sanitize_char, is_url, download,
}
use resolvit.Filtering.Loader.Names.{IsSafe, cache_file_name-IsSafe}
use resolvit.Filtering.Loader.Fallback.{reload_from_copy}
use resolvit.Filtering.Loader.Merged.{any_matches, sets_of, matches-load_sources}
use resolvit.Filtering.Refresh.{new_filter, start, decides, start_blocks}

abbrev pub Disk : Type 0
Disk = Dict Text

abbrev page : Text
page = codes "# ads\nads.example.com\n"

abbrev pub host : Host Disk Text
host = record {
  mkdir_all = λ disk dir. (disk, true);
  read_file = λ disk path. lookup path disk;
  write_file = λ disk path content. (insert path content disk, true);
  sha256 = λ s. 0 ∷ 255 ∷ [];
  is_domain_name = λ name. not (is_empty name);
  new_request = λ url. some url;
  set_basic_auth = λ req user password. req;
  set_header = λ req key value. req;
  send = λ req. some (record { status = 200; body = some page });
}

host-IsDocumented : IsDocumented host
host-IsDocumented = record {
  write_read = λ disk path content w.
      lookup-insert path path content disk
      ∙ ap (λ b. if b then some content else lookup path disk) (text_eq_refl path);
  mkdir_read = λ disk dir path. refl;
}

abbrev no_auth : AuthConfig
no_auth = record { username = []; password = []; token = []; header = []; scheme = [] }

abbrev ads : Source
ads = record {
  id = codes "My-Ads/";
  location = codes "https://ads.example/list";
  enabled = true;
  auth = no_auth;
}

abbrev unnamed : Source
unnamed = record { id = codes " "; location = codes "/lists/own"; enabled = true; auth = no_auth }

abbrev ads_set : DomainSet
ads_set = record { exact = (codes "ads.example.com", tt) ∷ []; wildcards = [] }

names_run :
    (cache_file_name host ads ≡ codes "my_ads_.txt")
    × (cache_file_name host unnamed ≡ codes "custom-00ff.txt")
unfolding cache_file_name sanitize_id to_lower trim_space is_space sanitize_char
names_run = (refl, refl)

cache_file_name-IsSafe_example : All IsSafe (cache_file_name host unnamed)
cache_file_name-IsSafe_example = cache_file_name-IsSafe host unnamed (omega arith)

abbrev web_down : Text → Option Response
web_down req = none

reload_from_copy_example :
    let once = load_source host [] ads (codes "/cache") (pos 20) in
    let again =
      load_source (record host { send = web_down }) once.0 ads (codes "/cache") (pos 20) in
    (once.1 ≡ ok ads_set) × (again ≡ once)
unfolding is_url has_prefix download parse_list scan trim_space trim_prefix is_space fields parse_ip
    normalize_domain to_lower trim_dot_suffix add_exact insert
reload_from_copy_example =
    reload_from_copy host web_down ads (codes "/cache") (pos 20) page ads_set no_response []
      host-IsDocumented refl refl refl refl refl refl

matches-load_sources_example :
    let (disk, dir) = ensure_cache_dir host [] (codes "/cache") in
    matches
      (some (load_sources host [] (unnamed ∷ ads ∷ []) (codes "/cache") (pos 20)).1)
      (codes "ads.example.com.")
      false
    ≡ any_matches
        (sets_of host disk (unnamed ∷ ads ∷ []) dir (pos 20))
        (codes "ads.example.com.")
        false
matches-load_sources_example =
    matches-load_sources host [] (unnamed ∷ ads ∷ []) (codes "/cache") (pos 20)
      (codes "ads.example.com.") false

abbrev ads_filter : Filter
ads_filter =
    new_filter (λ path. true)
      (record {
        enabled = true;
        block_subdomains = true;
        allowlist_path = [];
        sources = ads ∷ [];
        cache_dir = codes "/cache";
        update_interval = pos 1;
        blocked_log_path = [];
        error_limit = pos 20;
      })

start_blocks_example :
    should_block (some (start host [] ads_filter (web_down ∷ [])).1) (codes "x.ads.example.com.")
    ≡ decides
        (record host { send = web_down })
        (load_sources host [] (ads ∷ []) (codes "/cache") (pos 20)).0
        ads_filter
        (codes "x.ads.example.com.")
start_blocks_example =
    start_blocks host [] ads_filter (web_down ∷ []) (codes "x.ads.example.com.") refl

abbrev own_url : ListConfig
own_url = record {
  enabled = true;
  url = codes "/lists/mine";
  username = [];
  password = [];
  token = [];
  header = [];
  scheme = [];
}

abbrev by_catalog : ListConfig
by_catalog = record own_url { url = [] }

abbrev switched_off : ListConfig
switched_off = record own_url { enabled = false }

abbrev selected : Dict ListConfig
selected =
    (codes "mine", own_url)
    ∷ (codes "surbl", by_catalog)
    ∷ (codes "off", switched_off)
    ∷ (codes "unknown", by_catalog)
    ∷ []

abbrev custom : List Text
custom = codes " " ∷ codes " /lists/own " ∷ []

build_sources_run :
    build_sources catalog selected custom
    ≡ configured_source (codes "mine") (codes "/lists/mine") own_url
      ∷ configured_source (codes "surbl") (codes "https://www.surbl.org/") by_catalog
      ∷ (record {
        id = codes "custom_2";
        location = codes "/lists/own";
        enabled = true;
        auth = no_auth;
      })
      ∷ []
unfolding build_sources configured_sources custom_sources lookup trim_space is_space itoa text_eq
build_sources_run = refl

build_sources_iff_example :
    Memᴰ
      (configured_source (codes "mine") (codes "/lists/mine") own_url)
      (build_sources catalog selected custom)
    ↔ (IsConfigured catalog
          (configured_source (codes "mine") (codes "/lists/mine") own_url)
          selected
        ⊎ IsCustom catalog (configured_source (codes "mine") (codes "/lists/mine") own_url) custom)
build_sources_iff_example =
    build_sources_iff catalog selected custom
      (configured_source (codes "mine") (codes "/lists/mine") own_url)

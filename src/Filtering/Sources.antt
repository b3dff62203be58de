-- ===== src/Filtering/Sources.antt =====
-- pkg/filtering/catalog.go and sources.go: the built-in lists, and the sources that the configuration
-- selects. A Go map that is ranged over is the list of its entries, in the order of the range.
pub mod Selection
use resolvit.Prelude.{
  ℕ, ◌+◌, ◌≡◌, refl, Bool, true, false, not, Option, none, some, List, [], ◌∷◌, ◌++◌, if◌then◌else◌,
}
use resolvit.Go.Text.{Text, codes, is_empty, trim_space}
use resolvit.Go.Dict.{Dict, lookup}
use resolvit.Go.Decimal.{itoa}
use resolvit.Filtering.Filter.{Source, AuthConfig}

pub record ListDefinition : Type 0 where
  pub id : Text
  pub name : Text
  pub url : Text
  pub category : Text
  pub description : Text
  pub paid : Bool

-- pkg/filtering/types.go
pub record ListConfig : Type 0 where
  pub enabled : Bool
  pub url : Text
  pub username : Text
  pub password : Text
  pub token : Text
  pub header : Text
  pub scheme : Text

abbrev pub catalog : Dict ListDefinition
catalog =
    (
      codes "blocklistproject_malware",
      record {
        id = codes "blocklistproject_malware";
        name = codes "Block List Project - Malware";
        url = codes "https://blocklistproject.github.io/Lists/malware.txt";
        category = codes "malware";
        description = codes "Hosts associated with malware distribution.";
        paid = false;
      },
    )
    ∷ (
      codes "blocklistproject_phishing",
      record {
        id = codes "blocklistproject_phishing";
        name = codes "Block List Project - Phishing";
        url = codes "https://blocklistproject.github.io/Lists/phishing.txt";
        category = codes "phishing";
        description = codes "Hosts associated with phishing campaigns.";
        paid = false;
      },
    )
    ∷ (
      codes "blocklistproject_scam",
      record {
        id = codes "blocklistproject_scam";
        name = codes "Block List Project - Scam";
        url = codes "https://blocklistproject.github.io/Lists/scam.txt";
        category = codes "scam";
        description = codes "Hosts associated with scam activity.";
        paid = false;
      },
    )
    ∷ (
      codes "blocklistproject_porn",
      record {
        id = codes "blocklistproject_porn";
        name = codes "Block List Project - Porn";
        url = codes "https://blocklistproject.github.io/Lists/porn.txt";
        category = codes "porn";
        description = codes "Hosts associated with adult content.";
        paid = false;
      },
    )
    ∷ (
      codes "blocklistproject_ads",
      record {
        id = codes "blocklistproject_ads";
        name = codes "Block List Project - Ads";
        url = codes "https://blocklistproject.github.io/Lists/ads.txt";
        category = codes "ads";
        description = codes "Advertising and tracking hosts.";
        paid = false;
      },
    )
    ∷ (
      codes "stevenblack_adult",
      record {
        id = codes "stevenblack_adult";
        name = codes "StevenBlack - Porn Only";
        url =
            codes
              "https://raw.githubusercontent.com/StevenBlack/hosts/master/alternates/porn-only/hosts";
        category = codes "porn";
        description = codes "Adult content list without ad/tracker blocking.";
        paid = false;
      },
    )
    ∷ (
      codes "oisd_basic",
      record {
        id = codes "oisd_basic";
        name = codes "OISD Basic";
        url = codes "https://big.oisd.nl/";
        category = codes "ads";
        description = codes "Ad and tracker blocking list.";
        paid = false;
      },
    )
    ∷ (
      codes "adguard_dns",
      record {
        id = codes "adguard_dns";
        name = codes "AdGuard DNS Filter";
        url = codes "https://adguardteam.github.io/AdGuardSDNSFilter/Filters/filter.txt";
        category = codes "ads";
        description = codes "Ad and tracker blocking list.";
        paid = false;
      },
    )
    ∷ (
      codes "spamhaus_dbl",
      record {
        id = codes "spamhaus_dbl";
        name = codes "Spamhaus DBL";
        url = codes "https://www.spamhaus.org/blocklists/domain-blocklist/";
        category = codes "malware";
        description = codes "Paid domain blocklist from Spamhaus.";
        paid = true;
      },
    )
    ∷ (
      codes "surbl",
      record {
        id = codes "surbl";
        name = codes "SURBL";
        url = codes "https://www.surbl.org/";
        category = codes "malware";
        description = codes "Paid URL blocklist from SURBL.";
        paid = true;
      },
    )
    ∷ []

abbrev pub url_of : Option ListDefinition → Text
url_of none = []
url_of (some def) = def.url

-- The configured location, or that of the catalog.
abbrev pub location_of : Dict ListDefinition → Text → ListConfig → Text
location_of lists id cfg = if is_empty cfg.url then url_of (lookup id lists) else cfg.url

abbrev pub configured_source : Text → Text → ListConfig → Source
configured_source id location cfg = record {
  id = id;
  location = location;
  enabled = true;
  auth = record {
    username = cfg.username;
    password = cfg.password;
    token = cfg.token;
    header = cfg.header;
    scheme = cfg.scheme;
  };
}

unfoldable pub configured_sources : Dict ListDefinition → Dict ListConfig → List Source
configured_sources lists [] = []
configured_sources lists ((id, cfg) ∷ configs) =
    let location = location_of lists id cfg in
    let rest = configured_sources lists configs in
    if not cfg.enabled
    then rest
    else if is_empty location
    then rest
    else configured_source id location cfg ∷ rest

-- fmt.Sprintf("custom_%d", i+1) is the id.
abbrev pub custom_source : ℕ → Text → Source
custom_source i trimmed = record {
  id = codes "custom_" ++ itoa (i + 1);
  location = trimmed;
  enabled = true;
  auth = record { username = []; password = []; token = []; header = []; scheme = [] };
}

unfoldable pub custom_sources : ℕ → List Text → List Source
custom_sources i [] = []
custom_sources i (entry ∷ entries) =
    let trimmed = trim_space entry in
    let rest = custom_sources (i + 1) entries in
    if is_empty trimmed then rest else custom_source i trimmed ∷ rest

unfoldable pub build_sources : Dict ListDefinition → Dict ListConfig → List Text → List Source
unfolding configured_sources custom_sources
build_sources lists configs custom = configured_sources lists configs ++ custom_sources 0 custom

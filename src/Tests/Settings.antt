-- ===== src/Tests/Settings.antt =====
-- The checks on a configuration at a concrete one.
use resolvit.Prelude.{◌≡◌, ◌↔◌, refl, Bool, true, false, not, [], ◌∷◌, Option, some}
use resolvit.Go.Dict.{Dict, insert}
use resolvit.Filtering.Sources.{ListConfig}
use resolvit.Config.Load.{
  Value, bool_value, text_value, table_value, Library, Others, LoadedConfig, list_failed,
  not_a_table, load_config, parse_list_configs, parse_entries, parse_duration, ignored, config_path,
}
use resolvit.Go.Text.{Text, codes, is_empty, to_lower, text_eq, contains, trim_space, is_space}
use resolvit.Go.Int.{ℤ, pos}
use resolvit.Go.Ip.{parse_ip}
use resolvit.Go.HostPort.{split_host_port}
use resolvit.Config.{
  Config, ok, err, invalid_upstream, invalid_port, validate_config, validate_log_level,
  validate_address, parse_upstream,
}
use resolvit.Config.Usable.{IsUsable, parsed_servers, validate_config_iff}

abbrev pub any_port : Text → Bool
any_port port = not (is_empty port)

abbrev pub no_file : Text → Bool
no_file path = false

abbrev local : Config Unit
local = record {
  listen = codes "127.0.0.1:5300";
  servers = codes "9.9.9.9" ∷ codes "[::1]:54" ∷ [];
  level = codes "Info";
  blocklist_error_limit = pos 20;
  resolve_from = [];
  rest = tt;
}

abbrev local_checked : Config Unit
local_checked = record local { servers = codes "9.9.9.9:53" ∷ codes "[::1]:54" ∷ [] }

checks_run :
    (validate_config any_port no_file local ≡ ok local_checked)
    × (validate_config any_port no_file (record local { servers = codes "::1" ∷ [] })
        ≡ err (invalid_upstream (codes "::1") invalid_port))
unfolding validate_config validate_log_level validate_address parse_upstream to_lower text_eq
    contains parse_ip split_host_port
checks_run = (refl, refl)

validate_config_iff_example : (validate_config any_port no_file local ≡ ok local_checked) ↔ (
    (local_checked ≡ record local { servers = parsed_servers local.servers })
    × IsUsable any_port no_file local_checked)
validate_config_iff_example = validate_config_iff any_port no_file local local_checked

abbrev pub table : ListConfig
table = record {
  enabled = true;
  url = [];
  username = [];
  password = [];
  token = [];
  header = [];
  scheme = [];
}

abbrev pub section : Dict (Value ListConfig)
section =
    (codes "enabled", bool_value true)
    ∷ (codes "Surbl", table_value table)
    ∷ (codes "update_interval", text_value (codes "1h"))
    ∷ []

abbrev broken : Dict (Value ListConfig)
broken = (codes "surbl", text_value (codes "on")) ∷ []

abbrev local_others : Others
local_others = record {
  file = codes "stdout";
  filtering = record {
    enabled = true;
    cache_dir = codes "/cache";
    update_interval = pos 0;
    blocked_log = [];
    block_subdomains = true;
    allowlist = record { path = [] };
    custom = record { list = [] };
    lists = [];
  };
}

-- A viper that remembers its defaults, with a file that holds a section.
abbrev pub viper : Dict (Value ListConfig) → Library (Dict (Value ListConfig)) ListConfig
viper held = record {
  new = [];
  set_config_file = λ v path. v;
  set_config_type = λ v typ. v;
  set_default = λ v key value. insert key value v;
  read_in_config = λ v. some v;
  unmarshal = λ v. some (record {
    listen = local.listen;
    servers = local.servers;
    level = local.level;
    blocklist_error_limit = local.blocklist_error_limit;
    resolve_from = local.resolve_from;
    rest = local_others;
  });
  get_string = λ v key. codes "1h";
  get_string_map = λ v key. held;
  decode = λ cfg. some cfg;
}

abbrev pub hours : Text → Option ℤ
hours s = some (pos 3600000000000)

abbrev pub read_config : Config Others
read_config = record {
  listen = codes "127.0.0.1:5300";
  servers = codes "9.9.9.9:53" ∷ codes "[::1]:54" ∷ [];
  level = codes "Info";
  blocklist_error_limit = pos 20;
  resolve_from = [];
  rest = record local_others {
    filtering = record local_others.filtering {
      lists = (codes "surbl", table) ∷ [];
      update_interval = pos 3600000000000;
    };
  };
}

load_config_runs :
    (load_config any_port no_file hours (viper section) (λ name. []) ≡ LoadedConfig.ok read_config)
    × (load_config any_port no_file hours (viper broken) (λ name. [])
        ≡ LoadedConfig.err (list_failed (not_a_table (codes "surbl"))))
unfolding load_config parse_list_configs parse_entries parse_duration ignored validate_config
    validate_log_level validate_address parse_upstream to_lower text_eq contains parse_ip
    split_host_port insert
load_config_runs = (refl, refl)

config_path_runs :
    (config_path (λ name. codes " /tmp/own.conf ") ≡ codes "/tmp/own.conf")
    × (config_path (λ name. codes " ") ≡ codes "/etc/resolvit/resolvit.conf")
unfolding config_path trim_space is_space
config_path_runs = (refl, refl)

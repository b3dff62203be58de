-- ===== src/Config/Load.antt =====
-- The reading of the configuration in pkg/config/config.go. The libraries viper and mapstructure, the
-- environment and time.ParseDuration are parameters.
pub mod Entries
pub mod Accepted
use resolvit.Prelude.{
  ◌≡◌, refl, Bool, true, false, not, ◌||◌, Option, none, some, List, [], ◌∷◌, ◌++◌, if◌then◌else◌,
  ℕ,
}
use resolvit.Go.Text.{Text, codes, is_empty, text_eq, to_lower, trim_space}
use resolvit.Go.Int.{ℤ, pos}
use resolvit.Go.Dict.{Dict, insert}
use resolvit.Filtering.Sources.{ListConfig}
use resolvit.Config
use resolvit.Config.{Config, ConfigError, Checked, validate_config}

pub record AllowlistConfig : Type 0 where
  pub path : Text

pub record CustomConfig : Type 0 where
  pub list : List Text

pub record FilteringConfig : Type 0 where
  pub enabled : Bool
  pub cache_dir : Text
  pub update_interval : ℤ
  pub blocked_log : Text
  pub block_subdomains : Bool
  pub allowlist : AllowlistConfig
  pub custom : CustomConfig
  pub lists : Dict ListConfig

-- The fields that the checks do not read.
pub record Others : Type 0 where
  pub file : Text
  pub filtering : FilteringConfig

-- A value of type `interface{}`, as far as the program looks at it.
pub data Value (Table : Type 0) : Type 0 where
  text_value : Text → Value Table
  int_value : ℤ → Value Table
  bool_value : Bool → Value Table
  table_value : Table → Value Table
  other_value : Value Table

-- The methods of a viper, and mapstructure.Decode. `none` stands for an error.
pub record Library (Viper Table : Type 0) : Type 0 where
  pub new : Viper
  pub set_config_file : Viper → Text → Viper
  pub set_config_type : Viper → Text → Viper
  pub set_default : Viper → Text → Value Table → Viper
  pub read_in_config : Viper → Option Viper
  pub unmarshal : Viper → Option (Config Others)
  pub get_string : Viper → Text → Text
  pub get_string_map : Viper → Text → Dict (Value Table)
  pub decode : Table → Option ListConfig

pub data ListError : Type 0 where
  not_a_table not_a_list : Text → ListError

pub data ParsedLists : Type 0 where
  ok : Dict ListConfig → ParsedLists
  err : ListError → ParsedLists

pub data LoadError : Type 0 where
  read_failed parse_failed interval_failed : LoadError
  list_failed : ListError → LoadError
  invalid : ConfigError → LoadError

pub data LoadedConfig : Type 0 where
  ok : Config Others → LoadedConfig
  err : LoadError → LoadedConfig

abbrev default_config_path : Text
default_config_path = codes "/etc/resolvit/resolvit.conf"

abbrev config_env_var : Text
config_env_var = codes "RESOLVIT_CONFIG"

-- The settings of a filter that are not lists.
unfoldable pub ignored : Text → Bool
ignored key =
    text_eq key (codes "enabled")
    || text_eq key (codes "cache_dir")
    || text_eq key (codes "update_interval")
    || text_eq key (codes "blocked_log")
    || text_eq key (codes "block_subdomains")
    || text_eq key (codes "allowlist")
    || text_eq key (codes "custom")

-- Where the configuration is read from.
unfoldable pub config_path : (Text → Text) → Text
config_path getenv =
    let from_env = trim_space (getenv config_env_var) in
    if not (is_empty from_env) then from_env else default_config_path

unfoldable pub parse_duration : (Text → Option ℤ) → Text → Option ℤ
parse_duration parse raw = if is_empty raw then some (pos 0) else parse raw

module _ {Viper Table : Type 0} (lib : Library Viper Table) where
  unfoldable pub set_defaults : Viper → Viper
  set_defaults v =
      let v = lib.set_default v (codes "logging.level") (text_value (codes "info")) in
      let v = lib.set_default v (codes "logging.file") (text_value (codes "stdout")) in
      let v = lib.set_default v (codes "logging.blocklist_error_limit") (int_value (pos 20)) in
      let v = lib.set_default v (codes "filtering.enabled") (bool_value false) in
      let v =
        lib.set_default v (codes "filtering.cache_dir")
          (text_value (codes "/var/cache/resolvit")) in
      let v = lib.set_default v (codes "filtering.update_interval") (text_value (codes "24h")) in
      lib.set_default v (codes "filtering.block_subdomains") (bool_value false)

  -- The entries in the order in which Go ranges over the map.
  unfoldable pub parse_entries : Dict (Value Table) → Dict ListConfig → ParsedLists
  parse_entries [] lists = ok lists
  parse_entries ((key, value) ∷ raw) lists = elim (ignored key) [
    | true ↦ parse_entries raw lists
    | false ↦ elim value [
      | text_value t ↦ err (not_a_table key)
      | int_value n ↦ err (not_a_table key)
      | bool_value b ↦ err (not_a_table key)
      | other_value ↦ err (not_a_table key)
      | table_value table ↦ elim (lib.decode table) [
        | none ↦ err (not_a_list key)
        | some cfg ↦ parse_entries raw (insert (to_lower key) cfg lists)
      ]
    ]
  ]

  unfoldable pub parse_list_configs : Viper → ParsedLists
  unfolding parse_entries
  parse_list_configs v = parse_entries (lib.get_string_map v (codes "filtering")) []

  -- The viper that the program makes, before it reads the file.
  abbrev pub new_viper : (Text → Text) → Viper
  new_viper getenv =
      set_defaults
        (lib.set_config_type (lib.set_config_file lib.new (config_path getenv)) (codes "toml"))

-- The configuration with its lists and its interval.
abbrev pub with_lists : Config Others → Dict ListConfig → ℤ → Config Others
with_lists cfg lists update_interval = record cfg {
  rest = record cfg.rest {
    filtering = record cfg.rest.filtering { lists = lists; update_interval = update_interval };
  };
}

pub of_checked : Checked (Config Others) → LoadedConfig
of_checked (Config.ok cfg) = ok cfg
of_checked (Config.err e) = err (invalid e)

module _ (lookup_port stat : Text → Bool) (parse : Text → Option ℤ) where
  pub load_interval : Config Others → Dict ListConfig → Option ℤ → LoadedConfig
  unfolding of_checked
  load_interval cfg lists none = err interval_failed
  load_interval cfg lists (some d) =
      of_checked (validate_config lookup_port stat (with_lists cfg lists d))

  pub load_lists : Config Others → ParsedLists → Text → LoadedConfig
  unfolding load_interval
  load_lists cfg (err e) interval = err (list_failed e)
  load_lists cfg (ok lists) interval = load_interval cfg lists (parse_duration parse interval)

  module _ {Viper Table : Type 0} (lib : Library Viper Table) where
    pub load_decoded : Viper → Option (Config Others) → LoadedConfig
    unfolding load_lists
    load_decoded v none = err parse_failed
    load_decoded v (some cfg) =
        load_lists cfg (parse_list_configs lib v)
          (lib.get_string v (codes "filtering.update_interval"))

    pub load_read : Option Viper → LoadedConfig
    unfolding load_decoded
    load_read none = err read_failed
    load_read (some v) = load_decoded v (lib.unmarshal v)

    unfoldable pub load_config : (Text → Text) → LoadedConfig
    unfolding load_read
    load_config getenv = load_read (lib.read_in_config (new_viper lib getenv))

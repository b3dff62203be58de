-- ===== src/Config/Load/Accepted.antt =====
-- Which configurations the start accepts.
use resolvit.Prelude.{
  ◌≡◌, ◌≢◌, ◌↔◌, ◌⊎◌, inl, inr, refl, sym, ap, ◌∙◌, Bool, false, not, if◌then◌else◌, All, List, [],
  ◌∷◌, Option, none, some,
}
use resolvit.Go.Text.{Text, codes, is_empty, trim_space}
use resolvit.Go.Int.{ℤ, pos}
use resolvit.Go.Dict.{Dict, lookup}
use resolvit.Filtering.Sources.{ListConfig}
use resolvit.Config
use resolvit.Config.{Config, Checked, validate_config, ConfigError}
use resolvit.Config.Usable.{IsUsable, parsed_servers, validate_config_iff}
use resolvit.Config.Load.Entries.{IsEntry, last_listed, parse_list_configs_sound}
use resolvit.Config.Load.{
  Value, text_value, int_value, bool_value, config_path, set_defaults, LoadError, Others, Library,
  ParsedLists, ok, err, LoadedConfig, with_lists, new_viper, parse_list_configs, parse_duration,
  load_config, load_read, load_decoded, load_lists, load_interval, of_checked,
}

-- The path that is read: what the environment names, without the spaces around it, or else the
-- standard one.
abbrev pub IsPath : (Text → Text) → Text → Type 0
IsPath getenv path =
    let named = trim_space (getenv (codes "RESOLVIT_CONFIG")) in
    ((named ≢ []) × (path ≡ named)) ⊎ ((named ≡ []) × (path ≡ codes "/etc/resolvit/resolvit.conf"))

-- What a setting is when the file leaves it out.
abbrev pub defaults : {Table : Type 0} → List (Text × Value Table)
defaults =
    (codes "logging.level", text_value (codes "info"))
    ∷ (codes "logging.file", text_value (codes "stdout"))
    ∷ (codes "logging.blocklist_error_limit", int_value (pos 20))
    ∷ (codes "filtering.enabled", bool_value false)
    ∷ (codes "filtering.cache_dir", text_value (codes "/var/cache/resolvit"))
    ∷ (codes "filtering.update_interval", text_value (codes "24h"))
    ∷ (codes "filtering.block_subdomains", bool_value false)
    ∷ []

abbrev pub with_defaults :
    {Viper Table : Type 0} → Library Viper Table → Viper → List (Text × Value Table) → Viper
with_defaults lib v [] = v
with_defaults lib v ((key, value) ∷ rest) = with_defaults lib (lib.set_default v key value) rest

-- The interval of a text: zero for none, and else what it parses to.
abbrev pub IsInterval : (Text → Option ℤ) → Text → ℤ → Type 0
IsInterval parse raw d = ((raw ≡ []) × (d ≡ pos 0)) ⊎ ((raw ≢ []) × (parse raw ≡ some d))

config_path-IsPath : (getenv : Text → Text) → IsPath getenv (config_path getenv)
unfolding config_path
config_path-IsPath getenv = named_or_standard (trim_space (getenv (codes "RESOLVIT_CONFIG")))
  where
    named_or_standard :
        (named : Text)
        → let path = if not (is_empty named) then named else codes "/etc/resolvit/resolvit.conf" in
          ((named ≢ []) × (path ≡ named))
          ⊎ ((named ≡ []) × (path ≡ codes "/etc/resolvit/resolvit.conf"))
    named_or_standard [] = inr (refl, refl)
    named_or_standard (c ∷ named) = inl ((λ e. cc), refl)

parse_duration_iff :
    (parse : Text → Option ℤ) (raw : Text) (d : ℤ)
    → (parse_duration parse raw ≡ some d) ↔ IsInterval parse raw d
unfolding parse_duration
parse_duration_iff parse [] d = (
  λ h. let same : pos 0 ≡ d = cc in inl (refl, sym same),
  λ h. elim h [ inl (e, z) ↦ ap some (sym z) | inr (full, q) ↦ absurd (full refl) ],
)
parse_duration_iff parse (c ∷ raw) d =
    (λ h. inr ((λ e. cc), h), λ h. elim h [ inl (e, z) ↦ absurd (cc) | inr (full, q) ↦ q ])

module _ {Viper Table : Type 0} (lookup_port stat : Text → Bool) (parse : Text → Option ℤ)
    (lib : Library Viper Table) where
  -- The viper before the file at a path is read.
  abbrev pub prepared : Text → Viper
  prepared path =
      with_defaults lib (lib.set_config_type (lib.set_config_file lib.new path) (codes "toml"))
        defaults

  -- What the file says, with its lists and its interval: `read` is the viper after the file is read,
  -- `cfg` what it decodes to, `lists` what its entries that are no settings parse to, the last of
  -- those whose names differ only in case.
  pub record Read (getenv : Text → Text) : Type 0 where
    pub path : Text
    pub read : Viper
    pub cfg : Config Others
    pub lists : Dict ListConfig
    pub update_interval : ℤ
    pub is_path : IsPath getenv path
    pub was_read : lib.read_in_config (prepared path) ≡ some read
    pub was_decoded : lib.unmarshal read ≡ some cfg
    pub all_entries : All (IsEntry lib) (lib.get_string_map read (codes "filtering"))
    pub listed :
        (id : Text)
        → lookup id lists ≡ last_listed lib id (lib.get_string_map read (codes "filtering"))
    pub has_lists : parse_list_configs lib read ≡ ok lists
    pub has_interval :
        IsInterval parse (lib.get_string read (codes "filtering.update_interval")) update_interval

  refused : {e : LoadError} {cfg : Config Others} → LoadedConfig.err e ≢ ok cfg
  refused h = cc

  from_checked :
      (c : Checked (Config Others)) (cfg : Config Others)
      → of_checked c ≡ ok cfg
      → c ≡ Config.ok cfg
  unfolding of_checked
  from_checked (Config.ok cfg) cfg' h = cc
  from_checked (Config.err e) cfg' h = absurd (refused h)

  from_interval :
      (cfg cfg' : Config Others) (lists : Dict ListConfig) (o : Option ℤ)
      → load_interval lookup_port stat parse cfg lists o ≡ ok cfg'
      → (d : ℤ) × (o ≡ some d)
        × (validate_config lookup_port stat (with_lists cfg lists d) ≡ Config.ok cfg')
  unfolding load_interval
  from_interval cfg cfg' lists none h = absurd (refused h)
  from_interval cfg cfg' lists (some d) h =
      (d, refl, from_checked (validate_config lookup_port stat (with_lists cfg lists d)) cfg' h)

  from_lists :
      (cfg cfg' : Config Others) (p : ParsedLists) (interval : Text)
      → load_lists lookup_port stat parse cfg p interval ≡ ok cfg'
      → (lists : Dict ListConfig) × (p ≡ ok lists)
        × (load_interval lookup_port stat parse cfg lists (parse_duration parse interval) ≡ ok cfg')
  unfolding load_lists
  from_lists cfg cfg' (err e) interval h = absurd (refused h)
  from_lists cfg cfg' (ok lists) interval h = (lists, refl, h)

  from_decoded :
      (v : Viper) (o : Option (Config Others)) (cfg' : Config Others)
      → load_decoded lookup_port stat parse lib v o ≡ ok cfg'
      → (cfg : Config Others) × (o ≡ some cfg)
        × (load_lists lookup_port stat parse cfg
              (parse_list_configs lib v)
              (lib.get_string v (codes "filtering.update_interval"))
            ≡ ok cfg')
  unfolding load_decoded
  from_decoded v none cfg' h = absurd (refused h)
  from_decoded v (some cfg) cfg' h = (cfg, refl, h)

  from_read :
      (o : Option Viper) (cfg' : Config Others)
      → load_read lookup_port stat parse lib o ≡ ok cfg'
      → (v : Viper) × (o ≡ some v)
        × (load_decoded lookup_port stat parse lib v (lib.unmarshal v) ≡ ok cfg')
  unfolding load_read
  from_read none cfg' h = absurd (refused h)
  from_read (some v) cfg' h = (v, refl, h)

  same_path : (getenv : Text → Text) (path : Text) → IsPath getenv path → config_path getenv ≡ path
  same_path getenv path p =
      let q = config_path-IsPath getenv in
      elim p [
        | inl (full, e) ↦ elim q [ inl (f, d) ↦ d ∙ sym e | inr (empty, d) ↦ absurd (full empty) ]
        | inr (empty, e) ↦ elim q [ inl (full, d) ↦ absurd (full empty) | inr (f, d) ↦ d ∙ sym e ]
      ]

  new_viper_lem : (getenv : Text → Text) → new_viper lib getenv ≡ prepared (config_path getenv)
  unfolding set_defaults
  new_viper_lem getenv = refl

  loaded :
      (getenv : Text → Text) (r : Read getenv)
      → load_config lookup_port stat parse lib getenv
        ≡ of_checked (validate_config lookup_port stat (with_lists r.cfg r.lists r.update_interval))
  unfolding load_config load_read load_decoded load_lists load_interval
  loaded getenv r =
      let raw = lib.get_string r.read (codes "filtering.update_interval") in
      ap (λ v. load_read lookup_port stat parse lib (lib.read_in_config v))
        (new_viper_lem getenv ∙ ap prepared (same_path getenv r.path r.is_path))
      ∙ ap (load_read lookup_port stat parse lib) r.was_read
      ∙ ap (load_decoded lookup_port stat parse lib r.read) r.was_decoded
      ∙ ap (λ p. load_lists lookup_port stat parse r.cfg p raw) r.has_lists
      ∙ ap (load_interval lookup_port stat parse r.cfg r.lists)
          ((parse_duration_iff parse raw r.update_interval).1 r.has_interval)

  pub load_config_iff :
      (getenv : Text → Text) (cfg' : Config Others)
      → (load_config lookup_port stat parse lib getenv ≡ ok cfg') ↔ (
          (r : Read getenv) × (cfg' ≡ record r.cfg {
            servers = parsed_servers r.cfg.servers;
            rest = record r.cfg.rest {
              filtering = record r.cfg.rest.filtering {
                lists = r.lists;
                update_interval = r.update_interval;
              };
            };
          })
          × IsUsable lookup_port stat cfg')
  unfolding load_config
  load_config_iff getenv cfg' = (
    λ h.
        let (v, was_read, h) = from_read (lib.read_in_config (new_viper lib getenv)) cfg' h in
        let (cfg, was_decoded, h) = from_decoded v (lib.unmarshal v) cfg' h in
        let interval = lib.get_string v (codes "filtering.update_interval") in
        let (lists, has_lists, h) = from_lists cfg cfg' (parse_list_configs lib v) interval h in
        let (d, has_interval, h) = from_interval cfg cfg' lists (parse_duration parse interval) h in
        let checked = (validate_config_iff lookup_port stat (with_lists cfg lists d) cfg').0 h in
        let (all_entries, listed) = parse_list_configs_sound lib v lists has_lists in
        (
          record {
            path = config_path getenv;
            read = v;
            cfg = cfg;
            lists = lists;
            update_interval = d;
            is_path = config_path-IsPath getenv;
            was_read = ap lib.read_in_config (sym (new_viper_lem getenv)) ∙ was_read;
            was_decoded = was_decoded;
            all_entries = all_entries;
            listed = listed;
            has_lists = has_lists;
            has_interval = (parse_duration_iff parse interval d).0 has_interval;
          },
          checked.0,
          checked.1,
        ),
    λ (r, same, usable).
        loaded getenv r
        ∙ ap of_checked (
            (validate_config_iff lookup_port stat (with_lists r.cfg r.lists r.update_interval)
                cfg').1
              (same, usable)),
  )

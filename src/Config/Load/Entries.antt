-- ===== src/Config/Load/Entries.antt =====
-- Which tables of the configuration become lists.
use resolvit.Prelude.{
  ◌≡◌, ◌≢◌, ◌↔◌, ◌⊎◌, refl, sym, ap, ◌∙◌, inl, inr, true, false, Bool, ◌||◌, Option, none, some,
  List, [], ◌∷◌, if◌then◌else◌, All, Bool-cases, Option-cases, arith,
}
use resolvit.Go.Text.{Text, codes, text_eq, to_lower}
use resolvit.Go.Dict.{Dict, lookup, insert, lookup-insert}
use resolvit.Filtering.Sources.{ListConfig}
use resolvit.Config.Load.{
  Value, text_value, int_value, bool_value, table_value, other_value, Library, ParsedLists, ok, err,
  ignored, parse_entries, parse_list_configs,
}

abbrev is_one_of : Text → List Text → Bool
is_one_of key [] = false
is_one_of key (t ∷ ts) = text_eq key t || is_one_of key ts

-- The settings under `filtering` that are not lists.
abbrev pub is_setting : Text → Bool
is_setting key = is_one_of key (
    codes "enabled"
    ∷ codes "cache_dir"
    ∷ codes "update_interval"
    ∷ codes "blocked_log"
    ∷ codes "block_subdomains"
    ∷ codes "allowlist"
    ∷ codes "custom"
    ∷ [])

ignored_lem : (key : Text) → ignored key ≡ is_setting key
unfolding ignored
ignored_lem key = ground arith

module _ {Viper Table : Type 0} (lib : Library Viper Table) where
  abbrev decoded : Value Table → Option ListConfig
  decoded (table_value table) = lib.decode table
  decoded (text_value t) = none
  decoded (int_value n) = none
  decoded (bool_value b) = none
  decoded other_value = none

  -- A setting of the filter, or a table that decodes to the configuration of a list.
  abbrev pub IsEntry : Text × Value Table → Type 0
  IsEntry (key, value) = (is_setting key ≡ true) ⊎ ((cfg : ListConfig) × (decoded value ≡ some cfg))

  abbrev or_else : Option ListConfig → Option ListConfig → Option ListConfig
  or_else (some cfg) other = some cfg
  or_else none other = other

  abbrev listed_by : Text → Text → Value Table → Option ListConfig
  listed_by id key value =
      if is_setting key then none else if text_eq (to_lower key) id then decoded value else none

  -- The list that the last entry under a name gives.
  abbrev pub last_listed : Text → Dict (Value Table) → Option ListConfig
  last_listed id [] = none
  last_listed id ((key, value) ∷ raw) = or_else (last_listed id raw) (listed_by id key value)

  or_else_assoc : (a b c : Option ListConfig) → or_else (or_else a b) c ≡ or_else a (or_else b c)
  or_else_assoc none b c = refl
  or_else_assoc (some x) b c = refl

  or_else-none : (a : Option ListConfig) → or_else a none ≡ a
  or_else-none none = refl
  or_else-none (some x) = refl

  put_listed :
      (id key : Text) (value : Value Table) (cfg : ListConfig) (lists : Dict ListConfig)
      → is_setting key ≡ false
      → decoded value ≡ some cfg
      → lookup id (insert (to_lower key) cfg lists)
        ≡ or_else (listed_by id key value) (lookup id lists)
  put_listed id key value cfg lists kept e =
      lookup-insert (to_lower key) id cfg lists ∙ ground (arith, kept, e)

  parse_step :
      (key : Text) (value : Value Table) (raw : Dict (Value Table)) (lists : Dict ListConfig)
      → is_setting key ≡ false
      → (cfg : ListConfig) → decoded value ≡ some cfg
      → parse_entries lib ((key, value) ∷ raw) lists
        ≡ parse_entries lib raw (insert (to_lower key) cfg lists)
  unfolding parse_entries
  parse_step key (table_value table) raw lists kept cfg e =
      rw (ignored_lem key ∙ kept, e, parse_entries) refl
  parse_step key (text_value t) raw lists kept cfg e = absurd (cc e)
  parse_step key (int_value n) raw lists kept cfg e = absurd (cc e)
  parse_step key (bool_value b) raw lists kept cfg e = absurd (cc e)
  parse_step key other_value raw lists kept cfg e = absurd (cc e)

  parse_skip :
      (key : Text) (value : Value Table) (raw : Dict (Value Table)) (lists : Dict ListConfig)
      → is_setting key ≡ true
      → parse_entries lib ((key, value) ∷ raw) lists ≡ parse_entries lib raw lists
  unfolding parse_entries
  parse_skip key value raw lists skip = rw (ignored_lem key ∙ skip, parse_entries) refl

  lists_of : ParsedLists → Option (Dict ListConfig)
  lists_of (ok m) = some m
  lists_of (err e) = none

  parse_stop :
      (key : Text) (value : Value Table) (raw : Dict (Value Table)) (lists : Dict ListConfig)
      → is_setting key ≡ false
      → decoded value ≡ none
      → lists_of (parse_entries lib ((key, value) ∷ raw) lists) ≡ none
  unfolding parse_entries lists_of
  parse_stop key (table_value table) raw lists kept e =
      rw (ignored_lem key ∙ kept, e, parse_entries) refl
  parse_stop key (text_value t) raw lists kept e = rw (ignored_lem key ∙ kept, parse_entries) refl
  parse_stop key (int_value n) raw lists kept e = rw (ignored_lem key ∙ kept, parse_entries) refl
  parse_stop key (bool_value b) raw lists kept e = rw (ignored_lem key ∙ kept, parse_entries) refl
  parse_stop key other_value raw lists kept e = rw (ignored_lem key ∙ kept, parse_entries) refl

  stopped : {p : ParsedLists} {m : Dict ListConfig} → lists_of p ≡ none → p ≢ ok m
  unfolding lists_of
  stopped e h = cc (e, ap lists_of h)

  -- The entries are accepted, and every name gets the list of the last entry under it.
  abbrev IsParsed : Dict (Value Table) → Dict ListConfig → Type 0
  IsParsed raw lists =
      (m : Dict ListConfig) × (parse_entries lib raw lists ≡ ok m)
      × ((id : Text) → lookup id m ≡ or_else (last_listed id raw) (lookup id lists))

  parse_entries_complete :
      (raw : Dict (Value Table)) (lists : Dict ListConfig) → All IsEntry raw → IsParsed raw lists
  unfolding parse_entries
  parse_entries_complete [] lists all = (lists, refl, λ id. refl)
  parse_entries_complete ((key, value) ∷ raw) lists (entry, all) =
      elim (Bool-cases (is_setting key)) [
        | inl skip ↦
            let (m, e, same) = parse_entries_complete raw lists all in
            (
              m,
              parse_skip key value raw lists skip ∙ e,
              λ id.
                  same id
                  ∙ rw skip (
                      ap (λ a. or_else a (lookup id lists))
                        (sym (or_else-none (last_listed id raw)))),
            )
        | inr kept ↦ elim entry [
          | inl skip ↦ absurd (cc (skip, kept))
          | inr (cfg, d) ↦
              let (m, e, same) = parse_entries_complete raw (insert (to_lower key) cfg lists) all in
              (
                m,
                parse_step key value raw lists kept cfg d ∙ e,
                λ id.
                    same id
                    ∙ ap (or_else (last_listed id raw)) (put_listed id key value cfg lists kept d)
                    ∙ sym (
                        or_else_assoc (last_listed id raw) (listed_by id key value)
                          (lookup id lists)),
              )
        ]
      ]

  parse_entries_sound :
      (raw : Dict (Value Table)) (lists m : Dict ListConfig)
      → parse_entries lib raw lists ≡ ok m
      → All IsEntry raw
  parse_entries_sound [] lists m h = tt
  parse_entries_sound ((key, value) ∷ raw) lists m h = elim (Bool-cases (is_setting key)) [
    | inl skip ↦
        (inl skip, parse_entries_sound raw lists m (sym (parse_skip key value raw lists skip) ∙ h))
    | inr kept ↦ elim (Option-cases (decoded value)) [
      | inl none_ ↦ absurd (stopped (parse_stop key value raw lists kept none_) h)
      | inr (cfg, d) ↦ (
        inr (cfg, d),
        parse_entries_sound raw (insert (to_lower key) cfg lists) m
            (sym (parse_step key value raw lists kept cfg d) ∙ h),
      )
    ]
  ]

  -- The lists are accepted exactly if every entry of the section is a setting of the filter or a
  -- table that decodes; a name then has the list of the last entry whose key lowers to it.
  pub parse_list_configs_iff :
      (v : Viper)
      → ((m : Dict ListConfig) × (parse_list_configs lib v ≡ ok m)
          × ((id : Text) → lookup id m ≡ last_listed id (lib.get_string_map v (codes "filtering"))))
        ↔ All IsEntry (lib.get_string_map v (codes "filtering"))
  unfolding parse_list_configs lookup
  parse_list_configs_iff v =
      let raw = lib.get_string_map v (codes "filtering") in
      (
        λ (m, e, same). parse_entries_sound raw [] m e,
        λ all.
            let (m, e, same) = parse_entries_complete raw [] all in
            (m, e, λ id. same id ∙ or_else-none (last_listed id raw)),
      )

  pub parse_list_configs_sound :
      (v : Viper) (lists : Dict ListConfig)
      → parse_list_configs lib v ≡ ok lists
      → let raw = lib.get_string_map v (codes "filtering") in
        All IsEntry raw × ((id : Text) → lookup id lists ≡ last_listed id raw)
  unfolding parse_list_configs lookup
  parse_list_configs_sound v lists h =
      let raw = lib.get_string_map v (codes "filtering") in
      let all = parse_entries_sound raw [] lists h in
      let (m, e, same) = parse_entries_complete raw [] all in
      let eq : m ≡ lists = cc in
      (all, λ id. ap (lookup id) (sym eq) ∙ same id ∙ or_else-none (last_listed id raw))

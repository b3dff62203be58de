-- ===== src/Filtering/Sources/Selection.antt =====
-- Which sources a configuration selects.
use mathlib.Core.List.{Memᴰ}
use mathlib.Core.List.Memᴰ
use resolvit.Prelude.{
  ℕ, zero, suc, ◌+◌, ◌≡◌, ◌≢◌, ◌↔◌, ◌⊎◌, ◌++◌, Option-cases, refl, sym, ap, ◌∙◌, inl, inr, true,
  false, some, List, [], ◌∷◌, arith, get_elem?, Bool-cases,
}
use resolvit.Go.Text.{Text, codes, is_empty, trim_space}
use resolvit.Go.Decimal.{itoa}
use resolvit.Go.Dict.{Dict, lookup}
use resolvit.Filtering.Filter.{Source}
use resolvit.Filtering.Sources.{
  ListDefinition, ListConfig, location_of, configured_source, configured_sources, custom_source,
  custom_sources, build_sources,
}

is_empty-ne : (s : Text) → is_empty s ≡ false → s ≢ []
is_empty-ne s h e = cc (ap is_empty e)

is_empty_of_ne : (s : Text) → s ≢ [] → is_empty s ≡ false
is_empty_of_ne [] n = absurd (n refl)
is_empty_of_ne (c ∷ s) n = refl

is_empty-nil : (s : Text) → is_empty s ≡ true → s ≡ []
is_empty-nil [] h = refl
is_empty-nil (c ∷ s) h = cc

module _ (lists : Dict ListDefinition) (s : Source) where
  -- An entry that the first loop takes.
  abbrev IsTaken : Dict ListConfig → Type 0
  IsTaken configs =
      (id : Text) × (cfg : ListConfig) × Memᴰ (id, cfg) configs
      × (cfg.enabled ≡ true)
      × (location_of lists id cfg ≢ [])
      × (s ≡ configured_source id (location_of lists id cfg) cfg)

  -- An entry that the second loop takes.
  abbrev IsNumbered : ℕ → List Text → Type 0
  IsNumbered first custom =
      (i : ℕ) × (entry : Text) × (get_elem? custom i ≡ some entry)
      × (trim_space entry ≢ [])
      × (s ≡ custom_source (first + i) (trim_space entry))

  IsTaken-cons :
      (id : Text) (cfg : ListConfig) (configs : Dict ListConfig)
      → IsTaken configs
      → IsTaken ((id, cfg) ∷ configs)
  IsTaken-cons id cfg configs (id', cfg', m, on, full, e) = (id', cfg', Memᴰ.tail m, on, full, e)

  selected_sound :
      (configs : Dict ListConfig) → Memᴰ s (configured_sources lists configs) → IsTaken configs
  unfolding configured_sources
  selected_sound [] m = absurd (Memᴰ.not-nil m)
  selected_sound ((id, cfg) ∷ configs) m = elim (Bool-cases cfg.enabled) [
    | inr off ↦
        IsTaken-cons id cfg configs (selected_sound configs (rw (off, configured_sources) at m))
    | inl on ↦ elim (Bool-cases (is_empty (location_of lists id cfg))) [
      | inl empty ↦
          IsTaken-cons id cfg configs
            (selected_sound configs (rw (on, empty, configured_sources) at m))
      | inr full ↦ elim (Memᴰ.cases_cons (rw (on, full, configured_sources) at m)) [
        | inl e ↦ (id, cfg, Memᴰ.head refl, on, is_empty-ne (location_of lists id cfg) full, e)
        | inr rest ↦ IsTaken-cons id cfg configs (selected_sound configs rest)
      ]
    ]
  ]

  selected_complete :
      (configs : Dict ListConfig) → IsTaken configs → Memᴰ s (configured_sources lists configs)
  unfolding configured_sources
  selected_complete [] (id, cfg, m, on, full, e) = absurd (Memᴰ.not-nil m)
  selected_complete ((id, cfg) ∷ configs) (id', cfg', m, on, full, e) = elim (Memᴰ.cases_cons m) [
    | inl same ↦
        let same_id : id' ≡ id = ap (λ x. x.0) same in
        let same_cfg : cfg' ≡ cfg = ap (λ x. x.1) same in
        let on' : cfg.enabled ≡ true = ap (λ (c : ListConfig). c.enabled) (sym same_cfg) ∙ on in
        let here : s ≡ configured_source id (location_of lists id cfg) cfg =
          e ∙ ap (λ x. configured_source x.0 (location_of lists x.0 x.1) x.1) same in
        let full' : is_empty (location_of lists id cfg) ≡ false =
          is_empty_of_ne (location_of lists id cfg)
            (λ z. full (ap (λ x. location_of lists x.0 x.1) same ∙ z)) in
        rw (on', full', configured_sources) (Memᴰ.head here)
    | inr later ↦
        let rest = selected_complete configs (id', cfg', later, on, full, e) in
        elim (Bool-cases cfg.enabled) [
          | inr off ↦ rw (off, configured_sources) rest
          | inl on' ↦ elim (Bool-cases (is_empty (location_of lists id cfg))) [
            | inl empty ↦ rw (on', empty, configured_sources) rest
            | inr full' ↦ rw (on', full', configured_sources) (Memᴰ.tail rest)
          ]
        ]
  ]

  trimmed_sound :
      (first : ℕ) (custom : List Text)
      → Memᴰ s (custom_sources first custom)
      → IsNumbered first custom
  unfolding custom_sources
  trimmed_sound first [] m = absurd (Memᴰ.not-nil m)
  trimmed_sound first (entry ∷ entries) m = elim (Bool-cases (is_empty (trim_space entry))) [
    | inl blank ↦ later (trimmed_sound (first + 1) entries (rw (blank, custom_sources) at m))
    | inr full ↦ elim (Memᴰ.cases_cons (rw (full, custom_sources) at m)) [
      | inl e ↦ (
        zero,
        entry,
        refl,
        is_empty-ne (trim_space entry) full,
        e ∙ ap (λ i. custom_source i (trim_space entry)) (omega arith),
      )
      | inr rest ↦ later (trimmed_sound (first + 1) entries rest)
    ]
  ]
    where
      later : IsNumbered (first + 1) entries → IsNumbered first (entry ∷ entries)
      later (i, entry', at, full, e) =
          (suc i, entry', at, full, e ∙ ap (λ j. custom_source j (trim_space entry')) (omega arith))

  trimmed_complete :
      (first : ℕ) (custom : List Text)
      → IsNumbered first custom
      → Memᴰ s (custom_sources first custom)
  unfolding custom_sources
  trimmed_complete first [] (i, entry, at, full, e) = absurd (cc)
  trimmed_complete first (entry ∷ entries) (zero, entry', at, full, e) =
      let same : entry ≡ entry' = cc in
      let full' : is_empty (trim_space entry) ≡ false =
        is_empty_of_ne (trim_space entry) (λ z. full (ap trim_space (sym same) ∙ z)) in
      rw (full', custom_sources)
        (Memᴰ.head (
          e
          ∙ ap (λ i. custom_source i (trim_space entry')) (omega arith)
          ∙ ap (λ t. custom_source first (trim_space t)) (sym same)))
  trimmed_complete first (entry ∷ entries) (suc i, entry', at, full, e) =
      let rest =
        trimmed_complete (first + 1) entries
          (i, entry', at, full, e ∙ ap (λ j. custom_source j (trim_space entry')) (omega arith)) in
      elim (Bool-cases (is_empty (trim_space entry))) [
        | inl blank ↦ rw (blank, custom_sources) rest
        | inr some_ ↦ rw (some_, custom_sources) (Memᴰ.tail rest)
      ]

  -- The location of an entry of the configuration: the one that the entry gives, or, if it gives none,
  -- that of the list in the catalog.
  abbrev pub IsLocated : Text → ListConfig → Text → Type 0
  IsLocated id cfg location =
      ((cfg.url ≢ []) × (location ≡ cfg.url))
      ⊎ ((cfg.url ≡ [])
          × (known : ListDefinition) × (lookup id lists ≡ some known)
          × (location ≡ known.url))

  -- The source is that of an enabled entry of the configuration, which has a location.
  abbrev pub IsConfigured : Dict ListConfig → Type 0
  IsConfigured configs =
      (id : Text) × (cfg : ListConfig) × (location : Text) × Memᴰ (id, cfg) configs
      × (cfg.enabled ≡ true)
      × IsLocated id cfg location
      × (location ≢ [])
      × (s ≡ record {
        id = id;
        location = location;
        enabled = true;
        auth = record {
          username = cfg.username;
          password = cfg.password;
          token = cfg.token;
          header = cfg.header;
          scheme = cfg.scheme;
        };
      })

  -- The source is that of an entry of the custom list that is not blank.
  abbrev pub IsCustom : List Text → Type 0
  IsCustom custom =
      (i : ℕ) × (entry : Text) × (get_elem? custom i ≡ some entry)
      × (trim_space entry ≢ [])
      × (s ≡ record {
        id = codes "custom_" ++ itoa (i + 1);
        location = trim_space entry;
        enabled = true;
        auth = record { username = []; password = []; token = []; header = []; scheme = [] };
      })

  IsLocated-location_of :
      (id : Text) (cfg : ListConfig)
      → location_of lists id cfg ≢ []
      → IsLocated id cfg (location_of lists id cfg)
  IsLocated-location_of id cfg full = elim (Bool-cases (is_empty cfg.url)) [
    | inr own ↦ inl (is_empty-ne cfg.url own, ground arith)
    | inl bare ↦ elim (Option-cases (lookup id lists)) [
      | inl missing ↦ absurd (full (rw (bare, missing) refl))
      | inr (known, hit) ↦ inr (is_empty-nil cfg.url bare, known, hit, rw (bare, hit) refl)
    ]
  ]

  location_of_lem :
      (id : Text) (cfg : ListConfig) (location : Text)
      → IsLocated id cfg location
      → location ≡ location_of lists id cfg
  location_of_lem id cfg location (inl (own, e)) = rw (is_empty_of_ne cfg.url own) e
  location_of_lem id cfg location (inr (bare, known, hit, e)) = rw (bare, hit) e

  selected_iff : (configs : Dict ListConfig) → IsTaken configs ↔ IsConfigured configs
  selected_iff configs = (
    λ (id, cfg, m, on, full, e).
        (id, cfg, location_of lists id cfg, m, on, IsLocated-location_of id cfg full, full, e),
    λ (id, cfg, location, m, on, located, full, e).
        let same = location_of_lem id cfg location located in
        (id, cfg, m, on, λ z. full (same ∙ z), e ∙ ap (λ l. configured_source id l cfg) same),
  )

  trimmed_iff : (custom : List Text) → IsNumbered 0 custom ↔ IsCustom custom
  trimmed_iff custom = (
    λ (i, entry, at, full, e).
        (i, entry, at, full, e ∙ ap (λ n. custom_source n (trim_space entry)) (omega arith)),
    λ (i, entry, at, full, e).
        (i, entry, at, full, e ∙ ap (λ n. custom_source n (trim_space entry)) (omega arith)),
  )

-- A source is built exactly if it comes from an enabled entry of the configuration or from an entry
-- of the custom list that is not blank. The former has the entry's id and credentials and the
-- location that the entry gives, or, if it gives none, that of the catalog, which must not be empty;
-- the latter has the trimmed entry as its location, an id that counts its position from one, and no
-- credentials.
pub build_sources_iff :
    (lists : Dict ListDefinition) (configs : Dict ListConfig) (custom : List Text) (s : Source)
    → Memᴰ s (build_sources lists configs custom)
      ↔ (IsConfigured lists s configs ⊎ IsCustom lists s custom)
unfolding build_sources
build_sources_iff lists configs custom s =
    let selected = selected_iff lists s configs in
    let trimmed = trimmed_iff lists s custom in
    (
      λ m. elim (Memᴰ.append_cases (configured_sources lists configs) m) [
        | inl c ↦ inl (selected.0 (selected_sound lists s configs c))
        | inr c ↦ inr (trimmed.0 (trimmed_sound lists s 0 custom c))
      ],
      λ h. elim h [
        | inl c ↦
            Memᴰ.append_left (custom_sources 0 custom)
              (selected_complete lists s configs (selected.1 c))
        | inr c ↦
            Memᴰ.append_right (configured_sources lists configs)
              (trimmed_complete lists s 0 custom (trimmed.1 c))
      ],
    )

-- ===== src/Config/Checks.antt =====
-- What the checks of pkg/config/config.go test, test by test.
use resolvit.Prelude.{
  ◌≡◌, ◌≢◌, ◌↔◌, ◌⊎◌, inl, inr, refl, sym, ap, ◌∙◌, subst, Bool, false, not, ◌&&◌, none, List, [],
  ◌∷◌, Bool-cases, Option-cases, All,
}
use resolvit.Go.Text.{Text, is_empty}
use resolvit.Go.Int.{is_negative}
use resolvit.Config.{
  Config, ConfigError, Checked, ok, err, validate_log_level, validate_address, parse_upstream,
  parse_upstreams, finish_config, check_servers, check_listen, validate_config,
}

abbrev pub parsed_upstreams : List Text → List Text
parsed_upstreams [] = []
parsed_upstreams (s ∷ ss) = parse_upstream s ∷ parsed_upstreams ss

Checked-cases :
    {A : Type 0} (c : Checked A) → ((a : A) × (c ≡ ok a)) ⊎ ((e : ConfigError) × (c ≡ err e))
Checked-cases (ok a) = inl (a, refl)
Checked-cases (err e) = inr (e, refl)

module _ (lookup_port : Text → Bool) where
  abbrev pub IsValid : Text → Type 0
  IsValid addr = validate_address lookup_port addr ≡ none

  -- Each test is passed.
  pub record Passes {Rest : Type 0} (stat : Text → Bool) (cfg : Config Rest) : Type 0 where
    pub known_level : validate_log_level cfg.level ≡ none
    pub has_listen : is_empty cfg.listen ≡ false
    pub listens : IsValid cfg.listen
    pub some_server : cfg.servers ≢ []
    pub servers : All IsValid cfg.servers
    pub has_limit : is_negative cfg.blocklist_error_limit ≡ false
    pub has_records : (not (is_empty cfg.resolve_from) && not (stat cfg.resolve_from)) ≡ false

  parse_upstreams_sound :
      (addrs parsed : List Text)
      → parse_upstreams lookup_port addrs ≡ ok parsed
      → (parsed ≡ parsed_upstreams addrs) × All IsValid (parsed_upstreams addrs)
  unfolding parse_upstreams
  parse_upstreams_sound [] parsed h = (cc, tt)
  parse_upstreams_sound (addr ∷ addrs) parsed h =
      elim (Option-cases (validate_address lookup_port (parse_upstream addr))) [
        | inr (e, q) ↦ let h' = rw (q, parse_upstreams) at h in cc
        | inl q ↦ elim (Checked-cases (parse_upstreams lookup_port addrs)) [
          | inr (e, r) ↦ let h' = rw (q, r, parse_upstreams) at h in cc
          | inl (rest, r) ↦
              let h' = rw (q, r, parse_upstreams) at h in
              let (same, all) = parse_upstreams_sound addrs rest r in
              let eq : parse_upstream addr ∷ rest ≡ parsed = cc in
              (sym eq ∙ ap (◌∷◌ (parse_upstream addr)) same, (q, all))
        ]
      ]

  parse_upstreams_complete :
      (addrs : List Text)
      → All IsValid (parsed_upstreams addrs)
      → parse_upstreams lookup_port addrs ≡ ok (parsed_upstreams addrs)
  unfolding parse_upstreams
  parse_upstreams_complete [] h = refl
  parse_upstreams_complete (addr ∷ addrs) h =
      rw (h.0, parse_upstreams, parse_upstreams_complete addrs h.1) refl

  module _ {Rest : Type 0} (stat : Text → Bool) (cfg : Config Rest) where
    finish_config_sound :
        (parsed : List Text) (cfg' : Config Rest)
        → finish_config lookup_port stat cfg parsed ≡ ok cfg'
        → (cfg' ≡ record cfg { servers = parsed })
          × (is_negative cfg.blocklist_error_limit ≡ false)
          × ((not (is_empty cfg.resolve_from) && not (stat cfg.resolve_from)) ≡ false)
    unfolding finish_config
    finish_config_sound parsed cfg' h = elim (Bool-cases (is_negative cfg.blocklist_error_limit)) [
      | inl n ↦ let h' = rw (n, finish_config) at h in cc
      | inr n ↦ elim (Bool-cases (not (is_empty cfg.resolve_from) && not (stat cfg.resolve_from))) [
        | inl m ↦ let h' = rw (n, m, finish_config) at h in cc
        | inr m ↦
            let h' : ok (record cfg { servers = parsed }) ≡ ok cfg' =
              rw (n, m, finish_config) at h in
            (cc, n, m)
      ]
    ]

    check_servers_sound :
        (addrs : List Text) (cfg' : Config Rest)
        → check_servers lookup_port stat cfg addrs ≡ ok cfg'
        → (addrs ≢ [])
          × All IsValid (parsed_upstreams addrs)
          × (cfg' ≡ record cfg { servers = parsed_upstreams addrs })
          × (is_negative cfg.blocklist_error_limit ≡ false)
          × ((not (is_empty cfg.resolve_from) && not (stat cfg.resolve_from)) ≡ false)
    unfolding check_servers
    check_servers_sound [] cfg' h = absurd (cc)
    check_servers_sound (addr ∷ addrs) cfg' h =
        elim (Checked-cases (parse_upstreams lookup_port (addr ∷ addrs))) [
          | inr (e, q) ↦ let h' = rw (q, check_servers) at h in absurd (cc)
          | inl (parsed, q) ↦
              let h' = rw (q, check_servers) at h in
              let (same, all) = parse_upstreams_sound (addr ∷ addrs) parsed q in
              let (e, n, m) = finish_config_sound parsed cfg' h' in
              ((λ z. cc), all, e ∙ ap (λ l. record cfg { servers = l }) same, n, m)
        ]

    check_servers_complete :
        (addrs : List Text)
        → parsed_upstreams addrs ≢ []
        → All IsValid (parsed_upstreams addrs)
        → is_negative cfg.blocklist_error_limit ≡ false
        → (not (is_empty cfg.resolve_from) && not (stat cfg.resolve_from)) ≡ false
        → check_servers lookup_port stat cfg addrs
          ≡ ok (record cfg { servers = parsed_upstreams addrs })
    unfolding check_servers finish_config
    check_servers_complete [] ne all n m = absurd (ne refl)
    check_servers_complete (addr ∷ addrs) ne all n m =
        rw (parse_upstreams_complete (addr ∷ addrs) all, check_servers, n, m, finish_config) refl

  parsed_upstreams-nil : (addrs : List Text) → addrs ≢ [] → parsed_upstreams addrs ≢ []
  parsed_upstreams-nil [] ne = λ q. ne refl
  parsed_upstreams-nil (addr ∷ addrs) ne = λ q. cc

  -- The checks accept a configuration exactly if it passes all tests with the servers parsed.
  pub validate_config-Passes :
      {Rest : Type 0} (stat : Text → Bool) (cfg cfg' : Config Rest)
      → (validate_config lookup_port stat cfg ≡ ok cfg')
        ↔ ((cfg' ≡ record cfg { servers = parsed_upstreams cfg.servers }) × Passes stat cfg')
  unfolding validate_config check_listen
  validate_config-Passes {Rest} stat cfg cfg' = (accepted, usable)
    where
      accepted :
          validate_config lookup_port stat cfg ≡ ok cfg'
          → (cfg' ≡ record cfg { servers = parsed_upstreams cfg.servers }) × Passes stat cfg'
      accepted h = elim (Option-cases (validate_log_level cfg.level)) [
        | inr (e, q) ↦ let h' = rw (q, validate_config) at h in absurd (cc)
        | inl known ↦ elim (Bool-cases (is_empty cfg.listen)) [
          | inl q ↦ let h' = rw (known, q, validate_config, check_listen) at h in absurd (cc)
          | inr has ↦ elim (Option-cases (validate_address lookup_port cfg.listen)) [
            | inr (e, q) ↦
                let h' = rw (known, has, q, validate_config, check_listen) at h in absurd (cc)
            | inl listens ↦
                let h' = rw (known, has, listens, validate_config, check_listen) at h in
                let (ne, all, same, n, m) = check_servers_sound stat cfg cfg.servers cfg' h' in
                (
                  same,
                  subst (Passes stat) (sym same) (record {
                    known_level = known;
                    has_listen = has;
                    listens = listens;
                    some_server = parsed_upstreams-nil cfg.servers ne;
                    servers = all;
                    has_limit = n;
                    has_records = m;
                  }),
                )
          ]
        ]
      ]

      usable :
          (cfg' ≡ record cfg { servers = parsed_upstreams cfg.servers }) × Passes stat cfg'
          → validate_config lookup_port stat cfg ≡ ok cfg'
      usable (same, u) =
          let v = subst (Passes stat) same u in
          rw (v.known_level, v.has_listen, v.listens, validate_config, check_listen)
            (check_servers_complete stat cfg cfg.servers v.some_server v.servers v.has_limit
                v.has_records
              ∙ ap ok (sym same))

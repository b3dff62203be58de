-- ===== src/Config/Usable.antt =====
-- Which configurations the checks of pkg/config/config.go accept.
use resolvit.Prelude.{
  ◌≡◌, ◌≢◌, ◌↔◌, ◌⊎◌, inl, inr, refl, sym, ap, ◌∙◌, subst, Bool, true, false, not, ◌&&◌, none, some,
  List, [], ◌∷◌, ◌++◌, Bool-cases, Option-cases, All, is_some, if◌then◌else◌, arith,
}
use resolvit.Go.Text.{Text, codes, is_empty, contains, text_eq, to_lower}
use resolvit.Go.Text.Equality.{text_eq_sound, text_eq_refl}
use resolvit.Go.Int.{is_negative}
use resolvit.Go.Ip.{parse_ip}
use resolvit.Go.HostPort.{split_host_port}
use resolvit.Config.{
  Config, ok, validate_log_level, validate_address, check_parts, parse_upstream, validate_config,
}
use resolvit.Config.Checks.{IsValid, Passes, parsed_upstreams, validate_config-Passes}

-- Each server without a colon with the port 53.
abbrev pub parsed_servers : List Text → List Text
parsed_servers [] = []
parsed_servers (s ∷ ss) =
    (if contains s (codes ":") then s else s ++ codes ":53") ∷ parsed_servers ss

-- A level of the logger, in letters of either case.
abbrev pub IsLevel : Text → Type 0
IsLevel level =
    (to_lower level ≡ codes "debug")
    ⊎ (to_lower level ≡ codes "info")
    ⊎ (to_lower level ≡ codes "warn")
    ⊎ (to_lower level ≡ codes "error")

is_empty-ne : (s : Text) → is_empty s ≡ false → s ≢ []
is_empty-ne s h e = cc (ap is_empty e)

is_empty_of_ne : (s : Text) → s ≢ [] → is_empty s ≡ false
is_empty_of_ne [] n = absurd (n refl)
is_empty_of_ne (c ∷ s) n = refl

is_empty-nil : (s : Text) → is_empty s ≡ true → s ≡ []
is_empty-nil [] h = refl
is_empty-nil (c ∷ s) h = cc

text_eq_of : (s t : Text) → s ≡ t → text_eq s t ≡ true
text_eq_of s t e = subst (λ x. text_eq s x ≡ true) e (text_eq_refl s)

validate_log_level_iff : (level : Text) → (validate_log_level level ≡ none) ↔ IsLevel level
unfolding validate_log_level
validate_log_level_iff level =
    let lowered = to_lower level in
    (
      λ h. elim (Bool-cases (text_eq lowered (codes "debug"))) [
        | inl e ↦ inl (text_eq_sound lowered (codes "debug") e)
        | inr a ↦ elim (Bool-cases (text_eq lowered (codes "info"))) [
          | inl e ↦ inr (inl (text_eq_sound lowered (codes "info") e))
          | inr b ↦ elim (Bool-cases (text_eq lowered (codes "warn"))) [
            | inl e ↦ inr (inr (inl (text_eq_sound lowered (codes "warn") e)))
            | inr c ↦ elim (Bool-cases (text_eq lowered (codes "error"))) [
              | inl e ↦ inr (inr (inr (text_eq_sound lowered (codes "error") e)))
              | inr d ↦ absurd (ground arith)
            ]
          ]
        ]
      ],
      λ h. elim h [
        | inl e ↦ let q = text_eq_of lowered (codes "debug") e in ground arith
        | inr (inl e) ↦ let q = text_eq_of lowered (codes "info") e in ground arith
        | inr (inr (inl e)) ↦ let q = text_eq_of lowered (codes "warn") e in ground arith
        | inr (inr (inr e)) ↦ let q = text_eq_of lowered (codes "error") e in ground arith
      ],
    )

parsed_upstreams_lem : (ss : List Text) → parsed_upstreams ss ≡ parsed_servers ss
unfolding parse_upstream
parsed_upstreams_lem [] = refl
parsed_upstreams_lem (s ∷ ss) = ground (arith, parsed_upstreams_lem ss)

records_iff :
    (path : Text) (exists : Bool)
    → ((not (is_empty path) && not exists) ≡ false) ↔ ((path ≡ []) ⊎ (exists ≡ true))
records_iff [] exists = (λ h. inl refl, λ h. refl)
records_iff (c ∷ path) true = (λ h. inr refl, λ h. refl)
records_iff (c ∷ path) false =
    (λ h. absurd (cc), λ h. elim h [ inl e ↦ absurd (cc) | inr e ↦ absurd (cc) ])

module _ (lookup_port : Text → Bool) where
  -- A host and a port, of which the host is an IP address and the port a number or a known name.
  abbrev pub IsHostPort : Text → Type 0
  IsHostPort addr =
      (host : Text) × (port : Text) × (split_host_port addr ≡ some (host, port))
      × (port ≢ [])
      × (is_some (parse_ip host) ≡ true)
      × (lookup_port port ≡ true)

  -- A known level, an address to listen on, at least one upstream server and each an address, a
  -- limit that is not negative, and a file of records that exists if one is named.
  pub record IsUsable {Rest : Type 0} (stat : Text → Bool) (cfg : Config Rest) : Type 0 where
    pub known_level : IsLevel cfg.level
    pub has_listen : cfg.listen ≢ []
    pub listens : IsHostPort cfg.listen
    pub some_server : cfg.servers ≢ []
    pub servers : All IsHostPort cfg.servers
    pub has_limit : is_negative cfg.blocklist_error_limit ≡ false
    pub has_records : (cfg.resolve_from ≡ []) ⊎ (stat cfg.resolve_from ≡ true)

  check_parts_iff :
      (host port : Text)
      → (check_parts lookup_port host port ≡ none)
        ↔ ((is_empty port ≡ false) × (is_some (parse_ip host) ≡ true) × (lookup_port port ≡ true))
  unfolding check_parts
  check_parts_iff host port = (λ h. ground arith, λ h. ground arith)

  validate_address-IsHostPort : (addr : Text) → IsValid lookup_port addr ↔ IsHostPort addr
  unfolding validate_address
  validate_address-IsHostPort addr = elim (Option-cases (split_host_port addr)) [
    | inl missing ↦ (
      λ h. let h' = rw (missing, validate_address) at h in absurd (cc),
      λ (host, port, split, full, ip, known). absurd (cc),
    )
    | inr ((host, port), split) ↦ (
      λ h.
          let (full, ip, known) =
            (check_parts_iff host port).0 (rw (split, validate_address) at h) in
          (host, port, split, is_empty-ne port full, ip, known),
      λ (host', port', split', full, ip, known).
          rw (split', validate_address)
            ((check_parts_iff host' port').1 (is_empty_of_ne port' full, ip, known)),
    )
  ]

  All-IsHostPort : (ss : List Text) → All (IsValid lookup_port) ss ↔ All IsHostPort ss
  All-IsHostPort [] = (λ h. h, λ h. h)
  All-IsHostPort (s ∷ ss) =
      let here = validate_address-IsHostPort s in
      let rest = All-IsHostPort ss in (λ h. (here.0 h.0, rest.0 h.1), λ h. (here.1 h.0, rest.1 h.1))

  Passes-IsUsable :
      {Rest : Type 0} (stat : Text → Bool) (cfg : Config Rest)
      → Passes lookup_port stat cfg ↔ IsUsable stat cfg
  Passes-IsUsable stat cfg = (
    λ p. record {
      known_level = (validate_log_level_iff cfg.level).0 p.known_level;
      has_listen = is_empty-ne cfg.listen p.has_listen;
      listens = (validate_address-IsHostPort cfg.listen).0 p.listens;
      some_server = p.some_server;
      servers = (All-IsHostPort cfg.servers).0 p.servers;
      has_limit = p.has_limit;
      has_records = (records_iff cfg.resolve_from (stat cfg.resolve_from)).0 p.has_records;
    },
    λ u. record {
      known_level = (validate_log_level_iff cfg.level).1 u.known_level;
      has_listen = is_empty_of_ne cfg.listen u.has_listen;
      listens = (validate_address-IsHostPort cfg.listen).1 u.listens;
      some_server = u.some_server;
      servers = (All-IsHostPort cfg.servers).1 u.servers;
      has_limit = u.has_limit;
      has_records = (records_iff cfg.resolve_from (stat cfg.resolve_from)).1 u.has_records;
    },
  )

  -- The checks accept a configuration exactly if, once each upstream server without a colon has got
  -- the port 53, its level is known, the address to listen on and the upstream servers, of which
  -- there is one at least, are each an IP address with a port that is known, the limit is not
  -- negative, and the file of records exists if one is named; that configuration, with nothing else
  -- changed, is what they return.
  pub validate_config_iff :
      {Rest : Type 0} (stat : Text → Bool) (cfg cfg' : Config Rest)
      → (validate_config lookup_port stat cfg ≡ ok cfg')
        ↔ ((cfg' ≡ record cfg { servers = parsed_servers cfg.servers }) × IsUsable stat cfg')
  validate_config_iff stat cfg cfg' =
      let passes = validate_config-Passes lookup_port stat cfg cfg' in
      let usable = Passes-IsUsable stat cfg' in
      let parsed = ap (λ l. record cfg { servers = l }) (parsed_upstreams_lem cfg.servers) in
      (
        λ h. let (same, p) = passes.0 h in (same ∙ parsed, usable.0 p),
        λ (same, u). passes.1 (same ∙ sym parsed, usable.1 u),
      )

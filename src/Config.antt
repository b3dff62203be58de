-- ===== src/Config.antt =====
-- pkg/config/config.go: the checks on a configuration that was read. `net.LookupPort` and `os.Stat`
-- are parameters: whether they succeed. Reading and decoding the file are left to its libraries.

mod Checks
pub mod Usable
pub mod Load
use resolvit.Prelude.{
  ◌≡◌, refl, Bool, true, false, not, ◌||◌, ◌&&◌, Option, none, some, List, [], ◌∷◌, ◌++◌,
  if◌then◌else◌, is_some,
}
use resolvit.Go.Text.{Text, codes, is_empty, text_eq, to_lower, contains}
use resolvit.Go.Int.{ℤ, is_negative}
use resolvit.Go.Ip.{parse_ip}
use resolvit.Go.HostPort.{split_host_port}

-- The fields that the checks read, and `rest` for all others.
pub record Config (Rest : Type 0) : Type 0 where
  pub listen : Text
  pub servers : List Text
  pub level : Text
  pub blocklist_error_limit : ℤ
  pub resolve_from : Text
  pub rest : Rest

pub data ConfigError : Type 0 where
  invalid_level invalid_port invalid_ip listen_missing no_servers negative_limit : ConfigError
  records_missing : ConfigError
  invalid_listen : ConfigError → ConfigError
  invalid_upstream : Text → ConfigError → ConfigError

pub data Checked (A : Type 0) : Type 0 where
  ok : A → Checked A
  err : ConfigError → Checked A

unfoldable pub validate_log_level : Text → Option ConfigError
validate_log_level level =
    let lowered = to_lower level in
    if text_eq lowered (codes "debug")
      || text_eq lowered (codes "info")
      || text_eq lowered (codes "warn")
      || text_eq lowered (codes "error")
    then none
    else some invalid_level

unfoldable pub parse_upstream : Text → Text
parse_upstream upstream =
    if not (contains upstream (codes ":")) then upstream ++ codes ":53" else upstream

module _ (lookup_port : Text → Bool) where
  check_parts : Text → Text → Option ConfigError
  check_parts host port =
      if is_empty port
      then some invalid_port
      else if not (is_some (parse_ip host))
      then some invalid_ip
      else if not (lookup_port port)
      then some invalid_port
      else none

  -- A failed split gives an empty port, which is the first test.
  unfoldable pub validate_address : Text → Option ConfigError
  unfolding check_parts
  validate_address addr = elim (split_host_port addr) [
    | none ↦ some invalid_port
    | some (host, port) ↦ check_parts host port
  ]

  -- The upstream servers with their ports, or the first that is not valid.
  pub parse_upstreams : List Text → Checked (List Text)
  parse_upstreams [] = ok []
  parse_upstreams (addr ∷ addrs) =
      let rest = parse_upstreams addrs in
      elim (validate_address (parse_upstream addr)) [
        | some e ↦ err (invalid_upstream addr e)
        | none ↦ elim rest [ err e ↦ err e | ok parsed ↦ ok (parse_upstream addr ∷ parsed) ]
      ]

  -- The checks behind the upstream servers.
  pub finish_config :
      {Rest : Type 0} → (Text → Bool) → Config Rest → List Text → Checked (Config Rest)
  finish_config stat cfg parsed =
      if is_negative cfg.blocklist_error_limit
      then err negative_limit
      else if not (is_empty cfg.resolve_from) && not (stat cfg.resolve_from)
      then err records_missing
      else ok (record cfg { servers = parsed })

  pub check_servers :
      {Rest : Type 0} → (Text → Bool) → Config Rest → List Text → Checked (Config Rest)
  unfolding finish_config parse_upstreams
  check_servers stat cfg [] = err no_servers
  check_servers stat cfg (addr ∷ addrs) = elim (parse_upstreams (addr ∷ addrs)) [
    | err e ↦ err e
    | ok parsed ↦ finish_config stat cfg parsed
  ]

  pub check_listen : {Rest : Type 0} → (Text → Bool) → Config Rest → Checked (Config Rest)
  unfolding check_servers
  check_listen stat cfg =
      if is_empty cfg.listen then err listen_missing else elim (validate_address cfg.listen) [
        | some e ↦ err (invalid_listen e)
        | none ↦ check_servers stat cfg cfg.servers
      ]

  -- The configuration as the call leaves it, or its error.
  unfoldable pub validate_config :
      {Rest : Type 0} → (Text → Bool) → Config Rest → Checked (Config Rest)
  unfolding check_listen
  validate_config stat cfg = elim (validate_log_level cfg.level) [
    | some e ↦ err e
    | none ↦ check_listen stat cfg
  ]

-- ===== src/Forward.antt =====
-- pkg/forward/forward.go: the upstream servers. What `dns.Client.Exchange` returns for a server is a
-- parameter: a request asks each server at most once over each protocol, so a function says it all.
pub mod Laws
use resolvit.Prelude.{
  ◌≡◌, refl, Bool, true, false, not, Option, none, some, List, [], ◌∷◌, if◌then◌else◌,
}
use resolvit.Go.Text.{Text}
use resolvit.Dns.{Msg}

pub data Protocol : Type 0 where
  udp tcp : Protocol

-- A Go result pair, either part of which may be nil; an error is its text.
pub record Exchanged : Type 0 where
  pub msg : Option Msg
  pub err : Option Text

abbrev pub Net : Type 0
Net = Protocol → Text → Msg → Exchanged

abbrev answered : Option Msg → Exchanged
answered m = record { msg = m; err = none }

abbrev failed : Text → Exchanged
failed e = record { msg = none; err = some e }

-- The retry over TCP, after the truncated UDP response `m`.
retry_tcp : Msg → Exchanged → Exchanged
retry_tcp m tried = elim tried.err [ none ↦ answered tried.msg | some e ↦ answered (some m) ]

exchange_udp : Net → Text → Msg → Exchanged → Exchanged
unfolding retry_tcp
exchange_udp net server r tried = elim tried.err [
  | some e ↦ failed e
  | none ↦ elim tried.msg [
    | none ↦ answered none
    | some m ↦ if not m.truncated then answered (some m) else retry_tcp m (net tcp server r)
  ]
]

unfoldable pub exchange : Net → Text → Msg → Exchanged
unfolding exchange_udp
exchange net server r = exchange_udp net server r (net udp server r)

-- The loop of `Forward`, with `lastErr`.
try_servers : Net → Msg → List Text → Option Text → Exchanged
try_servers net r [] last_err = record { msg = none; err = last_err }
try_servers net r (server ∷ servers) last_err =
    let tried = exchange net server r in
    elim tried.err [ none ↦ answered tried.msg | some e ↦ try_servers net r servers (some e) ]

unfoldable pub forward : Net → List Text → Msg → Exchanged
unfolding try_servers
forward net servers r = try_servers net r servers none

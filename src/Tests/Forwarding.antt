-- ===== src/Tests/Forwarding.antt =====
-- Upstream servers.
use resolvit.Prelude.{◌≡◌, refl, ◌⊎◌, true, none, some, [], ◌∷◌, arith, if◌then◌else◌, is_some}
use resolvit.Go.Text.{Text, codes, text_eq}
use resolvit.Testutil.{fixed_handler, key, normalize_name, a_record}
use resolvit.Go.Dict.{lookup}
use resolvit.Go.Decimal.{itoa}
use resolvit.Go.Text.{trim_space, is_space, to_lower, has_dot_suffix}
use resolvit.Dns.{sample, Msg, new_msg}
use resolvit.Forward.{udp, tcp, Net, exchange, forward}
use resolvit.Forward.Laws.{Answers, IsChosen, passed_on, forward_decided, exchange_truncated}

abbrev pub big : Msg
big = record new_msg { truncated = true }

-- The first server is down; the others answer with a truncated message over UDP, and fail over TCP.
abbrev pub net : Net
net tcp server r = record { msg = none; err = some (codes "refused") }
net udp server r =
    if text_eq server (codes "down")
    then record { msg = none; err = some (codes "timeout") }
    else record { msg = some big; err = none }

pub net-Answers : Answers net
net-Answers tcp server r h = ground arith
net-Answers udp server r h = ground arith

forward_decided_example :
    (server : Text) × IsChosen net new_msg (codes "down" ∷ codes "up" ∷ codes "down" ∷ []) server
    × (forward net (codes "down" ∷ codes "up" ∷ codes "down" ∷ []) new_msg
        ≡ passed_on (exchange net server new_msg))
forward_decided_example =
    forward_decided net new_msg (codes "down" ∷ codes "up" ∷ codes "down" ∷ []) (λ e. cc)

exchange_truncated_example :
    (is_some (net tcp (codes "up") new_msg).err ≡ true)
    ⊎ ((net tcp (codes "up") new_msg).msg ≡ some big)
unfolding exchange text_eq
exchange_truncated_example = exchange_truncated net (codes "up") new_msg big refl refl

stub_runs :
    fixed_handler sample
      ((
        key (codes "Up.lan") 1,
        record { answers = a_record (codes "up.lan") (codes "10.0.0.1") ∷ []; rcode = 0 },
      )
        ∷ [])
      (some (record new_msg {
        question = record { name = codes "UP.lan."; qtype = 1; qclass = 1 } ∷ [];
      }))
    ≡ record (sample.set_reply new_msg (record new_msg {
      question = record { name = codes "UP.lan."; qtype = 1; qclass = 1 } ∷ [];
    })) { recursion_available = true; answer = a_record (codes "up.lan.") (codes "10.0.0.1") ∷ [] }
unfolding fixed_handler key normalize_name trim_space is_space to_lower has_dot_suffix itoa lookup
    text_eq
stub_runs = refl

-- ===== src/Server.antt =====
-- pkg/server/server.go: the requests that a server gets one after the other, and the clearing of its
-- cache between them. Each request comes with its own surroundings: the records, the filter, the
-- upstreams and the clock of that moment.
pub mod Wiring
pub mod Run
pub mod History
pub mod Interleaving
use resolvit.Prelude.{ℕ, ◌≡◌, refl, Option, List, [], ◌∷◌}
use resolvit.Go.Outcome.{Outcome, done, ◌>>=◌}
use resolvit.Dns.{Msg}
use resolvit.DnsCache
use resolvit.Handler.{Env, World, handle_dns_request}

pub data Event : Type 0 where
  -- a request with its surroundings and the fuel for its aliases
  arrives : Env → ℕ → Option Msg → Event
  -- `ClearCache`
  clears : Event

abbrev pub clear_cache : World → World
clear_cache w = record w { cache = DnsCache.clear w.cache }

pub on_event : World → Event → Outcome World
on_event w (arrives env fuel request) = handle_dns_request env fuel request w
on_event w clears = done (clear_cache w)

unfoldable pub run : World → List Event → Outcome World
unfolding on_event
run w [] = done w
run w (event ∷ events) = do w' ← on_event w event; run w' events

-- A new server: nothing is cached.
abbrev pub new_world : World
new_world = record { cache = DnsCache.new; heap = []; blocked = []; written = [] }

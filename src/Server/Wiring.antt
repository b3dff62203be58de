-- ===== src/Server/Wiring.antt =====
-- pkg/server/server.go and the constructors of pkg/handler and pkg/forward: how a server is put
-- together, and what its handler sees of it when a request arrives. The clients and the listeners
-- are the settings that the DNS library is given, which opens the sockets; a timeout counts seconds.
use resolvit.Prelude.{ℕ, Option, List}
use resolvit.Go.Text.{Text, codes}
use resolvit.DnsCache
use resolvit.DnsCache.{Cache}
use resolvit.Dns.{Library}
use resolvit.Forward.{Net}
use resolvit.Records.{Store}
use resolvit.Filtering.Filter.{Filter}
use resolvit.Handler.{Env}

pub record Client : Type 0 where
  pub net : Text
  pub timeout : ℕ

pub record Forwarder : Type 0 where
  pub upstream_servers : List Text
  pub udp_client : Client
  pub tcp_client : Client

pub record Listener : Type 0 where
  pub addr : Text
  pub net : Text
  pub udp_size : ℕ

-- The cache of a handler is the server's.
pub record Handler : Type 0 where
  pub cache : Cache
  pub forwarder : Forwarder
  pub listen : Text
  pub filter : Option Filter

pub record Server : Type 0 where
  pub server : Listener
  pub tcp_server : Listener
  pub cache : Cache
  pub forwarder : Forwarder
  -- what `dns.HandleFunc` registers for every name
  pub handler : Handler

abbrev pub new_forwarder : List Text → Forwarder
new_forwarder upstream_servers = record {
  upstream_servers = upstream_servers;
  udp_client = record { net = codes "udp"; timeout = 5 };
  tcp_client = record { net = codes "tcp"; timeout = 5 };
}

abbrev pub new_handler : Cache → Forwarder → Text → Option Filter → Handler
new_handler cache forwarder listen filter = record {
  cache = cache;
  forwarder = forwarder;
  listen = listen;
  filter = filter;
}

abbrev pub new_server : Text → List Text → Option Filter → Server
new_server addr upstreams filter =
    let cache = DnsCache.new in
    let forwarder = new_forwarder upstreams in
    record {
      server = record { addr = addr; net = codes "udp"; udp_size = 65535 };
      tcp_server = record { addr = addr; net = codes "tcp"; udp_size = 0 };
      cache = cache;
      forwarder = forwarder;
      handler = new_handler cache forwarder addr filter;
    }

-- What `Start` returns, and what it logs besides: the error of the TCP listener.
pub record Stopped : Type 0 where
  pub err : Option Text
  pub tcp_error : Option Text

-- `Start` blocks until the UDP listener stops; what a listener ends with is the DNS library's.
abbrev pub start : (Listener → Option Text) → Server → Stopped
start listen_and_serve s = record {
  err = listen_and_serve s.server;
  tcp_error = listen_and_serve s.tcp_server;
}

-- What does not belong to the server when a request arrives: the libraries, the local records, the
-- client's address and the clock.
pub record Surroundings : Type 0 where
  pub lib : Library
  pub net : Net
  pub records : Store
  pub network : Text
  pub remote_addr : Text
  pub now_get : ℕ
  pub now_set : ℕ

-- `filter` is the filter that the handler points at, as it is by then.
abbrev pub env_of : Handler → Option Filter → Surroundings → Env
env_of handler filter around = record {
  lib = around.lib;
  net = around.net;
  records = around.records;
  upstreams = handler.forwarder.upstream_servers;
  filter = filter;
  network = around.network;
  remote_addr = around.remote_addr;
  now_get = around.now_get;
  now_set = around.now_set;
}

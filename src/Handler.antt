-- ===== src/Handler.antt =====
-- pkg/handler/handler.go: one DNS request. The request reads its surroundings from an `Env`, and
-- changes the `World`: the cache, the messages that it points at, the log of blocked queries and
-- the messages handed to the client's writer. Log lines for the operator are left out, save where
-- an argument of the call can panic. The records do not change while a request is served.
pub mod Local
pub mod Respond
pub mod Total
pub mod Served
pub mod Stages
pub mod Answers
pub mod Cached
pub mod Keys
pub mod Fit
pub mod Spec
pub mod View
pub mod Refinement
pub mod Tasks
use Keys.{cache_key_for, protocol_name}
use Fit.{fit}
use resolvit.Prelude.{
  ℕ, zero, suc, ◌≡◌, refl, Bool, true, false, Option, none, some, List, [], ◌∷◌, ◌++◌, ◌==◌,
  if◌then◌else◌, get_elem?, set,
}
use resolvit.Go.Text.{Text, codes, dot, text_eq, to_lower}
use resolvit.Go.Decimal.{itoa}
use resolvit.Go.Heap.{Ptr, alloc}
use resolvit.Go.Outcome.{Outcome, done, panic, hang, ◌>>=◌}
use resolvit.Go.Ip.{parse_ip}
use resolvit.Dns.{
  Msg, Question, Rr, RrHeader, a, cname, Library, new_msg, type_a, type_cname, class_inet,
  rcode_format_error, rcode_server_failure, rcode_name_error,
}
use resolvit.Records
use resolvit.Records.{Record, Store, cname_type, a_type}
use resolvit.DnsCache
use resolvit.DnsCache.{Cache}
use resolvit.Forward.{Net, Protocol, Exchanged, forward}
use resolvit.Filtering.Filter.{Filter, BlockedEntry, should_block, log_blocked}

abbrev pub default_ttl : ℕ
default_ttl = 600

pub record Env : Type 0 where
  pub lib : Library
  pub net : Net
  pub records : Store
  pub upstreams : List Text
  pub filter : Option Filter
  -- `w.RemoteAddr()`: its network and its text
  pub network : Text
  pub remote_addr : Text
  -- the clock when the cache is read and when it is written
  pub now_get : ℕ
  pub now_set : ℕ

pub record World : Type 0 where
  pub cache : Cache
  pub heap : List Msg
  pub blocked : List BlockedEntry
  pub written : List Msg

abbrev pub is_tcp : Env → Bool
is_tcp env = text_eq env.network (codes "tcp")

abbrev header_for : Text → ℕ → RrHeader
header_for name rrtype = record {
  name = name;
  rrtype = rrtype;
  class = class_inet;
  ttl = default_ttl;
}

abbrev pub a_record : Text → Text → Rr
a_record name content = a (header_for name type_a) (parse_ip content)

abbrev pub cname_record : Text → Text → Rr
cname_record name target = cname (header_for name type_cname) target

abbrev pub add_answers : Msg → List Rr → Msg
add_answers m rrs = record m { answer = m.answer ++ rrs }

-- How the loop over local aliases ends: at a name with no local record, or at an address.
pub data Chain : Type 0 where
  ends_at : Text → List Rr → Chain
  resolves : List Rr → Chain

-- The loop of `handleCNAME`, with the answers that it appended. A record of any other type leaves
-- the target as it is, and the loop goes on.
pub follow : Store → ℕ → Text → List Rr → Outcome Chain
follow records zero target answers = hang
follow records (suc fuel) target answers = elim (Records.get records target) [
  | none ↦ done (ends_at target answers)
  | some found ↦ elim (text_eq found.typ cname_type) [
    | true ↦
        follow records fuel (found.content ++ dot ∷ [])
          (answers ++ cname_record target (found.content ++ dot ∷ []) ∷ [])
    | false ↦ elim (text_eq found.typ a_type) [
      | true ↦ done (resolves (answers ++ a_record target found.content ∷ []))
      | false ↦ follow records fuel target answers
    ]
  ]
]

-- A failed resolution of the target leaves the aliases alone as the answer.
append_reply : Msg → Exchanged → Outcome Msg
append_reply m reply = elim reply.err [
  | some e ↦ done m
  | none ↦ elim reply.msg [ none ↦ panic | some response ↦ done (add_answers m response.answer) ]
]

pub finish_chain : Env → Msg → Chain → Outcome Msg
unfolding append_reply
finish_chain env m (resolves rrs) = done (record (add_answers m rrs) { authoritative = true })
finish_chain env m (ends_at target rrs) =
    append_reply (add_answers m rrs)
      (forward env.net env.upstreams (env.lib.set_question new_msg target type_a))

abbrev pub start_reply : Env → Msg → Msg
start_reply env r = record (env.lib.set_reply new_msg r) { recursion_available = true }

pub handle_cname : Env → ℕ → Msg → Question → Record → Outcome Msg
unfolding finish_chain
handle_cname env fuel r q found = do
  let target = found.content ++ dot ∷ []
  let m = add_answers (start_reply env r) (cname_record q.name target ∷ [])
  chain ← follow env.records fuel target []
  finish_chain env m chain

unfoldable pub handle_a : Env → Msg → Question → Record → Msg
handle_a env r q found =
    let m = start_reply env r in
    if q.qtype == type_a
    then record (add_answers m (a_record q.name found.content ∷ [])) { authoritative = true }
    else m

handle_record : Env → ℕ → Msg → Question → Option Record → Outcome (Option Msg)
unfolding handle_a
handle_record env fuel r q none = done none
handle_record env fuel r q (some found) =
    if text_eq found.typ cname_type
    then (do m ← handle_cname env fuel r q found; done (some m))
    else if text_eq found.typ a_type
    then done (some (handle_a env r q found))
    else done none

unfoldable pub handle_local_record : Env → ℕ → Msg → Question → Outcome (Option Msg)
unfolding handle_record
handle_local_record env fuel r q = handle_record env fuel r q (Records.get env.records q.name)

write_msg : World → Msg → World
write_msg w m = record w { written = w.written ++ m ∷ [] }

write_loaded : Env → World → Ptr → Option Msg → Outcome World
unfolding write_msg
write_loaded env w p none = panic
write_loaded env w p (some m) =
    let m' = fit env.lib (is_tcp env) m in done (write_msg (record w { heap = set w.heap p m' }) m')

-- `writeResponse` cuts the message in place, for all that point at it.
pub write_response : Env → World → Ptr → Outcome World
unfolding write_loaded
write_response env w p = write_loaded env w p (get_elem? w.heap p)

-- A response that is not cached.
pub respond : Env → World → Msg → Outcome World
unfolding write_response alloc
respond env w m = let (p, heap) = alloc w.heap m in write_response env (record w { heap = heap }) p

-- A response that is cached and then written: the cache holds the pointer.
pub cache_and_respond : Env → Text → World → Msg → Outcome World
unfolding write_response alloc
cache_and_respond env key w m = do
  let (p, heap) = alloc w.heap m
  cache ← DnsCache.set heap w.cache env.now_set key (some p)
  write_response env (record w { heap = heap; cache = cache }) p

pub copy_cached : Env → ℕ → Option Msg → Outcome (Option Msg)
copy_cached env id none = panic
copy_cached env id (some m) =
    done (some (record (env.lib.copy m) { id = id; recursion_available = true }))

pub load_cached : Env → World → ℕ → Option Ptr → Outcome (Option Msg)
unfolding copy_cached
load_cached env w id none = done none
load_cached env w id (some p) = copy_cached env id (get_elem? w.heap p)

pub check_cache : Env → World → Text → ℕ → Outcome (Option Msg)
unfolding load_cached
check_cache env w key id = do
  found ← DnsCache.get w.heap w.cache env.now_get key
  load_cached env w id found

pub server_failure : Env → Msg → Msg
server_failure env r = record (env.lib.set_rcode new_msg r rcode_server_failure) {
  recursion_available = true;
}

-- A nil message without an error would be stored, which panics.
pub handle_upstream : Env → Text → Msg → World → Exchanged → Outcome World
unfolding server_failure
handle_upstream env key r w reply = elim reply.err [
  | some e ↦ respond env w (server_failure env r)
  | none ↦ elim reply.msg [ none ↦ panic | some m ↦ cache_and_respond env key w m ]
]

pub name_error : Env → Msg → Msg
name_error env r = record (env.lib.set_rcode new_msg r rcode_name_error) {
  recursion_available = true;
}

pub handle_blocked : Env → Msg → Question → World → Outcome World
unfolding name_error
handle_blocked env r q w =
    respond env
      (record w { blocked = w.blocked ++ log_blocked env.filter env.remote_addr q.name q.qtype })
      (name_error env r)

pub handle_cached : Env → Text → Msg → World → Option Msg → Outcome World
unfolding handle_upstream
handle_cached env key r w (some m) = respond env w m
handle_cached env key r w none = handle_upstream env key r w (forward env.net env.upstreams r)

pub handle_remote : Env → Text → Msg → Question → World → Outcome World
unfolding handle_blocked handle_cached check_cache
handle_remote env key r q w =
    if should_block env.filter q.name
    then handle_blocked env r q w
    else (do found ← check_cache env w key r.id; handle_cached env key r w found)

unfoldable pub handle_checked : Env → Text → Msg → Question → World → Option Msg → Outcome World
unfolding handle_remote
handle_checked env key r q w (some m) = cache_and_respond env key w m
handle_checked env key r q w none = handle_remote env key r q w

unfoldable pub key_of : Env → Question → Text
key_of env q = cache_key_for q.name q.qtype (protocol_name (is_tcp env))

pub handle_question : Env → ℕ → Msg → List Question → World → Outcome World
unfolding handle_checked handle_local_record key_of write_msg
handle_question env fuel r [] w =
    done (write_msg w (env.lib.set_rcode new_msg r rcode_format_error))
handle_question env fuel r (q ∷ qs) w = do
  local ← handle_local_record env fuel r q
  handle_checked env (key_of env q) r q w local

-- `HandleDNSRequest`; the fuel bounds the local aliases that it follows.
pub handle_dns_request : Env → ℕ → Option Msg → World → Outcome World
unfolding handle_question
handle_dns_request env fuel none w =
    done (write_msg w (record new_msg { rcode = rcode_format_error }))
handle_dns_request env fuel (some r) w = handle_question env fuel r r.question w

-- ===== src/Handler/Spec.antt =====
-- What a request promises, without pointers and without a heap: the cache is a function from keys to
-- what is held under them, and a request gives a reply, a new cache and lines for the log of blocked
-- queries.
use resolvit.Prelude.{ℕ, ◌+◌, true, Option, none, some, List, [], ◌∷◌, ltb, if◌then◌else◌}
use resolvit.Go.Text.{Text, text_eq}
use resolvit.Go.Outcome.{Outcome, done, panic, hang}
use resolvit.Dns.{Msg, Question, new_msg, rcode_format_error}
use resolvit.DnsCache.{ttl_of}
use resolvit.Forward.{Exchanged, forward}
use resolvit.Filtering.Filter.{BlockedEntry, should_block, log_blocked}
use resolvit.Handler.{Env, is_tcp, key_of, name_error, server_failure, handle_local_record}
use resolvit.Handler.Fit.{fit}

pub record Held : Type 0 where
  pub msg : Msg
  pub expires_at : ℕ

abbrev pub View : Type 0
View = Text → Option Held

abbrev pub update : View → Text → Held → View
update f key held k = if text_eq key k then some held else f k

abbrev pub nothing : View
nothing key = none

-- What may still be served.
abbrev pub fresh : ℕ → Option Held → Option Msg
fresh now none = none
fresh now (some held) = if ltb held.expires_at now then none else some held.msg

pub record Reply : Type 0 where
  pub msg : Msg
  pub view : View
  pub blocked : List BlockedEntry

-- A reply that changes nothing.
abbrev pub replies : Env → View → Msg → Reply
replies env f m = record { msg = fit env.lib (is_tcp env) m; view = f; blocked = [] }

-- What is held of a message: it as it is sent, for the time to live of its first answer.
abbrev pub held_of : Env → Msg → Held
held_of env m = record {
  msg = fit env.lib (is_tcp env) m;
  expires_at = env.now_set + ttl_of m.answer;
}

abbrev pub holds : Env → Text → View → Msg → Reply
holds env key f m = record (replies env f m) { view = update f key (held_of env m) }

abbrev pub copy_of : Env → Msg → Msg → Msg
copy_of env r m = record (env.lib.copy m) { id = r.id; recursion_available = true }

-- An exchange without a message and without an error does not occur.
abbrev pub from_upstream : Env → Text → Msg → View → Exchanged → Reply
from_upstream env key r f reply = elim reply.err [
  | some e ↦ replies env f (server_failure env r)
  | none ↦ elim reply.msg [
    | none ↦ replies env f (server_failure env r)
    | some m ↦ holds env key f m
  ]
]

abbrev pub copied : Env → Msg → Option Msg → Option Msg
copied env r none = none
copied env r (some m) = some (copy_of env r m)

abbrev pub from_cache : Env → Text → Msg → View → Option Msg → Reply
from_cache env key r f (some m) = replies env f m
from_cache env key r f none = from_upstream env key r f (forward env.net env.upstreams r)

abbrev pub from_remote : Env → Msg → Question → View → Reply
from_remote env r q f =
    if should_block env.filter q.name
    then record (replies env f (name_error env r)) {
      blocked = log_blocked env.filter env.remote_addr q.name q.qtype;
    }
    else from_cache env (key_of env q) r f (copied env r (fresh env.now_get (f (key_of env q))))

abbrev pub from_local : Env → Msg → Question → View → Option Msg → Reply
from_local env r q f (some m) = holds env (key_of env q) f m
from_local env r q f none = from_remote env r q f

-- The local answer, where the aliases end.
abbrev pub local_of : Outcome (Option Msg) → Option Msg
local_of (done local) = local
local_of panic = none
local_of hang = none

abbrev pub reply_to : Env → ℕ → Msg → List Question → View → Reply
reply_to env fuel r [] f = record {
  msg = env.lib.set_rcode new_msg r rcode_format_error;
  view = f;
  blocked = [];
}
reply_to env fuel r (q ∷ qs) f = from_local env r q f (local_of (handle_local_record env fuel r q))

abbrev pub specified : Env → ℕ → Option Msg → View → Reply
specified env fuel none f = record {
  msg = record new_msg { rcode = rcode_format_error };
  view = f;
  blocked = [];
}
specified env fuel (some r) f = reply_to env fuel r r.question f

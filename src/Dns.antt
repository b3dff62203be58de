-- ===== src/Dns.antt =====
-- The part of a DNS message of github.com/miekg/dns that the program reads and writes, and the
-- functions of that library that it calls, which are parameters.
use resolvit.Prelude.{ℕ, ◌≡◌, ◌≢◌, refl, Bool, true, false, Option, List, [], ◌∷◌, length, ◌+◌, ◌*◌}
use resolvit.Go.Text.{Text}
use resolvit.Go.Ip.{Ip}

pub record Question : Type 0 where
  pub name : Text
  pub qtype : ℕ
  pub qclass : ℕ

pub record RrHeader : Type 0 where
  pub name : Text
  pub rrtype : ℕ
  pub class : ℕ
  pub ttl : ℕ

-- `a` holds the nil address where `net.ParseIP` failed; `other` is any other type, with its data.
pub data Rr : Type 0 where
  a : RrHeader → Option Ip → Rr
  cname : RrHeader → Text → Rr
  other : RrHeader → Text → Rr

abbrev pub header : Rr → RrHeader
header (a h ip) = h
header (cname h target) = h
header (other h rdata) = h

-- `rest` stands for the authority and additional sections.
pub record Msg : Type 0 where
  pub id : ℕ
  pub response : Bool
  pub authoritative : Bool
  pub truncated : Bool
  pub recursion_available : Bool
  pub rcode : ℕ
  pub question : List Question
  pub answer : List Rr
  pub rest : List Rr

-- `new(dns.Msg)`
abbrev pub new_msg : Msg
new_msg = record {
  id = 0;
  response = false;
  authoritative = false;
  truncated = false;
  recursion_available = false;
  rcode = 0;
  question = [];
  answer = [];
  rest = [];
}

abbrev pub type_a : ℕ
type_a = 1

abbrev pub type_cname : ℕ
type_cname = 5

abbrev pub class_inet : ℕ
class_inet = 1

abbrev pub rcode_format_error : ℕ
rcode_format_error = 1

abbrev pub rcode_server_failure : ℕ
rcode_server_failure = 2

abbrev pub rcode_name_error : ℕ
rcode_name_error = 3

-- Methods of `*dns.Msg`: each takes the message that it is called on and gives the changed one.
pub record Library : Type 0 where
  pub set_reply : Msg → Msg → Msg
  pub set_rcode : Msg → Msg → ℕ → Msg
  pub set_question : Msg → Text → ℕ → Msg
  pub copy : Msg → Msg
  pub len : Msg → ℕ
  pub is_domain_name : Text → Bool
  pub type_to_string : ℕ → Text

-- What the documentation of the library promises.
pub record IsDocumented (lib : Library) : Type 0 where
  pub copy_deep : (m : Msg) → lib.copy m ≡ m
  -- the length in wire format, the header being of constant size
  pub len_sections :
      (m m' : Msg)
      → m.question ≡ m'.question
      → m.answer ≡ m'.answer
      → m.rest ≡ m'.rest
      → lib.len m ≡ lib.len m'
  pub reply_id : (m r : Msg) → (lib.set_reply m r).id ≡ r.id
  pub reply_answer : (m r : Msg) → (lib.set_reply m r).answer ≡ m.answer
  pub reply_truncated : (m r : Msg) → (lib.set_reply m r).truncated ≡ m.truncated
  pub reply_question : (m r : Msg) → r.question ≢ [] → (lib.set_reply m r).question ≢ []
  pub rcode_id : (m r : Msg) (c : ℕ) → (lib.set_rcode m r c).id ≡ r.id
  pub rcode_rcode : (m r : Msg) (c : ℕ) → (lib.set_rcode m r c).rcode ≡ c
  pub rcode_answer : (m r : Msg) (c : ℕ) → (lib.set_rcode m r c).answer ≡ m.answer

-- A library that keeps the promises, for tests: a header of 12 bytes and 16 for each record.
abbrev pub sample : Library
sample = record {
  set_reply = λ m r. record m { id = r.id; response = true; rcode = 0; question = r.question };
  set_rcode = λ m r c. record m { id = r.id; response = true; rcode = c; question = r.question };
  set_question =
      λ m n t. record m { question = record { name = n; qtype = t; qclass = class_inet } ∷ [] };
  copy = λ m. m;
  len = λ m. 12 + 16 * length m.answer;
  is_domain_name = λ s. true;
  type_to_string = λ t. [];
}

pub sample-IsDocumented : IsDocumented sample
sample-IsDocumented = record {
  copy_deep = λ m. refl;
  len_sections = λ m m' q a r. rw a;
  reply_id = λ m r. refl;
  reply_answer = λ m r. refl;
  reply_truncated = λ m r. refl;
  reply_question = λ m r h. h;
  rcode_id = λ m r c. refl;
  rcode_rcode = λ m r c. refl;
  rcode_answer = λ m r c. refl;
}

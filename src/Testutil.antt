-- ===== src/Testutil.antt =====
-- internal/testutil/dnsstub.go: the answers of the stub that stands for an upstream server in the
-- repository's tests. Its sockets and its AAAA records are left out.
use resolvit.Prelude.{
  ◌≡◌, sym, ap, ◌∙◌, arith, true, Option, none, some, List, [], ◌∷◌, ◌++◌, if◌then◌else◌, ℕ, ◌==◌,
  not,
}
use resolvit.Go.Text.{Text, codes, dot, is_empty, to_lower, trim_space, has_dot_suffix}
use resolvit.Go.Decimal.{itoa}
use resolvit.Go.Dict.{Dict, lookup}
use resolvit.Go.Ip.{parse_ip}
use resolvit.Dns.{
  a, cname, Msg, Question, Rr, RrHeader, Library, new_msg, rcode_format_error, rcode_name_error,
  type_a, type_cname, class_inet,
}
use resolvit.Records
use resolvit.Records.Names.{normalize_name-to_lower}

pub record Response : Type 0 where
  pub answers : List Rr
  pub rcode : ℕ

unfoldable pub normalize_name : Text → Text
normalize_name name =
    let trimmed = trim_space name in
    let lower = to_lower trimmed in
    if is_empty trimmed then [] else if has_dot_suffix lower then lower else lower ++ dot ∷ []

unfoldable pub key : Text → ℕ → Text
unfolding normalize_name
key name qtype = to_lower (normalize_name name) ++ (codes "|" ++ itoa qtype)

-- The answer to a request that a response is registered for, or not.
answer_with : Msg → Option Response → Msg
answer_with reply none = record reply { rcode = rcode_name_error }
answer_with reply (some resp) = record reply {
  rcode = if not (resp.rcode == 0) then resp.rcode else reply.rcode;
  answer = reply.answer ++ resp.answers;
}

answer_question : Library → Dict Response → Msg → List Question → Msg
unfolding answer_with
answer_question lib responses r [] = record new_msg { rcode = rcode_format_error }
answer_question lib responses r (q ∷ qs) =
    answer_with (record (lib.set_reply new_msg r) { recursion_available = true })
      (lookup (key q.name q.qtype) responses)

-- What the handler writes.
unfoldable pub fixed_handler : Library → Dict Response → Option Msg → Msg
unfolding answer_question
fixed_handler lib responses none = record new_msg { rcode = rcode_format_error }
fixed_handler lib responses (some r) = answer_question lib responses r r.question

abbrev stub_header : Text → ℕ → RrHeader
stub_header name rrtype = record {
  name = normalize_name name;
  rrtype = rrtype;
  class = class_inet;
  ttl = 60;
}

abbrev pub a_record : Text → Text → Rr
a_record name ip = a (stub_header name type_a) (parse_ip ip)

abbrev pub cname_record : Text → Text → Rr
cname_record name target = cname (stub_header name type_cname) (normalize_name target)

normalize_name_lem : (name : Text) → normalize_name name ≡ Records.normalize_name name
unfolding normalize_name Records.normalize_name
normalize_name_lem name = ground arith

-- A question finds the response that is registered under its name, however its letters are cased.
key-to_lower : (name : Text) (qtype : ℕ) → key (to_lower name) qtype ≡ key name qtype
unfolding key
key-to_lower name qtype =
    ap (λ n. to_lower n ++ (codes "|" ++ itoa qtype))
      (normalize_name_lem (to_lower name)
        ∙ normalize_name-to_lower name
        ∙ sym (normalize_name_lem name))

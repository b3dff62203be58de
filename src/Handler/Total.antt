-- ===== src/Handler/Total.antt =====
-- The local part of a request returns, and what orderly surroundings are.
use resolvit.Prelude.{
  ℕ, suc, ◌<◌, ◌≡◌, ◌≢◌, refl, sym, ◌∙◌, inl, inr, true, Option, none, some, List, [], ◌++◌, arith,
  get_elem?, Bool-cases, Option-cases,
}
use resolvit.Go.Text.{Text, text_eq}
use resolvit.Go.Dict.{lookup}
use resolvit.Go.Outcome.{done}
use resolvit.Dns.{Msg, Question, Rr, IsDocumented, new_msg, type_a}
use resolvit.Records
use resolvit.Records.{Record, cname_type, a_type}
use resolvit.Records.Load.{AllValid}
use resolvit.DnsCache.{CacheEntry}
use resolvit.Forward.{Protocol, Exchanged, forward}
use resolvit.Forward.Laws.{Answers, IsResult, forward-IsResult}
use resolvit.Handler.{
  Env, World, finish_chain, append_reply, handle_cname, handle_a, handle_record,
  handle_local_record,
}
use resolvit.Handler.Local.{Descends, follow_total, chain_of, dotted, outside, address, Goal}

-- Every entry of the cache points at a message that has a question.
pub record IsSound (w : World) : Type 0 where
  pub cached :
      (key : Text) (e : CacheEntry)
      → lookup key w.cache ≡ some e
      → (m : Msg) × (get_elem? w.heap e.msg ≡ some m) × (m.question ≢ [])

-- The surroundings of a request behave as documented: the library, upstreams that answer with a
-- message or an error and repeat the question, and records that a file can hold.
pub record IsOrderly (env : Env) : Type 0 where
  pub documented : IsDocumented env.lib
  pub answers : Answers env.net
  pub questioned :
      (p : Protocol) (server : Text) (r m : Msg)
      → (env.net p server r).msg ≡ some m
      → m.question ≢ []
  pub upstream : env.upstreams ≢ []
  pub valid : AllValid env.records

abbrev pub Questioned : Option Msg → Type 0
Questioned none = Unit
Questioned (some m) = m.question ≢ []

module _ (env : Env) (ok : IsOrderly env) where
  append_reply_total :
      (m : Msg) (reply : Exchanged)
      → IsResult reply
      → m.question ≢ []
      → (m' : Msg) × (append_reply m reply ≡ done m') × (m'.question ≢ [])
  unfolding append_reply
  append_reply_total m reply (inl (has_msg, no_err)) n = elim (Option-cases reply.msg) [
    | inl e ↦ absurd (cc)
    | inr (response, e) ↦
        (record m { answer = m.answer ++ response.answer }, rw (no_err, append_reply, e) refl, n)
  ]
  append_reply_total m reply (inr (no_msg, has_err)) n = elim (Option-cases reply.err) [
    | inl e ↦ absurd (cc)
    | inr (text, e) ↦ (m, rw (e, append_reply) refl, n)
  ]

  pub finish_chain_total :
      (m : Msg) (rrs : List Rr) (goal : Goal)
      → m.question ≢ []
      → (m' : Msg) × (finish_chain env m (chain_of rrs goal) ≡ done m') × (m'.question ≢ [])
  unfolding finish_chain
  finish_chain_total m rrs address n =
      (record m { answer = m.answer ++ rrs; authoritative = true }, refl, n)
  finish_chain_total m rrs (outside t) n =
      append_reply_total (record m { answer = m.answer ++ rrs })
        (forward env.net env.upstreams (env.lib.set_question new_msg t type_a))
        (forward-IsResult env.net ok.answers (env.lib.set_question new_msg t type_a) env.upstreams
          ok.upstream)
        n

module _ (env : Env) (ok : IsOrderly env) (r : Msg) (asks : r.question ≢ []) where
  handle_a-question :
      (q : Question) (found : Record)
      → (handle_a env r q found).question ≡ (env.lib.set_reply new_msg r).question
  unfolding handle_a
  handle_a-question q found = ground arith

  pub handle_a_questioned : (q : Question) (found : Record) → (handle_a env r q found).question ≢ []
  handle_a_questioned q found e =
      ok.documented.reply_question new_msg r asks (sym (handle_a-question q found) ∙ e)

  module _ (rank : Text → ℕ) (fuel : ℕ) (falls : Descends env.records rank)
      (enough : (t : Text) → suc (rank t) < fuel) where
    handle_cname_total :
        (q : Question) (found : Record)
        → (m : Msg) × (handle_cname env fuel r q found ≡ done m) × (m.question ≢ [])
    unfolding handle_cname
    handle_cname_total q found =
        let t = dotted found.content in
        let (rrs, goal, c, e) = follow_total env.records rank fuel t [] ok.valid falls (enough t) in
        rw e (finish_chain_total env ok _ rrs goal (ok.documented.reply_question new_msg r asks))

    handle_record_total :
        (q : Question) (found : Option Record)
        → (local : Option Msg) × (handle_record env fuel r q found ≡ done local) × Questioned local
    unfolding handle_record
    handle_record_total q none = (none, refl, tt)
    handle_record_total q (some found) = elim (Bool-cases (text_eq found.typ cname_type)) [
      | inl e ↦ let (m, h, n) = handle_cname_total q found in (some m, rw (e, h) refl, n)
      | inr e ↦ elim (Bool-cases (text_eq found.typ a_type)) [
        | inr f ↦ (none, rw (e, f) refl, tt)
        | inl f ↦ (some (handle_a env r q found), rw (e, f) refl, handle_a_questioned q found)
      ]
    ]

    pub handle_local_record_total :
        (q : Question)
        → (local : Option Msg) × (handle_local_record env fuel r q ≡ done local) × Questioned local
    unfolding handle_local_record
    handle_local_record_total q = handle_record_total q (Records.get env.records q.name)

-- ===== src/Handler/Tasks/Alone.antt =====
-- A goroutine that no other disturbs does what the handler does as a whole.
pub mod Remote
use resolvit.Handler.Tasks.Alone.Remote.{Finishes, later, caches_alone, tests_allowlist_alone}
use resolvit.Prelude.{
  ◌≡◌, ◌++◌, refl, sym, ap, ◌∙◌, inl, inr, Bool, true, false, Option, none, some, List, [], ◌∷◌, ℕ,
  zero, suc, if◌then◌else◌, get_elem?, Bool-cases, Option-cases,
}
use resolvit.Go.Text.{Text, dot, text_eq}
use resolvit.Go.Heap.{Ptr, alloc}
use resolvit.Go.Outcome.{Outcome, done, panic, hang, ◌>>=◌, >>=-eq-done}
use resolvit.Dns.{Msg, Question, Rr}
use resolvit.Records
use resolvit.Records.{Record, Store, cname_type, a_type}
use resolvit.DnsCache
use resolvit.Forward.{Exchanged, forward}
use resolvit.Filtering.Filter.{Filter, should_block, current_allowlist, current_blocklist}
use resolvit.Filtering.DomainSet.{matches}
use resolvit.Handler.{
  Env, World, Chain, key_of, follow, finish_chain, handle_cname, handle_record, handle_local_record,
  handle_a, write_response, respond, cache_and_respond, copy_cached, load_cached, check_cache,
  handle_upstream, handle_blocked, handle_cached, handle_remote, handle_checked, handle_question,
  handle_dns_request,
}
use resolvit.Handler.Tasks.{
  Task, starts, looks_up, follows, tests_allowlist, tests_blocklist, logs_blocked, reads_cache,
  copies, forwards, caches, writes, answers, returned, Round, goes_on, ended, follow_found,
  follow_once, to_cache, after_round, after_lookup, start_request, after_allowlist, after_blocklist,
  after_get, after_copy, after_forward, after_set, after_write, advance, advance_all,
}

module _ (env : Env) where
  -- What the loop over local aliases does after one round.
  abbrev past_round : ℕ → Round → Outcome Chain
  past_round fuel (goes_on target rrs) = follow env.records fuel target rrs
  past_round fuel (ended chain) = done chain

  follow_found_lem :
      (fuel : ℕ) (target : Text) (rrs : List Rr) (found : Option Record)
      → found ≡ Records.get env.records target
      → follow env.records (suc fuel) target rrs ≡ past_round fuel (follow_found target rrs found)
  unfolding follow follow_found
  follow_found_lem fuel target rrs none e = rw (follow, ← e) refl
  follow_found_lem fuel target rrs (some found) e =
      elim (Bool-cases (text_eq found.typ cname_type)) [
        | inl alias ↦ rw (follow, ← e, alias) refl
        | inr other ↦ elim (Bool-cases (text_eq found.typ a_type)) [
          | inl address ↦ rw (follow, ← e, other, address) refl
          | inr neither ↦ rw (follow, ← e, other, neither) refl
        ]
      ]

  -- The loop with the reply to which its answers are added.
  abbrev past_chain : World → Question → Msg → Outcome Chain → Outcome World
  past_chain w q m o = do
    chain ← o
    m' ← finish_chain env m chain
    cache_and_respond env (key_of env q) w m'

  to_cache_alone :
      (w w' : World) (key : Text) (o : Outcome Msg)
      → (o >>= (λ m. cache_and_respond env key w m)) ≡ done w'
      → Finishes env w (to_cache key o) w'
  unfolding to_cache
  to_cache_alone w w' key (done m) h = caches_alone env w w' key m h
  to_cache_alone w w' key panic h = absurd (cc h)
  to_cache_alone w w' key hang h = absurd (cc h)

  round_alone :
      (fuel : ℕ) (w w' : World) (q : Question) (m : Msg) (round : Round)
      → past_chain w q m (past_round fuel round) ≡ done w'
      → ((target : Text) (rrs : List Rr)
          → past_chain w q m (follow env.records fuel target rrs) ≡ done w'
          → Finishes env w (follows q m target rrs) w')
      → Finishes env w (after_round env q m round) w'
  unfolding after_round
  round_alone fuel w w' q m (goes_on target rrs) h next = next target rrs h
  round_alone fuel w w' q m (ended chain) h next =
      to_cache_alone w w' (key_of env q) (finish_chain env m chain) h

  follows_alone :
      (fuel : ℕ) (w w' : World) (q : Question) (m : Msg) (target : Text) (rrs : List Rr)
      → past_chain w q m (follow env.records fuel target rrs) ≡ done w'
      → Finishes env w (follows q m target rrs) w'
  unfolding follow advance follow_once
  follows_alone zero w w' q m target rrs h = absurd (cc h)
  follows_alone (suc fuel) w w' q m target rrs h =
      let round = follow_once env.records target rrs in
      let same = follow_found_lem fuel target rrs (Records.get env.records target) refl in
      later env w w w' (follows q m target rrs) (after_round env q m round) refl (
        round_alone fuel w w' q m round (ap (past_chain w q m) (sym same) ∙ h)
          (λ target rrs h. follows_alone fuel w w' q m target rrs h))

  aliased :
      (w : World) (r : Msg) (q : Question) (o : Outcome Msg)
      → ((o >>= (λ m. done (some m))) >>= (λ local. handle_checked env (key_of env q) r q w local))
        ≡ (o >>= (λ m. cache_and_respond env (key_of env q) w m))
  unfolding handle_checked
  aliased w r q (done m) = refl
  aliased w r q panic = refl
  aliased w r q hang = refl

  chained :
      (w : World) (q : Question) (m : Msg) (o : Outcome Chain)
      → ((o >>= (λ chain. finish_chain env m chain))
          >>= (λ m'. cache_and_respond env (key_of env q) w m'))
        ≡ past_chain w q m o
  chained w q m (done chain) = refl
  chained w q m panic = refl
  chained w q m hang = refl

  looked_up_alone :
      (fuel : ℕ) (w w' : World) (r : Msg) (q : Question) (found : Option Record)
      → (handle_record env fuel r q found
          >>= (λ local. handle_checked env (key_of env q) r q w local))
        ≡ done w'
      → Finishes env w (after_lookup env r q found) w'
  unfolding handle_record handle_checked after_lookup handle_cname
  looked_up_alone fuel w w' r q none h = tests_allowlist_alone env w w' r q h
  looked_up_alone fuel w w' r q (some found) h = elim (Bool-cases (text_eq found.typ cname_type)) [
    | inl alias ↦
        rw (alias, after_lookup)
          (follows_alone fuel w w' q _ (found.content ++ dot ∷ []) [] (
            sym (chained w q _ (follow env.records fuel (found.content ++ dot ∷ []) []))
            ∙ sym (aliased w r q (handle_cname env fuel r q found))
            ∙ (rw (alias, handle_record) at h)))
    | inr other ↦ elim (Bool-cases (text_eq found.typ a_type)) [
      | inl address ↦
          rw (other, address, after_lookup)
            (caches_alone env w w' (key_of env q) (handle_a env r q found)
              (rw (other, address, handle_record) at h))
      | inr neither ↦
          rw (other, neither, after_lookup)
            (tests_allowlist_alone env w w' r q (rw (other, neither, handle_record) at h))
    ]
  ]

  asked_alone :
      (fuel : ℕ) (w w' : World) (r : Msg) (qs : List Question)
      → handle_question env fuel r qs w ≡ done w'
      → (n : ℕ) × (advance_all env n (start_request env w r qs).0 (start_request env w r qs).1
          ≡ (w', returned))
  unfolding handle_question handle_local_record start_request advance advance_all
  asked_alone fuel w w' r [] h = (zero, cc)
  asked_alone fuel w w' r (q ∷ qs) h =
      later env w w w' (looks_up r q) (after_lookup env r q (Records.get env.records q.name)) refl
        (looked_up_alone fuel w w' r q (Records.get env.records q.name) h)

-- A goroutine that serves a request alone, whatever the records, the filter and the cache are, does
-- in some steps what the handler does in one call: if the call returns, the goroutine returns with
-- the same cache, messages, log and reply.
pub alone_as_handler :
    (env : Env) (fuel : ℕ) (request : Option Msg) (w w' : World)
    → handle_dns_request env fuel request w ≡ done w'
    → (n : ℕ) × (advance_all env n w (starts request) ≡ (w', returned))
unfolding handle_dns_request advance advance_all
alone_as_handler env fuel none w w' h = (1, cc)
alone_as_handler env fuel (some r) w w' h =
    later env w _ w' (starts (some r)) _ refl (asked_alone env fuel w w' r r.question h)

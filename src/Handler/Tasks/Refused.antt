-- ===== src/Handler/Tasks/Refused.antt =====
-- A goroutine whose question is for a name that is blocked at each of its steps.
use resolvit.Prelude.{◌≡◌, sym, ap, subst, ◌∙◌, true, Option, none, some, List, ◌∷◌, arith}
use resolvit.Go.Text.{Text}
use resolvit.Dns.{Msg, Question, IsDocumented, new_msg, rcode_name_error}
use resolvit.Records
use resolvit.Filtering.Filter.{Filter, should_block}
use resolvit.Handler.{Env, World, name_error}
use resolvit.Handler.Respond.{respond_lem}
use resolvit.Handler.Tasks.{
  Task, starts, looks_up, follows, tests_allowlist, tests_blocklist, logs_blocked, reads_cache,
  copies, forwards, caches, writes, answers, returned, panicked, after_lookup, start_request,
  after_allowlist, after_blocklist, after_write, advance,
}

-- The first question of the request is for this name.
abbrev pub Asks : Text → Option Msg → Type 0
Asks name request =
    (r : Msg) × (q : Question) × (qs : List Question) × (request ≡ some r)
    × (r.question ≡ q ∷ qs)
    × (q.name ≡ name)

-- The goroutine is about to refuse the name, or has done so: it is never about to read the cache, to
-- ask an upstream or to write a message that is shared.
abbrev pub Refuses : Text → Task → Type 0
Refuses name (starts request) = Asks name request
Refuses name (looks_up r q) = q.name ≡ name
Refuses name (tests_allowlist r q) = q.name ≡ name
Refuses name (tests_blocklist r q) = q.name ≡ name
Refuses name (logs_blocked r q) = Unit
Refuses name (answers m) = m.rcode ≡ rcode_name_error
Refuses name returned = Unit
Refuses name (follows q m target rrs) = ⊥
Refuses name (reads_cache r q) = ⊥
Refuses name (copies r q p) = ⊥
Refuses name (forwards r q) = ⊥
Refuses name (caches key m) = ⊥
Refuses name (writes p) = ⊥
Refuses name panicked = ⊥

module _ (env : Env) (name : Text) (unlisted : Records.get env.records name ≡ none)
    (blocked : should_block env.filter name ≡ true) where
  after_lookup-Refuses :
      (r : Msg) (q : Question)
      → q.name ≡ name
      → Refuses name (after_lookup env r q (Records.get env.records q.name))
  unfolding after_lookup
  after_lookup-Refuses r q e =
      let miss : Records.get env.records q.name ≡ none =
        ap (Records.get env.records) e ∙ unlisted in
      subst (λ o. Refuses name (after_lookup env r q o)) (sym miss) e

  after_allowlist-Refuses :
      (r : Msg) (q : Question) (f : Option Filter)
      → should_block f q.name ≡ true
      → q.name ≡ name
      → Refuses name (after_allowlist r q f)
  unfolding after_allowlist should_block
  after_allowlist-Refuses r q none b e = absurd (cc)
  after_allowlist-Refuses r q (some f) b e = ground arith

  after_blocklist-Refuses :
      (r : Msg) (q : Question) (f : Option Filter)
      → should_block f q.name ≡ true
      → Refuses name (after_blocklist r q f)
  unfolding after_blocklist should_block
  after_blocklist-Refuses r q none b = absurd (cc)
  after_blocklist-Refuses r q (some f) b = ground arith

  still_blocked : (q : Question) → q.name ≡ name → should_block env.filter q.name ≡ true
  still_blocked q e = ap (should_block env.filter) e ∙ blocked

  start_request-Refuses :
      (w : World) (r : Msg) → Asks name (some r) → Refuses name (start_request env w r r.question).1
  unfolding start_request
  start_request-Refuses w r (r', q, qs, same, e, n) =
      let first : r.question ≡ q ∷ qs = cc in
      subst (λ l. Refuses name (start_request env w r l).1) (sym first) n

  pub advance-Refuses :
      (w : World) (t : Task)
      → IsDocumented env.lib
      → Refuses name t
      → Refuses name (advance env w t).1
  unfolding advance name_error after_write
  advance-Refuses w (starts none) documented (r, q, qs, same, e, n) = absurd (cc)
  advance-Refuses w (starts (some r)) documented asks = start_request-Refuses w r asks
  advance-Refuses w (looks_up r q) documented e = after_lookup-Refuses r q e
  advance-Refuses w (tests_allowlist r q) documented e =
      after_allowlist-Refuses r q env.filter (still_blocked q e) e
  advance-Refuses w (tests_blocklist r q) documented e =
      after_blocklist-Refuses r q env.filter (still_blocked q e)
  advance-Refuses w (logs_blocked r q) documented e =
      documented.rcode_rcode new_msg r rcode_name_error
  advance-Refuses w (answers m) documented e = rw (respond_lem env w m) tt
  advance-Refuses w returned documented e = tt
  advance-Refuses w (follows q m target rrs) documented e = elim e [ ]
  advance-Refuses w (reads_cache r q) documented e = elim e [ ]
  advance-Refuses w (copies r q p) documented e = elim e [ ]
  advance-Refuses w (forwards r q) documented e = elim e [ ]
  advance-Refuses w (caches key m) documented e = elim e [ ]
  advance-Refuses w (writes p) documented e = elim e [ ]
  advance-Refuses w panicked documented e = elim e [ ]

-- ===== src/Handler/Tasks/Bounds.antt =====
-- How many steps a goroutine has left, whatever others do in between.
use resolvit.Prelude.{
  ℕ, ◌+◌, ◌≤◌, ◌<◌, ◌≡◌, ◌≢◌, ◌⊎◌, refl, inl, inr, Option, none, some, List, [], ◌∷◌, ◌++◌,
  get_elem?, Bool-cases, arith,
}
use resolvit.Go.Text.{Text, text_eq}
use resolvit.Go.Text.Equality.{text_eq_iff, text_eq_refl}
use resolvit.Go.Heap.{Ptr, alloc}
use resolvit.Go.Outcome.{Outcome, done, panic, hang}
use resolvit.Dns.{Msg, Question, Rr}
use resolvit.Records
use resolvit.Records.{Record, Store, cname_type, a_type}
use resolvit.Records.Load.{AllValid, get-IsValid}
use resolvit.DnsCache
use resolvit.Forward.{Exchanged, forward}
use resolvit.Filtering.Filter.{Filter}
use resolvit.Handler.{
  Env, World, Chain, ends_at, resolves, a_record, finish_chain, copy_cached, key_of, write_response,
  respond,
}
use resolvit.Handler.Local.{Descends, cname_ne_a}
use resolvit.Handler.Tasks.{
  Task, starts, looks_up, follows, tests_allowlist, tests_blocklist, logs_blocked, reads_cache,
  copies, forwards, caches, writes, answers, returned, panicked, ended, follow_found, follow_once,
  to_cache, after_round, after_lookup, start_request, after_allowlist, after_blocklist, after_get,
  after_copy, after_forward, after_set, after_write, advance,
}

module _ (rank : Text → ℕ) where
  abbrev steps_for : List Question → ℕ
  steps_for [] = 1
  steps_for (q ∷ qs) = 9 + rank q.name

  asks_steps : (qs : List Question) → steps_for qs ≢ 0
  asks_steps [] e = omega arith
  asks_steps (q ∷ qs) e = omega arith

  -- The most steps that are left, if the rank falls along every local alias.
  abbrev pub left : Task → ℕ
  left (starts none) = 1
  left (starts (some r)) = steps_for r.question
  left (looks_up r q) = 8 + rank q.name
  left (follows q m target rrs) = 3 + rank target
  left (tests_allowlist r q) = 7
  left (tests_blocklist r q) = 6
  left (reads_cache r q) = 5
  left (copies r q p) = 4
  left (forwards r q) = 3
  left (logs_blocked r q) = 2
  left (caches key m) = 2
  left (writes p) = 1
  left (answers m) = 1
  left returned = 0
  left panicked = 0

  left-to_cache : (key : Text) (o : Outcome Msg) → left (to_cache key o) ≤ 2
  unfolding to_cache
  left-to_cache key (done m) = omega arith
  left-to_cache key panic = omega arith
  left-to_cache key hang = omega arith

  module _ (env : Env) (valid : AllValid env.records) (falls : Descends env.records rank) where
    left-ended :
        (q : Question) (m : Msg) (chain : Chain) → left (after_round env q m (ended chain)) ≤ 2
    unfolding after_round
    left-ended q m chain = left-to_cache (key_of env q) (finish_chain env m chain)

    left-after_round :
        (q : Question) (m : Msg) (target : Text) (rrs : List Rr) (found : Option Record)
        → Records.get env.records target ≡ found
        → left (after_round env q m (follow_found target rrs found)) < 3 + rank target
    unfolding after_round follow_found
    left-after_round q m target rrs none e =
        let short = left-ended q m (ends_at target rrs) in omega arith
    left-after_round q m target rrs (some found) e =
        elim ((get-IsValid env.records target found valid e).known) [
          | inl alias ↦
              let less = falls target found e alias in
              rw (follow_found, alias, text_eq_refl cname_type, after_round) (omega arith)
          | inr direct ↦
              let short = left-ended q m (resolves (rrs ++ a_record target found.content ∷ [])) in
              rw (follow_found, direct, cname_ne_a, text_eq_refl a_type) (omega arith)
        ]

    left-after_lookup :
        (r : Msg) (q : Question) (found : Option Record)
        → Records.get env.records q.name ≡ found
        → left (after_lookup env r q found) < 8 + rank q.name
    unfolding after_lookup
    left-after_lookup r q none e = omega arith
    left-after_lookup r q (some found) e = elim (Bool-cases (text_eq found.typ cname_type)) [
      | inl alias ↦
          let less = falls q.name found e ((text_eq_iff found.typ cname_type).0 alias) in
          rw (alias, after_lookup) (omega arith)
      | inr other ↦ elim (Bool-cases (text_eq found.typ a_type)) [
        | inl direct ↦ rw (other, direct, after_lookup) (omega arith)
        | inr neither ↦ rw (other, neither, after_lookup) (omega arith)
      ]
    ]

  left-after_allowlist :
      (r : Msg) (q : Question) (f : Option Filter) → left (after_allowlist r q f) < 7
  unfolding after_allowlist
  left-after_allowlist r q none = omega arith
  left-after_allowlist r q (some f) = ground arith

  left-after_blocklist :
      (r : Msg) (q : Question) (f : Option Filter) → left (after_blocklist r q f) < 6
  unfolding after_blocklist
  left-after_blocklist r q none = omega arith
  left-after_blocklist r q (some f) = ground arith

  left-after_get : (r : Msg) (q : Question) (o : Outcome (Option Ptr)) → left (after_get r q o) < 5
  unfolding after_get
  left-after_get r q (done none) = omega arith
  left-after_get r q (done (some p)) = omega arith
  left-after_get r q panic = omega arith
  left-after_get r q hang = omega arith

  left-after_copy :
      (r : Msg) (q : Question) (o : Outcome (Option Msg)) → left (after_copy r q o) < 4
  unfolding after_copy
  left-after_copy r q (done none) = omega arith
  left-after_copy r q (done (some m)) = omega arith
  left-after_copy r q panic = omega arith
  left-after_copy r q hang = omega arith

  left-after_forward :
      (env : Env) (r : Msg) (q : Question) (reply : Exchanged)
      → left (after_forward env r q reply) < 3
  unfolding after_forward
  left-after_forward env r q reply = ground arith

  left-after_set :
      (w : World) (heap : List Msg) (p : Ptr) (o : Outcome DnsCache.Cache)
      → left (after_set w heap p o).1 < 2
  unfolding after_set
  left-after_set w heap p (done cache) = omega arith
  left-after_set w heap p panic = omega arith
  left-after_set w heap p hang = omega arith

  left-after_write : (w : World) (o : Outcome World) → left (after_write w o).1 < 1
  unfolding after_write
  left-after_write w (done w') = omega arith
  left-after_write w panic = omega arith
  left-after_write w hang = omega arith

  left-start_request :
      (env : Env) (w : World) (r : Msg) (qs : List Question)
      → left (start_request env w r qs).1 < steps_for qs
  unfolding start_request
  left-start_request env w r [] = omega arith
  left-start_request env w r (q ∷ qs) = omega arith

  -- A step of a goroutine that has neither returned nor panicked leaves it fewer steps, whatever the
  -- cache, the messages and the filter are, if the records are valid and the rank falls along each
  -- local alias.
  pub advance-falls :
      (env : Env) (w : World) (t : Task)
      → AllValid env.records
      → Descends env.records rank
      → 0 < left t
      → left (advance env w t).1 < left t
  unfolding advance follow_once
  advance-falls env w (starts none) valid falls h = omega arith
  advance-falls env w (starts (some r)) valid falls h = left-start_request env w r r.question
  advance-falls env w (looks_up r q) valid falls h =
      left-after_lookup env valid falls r q (Records.get env.records q.name) refl
  advance-falls env w (follows q m target rrs) valid falls h =
      left-after_round env valid falls q m target rrs (Records.get env.records target) refl
  advance-falls env w (tests_allowlist r q) valid falls h = left-after_allowlist r q env.filter
  advance-falls env w (tests_blocklist r q) valid falls h = left-after_blocklist r q env.filter
  advance-falls env w (logs_blocked r q) valid falls h = omega arith
  advance-falls env w (reads_cache r q) valid falls h =
      left-after_get r q (DnsCache.get w.heap w.cache env.now_get (key_of env q))
  advance-falls env w (copies r q p) valid falls h =
      left-after_copy r q (copy_cached env r.id (get_elem? w.heap p))
  advance-falls env w (forwards r q) valid falls h =
      left-after_forward env r q (forward env.net env.upstreams r)
  advance-falls env w (caches key m) valid falls h =
      let (p, heap) = alloc w.heap m in
      left-after_set w heap p (DnsCache.set heap w.cache env.now_set key (some p))
  advance-falls env w (writes p) valid falls h = left-after_write w (write_response env w p)
  advance-falls env w (answers m) valid falls h = left-after_write w (respond env w m)
  advance-falls env w returned valid falls h = absurd (omega arith)
  advance-falls env w panicked valid falls h = absurd (omega arith)

  pub returned_or_panicked : (t : Task) → left t ≡ 0 → (t ≡ returned) ⊎ (t ≡ panicked)
  returned_or_panicked (starts none) e = absurd (omega arith)
  returned_or_panicked (starts (some r)) e = absurd (asks_steps r.question e)
  returned_or_panicked (looks_up r q) e = absurd (omega arith)
  returned_or_panicked (follows q m target rrs) e = absurd (omega arith)
  returned_or_panicked (tests_allowlist r q) e = absurd (omega arith)
  returned_or_panicked (tests_blocklist r q) e = absurd (omega arith)
  returned_or_panicked (logs_blocked r q) e = absurd (omega arith)
  returned_or_panicked (reads_cache r q) e = absurd (omega arith)
  returned_or_panicked (copies r q p) e = absurd (omega arith)
  returned_or_panicked (forwards r q) e = absurd (omega arith)
  returned_or_panicked (caches key m) e = absurd (omega arith)
  returned_or_panicked (writes p) e = absurd (omega arith)
  returned_or_panicked (answers m) e = absurd (omega arith)
  returned_or_panicked returned e = inl refl
  returned_or_panicked panicked e = inr refl

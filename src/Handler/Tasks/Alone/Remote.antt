-- ===== src/Handler/Tasks/Alone/Remote.antt =====
-- The part of a request that no local record answers, when its goroutine runs alone: the filter, the
-- cache, the upstreams and the reply.
use resolvit.Prelude.{
  ◌≡◌, refl, sym, ap, ◌∙◌, inl, inr, Bool, true, false, Option, none, some, ℕ, zero, suc,
  if◌then◌else◌, get_elem?, Bool-cases, Option-cases,
}
use resolvit.Go.Text.{Text}
use resolvit.Go.Heap.{Ptr, alloc}
use resolvit.Go.Outcome.{Outcome, done, panic, hang, ◌>>=◌, >>=-eq-done}
use resolvit.Dns.{Msg, Question}
use resolvit.DnsCache
use resolvit.Forward.{Exchanged, forward}
use resolvit.Filtering.Filter.{Filter, should_block, current_allowlist, current_blocklist}
use resolvit.Filtering.DomainSet.{matches}
use resolvit.Handler.{
  Env, World, key_of, write_response, respond, cache_and_respond, copy_cached, load_cached,
  check_cache, handle_upstream, handle_blocked, handle_cached, handle_remote,
}
use resolvit.Handler.Tasks.{
  Task, tests_allowlist, tests_blocklist, logs_blocked, reads_cache, copies, forwards, caches,
  writes, answers, returned, after_allowlist, after_blocklist, after_get, after_copy, after_forward,
  after_set, after_write, advance, advance_all,
}

module _ (env : Env) where
  -- Some steps take the goroutine to its return, with this world.
  abbrev pub Finishes : World → Task → World → Type 0
  Finishes w t w' = (n : ℕ) × (advance_all env n w t ≡ (w', returned))

  pub later :
      (w w₁ w' : World) (t t₁ : Task)
      → advance env w t ≡ (w₁, t₁)
      → Finishes w₁ t₁ w'
      → Finishes w t w'
  unfolding advance_all
  later w w₁ w' t t₁ e (n, rest) =
      (suc n, ap (λ (x : World × Task). advance_all env n x.0 x.1) e ∙ rest)

  write_alone : (w w' : World) (o : Outcome World) → o ≡ done w' → after_write w o ≡ (w', returned)
  unfolding after_write
  write_alone w w' o e = ap (after_write w) e

  pub at_once : (w w' : World) (t : Task) → advance env w t ≡ (w', returned) → Finishes w t w'
  unfolding advance_all
  at_once w w' t e = later w w' w' t returned e (zero, refl)

  writes_alone :
      (w w' : World) (p : Ptr) → write_response env w p ≡ done w' → Finishes w (writes p) w'
  unfolding advance
  writes_alone w w' p e = at_once w w' (writes p) (write_alone w w' (write_response env w p) e)

  pub answers_alone :
      (w w' : World) (m : Msg) → respond env w m ≡ done w' → Finishes w (answers m) w'
  unfolding advance
  answers_alone w w' m e = at_once w w' (answers m) (write_alone w w' (respond env w m) e)

  pub caches_alone :
      (w w' : World) (key : Text) (m : Msg)
      → cache_and_respond env key w m ≡ done w'
      → Finishes w (caches key m) w'
  unfolding advance cache_and_respond after_set
  caches_alone w w' key m e =
      let heap = (alloc w.heap m).1 in
      let p = (alloc w.heap m).0 in
      let (cache, put, rest) =
        >>=-eq-done (DnsCache.set heap w.cache env.now_set key (some p))
          (λ cache. write_response env (record w { heap = heap; cache = cache }) p) e in
      later w _ w' (caches key m) (writes p) (ap (after_set w heap p) put)
        (writes_alone (record w { heap = heap; cache = cache }) w' p rest)

  forwarded_alone :
      (w w' : World) (r : Msg) (q : Question) (reply : Exchanged)
      → handle_upstream env (key_of env q) r w reply ≡ done w'
      → Finishes w (after_forward env r q reply) w'
  unfolding handle_upstream after_forward
  forwarded_alone w w' r q reply h = elim (Option-cases reply.err) [
    | inr (e, has) ↦ rw (has, after_forward) (answers_alone w w' _ (rw (has, handle_upstream) at h))
    | inl fine ↦ elim (Option-cases reply.msg) [
      | inl nil ↦ let h' = rw (fine, nil, handle_upstream) at h in absurd (cc)
      | inr (m, has) ↦
          rw (fine, has, after_forward)
            (caches_alone w w' (key_of env q) m (rw (fine, has, handle_upstream) at h))
    ]
  ]

  forwards_alone :
      (w w' : World) (r : Msg) (q : Question)
      → handle_cached env (key_of env q) r w none ≡ done w'
      → Finishes w (forwards r q) w'
  unfolding advance handle_cached
  forwards_alone w w' r q h =
      later w w w' (forwards r q) (after_forward env r q (forward env.net env.upstreams r)) refl
        (forwarded_alone w w' r q (forward env.net env.upstreams r) h)

  found_alone :
      (w w' : World) (r : Msg) (q : Question) (o : Outcome (Option Msg))
      → (o >>= (λ found. handle_cached env (key_of env q) r w found)) ≡ done w'
      → Finishes w (after_copy r q o) w'
  unfolding after_copy
  found_alone w w' r q (done none) h = forwards_alone w w' r q h
  found_alone w w' r q (done (some m)) h = answers_alone w w' m (unfold handle_cached in h)
  found_alone w w' r q panic h = absurd (cc h)
  found_alone w w' r q hang h = absurd (cc h)

  got_alone :
      (w w' : World) (r : Msg) (q : Question) (o : Outcome (Option Ptr))
      → ((o >>= (λ found. load_cached env w r.id found))
          >>= (λ found. handle_cached env (key_of env q) r w found))
        ≡ done w'
      → Finishes w (after_get r q o) w'
  unfolding after_get load_cached advance
  got_alone w w' r q (done none) h = forwards_alone w w' r q h
  got_alone w w' r q (done (some p)) h =
      later w w w' (copies r q p) (after_copy r q (copy_cached env r.id (get_elem? w.heap p))) refl
        (found_alone w w' r q (copy_cached env r.id (get_elem? w.heap p)) h)
  got_alone w w' r q panic h = absurd (cc h)
  got_alone w w' r q hang h = absurd (cc h)

  reads_cache_alone :
      (w w' : World) (r : Msg) (q : Question)
      → (check_cache env w (key_of env q) r.id
          >>= (λ found. handle_cached env (key_of env q) r w found))
        ≡ done w'
      → Finishes w (reads_cache r q) w'
  unfolding advance check_cache
  reads_cache_alone w w' r q h =
      let got = DnsCache.get w.heap w.cache env.now_get (key_of env q) in
      later w w w' (reads_cache r q) (after_get r q got) refl (got_alone w w' r q got h)

  logs_blocked_alone :
      (w w' : World) (r : Msg) (q : Question)
      → handle_blocked env r q w ≡ done w'
      → Finishes w (logs_blocked r q) w'
  unfolding advance handle_blocked
  logs_blocked_alone w w' r q h = later w _ w' (logs_blocked r q) _ refl (answers_alone _ w' _ h)

  -- What is left to do once the allowlist has not permitted a name.
  abbrev past_allowlist : World → Msg → Question → Bool → Outcome World
  past_allowlist w r q blocked = if blocked then handle_blocked env r q w else (do
    found ← check_cache env w (key_of env q) r.id
    handle_cached env (key_of env q) r w found)

  decided_alone :
      (w w' : World) (r : Msg) (q : Question) (blocked : Bool)
      → past_allowlist w r q blocked ≡ done w'
      → Finishes w (if blocked then logs_blocked r q else reads_cache r q) w'
  decided_alone w w' r q true h = logs_blocked_alone w w' r q h
  decided_alone w w' r q false h = reads_cache_alone w w' r q h

  tests_blocklist_alone :
      (w w' : World) (r : Msg) (q : Question) (f : Filter)
      → env.filter ≡ some f
      → past_allowlist w r q (matches (some (current_blocklist f)) q.name f.block_subdomains)
        ≡ done w'
      → Finishes w (tests_blocklist r q) w'
  unfolding advance after_blocklist
  tests_blocklist_alone w w' r q f has h =
      later w w w' (tests_blocklist r q) _ (ap (λ o. (w, after_blocklist r q o)) has)
        (decided_alone w w' r q (matches (some (current_blocklist f)) q.name f.block_subdomains) h)

  pub tests_allowlist_alone :
      (w w' : World) (r : Msg) (q : Question)
      → handle_remote env (key_of env q) r q w ≡ done w'
      → Finishes w (tests_allowlist r q) w'
  unfolding advance handle_remote should_block after_allowlist
  tests_allowlist_alone w w' r q h = elim (Option-cases env.filter) [
    | inl nil ↦ later w w w' (tests_allowlist r q) _ (ap (λ o. (w, after_allowlist r q o)) nil) (
        reads_cache_alone w w' r q
          (ap (λ o. past_allowlist w r q (should_block o q.name)) (sym nil) ∙ h))
    | inr (f, has) ↦
        later w w w' (tests_allowlist r q) _ (ap (λ o. (w, after_allowlist r q o)) has) (
          filtered_alone f has
            (ap (λ o. past_allowlist w r q (should_block o q.name)) (sym has) ∙ h))
  ]
    where
      filtered_alone :
          (f : Filter)
          → env.filter ≡ some f
          → past_allowlist w r q (should_block (some f) q.name) ≡ done w'
          → Finishes w (after_allowlist r q (some f)) w'
      filtered_alone f has h = elim (Bool-cases f.enabled) [
        | inr off ↦
            rw (off, after_allowlist) (reads_cache_alone w w' r q (rw (off, should_block) at h))
        | inl on ↦
            elim (Bool-cases (matches (some (current_allowlist f)) q.name f.block_subdomains)) [
              | inl listed ↦
                  rw (on, listed, after_allowlist)
                    (reads_cache_alone w w' r q (rw (on, listed, should_block) at h))
              | inr unlisted ↦
                  rw (on, unlisted, after_allowlist)
                    (tests_blocklist_alone w w' r q f has (rw (on, unlisted, should_block) at h))
            ]
      ]

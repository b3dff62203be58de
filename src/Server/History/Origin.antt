-- ===== src/Server/History/Origin.antt =====
-- Which event stored what the cache holds.
use resolvit.Prelude.{
  ◌≡◌, refl, sym, ap, ◌⊎◌, inl, inr, Option, none, some, List, [], ◌∷◌, ◌++◌, All, Bool-cases,
  Option-cases,
}
use resolvit.Go.Text.{Text, text_eq}
use resolvit.Go.Text.Equality.{text_eq_iff}
use resolvit.Dns.{Msg, Question}
use resolvit.Forward.{Exchanged, forward}
use resolvit.Filtering.Filter.{should_block}
use resolvit.Handler.{Env, key_of, handle_local_record}
use resolvit.Handler.Spec.{
  Held, View, Reply, fresh, holds, held_of, copied, from_upstream, from_cache, from_local, local_of,
  reply_to,
}
use resolvit.Server.{Event, arrives, clears}
use resolvit.Server.Run.{view_after}

module _ (env : Env) (key : Text) (h : Held) where
  -- The reply is what is then held under the key.
  abbrev pub Holds : Text → Reply → Type 0
  Holds k reply = (k ≡ key) × (m : Msg) × (h ≡ held_of env m) × (reply.msg ≡ h.msg)

  -- A reply leaves what is held under the key, or puts it there.
  abbrev Kept : Text → View → Reply → Type 0
  Kept k f reply = reply.view key ≡ some h → (f key ≡ some h) ⊎ Holds k reply

  holds-Kept : (k : Text) (f : View) (m : Msg) → Kept k f (holds env k f m)
  holds-Kept k f m e = elim (Bool-cases (text_eq k key)) [
    | inr n ↦ inl (rw n at e)
    | inl q ↦
        let same : some (held_of env m) ≡ some h = rw q at e in
        let eq : held_of env m ≡ h = cc in
        inr ((text_eq_iff k key).0 q, m, sym eq, ap (λ (x : Held). x.msg) eq)
  ]

  from_upstream-Kept :
      (k : Text) (r : Msg) (f : View) (reply : Exchanged) → Kept k f (from_upstream env k r f reply)
  from_upstream-Kept k r f reply = elim (Option-cases reply.err) [
    | inr (text, e) ↦ rw e (λ x. inl x)
    | inl e ↦ elim (Option-cases reply.msg) [
      | inl n ↦ rw (e, n) (λ x. inl x)
      | inr (m, n) ↦ rw (e, n) (holds-Kept k f m)
    ]
  ]

  from_cache-Kept :
      (k : Text) (r : Msg) (f : View) (found : Option Msg) → Kept k f (from_cache env k r f found)
  from_cache-Kept k r f (some m) = inl
  from_cache-Kept k r f none = from_upstream-Kept k r f (forward env.net env.upstreams r)

  from_local-Kept :
      (r : Msg) (q : Question) (f : View) (local : Option Msg)
      → Kept (key_of env q) f (from_local env r q f local)
  from_local-Kept r q f (some m) = holds-Kept (key_of env q) f m
  from_local-Kept r q f none = elim (Bool-cases (should_block env.filter q.name)) [
    | inl b ↦ rw b (λ x. inl x)
    | inr b ↦
        rw b
          (from_cache-Kept (key_of env q) r f (copied env r (fresh env.now_get (f (key_of env q)))))
  ]

abbrev pub IsArrival : Event → Type 0
IsArrival (arrives env fuel request) = Unit
IsArrival clears = ⊥

-- With the cache as it is, the event is a request for the key whose reply is held from then on, for
-- the time to live of the first answer.
abbrev pub Stored : View → Event → Text → Held → Type 0
Stored f clears key h = ⊥
Stored f (arrives env fuel none) key h = ⊥
Stored f (arrives env fuel (some r)) key h =
    (q : Question) × (qs : List Question) × (r.question ≡ q ∷ qs)
    × Holds env key h (key_of env q) (reply_to env fuel r (q ∷ qs) f)

last_event-Stored :
    (f : View) (event : Event) (key : Text) (h : Held)
    → view_after f (event ∷ []) key ≡ some h
    → (f key ≡ some h) × IsArrival event ⊎ Stored f event key h
last_event-Stored f clears key h e = absurd (cc)
last_event-Stored f (arrives env fuel none) key h e = inl (e, tt)
last_event-Stored f (arrives env fuel (some r)) key h e = at_questions r.question refl e
  where
    at_questions :
        (qs : List Question)
        → r.question ≡ qs
        → (reply_to env fuel r qs f).view key ≡ some h
        → (f key ≡ some h) × IsArrival (arrives env fuel (some r))
          ⊎ Stored f (arrives env fuel (some r)) key h
    at_questions [] same kept = inl (kept, tt)
    at_questions (q ∷ qs) same kept =
        elim (from_local-Kept env key h r q f (local_of (handle_local_record env fuel r q)) kept) [
          | inl old ↦ inl (old, tt)
          | inr new ↦ inr (q, qs, same, new)
        ]

-- An event of the sequence stored what is held, and the cache was not cleared after it.
abbrev pub StoredIn : View → List Event → Text → Held → Type 0
StoredIn f events key h =
    (before : List Event) × (event : Event) × (after : List Event) × (events
      ≡ before ++ event ∷ after)
    × Stored (view_after f before) event key h
    × All IsArrival after

pub view_after-StoredIn :
    (events : List Event) (f : View) (key : Text) (h : Held)
    → view_after f events key ≡ some h
    → (f key ≡ some h) × All IsArrival events ⊎ StoredIn f events key h
view_after-StoredIn [] f key h e = inl (e, tt)
view_after-StoredIn (event ∷ events) f key h e =
    elim (view_after-StoredIn events (view_after f (event ∷ [])) key h (step event e)) [
      | inl (kept, all) ↦ elim (last_event-Stored f event key h kept) [
        | inl (old, arrival) ↦ inl (old, (arrival, all))
        | inr stored ↦ inr ([], event, events, refl, stored, all)
      ]
      | inr (before, stored_by, after, split, stored, all) ↦ inr (
        event ∷ before,
        stored_by,
        after,
        ap (◌∷◌ event) split,
        earlier event before stored_by stored,
        all,
      )
    ]
  where
    step :
        (event : Event)
        → view_after f (event ∷ events) key ≡ some h
        → view_after (view_after f (event ∷ [])) events key ≡ some h
    step (arrives env fuel request) e = e
    step clears e = e

    earlier :
        (event : Event) (before : List Event) (stored_by : Event)
        → Stored (view_after (view_after f (event ∷ [])) before) stored_by key h
        → Stored (view_after f (event ∷ before)) stored_by key h
    earlier (arrives env fuel request) before by s = s
    earlier clears before by s = s

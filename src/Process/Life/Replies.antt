-- ===== src/Process/Life/Replies.antt =====
-- What a process replies over its life.
use resolvit.Prelude.{◌≡◌, refl, sym, ap, ◌∙◌, Option, none, some, List, [], ◌∷◌, ◌++◌, All}
use resolvit.Go.Text.{Text}
use resolvit.Go.Outcome.{Outcome, done, ◌>>=◌, >>=-eq-done}
use resolvit.Go.Dict.{lookup}
use resolvit.Records.{Store, LoadError}
use resolvit.Filtering.Loader.{Host}
use resolvit.Handler.{World, handle_dns_request}
use resolvit.Handler.Total.{IsSound}
use resolvit.Handler.Spec.{nothing}
use resolvit.Handler.View.{view}
use resolvit.Server
use resolvit.Server.{Event, arrives, clears, clear_cache, new_world}
use resolvit.Server.Run.{
  IsServable, view_after, all_replies, all_blocked, run_refines, new_world-IsSound,
}
use resolvit.Server.Wiring.{Handler, env_of}
use resolvit.Process.{Files, load_records, reload}
use resolvit.Process.Life.{
  Settings, Happening, asks, hangs_up, ticks, env_at, tick, after_hangup, on_happening, live,
}

view-new_world : view new_world ≡ nothing
unfolding lookup
view-new_world = refl

-- The clearing that a hangup causes, if its load gives no error.
abbrev cleared_by : Option LoadError → List Event → List Event
cleared_by none events = clears ∷ events
cleared_by (some e) events = events

module _ {Disk Request : Type 0} (path : Text) (handler : Handler) (host : Host Disk Request) where
  -- What the server meets: each request with the records and the filter of its moment, and a clearing
  -- of the cache for each hangup that loads the records without an error.
  abbrev pub events_of : Settings Disk → List (Happening Request) → List Event
  events_of s [] = []
  events_of s (asks around fuel request ∷ hs) =
      arrives (env_of handler s.filter (record around { records = s.records })) fuel request
      ∷ events_of s hs
  events_of s (hangs_up files ∷ hs) =
      let loaded = load_records files s.records path in
      cleared_by loaded.1 (events_of (record s { records = loaded.0 }) hs)
  events_of s (ticks send ∷ hs) = events_of (tick path handler host s send s.filter) hs

  abbrev pub settings_after : Settings Disk → List (Happening Request) → Settings Disk
  settings_after s [] = s
  settings_after s (asks around fuel request ∷ hs) = settings_after s hs
  settings_after s (hangs_up files ∷ hs) =
      settings_after (record s { records = (load_records files s.records path).0 }) hs
  settings_after s (ticks send ∷ hs) = settings_after (tick path handler host s send s.filter) hs

  -- The rest of a life goes as the server's events do.
  abbrev Follows : List (Happening Request) → Settings Disk → Type 0
  Follows hs s =
      (w w' : World)
      → Server.run w (events_of s hs) ≡ done w'
      → live path handler host s w hs ≡ done (settings_after s hs, w')

  after_hangup-Follows :
      (s : Settings Disk) (w w' : World) (loaded : Store × Option LoadError)
      (hs : List (Happening Request))
      → Follows hs (record s { records = loaded.0 })
      → Server.run w (cleared_by loaded.1 (events_of (record s { records = loaded.0 }) hs))
        ≡ done w'
      → live path handler host
          (after_hangup path handler host s w loaded).0
          (after_hangup path handler host s w loaded).1
          hs
        ≡ done (settings_after (record s { records = loaded.0 }) hs, w')
  unfolding after_hangup reload Server.run
  after_hangup-Follows s w w' (records, some e) hs follows h = follows w w' h
  after_hangup-Follows s w w' (records, none) hs follows h = follows (clear_cache w) w' h

  live-Follows : (hs : List (Happening Request)) (s : Settings Disk) → Follows hs s
  unfolding live on_happening Server.run
  live-Follows [] s w w' h =
      ap (λ (o : Outcome World). ◌>>=◌ {B = Settings Disk × World} o (λ v. done (s, v))) h
  live-Follows (asks around fuel request ∷ hs) s w w' h =
      let (w₁, e, rest) =
        >>=-eq-done (handle_dns_request (env_at path handler host s around) fuel request w)
          (λ w₁. Server.run w₁ (events_of s hs)) h in
      ap
        (λ (o : Outcome World).
          ◌>>=◌ {A = Settings Disk × World} (o >>= (λ w₂. done (s, w₂)))
            (λ x. live path handler host x.0 x.1 hs))
        e
      ∙ live-Follows hs s w₁ w' rest
  live-Follows (hangs_up files ∷ hs) s w w' h =
      let loaded = load_records files s.records path in
      after_hangup-Follows s w w' loaded hs (live-Follows hs (record s { records = loaded.0 })) h
  live-Follows (ticks send ∷ hs) s w w' h =
      live-Follows hs (tick path handler host s send s.filter) w w' h

  -- Over any sequence of requests, hangups and ticks a process returns from each request, with the
  -- replies and the lines of the blocked-query log that the specification of the server promises for
  -- the records and the filter of that moment, and for a cache that each hangup without an error
  -- empties. Each request has orderly surroundings and enough fuel, and the cache is sound at first.
  pub live_refines :
      (s : Settings Disk) (w : World) (hs : List (Happening Request))
      → All IsServable (events_of s hs)
      → IsSound w
      → (w' : World) × (live path handler host s w hs ≡ done (settings_after s hs, w'))
        × (view w' ≡ view_after (view w) (events_of s hs))
        × (w'.written ≡ w.written ++ all_replies (view w) (events_of s hs))
        × (w'.blocked ≡ w.blocked ++ all_blocked (view w) (events_of s hs))
        × IsSound w'
  live_refines s w hs ok sound =
      let (w', ran, v, m, b, sound') = run_refines (events_of s hs) w ok sound in
      (w', live-Follows hs s w w' ran, v, m, b, sound')

  -- After a hangup that loads the records without an error, a process replies and logs, whatever
  -- happens next, as one that has just started with those records and an empty cache. Each request
  -- after it has orderly surroundings and enough fuel, and the cache is sound before it.
  pub reload_starts_anew :
      (s : Settings Disk) (w : World) (files : Files) (hs : List (Happening Request))
      → let loaded = load_records files s.records path in
        let s' : Settings Disk = record s { records = loaded.0 } in
        loaded.1 ≡ none
        → All IsServable (events_of s' hs)
        → IsSound w
        → (w' : World) × (live path handler host s w (hangs_up files ∷ hs)
            ≡ done (settings_after s' hs, w'))
          × (w'' : World) × (live path handler host s' new_world hs
              ≡ done (settings_after s' hs, w''))
          × (w'.written ≡ w.written ++ w''.written)
          × (w'.blocked ≡ w.blocked ++ w''.blocked)
  reload_starts_anew s w files hs loads ok sound =
      let loaded = load_records files s.records path in
      let s' : Settings Disk = record s { records = loaded.0 } in
      let cleared : cleared_by loaded.1 (events_of s' hs) ≡ clears ∷ events_of s' hs =
        ap (λ e. cleared_by e (events_of s' hs)) loads in
      let (w', ran, v, m, b, sound') = run_refines (clears ∷ events_of s' hs) w (tt, ok) sound in
      let (w'', ran_anew, v_anew, m_anew, b_anew, sound_anew) =
        run_refines (events_of s' hs) new_world ok new_world-IsSound in
      (
        w',
        live-Follows (hangs_up files ∷ hs) s w w' (ap (Server.run w) cleared ∙ ran),
        w'',
        live-Follows hs s' new_world w'' ran_anew,
        m
            ∙ ap (λ xs. w.written ++ xs)
                (sym (m_anew ∙ ap (λ f. all_replies f (events_of s' hs)) view-new_world)),
        b
            ∙ ap (λ xs. w.blocked ++ xs)
                (sym (b_anew ∙ ap (λ f. all_blocked f (events_of s' hs)) view-new_world)),
      )

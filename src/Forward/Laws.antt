-- ===== src/Forward/Laws.antt =====
-- Which upstream answers a request, and what the TCP retry gives.
use resolvit.Prelude.{
  ◌≡◌, ◌≢◌, refl, ap, ◌∙◌, ◌⊎◌, inl, inr, true, Option, none, some, List, [], ◌∷◌, ◌++◌, arith, All,
  is_some, Option-cases, if◌then◌else◌,
}
use resolvit.Go.Text.{Text}
use resolvit.Dns.{Msg}
use resolvit.Forward.{Protocol, udp, tcp, Exchanged, Net, exchange, try_servers, forward}

module _ (net : Net) (r : Msg) where
  abbrev pub Fails : Text → Type 0
  Fails server = is_some (exchange net server r).err ≡ true

  try_servers-append :
      (before servers : List Text) (last_err : Option Text)
      → All Fails before
      → (e : Option Text) × (try_servers net r (before ++ servers) last_err
          ≡ try_servers net r servers e)
  unfolding try_servers
  try_servers-append [] servers last_err h = (last_err, refl)
  try_servers-append (s ∷ before) servers last_err (h, hs) =
      elim (Option-cases (exchange net s r).err) [
        | inl e ↦ absurd (cc)
        | inr (e, q) ↦
            let (e', rest) = try_servers-append before servers (some e) hs in
            (e', rw (q, try_servers) rest)
      ]

  -- The first server whose exchange has no error answers the request, whatever the servers behind it
  -- would say.
  pub forward_first :
      (before after : List Text) (server : Text)
      → All Fails before
      → (exchange net server r).err ≡ none
      → forward net (before ++ server ∷ after) r
        ≡ record { msg = (exchange net server r).msg; err = none }
  unfolding forward try_servers
  forward_first before after server h e =
      let (last, q) = try_servers-append before (server ∷ after) none h in q ∙ rw (e, try_servers)

  try_servers_last :
      (servers : List Text) (server : Text) (last_err : Option Text)
      → All Fails servers
      → Fails server
      → try_servers net r (servers ++ server ∷ []) last_err
        ≡ record { msg = none; err = (exchange net server r).err }
  unfolding try_servers
  try_servers_last [] server last_err h k = elim (Option-cases (exchange net server r).err) [
    | inl e ↦ absurd (cc)
    | inr (e, q) ↦ rw (q, try_servers)
  ]
  try_servers_last (s ∷ servers) server last_err (h, hs) k =
      elim (Option-cases (exchange net s r).err) [
        | inl e ↦ absurd (cc)
        | inr (e, q) ↦ rw (q, try_servers) (try_servers_last servers server (some e) hs k)
      ]

  -- If every server fails, the result is no message and the error of the last server.
  pub forward_last_error :
      (servers : List Text) (server : Text)
      → All Fails servers
      → Fails server
      → forward net (servers ++ server ∷ []) r
        ≡ record { msg = none; err = (exchange net server r).err }
  unfolding forward
  forward_last_error servers server = try_servers_last servers server none

-- What is passed on of an exchange: its message, or its error alone.
abbrev pub passed_on : Exchanged → Exchanged
passed_on x =
    if is_some x.err then record { msg = none; err = x.err } else record { msg = x.msg; err = none }

module _ (net : Net) (r : Msg) where
  -- The first server that does not fail, or the last one if all do.
  abbrev pub IsChosen : List Text → Text → Type 0
  IsChosen servers server =
      (before : List Text) × (after : List Text) × (servers ≡ before ++ server ∷ after)
      × All (Fails net r) before
      × (((exchange net server r).err ≡ none) ⊎ ((after ≡ []) × Fails net r server))

  IsChosen-cons :
      (s server : Text) (servers : List Text)
      → Fails net r s
      → IsChosen servers server
      → IsChosen (s ∷ servers) server
  IsChosen-cons s server servers f (before, after, e, fails, why) =
      (s ∷ before, after, ap (λ l. s ∷ l) e, (f, fails), why)

  chooses : (s : Text) (servers : List Text) → (server : Text) × IsChosen (s ∷ servers) server
  chooses s [] = elim (Option-cases (exchange net s r).err) [
    | inl q ↦ (s, ([], [], refl, tt, inl q))
    | inr (e, q) ↦ (s, ([], [], refl, tt, inr (refl, ap is_some q)))
  ]
  chooses s (t ∷ servers) = elim (Option-cases (exchange net s r).err) [
    | inl q ↦ (s, ([], t ∷ servers, refl, tt, inl q))
    | inr (e, q) ↦
        let (server, chosen) = chooses t servers in
        (server, IsChosen-cons s server (t ∷ servers) (ap is_some q) chosen)
  ]

  forward_chosen :
      (servers : List Text) (server : Text)
      → IsChosen servers server
      → forward net servers r ≡ passed_on (exchange net server r)
  forward_chosen servers server (before, after, e, fails, why) = elim why [
    | inl good ↦
        ap (λ l. forward net l r) e
        ∙ forward_first net r before after server fails good
        ∙ rw good refl
    | inr (last, bad) ↦
        ap (λ l. forward net l r) e
        ∙ ap (λ l. forward net (before ++ server ∷ l) r) last
        ∙ forward_last_error net r before server fails bad
        ∙ rw bad refl
  ]

  -- With at least one upstream, `Forward` passes on the exchange with one of them: with the first
  -- that does not fail, whatever those behind it would say, or with the last one if all fail.
  pub forward_decided :
      (servers : List Text)
      → servers ≢ []
      → (server : Text) × IsChosen servers server
        × (forward net servers r ≡ passed_on (exchange net server r))
  forward_decided [] n = absurd (n refl)
  forward_decided (s ∷ servers) n =
      let (server, chosen) = chooses s servers in
      (server, chosen, forward_chosen (s ∷ servers) server chosen)

-- `Exchange` returns a message whenever it returns no error.
abbrev pub Answers : Net → Type 0
Answers net =
    (p : Protocol) (server : Text) (r : Msg)
    → (net p server r).err ≡ none
    → is_some (net p server r).msg ≡ true

-- Either a message or an error, and not both.
abbrev pub IsResult : Exchanged → Type 0
IsResult x = (is_some x.msg ≡ true) × (x.err ≡ none) ⊎ (x.msg ≡ none) × (is_some x.err ≡ true)

module _ (net : Net) (answers : Answers net) (r : Msg) where
  exchange-IsResult : (server : Text) → IsResult (exchange net server r)
  unfolding exchange
  exchange-IsResult server = ground (arith, answers udp server r, answers tcp server r)

  try_servers-IsResult :
      (servers : List Text) (last_err : Option Text)
      → (servers ≡ [] → is_some last_err ≡ true)
      → IsResult (try_servers net r servers last_err)
  unfolding try_servers
  try_servers-IsResult [] last_err h = ground (arith, h refl)
  try_servers-IsResult (s ∷ servers) last_err h = elim (Option-cases (exchange net s r).err) [
    | inl q ↦ rw (q, try_servers) (ground (arith, exchange-IsResult s))
    | inr (e, q) ↦ rw (q, try_servers) (try_servers-IsResult servers (some e) (λ n. refl))
  ]

  -- With at least one upstream, `Forward` returns either a message or an error.
  pub forward-IsResult : (servers : List Text) → servers ≢ [] → IsResult (forward net servers r)
  unfolding forward
  forward-IsResult servers n = try_servers-IsResult servers none (λ e. absurd (n e))

-- If an exchange returns a truncated message, the TCP retry failed or itself gave that message.
pub exchange_truncated :
    (net : Net) (server : Text) (r m : Msg)
    → (exchange net server r).msg ≡ some m
    → m.truncated ≡ true
    → (is_some (net tcp server r).err ≡ true) ⊎ ((net tcp server r).msg ≡ some m)
unfolding exchange
exchange_truncated net server r m h t = ground arith

-- A message that `Forward` returns was returned by an exchange.
module _ (net : Net) (r : Msg) (P : Msg → Type 0)
    (each : (p : Protocol) (server : Text) (m : Msg) → (net p server r).msg ≡ some m → P m) where
  exchange_from :
      (server : Text) (m : Msg)
      → (exchange net server r).msg ≡ some m
      → ((net udp server r).msg ≡ some m) ⊎ ((net tcp server r).msg ≡ some m)
  unfolding exchange
  exchange_from server m h = ground arith

  try_servers_from :
      (servers : List Text) (last_err : Option Text) (m : Msg)
      → (try_servers net r servers last_err).msg ≡ some m
      → P m
  unfolding try_servers
  try_servers_from [] last_err m h = cc
  try_servers_from (s ∷ servers) last_err m h = elim (Option-cases (exchange net s r).err) [
    | inl q ↦ elim (exchange_from s m (rw (q, try_servers) at h)) [
      | inl u ↦ each udp s m u
      | inr t ↦ each tcp s m t
    ]
    | inr (e, q) ↦ try_servers_from servers (some e) m (rw (q, try_servers) at h)
  ]

  pub forward_from : (servers : List Text) (m : Msg) → (forward net servers r).msg ≡ some m → P m
  unfolding forward
  forward_from servers m h = try_servers_from servers none m h

-- ===== src/Server/Run.antt =====
-- What a server promises over any sequence of events, and that it keeps it.
use resolvit.Prelude.{
  ℕ, suc, ◌<◌, ◌≡◌, refl, sym, ap, ◌∙◌, List, [], ◌∷◌, ◌++◌, All, append_assoc, append-nil,
}
use resolvit.Go.Text.{Text}
use resolvit.Go.Dict.{lookup}
use resolvit.Go.Outcome.{done}
use resolvit.Dns.{Msg}
use resolvit.DnsCache
use resolvit.Filtering.Filter.{BlockedEntry}
use resolvit.Handler.{World}
use resolvit.Handler.Local.{Descends}
use resolvit.Handler.Total.{IsSound, IsOrderly}
use resolvit.Handler.Spec.{View, specified, nothing}
use resolvit.Handler.View.{view}
use resolvit.Handler.Refinement.{handle_dns_request_refines}
use resolvit.Server.{Event, arrives, clears, run, new_world, clear_cache}

-- The cache after some events, and the replies.
abbrev pub view_after : View → List Event → View
view_after f [] = f
view_after f (arrives env fuel request ∷ events) =
    view_after (specified env fuel request f).view events
view_after f (clears ∷ events) = view_after nothing events

abbrev pub all_replies : View → List Event → List Msg
all_replies f [] = []
all_replies f (arrives env fuel request ∷ events) =
    let reply = specified env fuel request f in reply.msg ∷ all_replies reply.view events
all_replies f (clears ∷ events) = all_replies nothing events

abbrev pub all_blocked : View → List Event → List BlockedEntry
all_blocked f [] = []
all_blocked f (arrives env fuel request ∷ events) =
    let reply = specified env fuel request f in reply.blocked ++ all_blocked reply.view events
all_blocked f (clears ∷ events) = all_blocked nothing events

-- The surroundings of a request are orderly, and the fuel is above a rank that falls along its
-- records' aliases.
abbrev pub IsServable : Event → Type 0
IsServable (arrives env fuel request) =
    IsOrderly env
    × (rank : Text → ℕ) × Descends env.records rank
    × ((t : Text) → suc (rank t) < fuel)
IsServable clears = Unit

pub clear_cache-IsSound : (w : World) → IsSound (clear_cache w)
unfolding DnsCache.clear lookup
clear_cache-IsSound w = record { cached = λ key e h. cc }

view-clear_cache : (w : World) → view (clear_cache w) ≡ nothing
unfolding DnsCache.clear lookup
view-clear_cache w = refl

appended :
    {A : Type 0} (a b c xs : List A) (f g : View) (rest : View → List A)
    → a ≡ b ++ rest f
    → f ≡ g
    → b ≡ c ++ xs
    → a ≡ c ++ (xs ++ rest g)
appended a b c xs f g rest e v e' =
    e ∙ ap (λ h. b ++ rest h) v ∙ ap (λ l. l ++ rest g) e' ∙ append_assoc c xs (rest g)

-- Whatever requests arrive and however the cache is cleared between them, a server returns from each,
-- and does what is promised: the replies, the log and the cache, seen as a function from keys to
-- messages with their expiry, are those of the specification. Each request may come with other
-- records, filters, upstreams and times; its surroundings are orderly and its fuel is enough. The
-- cache is sound at first.
pub run_refines :
    (events : List Event) (w : World)
    → All IsServable events
    → IsSound w
    → (w' : World) × (run w events ≡ done w')
      × (view w' ≡ view_after (view w) events)
      × (w'.written ≡ w.written ++ all_replies (view w) events)
      × (w'.blocked ≡ w.blocked ++ all_blocked (view w) events)
      × IsSound w'
unfolding run lookup DnsCache.clear
run_refines [] w ok s = (w, refl, refl, sym (append-nil w.written), sym (append-nil w.blocked), s)
run_refines (clears ∷ events) w ok s =
    run_refines events (clear_cache w) ok.1 (clear_cache-IsSound w)
run_refines (arrives env fuel request ∷ events) w ((orderly, rank, falls, enough), ok) s =
    let (w₁, e, v, m, b, s₁) =
      handle_dns_request_refines env rank fuel request w orderly falls enough s in
    let (w₂, e₂, v₂, m₂, b₂, s₂) = run_refines events w₁ ok s₁ in
    (
      w₂,
      rw e e₂,
      v₂ ∙ ap (λ f. view_after f events) v,
      appended _ _ _ _ _ _ (λ f. all_replies f events) m₂ v m,
      appended _ _ _ _ _ _ (λ f. all_blocked f events) b₂ v b,
      s₂,
    )

pub new_world-IsSound : IsSound new_world
unfolding lookup
new_world-IsSound = record { cached = λ key e h. cc }

-- ===== src/Handler/View.antt =====
-- The cache without its pointers, and that messages allocated later do not change it.
use mathlib.Core.Path.{fun_ext}
use resolvit.Prelude.{
  ℕ, ◌≡◌, refl, ap, inl, inr, Option, none, some, List, [], ◌∷◌, get_elem?, Bool-cases,
  Option-cases,
}
use resolvit.Go.Text.{Text, text_eq}
use resolvit.Go.Dict.{lookup, lookup-insert}
use resolvit.Go.Heap.{get_elem?-append_some, get_elem?-snoc}
use resolvit.Dns.{Msg}
use resolvit.DnsCache.{CacheEntry}
use resolvit.Handler.{Env, World}
use resolvit.Handler.Respond.{sent, after_respond, after_cache, entry}
use resolvit.Handler.Total.{IsSound}
use resolvit.Handler.Spec.{Held, View, update, held_of}

abbrev pub held_at : ℕ → Option Msg → Option Held
held_at t none = none
held_at t (some m) = some (record { msg = m; expires_at = t })

abbrev pub held_by : List Msg → Option CacheEntry → Option Held
held_by heap none = none
held_by heap (some e) = held_at e.expires_at (get_elem? heap e.msg)

-- The cache without its pointers.
abbrev pub view : World → View
view w key = held_by w.heap (lookup key w.cache)

module _ (env : Env) (w : World) (m : Msg) (s : IsSound w) where
  pub view-after_respond : view (after_respond env w m) ≡ view w
  view-after_respond = fun_ext λ key. elim (Option-cases (lookup key w.cache)) [
    | inl e ↦ rw e refl
    | inr (e, hit) ↦
        let (m', found, n) = s.cached key e hit in
        rw (hit, get_elem?-append_some w.heap (sent env w m ∷ []) e.msg m' found, found) refl
  ]

  pub view-after_cache :
      (key : Text) → view (after_cache env w m key) ≡ update (view w) key (held_of env m)
  view-after_cache key = fun_ext λ k. elim (Bool-cases (text_eq key k)) [
    | inl e ↦
        rw (lookup-insert key k (entry env w m) w.cache, e, get_elem?-snoc w.heap (sent env w m))
          refl
    | inr e ↦ rw (lookup-insert key k (entry env w m) w.cache, e) (ap (λ f. f k) view-after_respond)
  ]

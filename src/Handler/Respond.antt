-- ===== src/Handler/Respond.antt =====
-- What the two ways to answer a request do to the world: the message is allocated, cut in place where
-- it is too long, and written.
use resolvit.Prelude.{◌+◌, ◌≡◌, refl, [], ◌∷◌, ◌++◌, length}
use resolvit.Go.Text.{Text}
use resolvit.Go.Dict.{insert}
use resolvit.Go.Heap.{get_elem?-snoc, set-snoc}
use resolvit.Go.Outcome.{done}
use resolvit.Dns.{Msg}
use resolvit.DnsCache
use resolvit.DnsCache.{Cache, CacheEntry, ttl_of}
use resolvit.Handler.{Env, World, is_tcp, respond, cache_and_respond}
use resolvit.Handler.Fit.{fit}

module _ (env : Env) (w : World) (m : Msg) where
  -- The message as the client gets it.
  abbrev pub sent : Msg
  sent = fit env.lib (is_tcp env) m

  abbrev pub after_respond : World
  after_respond = record w { heap = w.heap ++ sent ∷ []; written = w.written ++ sent ∷ [] }

  pub respond_lem : respond env w m ≡ done after_respond
  unfolding respond
  respond_lem = rw (get_elem?-snoc w.heap m, set-snoc w.heap m sent) refl

  -- The expiry is counted before the answers are cut; the entry holds the message after that.
  abbrev pub entry : CacheEntry
  entry = record { msg = length w.heap; expires_at = env.now_set + ttl_of m.answer }

  abbrev pub after_cache : Text → World
  after_cache key = record after_respond { cache = insert key entry w.cache }

  pub cache_and_respond_lem : (key : Text) → cache_and_respond env key w m ≡ done (after_cache key)
  unfolding cache_and_respond DnsCache.set
  cache_and_respond_lem key = rw (get_elem?-snoc w.heap m, set-snoc w.heap m sent) refl

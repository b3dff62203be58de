-- ===== src/Tests/Caching.antt =====
-- The cache of responses.
use resolvit.Prelude.{◌+◌, ◌≡◌, refl, [], ◌∷◌, arith}
use resolvit.Go.Text.{codes, text_eq}
use resolvit.Go.Dict.{lookup, insert}
use resolvit.Go.Outcome.{panic}
use resolvit.Dns.{Msg, Question, other, new_msg}
use resolvit.DnsCache.{Cache, get, ttl_of}
use resolvit.DnsCache.Laws.{get_expired_panics}

abbrev asked : Question
asked = record { name = codes "a.org."; qtype = 28; qclass = 1 }

abbrev reply : Msg
reply = record new_msg {
  question = asked ∷ [];
  answer = other (record { name = codes "a.org."; rrtype = 28; class = 1; ttl = 30 }) [] ∷ [];
}

abbrev stored : Cache
stored = insert (codes "k") (record { msg = 0; expires_at = 100 + ttl_of reply.answer }) []

abbrev unasked : Cache
unasked = insert (codes "k") (record { msg = 0; expires_at = 5 }) []

get_expired_panics_example : get (new_msg ∷ []) unasked 6 (codes "k") ≡ panic
unfolding lookup insert text_eq
get_expired_panics_example =
    get_expired_panics (new_msg ∷ []) unasked 6 (codes "k") (record { msg = 0; expires_at = 5 })
      new_msg refl refl refl (omega arith)

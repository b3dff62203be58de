-- ===== src/Handler/Stages.antt =====
-- How a request reaches each of its stages.
use resolvit.Prelude.{ℕ, ◌≡◌, refl, ap, ◌∙◌, true, false, Option, none, some, List, ◌∷◌}
use resolvit.Go.Text.{text_eq}
use resolvit.Go.Text.Equality.{text_eq_refl}
use resolvit.Go.Outcome.{done}
use resolvit.Dns.{Msg, Question}
use resolvit.Records
use resolvit.Records.{Record, cname_type, a_type}
use resolvit.Filtering.Filter.{should_block}
use resolvit.Handler.{
  Env, World, key_of, handle_cname, handle_a, handle_record, handle_local_record, check_cache,
  handle_cached, handle_remote, handle_question, handle_dns_request, cache_and_respond,
  handle_checked, handle_blocked,
}
use resolvit.Handler.Local.{cname_ne_a}

module _ (env : Env) (fuel : ℕ) (r : Msg) (q : Question) (qs : List Question) (w : World)
    (asked : r.question ≡ q ∷ qs) where
  pub to_local :
      (local : Option Msg)
      → handle_local_record env fuel r q ≡ done local
      → handle_dns_request env fuel (some r) w ≡ handle_checked env (key_of env q) r q w local
  unfolding handle_dns_request handle_question
  to_local local h = ap (λ x. handle_question env fuel r x w) asked ∙ rw h refl

  -- A name without a local record goes on to the filter.
  pub to_remote :
      Records.get env.records q.name ≡ none
      → handle_dns_request env fuel (some r) w ≡ handle_remote env (key_of env q) r q w
  unfolding handle_local_record handle_record handle_checked
  to_remote miss = to_local none (rw miss refl)

  -- A blocked name goes no further.
  pub to_blocked :
      Records.get env.records q.name ≡ none
      → should_block env.filter q.name ≡ true
      → handle_dns_request env fuel (some r) w ≡ handle_blocked env r q w
  unfolding handle_remote
  to_blocked miss blocked = to_remote miss ∙ (rw blocked refl)

  -- Any other goes on to the cache.
  pub to_cache :
      (found : Option Msg)
      → Records.get env.records q.name ≡ none
      → should_block env.filter q.name ≡ false
      → check_cache env w (key_of env q) r.id ≡ done found
      → handle_dns_request env fuel (some r) w ≡ handle_cached env (key_of env q) r w found
  unfolding handle_remote
  to_cache found miss open_ checked = to_remote miss ∙ (rw (open_, checked) refl)

  -- A local address record answers by itself.
  pub to_address :
      (found : Record)
      → Records.get env.records q.name ≡ some found
      → found.typ ≡ a_type
      → handle_dns_request env fuel (some r) w
        ≡ cache_and_respond env (key_of env q) w (handle_a env r q found)
  unfolding handle_local_record handle_record handle_checked
  to_address found hit typ =
      to_local (some (handle_a env r q found)) (rw (hit, handle_record, not_alias, is_address) refl)
    where
      not_alias : text_eq found.typ cname_type ≡ false
      not_alias = rw typ cname_ne_a

      is_address : text_eq found.typ a_type ≡ true
      is_address = rw typ (text_eq_refl a_type)

  -- So does an alias, once its chain is followed.
  pub to_alias :
      (found : Record) (m : Msg)
      → Records.get env.records q.name ≡ some found
      → found.typ ≡ cname_type
      → handle_cname env fuel r q found ≡ done m
      → handle_dns_request env fuel (some r) w ≡ cache_and_respond env (key_of env q) w m
  unfolding handle_local_record handle_record handle_checked
  to_alias found m hit typ chased =
      to_local (some m) (rw (hit, handle_record, is_alias, chased) refl)
    where
      is_alias : text_eq found.typ cname_type ≡ true
      is_alias = rw typ (text_eq_refl cname_type)

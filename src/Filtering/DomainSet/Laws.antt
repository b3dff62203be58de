-- ===== src/Filtering/DomainSet/Laws.antt =====
-- Membership after `AddExact`, `AddWildcard` and `Merge`, on the level of the maps.
use resolvit.Prelude.{◌≡◌, ◌||◌, some, [], ◌∷◌, arith}
use resolvit.Go.Text.{Text, text_eq}
use resolvit.Go.Dict.{lookup, insert, has, lookup-insert}
use resolvit.Filtering.DomainSet.{Domains, DomainSet, insert_all, merge}

pub has-insert :
    (k domain : Text) (s : Domains) → has k (insert domain tt s) ≡ (text_eq domain k || has k s)
has-insert k domain s = ground (arith, lookup-insert domain k tt s)

pub has-insert_all :
    (k : Text) (s other : Domains) → has k (insert_all s other) ≡ (has k s || has k other)
unfolding insert_all lookup
has-insert_all k s [] = ground arith
has-insert_all k s ((domain, u) ∷ other) =
    ground (arith, has-insert_all k (insert domain tt s) other, has-insert k domain s)

-- A merge has the members of both sets, exact and wildcard.
pub has-merge :
    (k : Text) (s other : DomainSet)
    → (has k (merge s (some other)).exact ≡ (has k s.exact || has k other.exact))
      × (has k (merge s (some other)).wildcards ≡ (has k s.wildcards || has k other.wildcards))
unfolding merge
has-merge k s other =
    (has-insert_all k s.exact other.exact, has-insert_all k s.wildcards other.wildcards)

-- ===== src/Filtering/Filter.antt =====
-- The decision part of pkg/filtering/filter.go: a filter with the sets that it holds at the moment.
-- The two atomic values are fields, each `none` before a store.
pub mod Decision
use resolvit.Prelude.{
  ℕ, Bool, true, false, Option, none, some, List, not, ◌||◌, if◌then◌else◌, ◌≡◌, refl,
}
use resolvit.Go.Text.{Text}
use resolvit.Go.Int.{ℤ}
use resolvit.Filtering.DomainSet.{DomainSet, new_domain_set, matches}

-- pkg/filtering/types.go
pub record AuthConfig : Type 0 where
  pub username : Text
  pub password : Text
  pub token : Text
  pub header : Text
  pub scheme : Text

pub record Source : Type 0 where
  pub id : Text
  pub location : Text
  pub enabled : Bool
  pub auth : AuthConfig

-- `has_blocked_log` says whether the log of blocked queries could be opened.
pub record Filter : Type 0 where
  pub enabled : Bool
  pub block_subdomains : Bool
  pub allowlist_path : Text
  pub sources : List Source
  pub cache_dir : Text
  pub update_interval : ℤ
  pub error_limit : ℤ
  pub has_blocked_log : Bool
  pub blocklist : Option DomainSet
  pub allowlist : Option DomainSet

or_empty : Option DomainSet → DomainSet
or_empty none = new_domain_set
or_empty (some s) = s

unfoldable pub current_blocklist : Filter → DomainSet
unfolding or_empty
current_blocklist f = or_empty f.blocklist

unfoldable pub current_allowlist : Filter → DomainSet
unfolding or_empty
current_allowlist f = or_empty f.allowlist

-- A nil filter blocks nothing.
unfoldable pub should_block : Option Filter → Text → Bool
unfolding current_blocklist current_allowlist
should_block none name = false
should_block (some f) name =
    if not f.enabled
    then false
    else if matches (some (current_allowlist f)) name f.block_subdomains
    then false
    else matches (some (current_blocklist f)) name f.block_subdomains

-- A line of the log of blocked queries, but for its time.
pub record BlockedEntry : Type 0 where
  pub client : Text
  pub qtype : ℕ
  pub name : Text

-- The entries that `LogBlocked` writes.
unfoldable pub log_blocked : Option Filter → Text → Text → ℕ → List BlockedEntry
log_blocked none remote_addr name qtype = List.[]
log_blocked (some f) remote_addr name qtype =
    if not f.enabled || not f.has_blocked_log
    then List.[]
    else List.◌∷◌ (record { client = remote_addr; qtype = qtype; name = name }) List.[]

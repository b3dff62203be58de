-- ===== src/DnsCache.antt =====
-- pkg/dnscache/dnscache.go: the cache of responses. An entry points at a message of the heap, which
-- its writers share. Times are in nanoseconds; the mutex makes each method one step.
pub mod Laws
use resolvit.Prelude.{
  ℕ, ◌+◌, ◌*◌, ◌^◌, ◌≡◌, refl, Option, none, some, List, [], ◌∷◌, ltb, if◌then◌else◌, get_elem?,
}
use resolvit.Go.Text.{Text}
use resolvit.Go.Dict.{Dict, lookup, insert}
use resolvit.Go.Heap.{Ptr}
use resolvit.Go.Outcome.{Outcome, done, panic}
use resolvit.Dns.{Msg, Question, Rr, header}

pub record CacheEntry : Type 0 where
  pub msg : Ptr
  pub expires_at : ℕ

abbrev pub Cache : Type 0
Cache = Dict CacheEntry

abbrev pub new : Cache
new = []

abbrev pub second : ℕ
second = 1_000_000_000

-- `entry.Msg.Question[0].Name` in the arguments of the log call
unfoldable pub log_question : List Question → Outcome (Option Ptr)
log_question [] = panic
log_question (q ∷ qs) = done none

log_expired : Option Msg → Outcome (Option Ptr)
unfolding log_question
log_expired none = panic
log_expired (some m) = log_question m.question

get_entry : List Msg → ℕ → Option CacheEntry → Outcome (Option Ptr)
unfolding log_expired
get_entry heap now none = done none
get_entry heap now (some entry) =
    if ltb entry.expires_at now
    then log_expired (get_elem? heap entry.msg)
    else done (some entry.msg)

unfoldable pub get : List Msg → Cache → ℕ → Text → Outcome (Option Ptr)
unfolding get_entry
get heap cache now key = get_entry heap now (lookup key cache)

-- The time to live of a response with these answers.
unfoldable pub ttl_of : List Rr → ℕ
ttl_of [] = 60 * second
ttl_of (rr ∷ rrs) = (header rr).ttl * second

set_msg : Cache → ℕ → Text → Ptr → Option Msg → Outcome Cache
unfolding ttl_of
set_msg cache now key p none = panic
set_msg cache now key p (some m) =
    done (insert key (record { msg = p; expires_at = now + ttl_of m.answer }) cache)

-- A nil message is a panic: its answers are read.
unfoldable pub set : List Msg → Cache → ℕ → Text → Option Ptr → Outcome Cache
unfolding set_msg
set heap cache now key none = panic
set heap cache now key (some p) = set_msg cache now key p (get_elem? heap p)

unfoldable pub clear : Cache → Cache
clear cache = []

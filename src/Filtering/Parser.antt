-- ===== src/Filtering/Parser.antt =====
-- pkg/filtering/parser.go: a list, line by line, into a domain set. `dns.IsDomainName` is a
-- parameter. A set, the statistics and the limiter are changed in place there; here they are the
-- fields of a `Progress` with the lines of the log. The list's id, which a log line also has, is
-- left out.
pub mod Tokens
pub mod Counts
pub mod Limits
pub mod Blocking
use resolvit.Prelude.{
  ℕ, zero, suc, ◌+◌, ◌≡◌, refl, Bool, true, false, not, ◌&&◌, ◌||◌, Option, none, some, List, [],
  ◌∷◌, ◌++◌, ltb, leb, if◌then◌else◌, is_some,
}
use resolvit.Go.Text.{
  Text, codes, dot, is_empty, to_lower, trim_space, has_prefix, trim_prefix, contains,
  trim_dot_suffix, fields,
}
use resolvit.Go.Int.{ℤ, pos, negsuc, is_zero, is_positive}
use resolvit.Go.Ip.{parse_ip}
use resolvit.Go.Scan.{File}
use resolvit.Filtering.DomainSet.{DomainSet, new_domain_set, add_exact, add_wildcard}

pub data ParseError : Type 0 where
  empty_entry invalid_hostname ip_literal empty_domain invalid_domain : ParseError

-- A value or an error.
pub data Result (A : Type 0) : Type 0 where
  ok : A → Result A
  err : ParseError → Result A

pub record ParseStats : Type 0 where
  pub total_lines : ℕ
  pub domains : ℕ
  pub invalid : ℕ

pub record ErrorLimiter : Type 0 where
  pub limit : ℤ
  pub count : ℕ

pub data LogLine : Type 0 where
  -- "invalid blocklist entry": the line's number, the entry and the error
  invalid_line : ℕ → Text → ParseError → LogLine
  -- "blocklist parsing errors suppressed": the errors and the limit
  suppressed : ℕ → ℤ → LogLine
  -- "parsed blocklist": the domains and the invalid entries
  parsed : ℕ → ℕ → LogLine

pub record Progress : Type 0 where
  pub set : DomainSet
  pub stats : ParseStats
  pub limiter : ErrorLimiter
  pub log : List LogLine

abbrev pub bom : Text
bom = 0xfeff ∷ []

unfoldable pub strip_bom : Text → Text
strip_bom line = trim_prefix line bom

-- `isCommentLine` and `isCommentToken`, which are the same tests
unfoldable pub is_comment : Text → Bool
is_comment s = has_prefix s (codes "#") || has_prefix s (codes "//") || has_prefix s (codes ";")

unfoldable pub log_error : ErrorLimiter → ℕ → Text → ParseError → ErrorLimiter × List LogLine
log_error l line_num token e =
    let counted = record l { count = l.count + 1 } in
    if is_zero l.limit
    then (l, [])
    else if is_positive l.limit && reached l.limit l.count
    then (counted, [])
    else (counted, invalid_line line_num token e ∷ [])
  where
    -- l.count >= l.limit
    reached : ℤ → ℕ → Bool
    reached (pos n) count = leb n count
    reached (negsuc n) count = true

-- The warning at the end.
unfoldable pub summary : ErrorLimiter → ℕ → List LogLine
summary l invalid =
    if not (is_positive l.limit)
    then []
    else if exceeds l.limit invalid
    then suppressed invalid l.limit ∷ []
    else []
  where
    -- invalid > l.limit
    exceeds : ℤ → ℕ → Bool
    exceeds (pos n) invalid = ltb n invalid
    exceeds (negsuc n) invalid = true

module _ (is_domain_name : Text → Bool) where
  unfoldable pub normalize_domain : Text → Result Text
  normalize_domain name =
      let trimmed = trim_space name in
      let lowered = to_lower (trim_dot_suffix trimmed) in
      if is_empty trimmed
      then err empty_domain
      else if is_empty lowered
      then err empty_domain
      else if not (is_domain_name lowered)
      then err invalid_domain
      else ok lowered

  abbrev pub add_canonical : (Text → DomainSet) → Result Text → Result DomainSet
  add_canonical add (ok canonical) = ok (add canonical)
  add_canonical add (err e) = err e

  unfoldable pub add_token : DomainSet → Text → Result DomainSet
  add_token set token =
      let name = trim_space token in
      if is_empty name
      then err empty_entry
      else if contains name (codes "://") || contains name (codes "/") || contains name (codes ":")
      then err invalid_hostname
      else if is_some (parse_ip name)
      then err ip_literal
      else if has_prefix name (codes "*.")
      then add_canonical (add_wildcard set) (normalize_domain (trim_prefix name (codes "*.")))
      else add_canonical (add_exact set) (normalize_domain name)

  unfoldable pub record_token : Progress → ℕ → Text → Result DomainSet → Progress
  unfolding log_error
  record_token p line_num token (ok set) = record p {
    set = set;
    stats = record p.stats { domains = p.stats.domains + 1 };
  }
  record_token p line_num token (err e) =
      let (limiter, lines) = log_error p.limiter line_num token e in
      record p {
        stats = record p.stats { invalid = p.stats.invalid + 1 };
        limiter = limiter;
        log = p.log ++ lines;
      }

  unfoldable pub add_tokens : Progress → ℕ → List Text → Progress
  unfolding record_token add_token is_comment
  add_tokens p line_num [] = p
  add_tokens p line_num (token ∷ tokens) = elim (is_comment token) [
    | true ↦ p
    | false ↦ add_tokens (record_token p line_num token (add_token p.set token)) line_num tokens
  ]

  -- The tokens of a line: an address in front is left out.
  unfoldable pub entries : List Text → List Text
  entries [] = []
  entries (f ∷ fs) = if is_some (parse_ip f) then fs else f ∷ fs

  unfoldable pub parse_line : Progress → ℕ → Text → Progress
  unfolding add_tokens entries strip_bom is_comment
  parse_line p line_num text =
      let line = trim_space (strip_bom text) in
      let counted = record p { stats = record p.stats { total_lines = p.stats.total_lines + 1 } } in
      if is_empty line
      then counted
      else if is_comment line
      then counted
      else add_tokens counted line_num (entries (fields line))

  unfoldable pub parse_lines : Progress → ℕ → List Text → Progress
  unfolding parse_line
  parse_lines p line_num [] = p
  parse_lines p line_num (text ∷ rest) =
      parse_lines (parse_line p line_num text) (line_num + 1) rest

  abbrev pub begin_parse : ℤ → Progress
  begin_parse limit = record {
    set = new_domain_set;
    stats = record { total_lines = 0; domains = 0; invalid = 0 };
    limiter = record { limit = limit; count = 0 };
    log = [];
  }

  -- The set, unless the scan fails, and the log.
  unfoldable pub parse_list : File → ℤ → Option DomainSet × List LogLine
  unfolding parse_lines summary
  parse_list file limit =
      let p = parse_lines (begin_parse limit) 1 file.lines in
      if file.scan_fails then (none, p.log) else (
        some p.set,
        p.log ++ (summary p.limiter p.stats.invalid ++ parsed p.stats.domains p.stats.invalid ∷ []),
      )

-- ===== src/Filtering/Parser/Limits.antt =====
-- What a parse logs and counts.
use resolvit.Prelude.{
  ℕ, zero, suc, ◌+◌, ◌≡◌, refl, sym, ap, subst, ◌∙◌, Bool, true, false, List, [], ◌∷◌, ◌++◌,
  if◌then◌else◌, arith, Bool-cases, inl, inr, append_assoc, append-nil, is_some,
}
use resolvit.Go.Text.{Text, is_empty, trim_space, fields}
use resolvit.Go.Int.{ℤ, pos, negsuc, is_zero}
use resolvit.Go.Scan.{File}
use resolvit.Filtering.DomainSet.{DomainSet}
use resolvit.Filtering.Parser.{
  Result, ok, err, ParseError, Progress, LogLine, invalid_line, suppressed, parsed, log_error,
  ErrorLimiter, summary, record_token, add_token, add_tokens, entries, is_comment, strip_bom,
  parse_line, parse_lines, parse_list, begin_parse,
}
use resolvit.Filtering.Parser.Counts.{
  allowed, hides, valid_in, invalid_in, valid_in-append, invalid_in-append, invalid_tokens,
  logged_tokens, first_of, logged_tokens-append, invalid_tokens-append, length-invalid_tokens,
  log_error-tokens,
}
use resolvit.Filtering.Parser.Tokens.{
  entry_of, is_ok, is_ok-add_token, before_comment, line_tokens, list_tokens,
}

abbrev pub warnings_in : List LogLine → ℕ
warnings_in [] = 0
warnings_in (invalid_line n token e ∷ log) = warnings_in log
warnings_in (suppressed n limit ∷ log) = suc (warnings_in log)
warnings_in (parsed n m ∷ log) = warnings_in log

warnings_in-append : (l m : List LogLine) → warnings_in (l ++ m) ≡ warnings_in l + warnings_in m
warnings_in-append [] m = omega arith
warnings_in-append (invalid_line n t e ∷ l) m = warnings_in-append l m
warnings_in-append (suppressed n t ∷ l) m = omega (arith, warnings_in-append l m)
warnings_in-append (parsed n t ∷ l) m = warnings_in-append l m

-- The state of a parse under a limit after these tokens.
record IsCounted (is_domain_name : Text → Bool) (limit : ℤ) (tokens : List Text) (p : Progress)
    : Type 0 where
  same_limit : p.limiter.limit ≡ limit
  valid_counted : p.stats.domains ≡ valid_in is_domain_name tokens
  invalid_counted : p.stats.invalid ≡ invalid_in is_domain_name tokens
  tokens_logged :
      logged_tokens p.log
      ≡ first_of (allowed p.limiter.limit p.stats.invalid) (invalid_tokens is_domain_name tokens)
  no_warnings : warnings_in p.log ≡ 0
  limiter_count : p.limiter.count ≡ (if is_zero p.limiter.limit then 0 else p.stats.invalid)

-- One more invalid entry.
log_error_lem :
    (limit : ℤ) (count n invalid : ℕ) (token : Text) (e : ParseError)
    → count ≡ (if is_zero limit then 0 else invalid)
    → let r = log_error (record { limit = limit; count = count }) n token e in
      (r.0.limit ≡ limit)
      × (r.0.count ≡ (if is_zero r.0.limit then 0 else invalid + 1))
      × (warnings_in r.1 ≡ 0)
unfolding log_error
log_error_lem (pos zero) count n invalid token e c = (refl, c, refl)
log_error_lem (pos (suc k)) count n invalid token e c = (ground arith, ground arith, ground arith)
log_error_lem (negsuc k) count n invalid token e c = (refl, ground arith, refl)

module _ (is_domain_name : Text → Bool) (limit : ℤ) where
  valid_token :
      (tokens : List Text) (t : Text)
      → is_some (entry_of is_domain_name t) ≡ true
      → invalid_tokens is_domain_name (tokens ++ t ∷ []) ≡ invalid_tokens is_domain_name tokens
  valid_token tokens t e =
      invalid_tokens-append is_domain_name tokens (t ∷ [])
      ∙ rw e (append-nil (invalid_tokens is_domain_name tokens))

  invalid_token :
      (tokens : List Text) (t : Text)
      → is_some (entry_of is_domain_name t) ≡ false
      → invalid_tokens is_domain_name (tokens ++ t ∷ [])
        ≡ invalid_tokens is_domain_name tokens ++ t ∷ []
  invalid_token tokens t e = invalid_tokens-append is_domain_name tokens (t ∷ []) ∙ rw e refl

  record_token-IsCounted :
      (tokens : List Text) (p : Progress) (n : ℕ) (token : Text) (r : Result DomainSet)
      → is_ok r ≡ is_some (entry_of is_domain_name token)
      → IsCounted is_domain_name limit tokens p
      → IsCounted is_domain_name limit
          (tokens ++ token ∷ [])
          (record_token is_domain_name p n token r)
  unfolding record_token
  record_token-IsCounted tokens p n token (ok s) valid i = record {
    same_limit = i.same_limit;
    valid_counted =
        let h = i.valid_counted in
        ground (arith, valid_in-append is_domain_name tokens (token ∷ []));
    invalid_counted =
        let h = i.invalid_counted in
        ground (arith, invalid_in-append is_domain_name tokens (token ∷ []));
    tokens_logged =
        i.tokens_logged
        ∙ ap (first_of (allowed p.limiter.limit p.stats.invalid))
            (sym (valid_token tokens token (sym valid)));
    no_warnings = i.no_warnings;
    limiter_count = i.limiter_count;
  }
  record_token-IsCounted tokens p n token (err e) valid i =
      let l =
        log_error_lem p.limiter.limit p.limiter.count n p.stats.invalid token e i.limiter_count in
      let r = log_error p.limiter n token e in
      record {
        same_limit = l.0 ∙ i.same_limit;
        valid_counted =
            let h = i.valid_counted in
            ground (arith, valid_in-append is_domain_name tokens (token ∷ []));
        invalid_counted =
            let h = i.invalid_counted in
            ground (arith, invalid_in-append is_domain_name tokens (token ∷ []));
        tokens_logged =
            logged_tokens-append p.log r.1
            ∙ ap (λ l. l ++ logged_tokens r.1) i.tokens_logged
            ∙ log_error-tokens p.limiter.limit p.limiter.count n p.stats.invalid token e
                (invalid_tokens is_domain_name tokens) i.limiter_count
                (i.invalid_counted ∙ sym (length-invalid_tokens is_domain_name tokens))
            ∙ ap (first_of (allowed r.0.limit (p.stats.invalid + 1)))
                (sym (invalid_token tokens token (sym valid)));
        no_warnings =
            let h = i.no_warnings in let k = l.2 in omega (arith, warnings_in-append p.log r.1);
        limiter_count = l.1;
      }

  moved :
      (tokens total : List Text) (p : Progress)
      → tokens ++ [] ≡ total
      → IsCounted is_domain_name limit tokens p
      → IsCounted is_domain_name limit total p
  moved tokens total p e =
      subst (λ k. IsCounted is_domain_name limit k p) (sym (append-nil tokens) ∙ e)

  add_tokens-IsCounted :
      (tokens total : List Text) (p : Progress) (n : ℕ) (ts : List Text)
      → tokens ++ before_comment is_domain_name ts ≡ total
      → IsCounted is_domain_name limit tokens p
      → IsCounted is_domain_name limit total (add_tokens is_domain_name p n ts)
  unfolding add_tokens resolvit.Go.Text.has_prefix
  add_tokens-IsCounted tokens total p n [] e i = moved tokens total p e i
  add_tokens-IsCounted tokens total p n (t ∷ ts) e i =
      let added = add_token is_domain_name p.set t in
      let p' = record_token is_domain_name p n t added in
      elim (Bool-cases (is_comment t)) [
        | inl c ↦ rw (c, add_tokens) (moved tokens total p (rw c at e) i)
        | inr c ↦
            let e' : tokens ++ t ∷ before_comment is_domain_name ts ≡ total = rw c at e in
            rw (c, add_tokens)
              (add_tokens-IsCounted (tokens ++ t ∷ []) total p' n ts
                (append_assoc tokens (t ∷ []) (before_comment is_domain_name ts) ∙ e')
                (record_token-IsCounted tokens p n t added (is_ok-add_token is_domain_name p.set t)
                  i))
      ]

  parse_line-IsCounted :
      (tokens : List Text) (p : Progress) (n : ℕ) (text : Text)
      → IsCounted is_domain_name limit tokens p
      → IsCounted is_domain_name limit
          (tokens ++ line_tokens is_domain_name text)
          (parse_line is_domain_name p n text)
  unfolding parse_line
  parse_line-IsCounted tokens p n text i =
      let line = trim_space (strip_bom text) in
      let counted : Progress = record p {
        stats = record p.stats { total_lines = p.stats.total_lines + 1 };
      } in
      let j : IsCounted is_domain_name limit tokens counted = record {
        same_limit = i.same_limit;
        valid_counted = i.valid_counted;
        invalid_counted = i.invalid_counted;
        tokens_logged = i.tokens_logged;
        no_warnings = i.no_warnings;
        limiter_count = i.limiter_count;
      } in
      elim (Bool-cases (is_empty line)) [
        | inl e ↦ rw (e, parse_line) (moved tokens (tokens ++ []) counted refl j)
        | inr e ↦ elim (Bool-cases (is_comment line)) [
          | inl c ↦ rw (e, c, parse_line) (moved tokens (tokens ++ []) counted refl j)
          | inr c ↦
              rw (e, c, parse_line)
                (add_tokens-IsCounted tokens
                  (tokens ++ before_comment is_domain_name (entries is_domain_name (fields line)))
                  counted n (entries is_domain_name (fields line)) refl j)
        ]
      ]

  parse_lines-IsCounted :
      (tokens total : List Text) (p : Progress) (n : ℕ) (lines : List Text)
      → tokens ++ list_tokens is_domain_name lines ≡ total
      → IsCounted is_domain_name limit tokens p
      → IsCounted is_domain_name limit total (parse_lines is_domain_name p n lines)
  unfolding parse_lines
  parse_lines-IsCounted tokens total p n [] e i = moved tokens total p e i
  parse_lines-IsCounted tokens total p n (text ∷ rest) e i =
      parse_lines-IsCounted (tokens ++ line_tokens is_domain_name text) total
        (parse_line is_domain_name p n text) (n + 1) rest
        (append_assoc tokens (line_tokens is_domain_name text) (list_tokens is_domain_name rest)
          ∙ e)
        (parse_line-IsCounted tokens p n text i)

  begin_parse-IsCounted : IsCounted is_domain_name limit [] (begin_parse is_domain_name limit)
  begin_parse-IsCounted = record {
    same_limit = refl;
    valid_counted = refl;
    invalid_counted = refl;
    tokens_logged = ground arith;
    no_warnings = refl;
    limiter_count = ground arith;
  }

summary_lem :
    (limit : ℤ) (count invalid : ℕ)
    → let log = summary (record { limit = limit; count = count }) invalid in
      warnings_in log ≡ (if hides limit invalid then 1 else 0)
unfolding summary
summary_lem (pos zero) count invalid = refl
summary_lem (pos (suc k)) count invalid = ground arith
summary_lem (negsuc k) count invalid = refl

summary_tokens : (l : ErrorLimiter) (invalid : ℕ) → logged_tokens (summary l invalid) ≡ []
unfolding summary
summary_tokens l invalid = ground arith

-- The log of a parse of a file that is read to its end, for the tokens outside the comments: its
-- last line counts the tokens that stand for an entry as domains and the others as invalid; the
-- tokens that are logged as invalid are the first that stand for no entry, in their order, as many
-- as the limit allows, none for a limit of zero and all for a negative one; and there is one warning
-- if a positive limit is exceeded and else none.
pub parse_list_log :
    (is_domain_name : Text → Bool) (file : File) (limit : ℤ)
    → file.scan_fails ≡ false
    → let tokens = list_tokens is_domain_name file.lines in
      let domains = valid_in is_domain_name tokens in
      let invalid = invalid_in is_domain_name tokens in
      (front : List LogLine) × ((parse_list is_domain_name file limit).1
        ≡ front ++ parsed domains invalid ∷ [])
      × (logged_tokens front
          ≡ first_of (allowed limit invalid) (invalid_tokens is_domain_name tokens))
      × (warnings_in front ≡ (if hides limit invalid then 1 else 0))
unfolding parse_list
parse_list_log is_domain_name file limit f =
    let p = parse_lines is_domain_name (begin_parse is_domain_name limit) 1 file.lines in
    let total = list_tokens is_domain_name file.lines in
    let i =
      parse_lines-IsCounted is_domain_name limit [] total (begin_parse is_domain_name limit) 1
        file.lines refl (begin_parse-IsCounted is_domain_name limit) in
    let last = summary p.limiter p.stats.invalid in
    let s = summary_lem p.limiter.limit p.limiter.count p.stats.invalid in
    let none_yet = i.no_warnings in
    (
      p.log ++ last,
      rw f (sym (append_assoc p.log last (parsed p.stats.domains p.stats.invalid ∷ [])))
          ∙ ap (λ k. (p.log ++ last) ++ parsed k p.stats.invalid ∷ []) i.valid_counted
          ∙ ap (λ k. (p.log ++ last) ++ parsed (valid_in is_domain_name total) k ∷ [])
              i.invalid_counted,
      logged_tokens-append p.log last
          ∙ ap (λ l. logged_tokens p.log ++ l) (summary_tokens p.limiter p.stats.invalid)
          ∙ append-nil (logged_tokens p.log)
          ∙ i.tokens_logged
          ∙ ap (λ l. first_of (allowed l p.stats.invalid) (invalid_tokens is_domain_name total))
              i.same_limit
          ∙ ap (λ k. first_of (allowed limit k) (invalid_tokens is_domain_name total))
              i.invalid_counted,
      (warnings_in-append p.log last ∙ omega arith)
          ∙ s
          ∙ ap (λ l. if hides l p.stats.invalid then 1 else 0) i.same_limit
          ∙ ap (λ k. if hides limit k then 1 else 0) i.invalid_counted,
    )

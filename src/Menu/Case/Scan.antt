-- ===== src/Menu/Case/Scan.antt =====
-- Upper case and the `N` command of rust/src/app/menu_command/files.rs.
use nextexpress.Prelude.{
  ◌≡◌, refl, ap, ◌∙◌, List, [], ◌∷◌, Option, none, some, arith, if◌then◌else◌, codes,
}
use nextexpress.Text.{Text}
use nextexpress.Menu.Line.{is_digit, to_upper}
use nextexpress.Menu.Command.{FileSpan, NewFilesArg, ScanRequest, parse_span_token}
use nextexpress.Menu.Files.{
  parse_days_back, parse_newest_count, parse_date_token, scan_flags, scan_resolved, scan_dir,
  scan_number, scan_found, scan_shaped, scan_tokens,
}
use nextexpress.Menu.Case.Line.{
  is_digit-upper, all-to_upper, eq_ignore_case-to_upper, text_eq-to_upper,
}
use nextexpress.Menu.Case.Arguments.{upper_all, parse_span_token-to_upper}
use nextexpress.Menu.Case.Files.{
  parse_days_back-to_upper, parse_newest_count-to_upper, parse_date_token-to_upper, flags-to_upper,
  no_more-to_upper,
}

scan_flags-to_upper :
    (request : ScanRequest) (span : Option FileSpan) (ts : List Text)
    → scan_flags request span (upper_all ts) ≡ scan_flags request span ts
scan_flags-to_upper request span ts =
    flags-to_upper
      (λ quick non_stop end.
        if end
        then NewFilesArg.scan
            (record { request = request; span = span; quick = quick; non_stop = non_stop })
        else NewFilesArg.invalid)
      ts

scan_resolved-to_upper :
    (request : ScanRequest) (span : Option FileSpan) (ts : List Text)
    → scan_resolved request span (upper_all ts) ≡ scan_resolved request span ts
scan_resolved-to_upper request none ts = refl
scan_resolved-to_upper request (some span) ts = scan_flags-to_upper request (some span) ts

scan_dir-to_upper :
    (request : ScanRequest) (ts : List Text) → scan_dir request (upper_all ts) ≡ scan_dir request ts
scan_dir-to_upper request [] = refl
scan_dir-to_upper request (t ∷ ts) = ground (
  arith,
  eq_ignore_case-to_upper t (codes "Q"),
  eq_ignore_case-to_upper t (codes "NS"),
  parse_span_token-to_upper t,
  scan_resolved-to_upper request (parse_span_token t) ts,
  scan_flags-to_upper request none (t ∷ ts),
)

scan_found-to_upper :
    {A : Type 0} (request : A → ScanRequest) (o p : Option A) (ts : List Text) (r s : NewFilesArg)
    → o ≡ p
    → r ≡ s
    → scan_found request o (upper_all ts) r ≡ scan_found request p ts s
scan_found-to_upper request o none ts r s e h =
    ap (λ q. scan_found request q (upper_all ts) r) e ∙ h
scan_found-to_upper request o (some a) ts r s e h =
    ap (λ q. scan_found request q (upper_all ts) r) e ∙ scan_dir-to_upper (request a) ts

scan_number-to_upper :
    (o : Option FileSpan) (ts : List Text) → scan_number o (upper_all ts) ≡ scan_number o ts
scan_number-to_upper none ts = scan_dir-to_upper ScanRequest.since_last_call ts
scan_number-to_upper (some span) ts = scan_flags-to_upper ScanRequest.since_last_call (some span) ts

scan_shaped-to_upper :
    (t : Text) (ts : List Text) → scan_shaped (to_upper t) (upper_all ts) ≡ scan_shaped t ts
scan_shaped-to_upper t ts =
    scan_found-to_upper ScanRequest.days_back (parse_days_back (to_upper t)) (parse_days_back t) ts
      _ _ (parse_days_back-to_upper t)
      (scan_found-to_upper ScanRequest.newest_last (parse_newest_count (to_upper t))
        (parse_newest_count t) ts _ _ (parse_newest_count-to_upper t)
        (scan_found-to_upper (λ (request : ScanRequest). request) (parse_date_token (to_upper t))
          (parse_date_token t) ts _ _ (parse_date_token-to_upper t)
          (ground (
            arith,
            all-to_upper is_digit is_digit-upper t,
            parse_span_token-to_upper t,
            scan_number-to_upper (parse_span_token t) ts,
          ))))

pub scan_tokens-to_upper : (ts : List Text) → scan_tokens (upper_all ts) ≡ scan_tokens ts
scan_tokens-to_upper [] = refl
scan_tokens-to_upper (t ∷ ts) = ground (
  arith,
  text_eq-to_upper t (codes "?") (refl, tt),
  no_more-to_upper ts,
  eq_ignore_case-to_upper t (codes "S"),
  eq_ignore_case-to_upper t (codes "T"),
  eq_ignore_case-to_upper t (codes "Y"),
  eq_ignore_case-to_upper t (codes "R"),
  scan_dir-to_upper ScanRequest.since_last_call ts,
  scan_dir-to_upper ScanRequest.today ts,
  scan_dir-to_upper ScanRequest.yesterday ts,
  scan_dir-to_upper ScanRequest.reverse ts,
  scan_shaped-to_upper t ts,
)

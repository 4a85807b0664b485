-- ===== src/Menu/Case/Files.antt =====
-- Upper case and rust/src/app/menu_command/files.rs.
use nextexpress.Prelude.{
  suc, ◌≡◌, refl, ap, ◌∙◌, Bool, true, false, List, [], ◌∷◌, Option, none, some, arith, ◌==◌,
  if◌then◌else◌, codes, length,
}
use nextexpress.Text.{Text}
use nextexpress.Menu.Line.{is_ascii_whitespace, is_digit, to_upper, split, words, strip_prefix}
use nextexpress.Menu.Command.{ZippyArg, FileListArg, FileSpan, parse_span_token}
use nextexpress.Menu.Files.{
  zippy_tokens, take_flag, no_more, list_flags, list_in_reverse, list_tokens, list_command,
  parse_file_list_command, u8_max, u16_max, counted, parse_days_back, parse_newest_count,
  is_date_part, date_parts, parse_date_token,
}
use nextexpress.Menu.Case.Line.{
  is_ascii_whitespace-upper, is_digit-upper, ==-upper, is_empty-to_upper, all-to_upper,
  split-to_upper, words-to_upper, upper_option, strip_prefix-to_upper, eq_ignore_case-to_upper,
  text_eq-to_upper,
}
use nextexpress.Menu.Case.Arguments.{upper_all, parse_uint-to_upper, parse_span_token-to_upper}

abbrev pub upper_zippy : ZippyArg → ZippyArg
upper_zippy (ZippyArg.query text) = ZippyArg.query (to_upper text)
upper_zippy (ZippyArg.query_in_dir text span) =
    ZippyArg.query_in_dir (to_upper text) (to_upper span)
upper_zippy ZippyArg.prompt = ZippyArg.prompt

pub zippy_tokens-to_upper :
    (ts : List Text) → zippy_tokens (upper_all ts) ≡ upper_zippy (zippy_tokens ts)
zippy_tokens-to_upper [] = refl
zippy_tokens-to_upper (t ∷ []) = refl
zippy_tokens-to_upper (t ∷ u ∷ ts) = refl

take_flag-to_upper :
    (flag : Text) (ts : List Text)
    → take_flag flag (upper_all ts) ≡ ((take_flag flag ts).0, upper_all (take_flag flag ts).1)
take_flag-to_upper flag [] = refl
take_flag-to_upper flag (t ∷ ts) = ground (arith, eq_ignore_case-to_upper t flag)

pub no_more-to_upper : (ts : List Text) → no_more (upper_all ts) ≡ no_more ts
no_more-to_upper [] = refl
no_more-to_upper (t ∷ ts) = refl

-- Any reading of `[Q] [NS]` and of whether that is all.
pub flags-to_upper :
    {A : Type 0} (result : Bool → Bool → Bool → A) (ts : List Text)
    → let q = take_flag (codes "Q") (upper_all ts) in
      let ns = take_flag (codes "NS") q.1 in
      let q' = take_flag (codes "Q") ts in
      let ns' = take_flag (codes "NS") q'.1 in
      result q.0 ns.0 (no_more ns.1) ≡ result q'.0 ns'.0 (no_more ns'.1)
flags-to_upper result ts =
    ap
      (λ (q : Bool × List Text).
        let ns = take_flag (codes "NS") q.1 in result q.0 ns.0 (no_more ns.1))
      (take_flag-to_upper (codes "Q") ts)
    ∙ ap (λ (ns : Bool × List Text). result (take_flag (codes "Q") ts).0 ns.0 (no_more ns.1))
        (take_flag-to_upper (codes "NS") (take_flag (codes "Q") ts).1)
    ∙ ap
        (result (take_flag (codes "Q") ts).0
          (take_flag (codes "NS") (take_flag (codes "Q") ts).1).0)
        (no_more-to_upper (take_flag (codes "NS") (take_flag (codes "Q") ts).1).1)

list_flags-to_upper :
    (reverse fr_banner : Bool) (span : Option FileSpan) (ts : List Text)
    → list_flags reverse fr_banner span (upper_all ts) ≡ list_flags reverse fr_banner span ts
list_flags-to_upper reverse fr_banner none ts = refl
list_flags-to_upper reverse fr_banner (some span) ts =
    flags-to_upper
      (λ quick non_stop end.
        if end then FileListArg.span span non_stop reverse quick fr_banner else FileListArg.invalid)
      ts

list_spanned-to_upper :
    (reverse fr_banner : Bool) (t : Text) (ts : List Text)
    → list_flags reverse fr_banner (parse_span_token (to_upper t)) (upper_all ts)
      ≡ list_flags reverse fr_banner (parse_span_token t) ts
list_spanned-to_upper reverse fr_banner t ts =
    ap (λ o. list_flags reverse fr_banner o (upper_all ts)) (parse_span_token-to_upper t)
    ∙ list_flags-to_upper reverse fr_banner (parse_span_token t) ts

list_in_reverse-to_upper :
    (fr_banner : Bool) (ts : List Text)
    → list_in_reverse fr_banner (upper_all ts) ≡ list_in_reverse fr_banner ts
list_in_reverse-to_upper fr_banner [] = refl
list_in_reverse-to_upper fr_banner (t ∷ ts) = list_spanned-to_upper true fr_banner t ts

list_tokens-to_upper :
    (fr_banner : Bool) (ts : List Text)
    → list_tokens fr_banner (upper_all ts) ≡ list_tokens fr_banner ts
list_tokens-to_upper fr_banner [] = refl
list_tokens-to_upper fr_banner (t ∷ ts) = ground (
  arith,
  text_eq-to_upper t (codes "?") (refl, tt),
  eq_ignore_case-to_upper t (codes "R"),
  no_more-to_upper ts,
  list_in_reverse-to_upper fr_banner ts,
  list_spanned-to_upper fr_banner fr_banner t ts,
)

list_command-to_upper : (ts : List Text) → list_command (upper_all ts) ≡ list_command ts
list_command-to_upper [] = refl
list_command-to_upper (t ∷ ts) = ground (
  arith,
  eq_ignore_case-to_upper t (codes "F"),
  eq_ignore_case-to_upper t (codes "FR"),
  list_tokens-to_upper true ts,
  list_tokens-to_upper false ts,
)

pub parse_file_list_command-to_upper :
    (line : Text) → parse_file_list_command (to_upper line) ≡ parse_file_list_command line
unfolding parse_file_list_command
parse_file_list_command-to_upper line =
    ap list_command (words-to_upper is_ascii_whitespace is_ascii_whitespace-upper line)
    ∙ list_command-to_upper (words is_ascii_whitespace line)

counted-to_upper : (o : Option Text) → counted (upper_option o) ≡ counted o
counted-to_upper none = refl
counted-to_upper (some t) = ground (
  arith,
  is_empty-to_upper t,
  all-to_upper is_digit is_digit-upper t,
  parse_uint-to_upper 4294967295 t,
)

pub parse_days_back-to_upper : (t : Text) → parse_days_back (to_upper t) ≡ parse_days_back t
unfolding parse_days_back
parse_days_back-to_upper t =
    ap counted (strip_prefix-to_upper b'-' refl t) ∙ counted-to_upper (strip_prefix b'-' t)

pub parse_newest_count-to_upper :
    (t : Text) → parse_newest_count (to_upper t) ≡ parse_newest_count t
unfolding parse_newest_count
parse_newest_count-to_upper t =
    ap counted (strip_prefix-to_upper b'!' refl t) ∙ counted-to_upper (strip_prefix b'!' t)

length-to_upper : (t : Text) → length (to_upper t) ≡ length t
length-to_upper [] = refl
length-to_upper (c ∷ cs) = ap suc (length-to_upper cs)

is_date_part-to_upper : (t : Text) → is_date_part (to_upper t) ≡ is_date_part t
is_date_part-to_upper t =
    ground (arith, is_empty-to_upper t, length-to_upper t, all-to_upper is_digit is_digit-upper t)

date_parts-to_upper : (ts : List Text) → date_parts (upper_all ts) ≡ date_parts ts
date_parts-to_upper [] = refl
date_parts-to_upper (a ∷ []) = refl
date_parts-to_upper (a ∷ b ∷ []) = ground (
  arith,
  is_date_part-to_upper a,
  is_date_part-to_upper b,
  parse_uint-to_upper u8_max a,
  parse_uint-to_upper u8_max b,
)
date_parts-to_upper (a ∷ b ∷ c ∷ []) = ground (
  arith,
  is_date_part-to_upper a,
  is_date_part-to_upper b,
  is_date_part-to_upper c,
  parse_uint-to_upper u8_max a,
  parse_uint-to_upper u8_max b,
  parse_uint-to_upper u16_max c,
)
date_parts-to_upper (a ∷ b ∷ c ∷ d ∷ ts) = refl

pub parse_date_token-to_upper : (t : Text) → parse_date_token (to_upper t) ≡ parse_date_token t
unfolding parse_date_token
parse_date_token-to_upper t =
    ap date_parts (split-to_upper (λ c. c == b'-') (λ c. ==-upper b'-' c refl) t)
    ∙ date_parts-to_upper (split (λ c. c == b'-') t)

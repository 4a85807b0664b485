-- ===== src/Menu/Files.antt =====
-- rust/src/app/menu_command/files.rs. An iterator of tokens is the list of those left; `next` in
-- the code is the head of that list.
use nextexpress.Prelude.{
  option_map, ℕ, Bool, true, false, ◌&&◌, not, Option, none, some, List, [], ◌∷◌, codes, leb, ◌==◌,
  length, ◌>>=◌, if◌then◌else◌,
}
use nextexpress.Text.{Text, text_eq, is_empty}
use nextexpress.Menu.Line.{
  is_ascii_whitespace, is_digit, eq_ignore_case, words, split, strip_prefix, all,
}
use nextexpress.Menu.Number.{parse_uint}
use nextexpress.Menu.Command.{
  ZippyArg, FileListArg, FileSpan, NewFilesArg, ScanRequest, parse_span_token, command_tokens,
}

abbrev pub zippy_tokens : List Text → ZippyArg
zippy_tokens [] = ZippyArg.prompt
zippy_tokens (query ∷ []) = ZippyArg.query query
zippy_tokens (query ∷ span ∷ tokens) = ZippyArg.query_in_dir query span

unfoldable pub parse_zippy_command : Text → Option ZippyArg
parse_zippy_command line = option_map zippy_tokens (command_tokens line (codes "Z"))

-- An optional flag at the head of the tokens: whether it is there, and the tokens after it.
abbrev pub take_flag : Text → List Text → Bool × List Text
take_flag flag [] = (false, [])
take_flag flag (token ∷ tokens) =
    if eq_ignore_case token flag then (true, tokens) else (false, token ∷ tokens)

abbrev pub no_more : List Text → Bool
no_more [] = true
no_more (token ∷ tokens) = false

-- `[Q] [NS]`, and then the end.
abbrev pub list_flags : Bool → Bool → Option FileSpan → List Text → FileListArg
list_flags reverse fr_banner none tokens = FileListArg.invalid
list_flags reverse fr_banner (some span) tokens =
    let (quick, after_quick) = take_flag (codes "Q") tokens in
    let (non_stop, rest) = take_flag (codes "NS") after_quick in
    if no_more rest
    then FileListArg.span span non_stop reverse quick fr_banner
    else FileListArg.invalid

abbrev pub list_in_reverse : Bool → List Text → FileListArg
list_in_reverse fr_banner [] = FileListArg.prompt true fr_banner
list_in_reverse fr_banner (first ∷ tokens) =
    list_flags true fr_banner (parse_span_token first) tokens

abbrev pub list_tokens : Bool → List Text → FileListArg
list_tokens fr_banner [] = FileListArg.prompt fr_banner fr_banner
list_tokens fr_banner (first ∷ tokens) =
    if text_eq first (codes "?")
    then (if no_more tokens then FileListArg.help else FileListArg.invalid)
    else if not fr_banner && eq_ignore_case first (codes "R")
    then list_in_reverse fr_banner tokens
    else list_flags fr_banner fr_banner (parse_span_token first) tokens

abbrev pub list_command : List Text → Option FileListArg
list_command [] = none
list_command (command ∷ tokens) =
    if eq_ignore_case command (codes "F")
    then some (list_tokens false tokens)
    else if eq_ignore_case command (codes "FR")
    then some (list_tokens true tokens)
    else none

unfoldable pub parse_file_list_command : Text → Option FileListArg
parse_file_list_command line = list_command (words is_ascii_whitespace line)

abbrev pub u8_max : ℕ
u8_max = 255

abbrev pub u16_max : ℕ
u16_max = 65535

-- The digits after the sign that `parse_days_back` and `parse_newest_count` ask for.
abbrev pub counted : Option Text → Option ℕ
counted none = none
counted (some digits) =
    if not (is_empty digits) && all is_digit digits then parse_uint 4294967295 digits else none

unfoldable pub parse_days_back : Text → Option ℕ
parse_days_back token = counted (strip_prefix b'-' token)

unfoldable pub parse_newest_count : Text → Option ℕ
parse_newest_count token = counted (strip_prefix b'!' token)

abbrev pub is_date_part : Text → Bool
is_date_part part = not (is_empty part) && leb (length part) 2 && all is_digit part

abbrev pub date_parts : List Text → Option ScanRequest
date_parts (mm ∷ dd ∷ []) =
    if is_date_part mm && is_date_part dd
    then (parse_uint u8_max mm >>= λ month.
        parse_uint u8_max dd >>= λ day. some (ScanRequest.date month day none))
    else none
date_parts (mm ∷ dd ∷ yy ∷ []) =
    if is_date_part mm && is_date_part dd && is_date_part yy
    then (parse_uint u8_max mm >>= λ month. parse_uint u8_max dd >>= λ day.
        parse_uint u16_max yy >>= λ year. some (ScanRequest.date month day (some year)))
    else none
date_parts _ = none

unfoldable pub parse_date_token : Text → Option ScanRequest
parse_date_token token = date_parts (split (λ c. c == b'-') token)

-- `[Q] [NS]`, and then the end.
abbrev pub scan_flags : ScanRequest → Option FileSpan → List Text → NewFilesArg
scan_flags request span tokens =
    let (quick, after_quick) = take_flag (codes "Q") tokens in
    let (non_stop, rest) = take_flag (codes "NS") after_quick in
    if no_more rest
    then NewFilesArg.scan
        (record { request = request; span = span; quick = quick; non_stop = non_stop })
    else NewFilesArg.invalid

abbrev pub scan_resolved : ScanRequest → Option FileSpan → List Text → NewFilesArg
scan_resolved request none tokens = NewFilesArg.invalid
scan_resolved request (some span) tokens = scan_flags request (some span) tokens

-- `[dir] [Q] [NS]`, after a request that named no directory.
abbrev pub scan_dir : ScanRequest → List Text → NewFilesArg
scan_dir request [] = scan_flags request none []
scan_dir request (token ∷ tokens) =
    if not (eq_ignore_case token (codes "Q")) && not (eq_ignore_case token (codes "NS"))
    then scan_resolved request (parse_span_token token) tokens
    else scan_flags request none (token ∷ tokens)

abbrev pub scan_number : Option FileSpan → List Text → NewFilesArg
scan_number none tokens = scan_dir ScanRequest.since_last_call tokens
scan_number (some span) tokens = scan_flags ScanRequest.since_last_call (some span) tokens

-- One `else if let Some(…)` of the chain over the first token.
abbrev pub scan_found :
    {A : Type 0} → (A → ScanRequest) → Option A → List Text → NewFilesArg → NewFilesArg
scan_found request none tokens rest = rest
scan_found request (some found) tokens rest = scan_dir (request found) tokens

-- The first token by its shape: a count of days or files, a date, or a directory.
abbrev pub scan_shaped : Text → List Text → NewFilesArg
scan_shaped first tokens = scan_found ScanRequest.days_back (parse_days_back first) tokens (
    scan_found ScanRequest.newest_last (parse_newest_count first) tokens (
      scan_found (λ (request : ScanRequest). request) (parse_date_token first) tokens
        (if all is_digit first
          then scan_number (parse_span_token first) tokens
          else NewFilesArg.invalid)))

abbrev pub scan_tokens : List Text → NewFilesArg
scan_tokens [] = NewFilesArg.prompt
scan_tokens (first ∷ tokens) =
    if text_eq first (codes "?")
    then (if no_more tokens then NewFilesArg.help else NewFilesArg.invalid)
    else if eq_ignore_case first (codes "S")
    then scan_dir ScanRequest.since_last_call tokens
    else if eq_ignore_case first (codes "T")
    then scan_dir ScanRequest.today tokens
    else if eq_ignore_case first (codes "Y")
    then scan_dir ScanRequest.yesterday tokens
    else if eq_ignore_case first (codes "R")
    then scan_dir ScanRequest.reverse tokens
    else scan_shaped first tokens

unfoldable pub parse_new_files_command : Text → Option NewFilesArg
parse_new_files_command line = option_map scan_tokens (command_tokens line (codes "N"))

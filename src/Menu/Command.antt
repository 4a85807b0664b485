-- ===== src/Menu/Command.antt =====
-- The commands and the shapes of their arguments in rust/src/app/menu_command.rs, and the two
-- helpers that its child modules share.
use nextexpress.Prelude.{ℕ, Bool, Option, none, some, List, [], ◌∷◌, codes, if◌then◌else◌}
use nextexpress.Prelude.Int.{ℤ}
use nextexpress.Text.{Text}
use nextexpress.Menu.Line.{is_digit, is_ascii_whitespace, eq_ignore_case, starts_with, words}
use nextexpress.Menu.Number.{val_prefix}

pub data ZippyArg : Type 0 where
  query : Text → ZippyArg
  query_in_dir : Text → Text → ZippyArg
  prompt : ZippyArg

pub data FileSpan : Type 0 where
  dir : ℤ → FileSpan
  all upload hold : FileSpan

pub data FileListArg : Type 0 where
  prompt : (reverse fr_banner : Bool) → FileListArg
  help : FileListArg
  span : FileSpan → (non_stop reverse quick fr_banner : Bool) → FileListArg
  invalid : FileListArg

pub data ScanRequest : Type 0 where
  since_last_call today yesterday : ScanRequest
  days_back : ℕ → ScanRequest
  date : (month day : ℕ) (year : Option ℕ) → ScanRequest
  newest_last : ℕ → ScanRequest
  reverse : ScanRequest

pub record NewFilesSpec : Type 0 where
  pub request : ScanRequest
  pub span : Option FileSpan
  pub quick : Bool
  pub non_stop : Bool

pub data NewFilesArg : Type 0 where
  prompt help : NewFilesArg
  scan : NewFilesSpec → NewFilesArg
  invalid : NewFilesArg

pub data NumberArg : Type 0 where
  number : ℕ → NumberArg
  missing invalid : NumberArg

pub data JoinArg : Type 0 where
  conference : ℤ → JoinArg
  missing : JoinArg
  with_msg_base : (conference msgbase : ℤ) → JoinArg

pub data MsgBaseArg : Type 0 where
  base : ℤ → MsgBaseArg
  missing : MsgBaseArg

pub data PostArg : Type 0 where
  to : Text → PostArg
  missing : PostArg

pub data MenuCommand : Type 0 where
  logoff : (auto : Bool) → MenuCommand
  join : JoinArg → MenuCommand
  read : NumberArg → MenuCommand
  scan_all_mail : MenuCommand
  post : PostArg → MenuCommand
  comment_to_sysop show_time show_version show_help quiet_toggle show_stats : MenuCommand
  expert_toggle show_menu : MenuCommand
  topic_help : Text → MenuCommand
  ansi_toggle conference_flags : MenuCommand
  join_msg_base : MsgBaseArg → MenuCommand
  prev_conference next_conference prev_msg_base next_msg_base : MenuCommand
  file_list : FileListArg → MenuCommand
  zippy_search : ZippyArg → MenuCommand
  new_files_scan : NewFilesArg → MenuCommand
  file_status alter_flags unknown : MenuCommand

unfoldable pub parse_span_token : Text → Option FileSpan
parse_span_token token =
    if eq_ignore_case token (codes "A")
    then some FileSpan.all
    else if eq_ignore_case token (codes "U")
    then some FileSpan.upload
    else if eq_ignore_case token (codes "H")
    then some FileSpan.hold
    else if starts_with is_digit token
    then some (FileSpan.dir (val_prefix token))
    else none

-- The rest of the tokens, where the first one is the command.
abbrev pub tokens_after : Text → List Text → Option (List Text)
tokens_after command [] = none
tokens_after command (head ∷ tokens) = if eq_ignore_case head command then some tokens else none

unfoldable pub command_tokens : Text → Text → Option (List Text)
command_tokens line command = tokens_after command (words is_ascii_whitespace line)

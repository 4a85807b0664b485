-- ===== src/Menu.antt =====
-- rust/src/app/menu_command.rs with menu_command/: the parser of menu lines.
pub mod Line
pub mod Number
pub mod Command
pub mod Join
pub mod Mail
pub mod Files
pub mod Case
pub mod Numeric
use nextexpress.Prelude.{
  ℕ, Bool, true, false, Option, none, some, List, [], ◌∷◌, codes, any, if◌then◌else◌,
}
use nextexpress.Text.{Text, text_eq}
use Line.{
  is_whitespace, is_ascii_whitespace, to_upper, eq_ignore_case, trim, words, split_once,
  strip_prefix,
}
use Command.{
  MenuCommand, logoff, join, read, scan_all_mail, post, comment_to_sysop, show_time, show_version,
  show_help, quiet_toggle, show_stats, expert_toggle, show_menu, topic_help, ansi_toggle,
  conference_flags, prev_conference, next_conference, prev_msg_base, next_msg_base, file_list,
  zippy_search, new_files_scan, file_status, alter_flags, unknown, command_tokens,
}
use Join.{parse_join_command, parse_join_msgbase_command}
use Mail.{parse_number_command, parse_post_command}
use Files.{parse_file_list_command, parse_zippy_command, parse_new_files_command}

-- A chain of `if let Some(…) = … { return … }`.
abbrev pub or_else : {A : Type 0} → (A → MenuCommand) → Option A → MenuCommand → MenuCommand
or_else command none rest = rest
or_else command (some arg) rest = command arg

-- The parameters of `G`.
abbrev pub logoff_auto : Option Text → Bool
logoff_auto none = false
logoff_auto (some rest) = any (λ t. eq_ignore_case t (codes "Y")) (words is_whitespace rest)

abbrev pub logoff_of : Text × Option Text → Option MenuCommand
logoff_of (head, rest) =
    if eq_ignore_case head (codes "G") then some (logoff (logoff_auto rest)) else none

-- The match on the whole line, in upper case.
abbrev pub whole_line : Text → Option MenuCommand
whole_line line =
    if text_eq line (codes "C")
    then some comment_to_sysop
    else if text_eq line (codes "CF")
    then some conference_flags
    else if text_eq line (codes "T")
    then some show_time
    else if text_eq line (codes "VER")
    then some show_version
    else if text_eq line (codes "H")
    then some show_help
    else if text_eq line (codes "Q")
    then some quiet_toggle
    else if text_eq line (codes "S")
    then some show_stats
    else if text_eq line (codes "X")
    then some expert_toggle
    else if text_eq line (codes "M")
    then some ansi_toggle
    else if text_eq line (codes "?")
    then some show_menu
    else if text_eq line (codes "MS")
    then some scan_all_mail
    else if text_eq line (codes "A")
    then some alter_flags
    else none

-- The match on the first token.
abbrev pub head_token : List Text → Option MenuCommand
head_token [] = none
head_token (head ∷ tokens) =
    if text_eq head (codes "<")
    then some prev_conference
    else if text_eq head (codes ">")
    then some next_conference
    else if text_eq head (codes "<<")
    then some prev_msg_base
    else if text_eq head (codes ">>")
    then some next_msg_base
    else none

abbrev pub itself : MenuCommand → MenuCommand
itself command = command

-- The commands with arguments, in the order in which the code tries them.
unfoldable pub parse_arguments : Text → MenuCommand
parse_arguments line = or_else join (parse_join_command line) (
    or_else itself (parse_join_msgbase_command line) (
      or_else read (parse_number_command line (codes "R")) (
        or_else post (parse_post_command line) (
          or_else file_list (parse_file_list_command line) (
            or_else zippy_search (parse_zippy_command line) (
              or_else new_files_scan (parse_new_files_command line)
                (or_else (λ tokens. file_status) (command_tokens line (codes "FS")) unknown)))))))

unfoldable pub parse_trimmed : Text → MenuCommand
parse_trimmed line = or_else itself (logoff_of (split_once is_whitespace line)) (
    or_else itself (whole_line (to_upper line)) (
      or_else (λ topic. topic_help (trim topic)) (strip_prefix b'^' line)
        (or_else itself (head_token (words is_ascii_whitespace line)) (parse_arguments line))))

unfoldable pub parse_menu_command : Text → MenuCommand
parse_menu_command line = parse_trimmed (trim line)

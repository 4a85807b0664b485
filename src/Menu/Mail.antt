-- ===== src/Menu/Mail.antt =====
-- rust/src/app/menu_command/mail.rs
use nextexpress.Prelude.{
  ℕ, option_map, ◌||◌, Option, none, some, List, [], ◌∷◌, u32_max, ◌==◌, if◌then◌else◌,
}
use nextexpress.Text.{Text, is_empty}
use nextexpress.Menu.Line.{is_whitespace, starts_with, trim}
use nextexpress.Menu.Number.{parse_uint}
use nextexpress.Menu.Command.{NumberArg, PostArg, command_tokens}

abbrev pub number_or_invalid : Option ℕ → NumberArg
number_or_invalid none = NumberArg.invalid
number_or_invalid (some n) = NumberArg.number n

abbrev pub number_tokens : List Text → NumberArg
number_tokens [] = NumberArg.missing
number_tokens (arg ∷ []) = number_or_invalid (parse_uint u32_max arg)
number_tokens (arg ∷ extra ∷ tokens) = NumberArg.invalid

unfoldable pub parse_number_command : Text → Text → Option NumberArg
parse_number_command line command = option_map number_tokens (command_tokens line command)

abbrev pub post_rest : Text → Option PostArg
post_rest rest =
    if is_empty (trim rest)
    then if is_empty rest || starts_with is_whitespace rest then some PostArg.missing else none
    else if starts_with is_whitespace rest
    then some (PostArg.to (trim rest))
    else none

unfoldable pub parse_post_command : Text → Option PostArg
parse_post_command [] = none
parse_post_command (head ∷ rest) = if head == b'E' || head == b'e' then post_rest rest else none

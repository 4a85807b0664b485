-- ===== src/Menu/Case.antt =====
-- Letters and capitals in the parser of rust/src/app/menu_command.rs.
pub mod Line
pub mod Arguments
pub mod Files
pub mod Scan
use nextexpress.Prelude.{
  ℕ, ◌≡◌, refl, ap, sym, ◌∙◌, Bool, true, false, ◌&&◌, ◌||◌, not, List, [], ◌∷◌, map, Option, none,
  some, arith, if◌then◌else◌, codes, any, option_map, u32_max, ◌==◌,
}
use nextexpress.Text.{Text, text_eq, is_empty}
use nextexpress.Menu
use nextexpress.Menu.{
  or_else, logoff_auto, logoff_of, whole_line, head_token, itself, parse_arguments, parse_trimmed,
  parse_menu_command,
}
use nextexpress.Menu.Line.{
  is_whitespace, is_ascii_whitespace, upper, to_upper, eq_ignore_case, starts_with, trim, words,
  split_once, strip_prefix,
}
use nextexpress.Menu.Number.{parse_uint}
use nextexpress.Menu.Command.{
  MenuCommand, logoff, join, read, post, topic_help, file_list, zippy_search, new_files_scan,
  file_status, unknown, NumberArg, PostArg, JoinArg, MsgBaseArg, ZippyArg, NewFilesArg,
  command_tokens,
}
use nextexpress.Menu.Join.{
  after_dot, parse_join_params, join_tokens, parse_join_command, msgbase_first, msgbase_tokens,
  parse_join_msgbase_command,
}
use nextexpress.Menu.Mail.{
  number_or_invalid, number_tokens, parse_number_command, post_rest, parse_post_command,
}
use nextexpress.Menu.Files.{
  zippy_tokens, parse_zippy_command, parse_file_list_command, scan_tokens, parse_new_files_command,
}
use Line.{
  is_whitespace-upper, is_ascii_whitespace-upper, is_empty-to_upper, starts_with-to_upper,
  trim-to_upper, words-to_upper, upper_option, split_once-to_upper, strip_prefix-to_upper,
  eq_ignore_case-to_upper, text_eq-to_upper, to_upper-to_upper,
}
use Arguments.{
  upper_all, upper_rest, option_map-to_upper, val_prefix-to_upper, parse_uint-to_upper,
  command_tokens-to_upper, after_dot-to_upper, parse_join_params-to_upper, join_tokens-to_upper,
}
use Files.{upper_zippy, zippy_tokens-to_upper, parse_file_list_command-to_upper}
use Scan.{scan_tokens-to_upper}

-- A command with its texts in upper case: the name of a topic, the recipient of a mail, and the
-- words of a search.
abbrev pub upper_post : PostArg → PostArg
upper_post (PostArg.to text) = PostArg.to (to_upper text)
upper_post PostArg.missing = PostArg.missing

abbrev pub upper_command : MenuCommand → MenuCommand
upper_command (topic_help topic) = topic_help (to_upper topic)
upper_command (post arg) = post (upper_post arg)
upper_command (zippy_search arg) = zippy_search (upper_zippy arg)
upper_command command = command

-- A parser of the tokens after a command, on the line in upper case.
command-to_upper :
    {A : Type 0} (f : List Text → A) (g : A → A) (line command : Text)
    → ((ts : List Text) → f (upper_all ts) ≡ g (f ts))
    → option_map f (command_tokens (to_upper line) command)
      ≡ option_map g (option_map f (command_tokens line command))
command-to_upper f g line command h =
    ap (option_map f) (command_tokens-to_upper line command)
    ∙ option_map-to_upper f g h (command_tokens line command)

msgbase_first-to_upper :
    (t : Text) (o : Option Text) (ts : List Text)
    → msgbase_first (to_upper t) (upper_option o) (upper_all ts)
      ≡ upper_command (msgbase_first t o ts)
msgbase_first-to_upper t none ts =
    ap (λ n. MenuCommand.join_msg_base (MsgBaseArg.base n)) (val_prefix-to_upper t)
msgbase_first-to_upper t (some base) ts = ap join (parse_join_params-to_upper t ts)

msgbase_tokens-to_upper :
    (ts : List Text) → msgbase_tokens (upper_all ts) ≡ upper_command (msgbase_tokens ts)
msgbase_tokens-to_upper [] = refl
msgbase_tokens-to_upper (t ∷ ts) =
    ap (λ o. msgbase_first (to_upper t) o (upper_all ts)) (after_dot-to_upper t)
    ∙ msgbase_first-to_upper t (after_dot t) ts

number_tokens-to_upper : (ts : List Text) → number_tokens (upper_all ts) ≡ number_tokens ts
number_tokens-to_upper [] = refl
number_tokens-to_upper (t ∷ []) = ap number_or_invalid (parse_uint-to_upper u32_max t)
number_tokens-to_upper (t ∷ u ∷ ts) = refl

post_rest-to_upper : (t : Text) → post_rest (to_upper t) ≡ option_map upper_post (post_rest t)
post_rest-to_upper t = ground (
  arith,
  trim-to_upper t,
  is_empty-to_upper t,
  is_empty-to_upper (trim t),
  starts_with-to_upper is_whitespace is_whitespace-upper t,
)

parse_post_command-to_upper :
    (line : Text)
    → parse_post_command (to_upper line) ≡ option_map upper_post (parse_post_command line)
unfolding parse_post_command upper
parse_post_command-to_upper [] = refl
parse_post_command-to_upper (c ∷ cs) = ground (arith, post_rest-to_upper cs)

-- One step of a chain of `if let Some(…)`.
or_else-to_upper :
    {A : Type 0} (command : A → MenuCommand) (g : A → A) (o p : Option A) (r s : MenuCommand)
    → o ≡ option_map g p
    → ((a : A) → command (g a) ≡ upper_command (command a))
    → r ≡ upper_command s
    → or_else command o r ≡ upper_command (or_else command p s)
or_else-to_upper command g o none r s e h k = ap (λ q. or_else command q r) e ∙ k
or_else-to_upper command g o (some a) r s e h k = ap (λ q. or_else command q r) e ∙ h a

same_option : {A : Type 0} (o : Option A) → o ≡ option_map (λ a. a) o
same_option none = refl
same_option (some a) = refl

rest_option : (o : Option (List Text)) → upper_rest o ≡ option_map upper_all o
rest_option none = refl
rest_option (some ts) = refl

parse_arguments-to_upper :
    (line : Text) → parse_arguments (to_upper line) ≡ upper_command (parse_arguments line)
unfolding parse_arguments parse_join_command parse_join_msgbase_command parse_number_command
    parse_zippy_command parse_new_files_command
parse_arguments-to_upper line =
    or_else-to_upper join (λ a. a) _ (parse_join_command line) _ _
      (command-to_upper join_tokens (λ a. a) line (codes "J") join_tokens-to_upper) (λ a. refl)
      (or_else-to_upper itself upper_command _ (parse_join_msgbase_command line) _ _
        (command-to_upper msgbase_tokens upper_command line (codes "JM") msgbase_tokens-to_upper)
        (λ a. refl)
        (or_else-to_upper read (λ a. a) _ (parse_number_command line (codes "R")) _ _
          (command-to_upper number_tokens (λ a. a) line (codes "R") number_tokens-to_upper)
          (λ a. refl)
          (or_else-to_upper post upper_post _ (parse_post_command line) _ _
            (parse_post_command-to_upper line) (λ a. refl)
            (or_else-to_upper file_list (λ a. a) _ (parse_file_list_command line) _ _
              (parse_file_list_command-to_upper line ∙ same_option (parse_file_list_command line))
              (λ a. refl)
              (or_else-to_upper zippy_search upper_zippy _ (parse_zippy_command line) _ _
                (command-to_upper zippy_tokens upper_zippy line (codes "Z") zippy_tokens-to_upper)
                (λ a. refl)
                (or_else-to_upper new_files_scan (λ a. a) _ (parse_new_files_command line) _ _
                  (command-to_upper scan_tokens (λ a. a) line (codes "N") scan_tokens-to_upper)
                  (λ a. refl)
                  (or_else-to_upper (λ (ts : List Text). file_status) upper_all _
                    (command_tokens line (codes "FS")) _ _
                    (command_tokens-to_upper line (codes "FS")
                      ∙ rest_option (command_tokens line (codes "FS")))
                    (λ a. refl) refl)))))))

any_y-to_upper :
    (ts : List Text)
    → any (λ t. eq_ignore_case t (codes "Y")) (upper_all ts)
      ≡ any (λ t. eq_ignore_case t (codes "Y")) ts
any_y-to_upper [] = refl
any_y-to_upper (t ∷ ts) = λ i. eq_ignore_case-to_upper t (codes "Y") i || any_y-to_upper ts i

logoff_auto-to_upper : (o : Option Text) → logoff_auto (upper_option o) ≡ logoff_auto o
logoff_auto-to_upper none = refl
logoff_auto-to_upper (some t) =
    ap (any (λ w. eq_ignore_case w (codes "Y")))
      (words-to_upper is_whitespace is_whitespace-upper t)
    ∙ any_y-to_upper (words is_whitespace t)

logoff_of-to_upper :
    (head : Text) (rest : Option Text)
    → logoff_of (to_upper head, upper_option rest)
      ≡ option_map upper_command (logoff_of (head, rest))
logoff_of-to_upper head rest =
    ground (arith, eq_ignore_case-to_upper head (codes "G"), logoff_auto-to_upper rest)

fixed_if :
    (b : Bool) (command : MenuCommand) (o : Option MenuCommand)
    → upper_command command ≡ command
    → o ≡ option_map upper_command o
    → (if b then some command else o) ≡ option_map upper_command (if b then some command else o)
fixed_if true command o e h = ap some (sym e)
fixed_if false command o e h = h

whole_line-fixed : (line : Text) → whole_line line ≡ option_map upper_command (whole_line line)
whole_line-fixed line = fixed_if (text_eq line (codes "C")) MenuCommand.comment_to_sysop _ refl (
    fixed_if (text_eq line (codes "CF")) MenuCommand.conference_flags _ refl (
      fixed_if (text_eq line (codes "T")) MenuCommand.show_time _ refl (
        fixed_if (text_eq line (codes "VER")) MenuCommand.show_version _ refl (
          fixed_if (text_eq line (codes "H")) MenuCommand.show_help _ refl (
            fixed_if (text_eq line (codes "Q")) MenuCommand.quiet_toggle _ refl (
              fixed_if (text_eq line (codes "S")) MenuCommand.show_stats _ refl (
                fixed_if (text_eq line (codes "X")) MenuCommand.expert_toggle _ refl (
                  fixed_if (text_eq line (codes "M")) MenuCommand.ansi_toggle _ refl (
                    fixed_if (text_eq line (codes "?")) MenuCommand.show_menu _ refl (
                      fixed_if (text_eq line (codes "MS")) MenuCommand.scan_all_mail _ refl (
                        fixed_if (text_eq line (codes "A")) MenuCommand.alter_flags _ refl
                          refl)))))))))))

head_token-to_upper :
    (ts : List Text) → head_token (upper_all ts) ≡ option_map upper_command (head_token ts)
head_token-to_upper [] = refl
head_token-to_upper (t ∷ ts) = ground (
  arith,
  text_eq-to_upper t (codes "<") (refl, tt),
  text_eq-to_upper t (codes ">") (refl, tt),
  text_eq-to_upper t (codes "<<") (refl, (refl, tt)),
  text_eq-to_upper t (codes ">>") (refl, (refl, tt)),
)

option_upper : (o : Option Text) → upper_option o ≡ option_map to_upper o
option_upper none = refl
option_upper (some t) = refl

parse_trimmed-to_upper :
    (line : Text) → parse_trimmed (to_upper line) ≡ upper_command (parse_trimmed line)
unfolding parse_trimmed
parse_trimmed-to_upper line =
    or_else-to_upper itself upper_command _ (logoff_of (split_once is_whitespace line)) _ _
      (ap logoff_of (split_once-to_upper is_whitespace is_whitespace-upper line)
        ∙ logoff_of-to_upper (split_once is_whitespace line).0 (split_once is_whitespace line).1)
      (λ a. refl)
      (or_else-to_upper itself upper_command _ (whole_line (to_upper line)) _ _
        (ap whole_line (to_upper-to_upper line) ∙ whole_line-fixed (to_upper line)) (λ a. refl)
        (or_else-to_upper (λ topic. topic_help (trim topic)) to_upper _ (strip_prefix b'^' line) _ _
          (strip_prefix-to_upper b'^' refl line ∙ option_upper (strip_prefix b'^' line))
          (λ topic. ap topic_help (trim-to_upper topic))
          (or_else-to_upper itself upper_command _ (head_token (words is_ascii_whitespace line)) _ _
            (ap head_token (words-to_upper is_ascii_whitespace is_ascii_whitespace-upper line)
              ∙ head_token-to_upper (words is_ascii_whitespace line))
            (λ a. refl) (parse_arguments-to_upper line))))

-- The parser does not tell letters from capitals: a line in upper case gives the same command as
-- the line itself, with the texts that the command carries in upper case.
pub parse_menu_command-to_upper :
    (line : Text) → parse_menu_command (to_upper line) ≡ upper_command (parse_menu_command line)
unfolding parse_menu_command
parse_menu_command-to_upper line =
    ap parse_trimmed (trim-to_upper line) ∙ parse_trimmed-to_upper (trim line)

-- ===== src/Menu/Numeric/Commands.antt =====
-- The menu commands of rust/src/app/menu_command.rs that take numbers, on whole lines.
use nextexpress.Prelude.{
  ℕ, ◌≡◌, refl, ap, subst, ◌∙◌, true, false, [], ◌∷◌, ◌++◌, leb, if◌then◌else◌, codes, u32_max,
}
use mathlib.Core.List.{append_assoc}
use nextexpress.Text.{Text}
use nextexpress.Menu.{parse_menu_command, parse_trimmed, parse_arguments}
use nextexpress.Menu.Line.{is_whitespace, is_ascii_whitespace, upper, words}
use nextexpress.Menu.Line.Pieces.{IsWord, words-word, words-append, trim-append}
use nextexpress.Menu.Number.Values.{value}
use nextexpress.Menu.Command.{
  JoinArg, MsgBaseArg, NumberArg, FileListArg, FileSpan, join, read, join_msg_base, file_list,
  command_tokens,
}
use nextexpress.Menu.Join.{
  join_tokens, msgbase_tokens, parse_join_command, parse_join_msgbase_command,
}
use nextexpress.Menu.Mail.{number_tokens, parse_number_command, parse_post_command}
use nextexpress.Menu.Files.{list_tokens, parse_file_list_command}
use nextexpress.Menu.Numeric.{
  IsNumeral, clamped, IsNumeral-IsWord, dotted-IsWord, plain_params, spaced_params, dotted_params,
  list_of, number_of, plain_base, dotted_base,
}

-- What the parser makes of the words after the command.
j_words :
    (t : Text) → parse_trimmed (codes "J " ++ t) ≡ join (join_tokens (words is_ascii_whitespace t))
unfolding parse_trimmed is_whitespace is_ascii_whitespace upper parse_arguments parse_join_command
    command_tokens
j_words t = refl

jm_words :
    (t : Text) → parse_trimmed (codes "JM " ++ t) ≡ msgbase_tokens (words is_ascii_whitespace t)
unfolding parse_trimmed is_whitespace is_ascii_whitespace upper parse_arguments parse_join_command
    parse_join_msgbase_command command_tokens
jm_words t = refl

r_words :
    (t : Text)
    → parse_trimmed (codes "R " ++ t) ≡ read (number_tokens (words is_ascii_whitespace t))
unfolding parse_trimmed is_whitespace is_ascii_whitespace upper parse_arguments parse_join_command
    parse_join_msgbase_command parse_number_command command_tokens
r_words t = refl

f_words :
    (t : Text)
    → parse_trimmed (codes "F " ++ t) ≡ file_list (list_tokens false (words is_ascii_whitespace t))
unfolding parse_trimmed is_whitespace is_ascii_whitespace upper parse_arguments parse_join_command
    parse_join_msgbase_command parse_number_command command_tokens parse_post_command
    parse_file_list_command
f_words t = refl

fr_words :
    (t : Text)
    → parse_trimmed (codes "FR " ++ t) ≡ file_list (list_tokens true (words is_ascii_whitespace t))
unfolding parse_trimmed is_whitespace is_ascii_whitespace upper parse_arguments parse_join_command
    parse_join_msgbase_command parse_number_command command_tokens parse_post_command
    parse_file_list_command
fr_words t = refl

-- A line of one of these commands that ends in a word is trimmed already.
line_of :
    (c : ℕ) (before w : Text)
    → is_whitespace c ≡ false
    → IsWord w
    → parse_menu_command (c ∷ (before ++ w)) ≡ parse_trimmed (c ∷ (before ++ w))
unfolding parse_menu_command
line_of c before w h word = ap parse_trimmed (trim-append c before w h word)

spaced_line :
    (a b : Text)
    → IsWord b
    → parse_menu_command (codes "J " ++ (a ++ b' ' ∷ b))
      ≡ parse_trimmed (codes "J " ++ (a ++ b' ' ∷ b))
unfolding is_whitespace
spaced_line a b word =
    subst (λ t. parse_menu_command (codes "J " ++ t) ≡ parse_trimmed (codes "J " ++ t))
      (append_assoc a (b' ' ∷ []) b) (line_of b'J' (b' ' ∷ (a ++ b' ' ∷ [])) b refl word)

module _ (a b : Text) (numeral : IsNumeral a) (numeral' : IsNumeral b) where
  a_word : words is_ascii_whitespace a ≡ a ∷ []
  a_word = words-word a (IsNumeral-IsWord a numeral)

  b_word : words is_ascii_whitespace b ≡ b ∷ []
  b_word = words-word b (IsNumeral-IsWord b numeral')

  dotted_word : words is_ascii_whitespace (a ++ b'.' ∷ b) ≡ (a ++ b'.' ∷ b) ∷ []
  dotted_word = words-word (a ++ b'.' ∷ b) (dotted-IsWord a b numeral numeral')

  spaced_words : words is_ascii_whitespace (a ++ b' ' ∷ b) ≡ a ∷ b ∷ []
  spaced_words = words-append a b (IsNumeral-IsWord a numeral) ∙ ap (λ ws. a ∷ ws) b_word

  -- The commands that take numbers read them as they stand: `J a` joins conference a; `J a b`,
  -- `J a.b` and `JM a.b` join message base b of conference a; `JM a` joins message base a; `R a`
  -- reads mail a where a fits in 32 bits; `F a` lists directory a, and `FR a` lists it in reverse.
  -- Numbers of conferences, bases and directories stop at the largest 64-bit one.
  pub parse_menu_command-numerals :
      (parse_menu_command (codes "J " ++ a) ≡ join (JoinArg.conference (clamped a)))
      × (parse_menu_command (codes "J " ++ (a ++ b' ' ∷ b))
          ≡ join (JoinArg.with_msg_base (clamped a) (clamped b)))
      × (parse_menu_command (codes "J " ++ (a ++ b'.' ∷ b))
          ≡ join (JoinArg.with_msg_base (clamped a) (clamped b)))
      × (parse_menu_command (codes "JM " ++ a) ≡ join_msg_base (MsgBaseArg.base (clamped a)))
      × (parse_menu_command (codes "JM " ++ (a ++ b'.' ∷ b))
          ≡ join (JoinArg.with_msg_base (clamped a) (clamped b)))
      × (parse_menu_command (codes "R " ++ a)
          ≡ read (if leb (value a) u32_max then NumberArg.number (value a) else NumberArg.invalid))
      × (parse_menu_command (codes "F " ++ a)
          ≡ file_list (FileListArg.span (FileSpan.dir (clamped a)) false false false false))
      × (parse_menu_command (codes "FR " ++ a)
          ≡ file_list (FileListArg.span (FileSpan.dir (clamped a)) false true false true))
  unfolding is_whitespace
  parse_menu_command-numerals =
      let a_is = IsNumeral-IsWord a numeral in
      let b_is = IsNumeral-IsWord b numeral' in
      let ab_is = dotted-IsWord a b numeral numeral' in
      (
        line_of b'J' (codes " ") a refl a_is
            ∙ j_words a
            ∙ ap (λ ws. join (join_tokens ws)) a_word
            ∙ ap join (plain_params a numeral),
        spaced_line a b b_is
            ∙ j_words (a ++ b' ' ∷ b)
            ∙ ap (λ ws. join (join_tokens ws)) spaced_words
            ∙ ap join (spaced_params a b numeral numeral'),
        line_of b'J' (codes " ") (a ++ b'.' ∷ b) refl ab_is
            ∙ j_words (a ++ b'.' ∷ b)
            ∙ ap (λ ws. join (join_tokens ws)) dotted_word
            ∙ ap join (dotted_params a b numeral numeral'),
        line_of b'J' (codes "M ") a refl a_is
            ∙ jm_words a
            ∙ ap msgbase_tokens a_word
            ∙ plain_base a numeral,
        line_of b'J' (codes "M ") (a ++ b'.' ∷ b) refl ab_is
            ∙ jm_words (a ++ b'.' ∷ b)
            ∙ ap msgbase_tokens dotted_word
            ∙ dotted_base a b numeral numeral',
        line_of b'R' (codes " ") a refl a_is
            ∙ r_words a
            ∙ ap (λ ws. read (number_tokens ws)) a_word
            ∙ ap read (number_of a numeral),
        line_of b'F' (codes " ") a refl a_is
            ∙ f_words a
            ∙ ap (λ ws. file_list (list_tokens false ws)) a_word
            ∙ ap file_list (list_of false a numeral),
        line_of b'F' (codes "R ") a refl a_is
            ∙ fr_words a
            ∙ ap (λ ws. file_list (list_tokens true ws)) a_word
            ∙ ap file_list (list_of true a numeral),
      )

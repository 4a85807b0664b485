-- ===== src/Menu/Numeric.antt =====
-- Numerals as arguments of the menu commands of rust/src/app/menu_command.rs.
pub mod Commands
use nextexpress.Prelude.{
  ℕ, ◌^◌, ◌≡◌, refl, ap, sym, ◌∙◌, min, Bool, true, false, ◌&&◌, not, List, [], ◌∷◌, ◌++◌, Option,
  none, some, leb, ◌==◌, if◌then◌else◌, arith, codes, u32_max,
}
use mathlib.Core.List.{append-nil, append_assoc}
use nextexpress.Prelude.Int.{ℤ, pos}
use nextexpress.Text.{Text, text_eq, is_empty}
use nextexpress.Time.{i64_max}
use nextexpress.Menu.{parse_menu_command, parse_trimmed, parse_arguments}
use nextexpress.Menu.Line.{
  within, to_upper, eq_ignore_case, is_whitespace, is_ascii_whitespace, is_digit, upper, trim,
  words, split_once, all, starts_with,
}
use nextexpress.Menu.Line.Pieces.{IsWord, words-word, words-append, trim-append}
use nextexpress.Menu.Number.{val_prefix, parse_uint}
use nextexpress.Menu.Number.Values.{value, val_prefix-digits, parse_uint_lem}
use nextexpress.Menu.Command.{
  MenuCommand, JoinArg, MsgBaseArg, NumberArg, FileListArg, FileSpan, NewFilesArg, ScanRequest,
  join, read, join_msg_base, file_list, new_files_scan, parse_span_token, command_tokens,
}
use nextexpress.Menu.Join.{
  after_dot, join_rest, join_tokens, msgbase_tokens, msgbase_first, parse_join_params,
  parse_join_command, parse_join_msgbase_command,
}
use nextexpress.Menu.Mail.{
  number_or_invalid, number_tokens, parse_number_command, parse_post_command,
}
use nextexpress.Menu.Files.{
  list_tokens, list_flags, scan_tokens, parse_file_list_command, parse_zippy_command,
  parse_new_files_command,
}

-- At least one character, and digits only.
abbrev pub IsNumeral : Text → Type 0
IsNumeral [] = ⊥
IsNumeral (c ∷ cs) = all is_digit (c ∷ cs) ≡ true

-- The value as an `i64`.
abbrev pub clamped : Text → ℤ
clamped a = pos (min (value a) i64_max)

digits : (a : Text) → IsNumeral a → all is_digit a ≡ true
digits [] h = absurd h
digits (c ∷ cs) h = h

digit_visible : (c : ℕ) → is_digit c ≡ true → is_whitespace c ≡ false
unfolding is_digit is_whitespace
digit_visible c h = ground (arith, h)

digits_visible : (a : Text) → all is_digit a ≡ true → all (λ d. not (is_whitespace d)) a ≡ true
digits_visible [] h = refl
digits_visible (c ∷ cs) h = ground (arith, h, digit_visible c, digits_visible cs)

pub IsNumeral-IsWord : (a : Text) → IsNumeral a → IsWord a
IsNumeral-IsWord [] h = absurd h
IsNumeral-IsWord (c ∷ cs) h = digits_visible (c ∷ cs) h

dotted_visible :
    (a b : Text)
    → all is_digit a ≡ true
    → all is_digit b ≡ true
    → all (λ d. not (is_whitespace d)) (a ++ b'.' ∷ b) ≡ true
unfolding is_whitespace
dotted_visible [] b h k = digits_visible b k
dotted_visible (c ∷ cs) b h k = ground (arith, h, digit_visible c, dotted_visible cs b)

pub dotted-IsWord : (a b : Text) → IsNumeral a → IsNumeral b → IsWord (a ++ b'.' ∷ b)
dotted-IsWord [] b h k = absurd h
dotted-IsWord (c ∷ cs) b h k = dotted_visible (c ∷ cs) b h (digits b k)

pub val_prefix-numeral : (a : Text) → IsNumeral a → val_prefix a ≡ clamped a
val_prefix-numeral a h =
    ap val_prefix (sym (append-nil a)) ∙ val_prefix-digits a [] (digits a h) refl refl

val_prefix-dotted : (a b : Text) → IsNumeral a → val_prefix (a ++ b'.' ∷ b) ≡ clamped a
unfolding is_digit
val_prefix-dotted a b h = val_prefix-digits a (b'.' ∷ b) (digits a h) refl refl

no_dot : (a : Text) → all is_digit a ≡ true → after_dot a ≡ none
unfolding is_digit
no_dot [] h = refl
no_dot (c ∷ cs) h = ground (arith, h, no_dot cs)

dotted : (a b : Text) → all is_digit a ≡ true → after_dot (a ++ b'.' ∷ b) ≡ some b
unfolding is_digit
dotted [] b h = refl
dotted (c ∷ cs) b h = ground (arith, h, dotted cs b)

pub plain_params :
    (a : Text) → IsNumeral a → parse_join_params a [] ≡ JoinArg.conference (clamped a)
unfolding parse_join_params
plain_params a h =
    ap (λ o. join_rest a o []) (no_dot a (digits a h))
    ∙ ap JoinArg.conference (val_prefix-numeral a h)

pub spaced_params :
    (a b : Text)
    → IsNumeral a
    → IsNumeral b
    → parse_join_params a (b ∷ []) ≡ JoinArg.with_msg_base (clamped a) (clamped b)
unfolding parse_join_params
spaced_params a b h k = ap (λ o. join_rest a o (b ∷ [])) (no_dot a (digits a h)) ∙ λ i.
    JoinArg.with_msg_base (val_prefix-numeral a h i) (val_prefix-numeral b k i)

pub dotted_params :
    (a b : Text)
    → IsNumeral a
    → IsNumeral b
    → parse_join_params (a ++ b'.' ∷ b) [] ≡ JoinArg.with_msg_base (clamped a) (clamped b)
unfolding parse_join_params
dotted_params a b h k = ap (λ o. join_rest (a ++ b'.' ∷ b) o []) (dotted a b (digits a h)) ∙ λ i.
    JoinArg.with_msg_base (val_prefix-dotted a b h i) (val_prefix-numeral b k i)

digit_is_no_letter :
    (c k : ℕ) → is_digit c ≡ true → within b'A' b'Z' k ≡ true → (upper c == k) ≡ false
unfolding is_digit upper
digit_is_no_letter c k h l = ground arith

first_digit : (c : ℕ) (cs : Text) → all is_digit (c ∷ cs) ≡ true → is_digit c ≡ true
first_digit c cs h = ground (arith, h)

span_of : (a : Text) → IsNumeral a → parse_span_token a ≡ some (FileSpan.dir (clamped a))
unfolding parse_span_token upper
span_of [] h = absurd h
span_of (c ∷ cs) h =
    let d = first_digit c cs h in
    ground (
      arith,
      d,
      digit_is_no_letter c b'A' d refl,
      digit_is_no_letter c b'U' d refl,
      digit_is_no_letter c b'H' d refl,
      val_prefix-numeral (c ∷ cs) h,
    )

digit_is_no_question : (c : ℕ) → is_digit c ≡ true → (c == b'?') ≡ false
unfolding is_digit
digit_is_no_question c h = ground arith

pub list_of :
    (fr : Bool) (a : Text)
    → IsNumeral a
    → list_tokens fr (a ∷ []) ≡ FileListArg.span (FileSpan.dir (clamped a)) false fr false fr
unfolding upper
list_of fr [] h = absurd h
list_of fr (c ∷ cs) h =
    let d = first_digit c cs h in
    ground (arith, digit_is_no_question c d, digit_is_no_letter c b'R' d refl, span_of (c ∷ cs) h)

digit_is_no_plus : (c : ℕ) → is_digit c ≡ true → (c == b'+') ≡ false
unfolding is_digit
digit_is_no_plus c h = ground arith

pub number_of :
    (a : Text)
    → IsNumeral a
    → number_tokens (a ∷ [])
      ≡ (if leb (value a) u32_max then NumberArg.number (value a) else NumberArg.invalid)
number_of [] h = absurd h
number_of (c ∷ cs) h =
    ground (arith, h, (parse_uint_lem u32_max (c ∷ cs) (digit_is_no_plus c (first_digit c cs h))).0)

pub plain_base :
    (a : Text) → IsNumeral a → msgbase_tokens (a ∷ []) ≡ join_msg_base (MsgBaseArg.base (clamped a))
plain_base a h =
    ap (λ o. msgbase_first a o []) (no_dot a (digits a h))
    ∙ ap (λ n. join_msg_base (MsgBaseArg.base n)) (val_prefix-numeral a h)

pub dotted_base :
    (a b : Text)
    → IsNumeral a
    → IsNumeral b
    → msgbase_tokens ((a ++ b'.' ∷ b) ∷ []) ≡ join (JoinArg.with_msg_base (clamped a) (clamped b))
dotted_base a b h k =
    ap (λ o. msgbase_first (a ++ b'.' ∷ b) o []) (dotted a b (digits a h))
    ∙ ap join (dotted_params a b h k)

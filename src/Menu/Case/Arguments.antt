-- ===== src/Menu/Case/Arguments.antt =====
-- Upper case and the arguments of the commands of rust/src/app/menu_command.rs.
use nextexpress.Prelude.{
  option_map, ℕ, ◌+◌, ◌^◌, ◌-◌, ◌*◌, ◌≡◌, refl, ap, ◌∙◌, List, [], ◌∷◌, map, Option, none, some,
  arith, ◌==◌, codes,
}
use nextexpress.Prelude.Int.{sub_ℕ, pos}
use nextexpress.Time.{i64_max}
use nextexpress.Text.{Text}
use nextexpress.Menu.Line.{
  is_ascii_whitespace, is_digit, upper, to_upper, words, strip_prefix, take_while,
}
use nextexpress.Menu.Number.{
  val_signed, unsigned, saturating_digits, val_prefix, checked_digits, some_digits, parse_uint,
}
use nextexpress.Menu.Command.{parse_span_token, tokens_after, command_tokens, JoinArg}
use nextexpress.Menu.Join.{after_dot, join_rest, parse_join_params, join_tokens}
use nextexpress.Menu.Case.Line.{
  is_ascii_whitespace-upper, is_digit-upper, ==-upper, starts_with-to_upper, words-to_upper,
  upper_option, split_once-to_upper, strip_prefix-to_upper, eq_ignore_case-to_upper,
}

-- Digits have no case.
digits-to_upper : (t : Text) → take_while is_digit (to_upper t) ≡ take_while is_digit t
unfolding is_digit upper
digits-to_upper [] = refl
digits-to_upper (c ∷ cs) = ground (arith, digits-to_upper cs)

val_signed-to_upper :
    (t : Text) (o : Option Text) → val_signed (to_upper t) (upper_option o) ≡ val_signed t o
val_signed-to_upper t none = ap (λ ds. pos (saturating_digits i64_max 0 ds)) (digits-to_upper t)
val_signed-to_upper t (some rest) =
    ap (λ ds. sub_ℕ 0 (saturating_digits (2 ^ 63) 0 ds)) (digits-to_upper rest)

pub val_prefix-to_upper : (t : Text) → val_prefix (to_upper t) ≡ val_prefix t
unfolding val_prefix
val_prefix-to_upper t =
    ap (val_signed (to_upper t)) (strip_prefix-to_upper b'-' refl t)
    ∙ val_signed-to_upper t (strip_prefix b'-' t)

checked_digits-to_upper :
    (top acc : ℕ) (t : Text) → checked_digits top acc (to_upper t) ≡ checked_digits top acc t
unfolding is_digit upper
checked_digits-to_upper top acc [] = refl
checked_digits-to_upper top acc (c ∷ cs) =
    ground (arith, checked_digits-to_upper top (acc * 10 + (c - b'0')) cs)

some_digits-to_upper : (top : ℕ) (t : Text) → some_digits top (to_upper t) ≡ some_digits top t
some_digits-to_upper top [] = refl
some_digits-to_upper top (c ∷ cs) = checked_digits-to_upper top 0 (c ∷ cs)

unsigned-to_upper :
    (top : ℕ) (t : Text) (o : Option Text)
    → unsigned top (to_upper t) (upper_option o) ≡ unsigned top t o
unsigned-to_upper top t none = some_digits-to_upper top t
unsigned-to_upper top t (some rest) = some_digits-to_upper top rest

pub parse_uint-to_upper : (top : ℕ) (t : Text) → parse_uint top (to_upper t) ≡ parse_uint top t
unfolding parse_uint
parse_uint-to_upper top t =
    ap (unsigned top (to_upper t)) (strip_prefix-to_upper b'+' refl t)
    ∙ unsigned-to_upper top t (strip_prefix b'+' t)

pub parse_span_token-to_upper : (t : Text) → parse_span_token (to_upper t) ≡ parse_span_token t
unfolding parse_span_token
parse_span_token-to_upper t = ground (
  arith,
  eq_ignore_case-to_upper t (codes "A"),
  eq_ignore_case-to_upper t (codes "U"),
  eq_ignore_case-to_upper t (codes "H"),
  starts_with-to_upper is_digit is_digit-upper t,
  val_prefix-to_upper t,
)

abbrev pub upper_all : List Text → List Text
upper_all = map to_upper

abbrev pub upper_rest : Option (List Text) → Option (List Text)
upper_rest none = none
upper_rest (some ts) = some (upper_all ts)

tokens_after-to_upper :
    (command : Text) (ts : List Text)
    → tokens_after command (upper_all ts) ≡ upper_rest (tokens_after command ts)
tokens_after-to_upper command [] = refl
tokens_after-to_upper command (t ∷ ts) = ground (arith, eq_ignore_case-to_upper t command)

pub command_tokens-to_upper :
    (line command : Text)
    → command_tokens (to_upper line) command ≡ upper_rest (command_tokens line command)
unfolding command_tokens
command_tokens-to_upper line command =
    ap (tokens_after command) (words-to_upper is_ascii_whitespace is_ascii_whitespace-upper line)
    ∙ tokens_after-to_upper command (words is_ascii_whitespace line)

-- Join arguments are read the same.
pub after_dot-to_upper : (t : Text) → after_dot (to_upper t) ≡ upper_option (after_dot t)
after_dot-to_upper t =
    ap (λ p. p.1) (split_once-to_upper (λ c. c == b'.') (λ c. ==-upper b'.' c refl) t)

join_rest-to_upper :
    (first : Text) (o : Option Text) (rest : List Text)
    → join_rest (to_upper first) (upper_option o) (upper_all rest) ≡ join_rest first o rest
join_rest-to_upper first (some base) rest =
    λ i. JoinArg.with_msg_base (val_prefix-to_upper first i) (val_prefix-to_upper base i)
join_rest-to_upper first none [] = ap JoinArg.conference (val_prefix-to_upper first)
join_rest-to_upper first none (second ∷ rest) =
    λ i. JoinArg.with_msg_base (val_prefix-to_upper first i) (val_prefix-to_upper second i)

pub parse_join_params-to_upper :
    (first : Text) (rest : List Text)
    → parse_join_params (to_upper first) (upper_all rest) ≡ parse_join_params first rest
unfolding parse_join_params
parse_join_params-to_upper first rest =
    ap (λ o. join_rest (to_upper first) o (upper_all rest)) (after_dot-to_upper first)
    ∙ join_rest-to_upper first (after_dot first) rest

pub join_tokens-to_upper : (ts : List Text) → join_tokens (upper_all ts) ≡ join_tokens ts
join_tokens-to_upper [] = refl
join_tokens-to_upper (t ∷ ts) = parse_join_params-to_upper t ts

-- A parser of tokens that turns upper case into a change of its result does so under an Option.
pub option_map-to_upper :
    {A : Type 0} (f : List Text → A) (g : A → A)
    → ((ts : List Text) → f (upper_all ts) ≡ g (f ts))
    → (o : Option (List Text)) → option_map f (upper_rest o) ≡ option_map g (option_map f o)
option_map-to_upper f g h none = refl
option_map-to_upper f g h (some ts) = ap some (h ts)

-- ===== src/Menu/Number.antt =====
-- The numbers of rust/src/app/menu_command.rs: `val_prefix`, and `str::parse` on unsigned words.
pub mod Values
use nextexpress.Prelude.{
  ℕ, ◌+◌, ◌-◌, ◌*◌, ◌^◌, min, Bool, true, false, List, [], ◌∷◌, Option, none, some, leb, ◌==◌,
  if◌then◌else◌,
}
use nextexpress.Prelude.Int.{ℤ, pos, sub_ℕ}
use nextexpress.Text.{Text}
use nextexpress.Time.{i64_max}
use nextexpress.Menu.Line.{is_digit, take_while, strip_prefix, all}

-- The fold of the digits with `saturating_mul` and `saturating_add`. The fold of a negative number
-- subtracts the digits; it is the same one on the magnitude, which saturates at 2^63.
abbrev pub saturating_digits : ℕ → ℕ → Text → ℕ
saturating_digits top acc [] = acc
saturating_digits top acc (d ∷ ds) =
    saturating_digits top (min (min (acc * 10) top + (d - b'0')) top) ds

-- The value by what follows the sign, if there is a sign.
abbrev pub val_signed : Text → Option Text → ℤ
val_signed token (some rest) = sub_ℕ 0 (saturating_digits (2 ^ 63) 0 (take_while is_digit rest))
val_signed token none = pos (saturating_digits i64_max 0 (take_while is_digit token))

unfoldable pub val_prefix : Text → ℤ
val_prefix token = val_signed token (strip_prefix b'-' token)

-- `from_str` of an unsigned word: at least one digit, after a plus sign or nothing, and no
-- overflow on the way.
abbrev pub checked_digits : ℕ → ℕ → Text → Option ℕ
checked_digits top acc [] = some acc
checked_digits top acc (d ∷ ds) =
    let rest = checked_digits top (acc * 10 + (d - b'0')) ds in
    if is_digit d then (if leb (acc * 10 + (d - b'0')) top then rest else none) else none

abbrev pub some_digits : ℕ → Text → Option ℕ
some_digits top [] = none
some_digits top (d ∷ ds) = checked_digits top 0 (d ∷ ds)

abbrev pub unsigned : ℕ → Text → Option Text → Option ℕ
unsigned top token (some rest) = some_digits top rest
unsigned top token none = some_digits top token

unfoldable pub parse_uint : ℕ → Text → Option ℕ
parse_uint top token = unsigned top token (strip_prefix b'+' token)

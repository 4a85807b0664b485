-- ===== src/Menu/Number/Values.antt =====
-- The number readers of rust/src/app/menu_command.rs against the value of a numeral.
use nextexpress.Prelude.{
  ℕ, ◌+◌, ◌-◌, ◌*◌, ◌^◌, ◌≤◌, ◌≡◌, refl, ap, ◌∙◌, min, Bool, true, false, ◌&&◌, ◌||◌, not, [], ◌∷◌,
  ◌++◌, none, some, leb, ◌==◌, if◌then◌else◌, arith, Bool-cases, inl, inr,
}
use nextexpress.Prelude.Int.{pos, sub_ℕ}
use nextexpress.Text.{Text, is_empty}
use nextexpress.Time.{i64_max}
use nextexpress.Menu.Line.{is_digit, take_while, strip_prefix, all, starts_with}
use nextexpress.Menu.Number.{saturating_digits, val_signed, val_prefix, checked_digits, parse_uint}

-- The value of the digits that follow a number.
abbrev pub value_from : ℕ → Text → ℕ
value_from acc [] = acc
value_from acc (d ∷ ds) = value_from (acc * 10 + (d - b'0')) ds

abbrev pub value : Text → ℕ
value = value_from 0

saturating_digits_lem :
    (top acc : ℕ) (ds : Text) → saturating_digits top (min acc top) ds ≡ min (value_from acc ds) top
saturating_digits_lem top acc [] = refl
saturating_digits_lem top acc (d ∷ ds) =
    ap (λ n. saturating_digits top n ds) (omega arith)
    ∙ saturating_digits_lem top (acc * 10 + (d - b'0')) ds

take_while-digits :
    (ds rest : Text)
    → all is_digit ds ≡ true
    → starts_with is_digit rest ≡ false
    → take_while is_digit (ds ++ rest) ≡ ds
take_while-digits [] [] h stop = refl
take_while-digits [] (c ∷ cs) h stop = ground (arith, stop)
take_while-digits (d ∷ ds) rest h stop = ground (arith, take_while-digits ds rest)

saturating-prefix :
    (top : ℕ) (ds rest : Text)
    → all is_digit ds ≡ true
    → starts_with is_digit rest ≡ false
    → saturating_digits top 0 (take_while is_digit (ds ++ rest)) ≡ min (value ds) top
saturating-prefix top ds rest h stop =
    ap (saturating_digits top 0) (take_while-digits ds rest h stop)
    ∙ ap (λ n. saturating_digits top n ds) (omega arith)
    ∙ saturating_digits_lem top 0 ds

no_sign :
    (p : ℕ) (ds rest : Text)
    → is_digit p ≡ false
    → all is_digit ds ≡ true
    → starts_with (λ c. c == p) rest ≡ false
    → strip_prefix p (ds ++ rest) ≡ none
no_sign p [] [] s h r = refl
no_sign p [] (c ∷ cs) s h r = ground (arith, r)
no_sign p (d ∷ ds) rest s h r = elim (Bool-cases (d == p)) [
  | inl e ↦ absurd (differs p d s (ground arith) (ground (arith, e)))
  | inr e ↦ rw e refl
]
  where
    differs : (p d : ℕ) → is_digit p ≡ false → is_digit d ≡ true → d ≡ p → ⊥
    differs p d s t e = ground (arith, ap is_digit e)

pub val_prefix-digits :
    (ds rest : Text)
    → all is_digit ds ≡ true
    → starts_with is_digit rest ≡ false
    → starts_with (λ c. c == b'-') rest ≡ false
    → val_prefix (ds ++ rest) ≡ pos (min (value ds) i64_max)
unfolding val_prefix is_digit
val_prefix-digits ds rest h stop unsigned_rest =
    ap (val_signed (ds ++ rest)) (no_sign b'-' ds rest refl h unsigned_rest)
    ∙ ap pos (saturating-prefix i64_max ds rest h stop)

strip_prefix-none :
    (p : ℕ) (token : Text) → starts_with (λ c. c == p) token ≡ false → strip_prefix p token ≡ none
strip_prefix-none p [] h = refl
strip_prefix-none p (c ∷ cs) h = ground (arith, h)

-- A text with a minus sign before it, or without.
abbrev pub signed : Bool → Text → Text
signed true text = b'-' ∷ text
signed false text = text

-- The prefix reader gives the value of the digits that a text starts with, no larger than the
-- largest `i64`, and after a minus sign its negative, no less than the smallest one. What follows
-- the digits does not matter. The condition on the sign only says that a text that starts with a
-- minus sign is one with a sign, so that every text is covered.
pub val_prefix_lem :
    (minus : Bool) (ds rest : Text)
    → all is_digit ds ≡ true
    → starts_with is_digit rest ≡ false
    → (minus || not (starts_with (λ c. c == b'-') (ds ++ rest))) ≡ true
    → val_prefix (signed minus (ds ++ rest))
      ≡ (if minus then sub_ℕ 0 (min (value ds) (2 ^ 63)) else pos (min (value ds) i64_max))
unfolding val_prefix
val_prefix_lem true ds rest h stop sign = ap (sub_ℕ 0) (saturating-prefix (2 ^ 63) ds rest h stop)
val_prefix_lem false ds rest h stop sign =
    ap (val_signed (ds ++ rest)) (strip_prefix-none b'-' (ds ++ rest) (ground (arith, sign)))
    ∙ ap pos (saturating-prefix i64_max ds rest h stop)

value_from-grows : (acc : ℕ) (ds : Text) → acc ≤ value_from acc ds
value_from-grows acc [] = omega arith
value_from-grows acc (d ∷ ds) = omega (arith, value_from-grows (acc * 10 + (d - b'0')) ds)

checked_digits_lem :
    (top acc : ℕ) (ds : Text)
    → acc ≤ top
    → checked_digits top acc ds
      ≡ (if all is_digit ds && leb (value_from acc ds) top then some (value_from acc ds) else none)
checked_digits_lem top acc [] h = ground arith
checked_digits_lem top acc (d ∷ ds) h = ground (
  arith,
  checked_digits_lem top (acc * 10 + (d - b'0')) ds,
  value_from-grows (acc * 10 + (d - b'0')) ds,
)

-- `str::parse` of an unsigned word reads exactly the numerals, of one digit at least and without a
-- sign or after a plus sign, whose value fits.
pub parse_uint_lem :
    (top : ℕ) (token : Text)
    → starts_with (λ c. c == b'+') token ≡ false
    → (parse_uint top token ≡ (
        if not (is_empty token) && all is_digit token && leb (value token) top
        then some (value token)
        else none))
      × (parse_uint top (b'+' ∷ token) ≡ parse_uint top token)
unfolding parse_uint
parse_uint_lem top [] h = (refl, refl)
parse_uint_lem top (d ∷ ds) h = ground (arith, h, checked_digits_lem top 0 (d ∷ ds))

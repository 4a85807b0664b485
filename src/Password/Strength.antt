-- ===== src/Password/Strength.antt =====
-- The strength rule of rust/src/domain/password.rs, stated without the loop.
use nextexpress.Prelude.{
  ℕ, ◌+◌, ◌≤◌, ◌≡◌, ◌↔◌, min, Bool, true, ◌||◌, not, List, [], ◌∷◌, arith, length, any,
}
use nextexpress.Password.{
  Seen, see, see_all, unseen, from_bool, is_ascii_digit, is_ascii_uppercase, is_ascii_lowercase,
  meets_password_strength,
}

abbrev is_symbol : ℕ → Bool
is_symbol c = not (is_ascii_digit c || is_ascii_uppercase c || is_ascii_lowercase c)

-- How many of the four categories occur in a password.
abbrev pub categories_in : List ℕ → ℕ
categories_in cs =
    from_bool (any is_ascii_lowercase cs)
    + from_bool (any is_ascii_uppercase cs)
    + from_bool (any is_ascii_digit cs)
    + from_bool (any is_symbol cs)

see_all-any :
    (seen : Seen) (cs : List ℕ)
    → see_all seen cs ≡ record {
      lower = seen.lower || any is_ascii_lowercase cs;
      upper = seen.upper || any is_ascii_uppercase cs;
      digit = seen.digit || any is_ascii_digit cs;
      symbol = seen.symbol || any is_symbol cs;
    }
unfolding see_all
see_all-any seen [] = ground arith
see_all-any seen (c ∷ cs) = ground (arith, see_all-any (see seen c) cs)

-- A password is accepted exactly if it has the minimum length and, where categories are asked for,
-- at least that many of lower case, upper case, digits and the rest occur in it, with four the most
-- that can be asked.
pub meets_password_strength_lem :
    (candidate : List ℕ) (min_length min_categories : ℕ)
    → (meets_password_strength candidate min_length min_categories ≡ true)
      ↔ ((min_length ≤ length candidate) × (min min_categories 4 ≤ categories_in candidate))
unfolding meets_password_strength
meets_password_strength_lem candidate min_length min_categories =
    ground (arith, see_all-any unseen candidate)

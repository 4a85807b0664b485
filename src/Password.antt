-- ===== src/Password.antt =====
-- rust/src/domain/password.rs: the hash kinds, and the strength rule for a new password.
pub mod Strength
use nextexpress.Prelude.{
  ℕ, ◌+◌, min, Bool, true, false, ◌&&◌, Option, List, [], ◌∷◌, leb, ltb, length, if◌then◌else◌,
}
use nextexpress.Text.{Text}

pub data PasswordHashKind : Type 0 where
  pbkdf2_10000 : PasswordHashKind

pub record ComputedHash : Type 0 where
  pub hash : Text
  pub salt : Option Text

abbrev pub is_ascii_digit : ℕ → Bool
is_ascii_digit c = leb b'0' c && leb c b'9'

abbrev pub is_ascii_uppercase : ℕ → Bool
is_ascii_uppercase c = leb b'A' c && leb c b'Z'

abbrev pub is_ascii_lowercase : ℕ → Bool
is_ascii_lowercase c = leb b'a' c && leb c b'z'

-- The four flags of the loop over the characters.
pub record Seen : Type 0 where
  pub lower : Bool
  pub upper : Bool
  pub digit : Bool
  pub symbol : Bool

abbrev pub see : Seen → ℕ → Seen
see seen ch =
    if is_ascii_digit ch
    then record seen { digit = true }
    else if is_ascii_uppercase ch
    then record seen { upper = true }
    else if is_ascii_lowercase ch
    then record seen { lower = true }
    else record seen { symbol = true }

unfoldable pub see_all : Seen → List ℕ → Seen
see_all seen [] = seen
see_all seen (ch ∷ rest) = see_all (see seen ch) rest

abbrev pub from_bool : Bool → ℕ
from_bool true = 1
from_bool false = 0

abbrev pub unseen : Seen
unseen = record { lower = false; upper = false; digit = false; symbol = false }

abbrev pub categories : Seen → ℕ
categories seen =
    from_bool seen.lower + from_bool seen.upper + from_bool seen.digit + from_bool seen.symbol

-- `candidate` is the list of the characters of the password. A u32 always fits a usize here.
unfoldable pub meets_password_strength : List ℕ → ℕ → ℕ → Bool
meets_password_strength candidate min_length min_categories =
    if ltb (length candidate) min_length
    then false
    else if ltb 0 min_categories
    then (if ltb (categories (see_all unseen candidate)) (min min_categories 4)
        then false
        else true)
    else true

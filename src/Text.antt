-- ===== src/Text.antt =====
-- Rust strings as the bytes of their UTF-8 text, and `to_string` of a u32.
use nextexpress.Prelude.{
  ℕ, zero, suc, ◌+◌, ◌/◌, ◌%◌, Bool, true, false, ◌&&◌, List, [], ◌∷◌, codes, ◌==◌, if◌then◌else◌,
  ◌≡◌, refl,
}

abbrev pub Text : Type 0
Text = List ℕ

-- Decimal digits, the last first onto `rest`; ten rounds are enough for a u32.
abbrev pub decimal_from : ℕ → ℕ → Text → Text
decimal_from zero n rest = rest
decimal_from (suc rounds) n rest =
    let more = decimal_from rounds (n / 10) ((b'0' + n % 10) ∷ rest) in
    if n / 10 == 0 then (b'0' + n % 10) ∷ rest else more

unfoldable pub decimal : ℕ → Text
decimal n = decimal_from 10 n []

abbrev pub is_empty : Text → Bool
is_empty [] = true
is_empty (c ∷ cs) = false

abbrev pub text_eq : Text → Text → Bool
text_eq [] [] = true
text_eq (a ∷ as') (b ∷ bs) = a == b && text_eq as' bs
text_eq _ _ = false

decimal_example : decimal 1040 ≡ codes "1040"
unfolding decimal
decimal_example = refl

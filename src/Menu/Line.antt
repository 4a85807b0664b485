-- ===== src/Menu/Line.antt =====
-- The operations of Rust's `str` that rust/src/app/menu_command.rs uses. A string is the list of
-- its characters, as code points.
pub mod Pieces
use nextexpress.Prelude.{
  ℕ, ◌-◌, Bool, true, false, ◌&&◌, ◌||◌, not, List, [], ◌∷◌, map, Option, none, some, ltb, leb,
  ◌==◌, filter, if◌then◌else◌,
}
use nextexpress.Text.{Text, text_eq, is_empty}

abbrev pub within : ℕ → ℕ → ℕ → Bool
within lo hi c = leb lo c && leb c hi

-- `char::is_whitespace`: the characters with the Unicode property White_Space.
unfoldable pub is_whitespace : ℕ → Bool
is_whitespace c =
    within 9 13 c
    || c == 32
    || c == 133
    || c == 160
    || c == 5760
    || within 8192 8202 c
    || c == 8232
    || c == 8233
    || c == 8239
    || c == 8287
    || c == 12288

-- `u8::is_ascii_whitespace`, which leaves out the vertical tab.
unfoldable pub is_ascii_whitespace : ℕ → Bool
is_ascii_whitespace c = c == 9 || c == 10 || c == 12 || c == 13 || c == 32

unfoldable pub is_digit : ℕ → Bool
is_digit = within b'0' b'9'

unfoldable pub upper : ℕ → ℕ
upper c = if within b'a' b'z' c then c - 32 else c

abbrev pub to_upper : Text → Text
to_upper = map upper

abbrev pub eq_ignore_case : Text → Text → Bool
eq_ignore_case a b = text_eq (to_upper a) (to_upper b)

abbrev pub starts_with : (ℕ → Bool) → Text → Bool
starts_with test [] = false
starts_with test (c ∷ cs) = test c

abbrev pub trim_start : Text → Text
trim_start [] = []
trim_start (c ∷ cs) = if is_whitespace c then trim_start cs else c ∷ cs

abbrev pub trim_cons : ℕ → Text → Text
trim_cons c [] = if is_whitespace c then [] else c ∷ []
trim_cons c (d ∷ ds) = c ∷ d ∷ ds

abbrev pub trim_end : Text → Text
trim_end [] = []
trim_end (c ∷ cs) = trim_cons c (trim_end cs)

unfoldable pub trim : Text → Text
trim line = trim_end (trim_start line)

abbrev pub push_first : ℕ → List Text → List Text
push_first c [] = (c ∷ []) ∷ []
push_first c (w ∷ ws) = (c ∷ w) ∷ ws

-- `line.split(test)`, which always has one piece at least.
abbrev pub split : (ℕ → Bool) → Text → List Text
split test [] = [] ∷ []
split test (c ∷ cs) = if test c then [] ∷ split test cs else push_first c (split test cs)

-- `split_whitespace()` and `split_ascii_whitespace()`: the pieces that are not empty.
abbrev pub words : (ℕ → Bool) → Text → List Text
words test line = filter (λ w. not (is_empty w)) (split test line)

-- `splitn(2, test)`: the text before the first character that passes, and the text after it.
abbrev pub split_once : (ℕ → Bool) → Text → Text × Option Text
split_once test [] = ([], none)
split_once test (c ∷ cs) =
    let (before, after) = split_once test cs in
    if test c then ([], some cs) else (c ∷ before, after)

abbrev pub strip_prefix : ℕ → Text → Option Text
strip_prefix p [] = none
strip_prefix p (c ∷ cs) = if c == p then some cs else none

abbrev pub all : (ℕ → Bool) → Text → Bool
all test [] = true
all test (c ∷ cs) = test c && all test cs

abbrev pub take_while : (ℕ → Bool) → Text → Text
take_while test [] = []
take_while test (c ∷ cs) = if test c then c ∷ take_while test cs else []

-- ===== src/Telnet/Decoding.antt =====
-- `std::str::from_utf8` and `String::from_utf8_lossy` as rust/src/adapters/telnet_line.rs uses them.
use nextexpress.Prelude.{
  ℕ, Bool, ◌&&◌, List, [], ◌∷◌, ◌++◌, Option, none, some, ltb, leb, ◌==◌, if◌then◌else◌,
}

abbrev pub within : ℕ → ℕ → ℕ → Bool
within lo hi b = leb lo b && leb b hi

pub record Bounds : Type 0 where
  pub lo : ℕ
  pub hi : ℕ

abbrev pub continuation : Bounds
continuation = record { lo = 128; hi = 191 }

abbrev pub from : ℕ → Bounds
from lo = record { lo = lo; hi = 191 }

abbrev pub up_to : ℕ → Bounds
up_to hi = record { lo = 128; hi = hi }

-- The bounds of the bytes that follow a first byte, for the bytes that can be first.
unfoldable pub tail_of : ℕ → Option (List Bounds)
tail_of b =
    if ltb b 128
    then some []
    else if within 194 223 b
    then some (continuation ∷ [])
    else if b == 224
    then some (from 160 ∷ continuation ∷ [])
    else if b == 237
    then some (up_to 159 ∷ continuation ∷ [])
    else if within 225 239 b
    then some (continuation ∷ continuation ∷ [])
    else if b == 240
    then some (from 144 ∷ continuation ∷ continuation ∷ [])
    else if within 241 243 b
    then some (continuation ∷ continuation ∷ continuation ∷ [])
    else if b == 244
    then some (up_to 143 ∷ continuation ∷ continuation ∷ [])
    else none

-- What `from_utf8` says: `Ok`, an `Err` whose `error_len` is none because the input ends within a
-- character, or one that no further byte can mend.
pub data Utf8 : Type 0 where
  valid incomplete invalid : Utf8

-- The input from a place where bytes within these bounds are due.
abbrev pub check : List Bounds → List ℕ → Utf8
check [] [] = Utf8.valid
check (r ∷ rs) [] = Utf8.incomplete
check [] (b ∷ bs) = elim (tail_of b) [ none ↦ Utf8.invalid | some rs ↦ check rs bs ]
check (r ∷ rs) (b ∷ bs) = if within r.lo r.hi b then check rs bs else Utf8.invalid

abbrev pub from_utf8 : List ℕ → Utf8
from_utf8 = check []

-- U+FFFD
abbrev pub replacement : List ℕ
replacement = 239 ∷ 191 ∷ 189 ∷ []

-- What starts with the byte `b`, when `held` waits for no more, or in vain.
abbrev pub lossy : List ℕ → List Bounds → List ℕ → List ℕ
lossy held [] [] = []
lossy held (r ∷ rs) [] = replacement
lossy held [] (b ∷ bs) = elim (tail_of b) [
  | none ↦ replacement ++ lossy [] [] bs
  | some [] ↦ b ∷ lossy [] [] bs
  | some (r ∷ rs) ↦ lossy (b ∷ []) (r ∷ rs) bs
]
lossy held (r ∷ []) (b ∷ bs) =
    if within r.lo r.hi b
    then held ++ b ∷ lossy [] [] bs
    else replacement ++ elim (tail_of b) [
      | none ↦ replacement ++ lossy [] [] bs
      | some [] ↦ b ∷ lossy [] [] bs
      | some (s ∷ ss) ↦ lossy (b ∷ []) (s ∷ ss) bs
    ]
lossy held (r ∷ q ∷ rs) (b ∷ bs) =
    if within r.lo r.hi b
    then lossy (held ++ b ∷ []) (q ∷ rs) bs
    else replacement ++ elim (tail_of b) [
      | none ↦ replacement ++ lossy [] [] bs
      | some [] ↦ b ∷ lossy [] [] bs
      | some (s ∷ ss) ↦ lossy (b ∷ []) (s ∷ ss) bs
    ]

-- Each maximal part of a character that is not completed gives one U+FFFD.
abbrev pub from_utf8_lossy : List ℕ → List ℕ
from_utf8_lossy = lossy [] []

-- ===== src/Telnet/Typed.antt =====
-- Typed text for rust/src/adapters/telnet_line.rs: characters in UTF-8, and what the decoder makes of
-- them.
pub mod Rounds
pub mod Lines
pub mod Limit
pub mod Erasing
use nextexpress.Prelude.{
  ℕ, ◌≤◌, ◌≡◌, refl, ap, sym, subst, ltb, ◌==◌, ◌∙◌, Bool, true, false, ◌&&◌, Option, none, some,
  List, [], ◌∷◌, ◌++◌, arith, Every, if◌then◌else◌,
}
use mathlib.Core.List.{append_assoc, append-nil}
use nextexpress.Telnet.{EchoMode, Arrival, echoed}
use nextexpress.Telnet.Decoding.{
  Bounds, Utf8, within, continuation, from, up_to, tail_of, check, from_utf8, lossy,
  from_utf8_lossy,
}

-- The bytes are within the bounds, one by one.
abbrev pub IsWithin : List Bounds → List ℕ → Type 0
IsWithin [] [] = Unit
IsWithin (r ∷ rs) (c ∷ cs) = (within r.lo r.hi c ≡ true) × IsWithin rs cs
IsWithin _ _ = ⊥

-- A character that can be typed: printable in ASCII, or of several bytes.
pub data Char : Type 0 where
  ascii : (b : ℕ) → within 32 126 b ≡ true → Char
  wide :
      (b : ℕ) (r : Bounds) (rs : List Bounds) (cs : List ℕ)
      → tail_of b ≡ some (r ∷ rs)
      → IsWithin (r ∷ rs) cs
      → Char

abbrev pub bytes_of : Char → List ℕ
bytes_of (Char.ascii b h) = b ∷ []
bytes_of (Char.wide b r rs cs e h) = b ∷ cs

abbrev pub utf8 : List Char → List ℕ
utf8 [] = []
utf8 (c ∷ cs) = bytes_of c ++ utf8 cs

abbrev pub echo_of : EchoMode → List Char → List ℕ
echo_of echo [] = []
echo_of echo (c ∷ cs) = echoed echo (bytes_of c) ++ echo_of echo cs

-- The bytes arrive before the rest.
abbrev pub arriving : List ℕ → List Arrival → List Arrival
arriving [] rest = rest
arriving (b ∷ bs) rest = Arrival.byte b ∷ arriving bs rest

pub arriving-append :
    (bs cs : List ℕ) (rest : List Arrival)
    → arriving (bs ++ cs) rest ≡ arriving bs (arriving cs rest)
arriving-append [] cs rest = refl
arriving-append (b ∷ bs) cs rest = ap (λ t. Arrival.byte b ∷ t) (arriving-append bs cs rest)

-- A first byte of several, and the bytes that can follow it.
pub lead_byte :
    (b : ℕ) {r : Bounds} {rs : List Bounds} → tail_of b ≡ some (r ∷ rs) → within 194 244 b ≡ true
unfolding tail_of
lead_byte b e = ground (arith, e)

abbrev pub IsContinuation : Bounds → Type 0
IsContinuation r = 128 ≤ r.lo × r.hi ≤ 191

abbrev AreContinuations : Option (List Bounds) → Type 0
AreContinuations none = Unit
AreContinuations (some rs) = Every IsContinuation rs

either :
    (test : Bool) (o p : Option (List Bounds))
    → AreContinuations o
    → AreContinuations p
    → AreContinuations (if test then o else p)
either true o p h k = h
either false o p h k = k

tail_of-AreContinuations : (b : ℕ) → AreContinuations (tail_of b)
unfolding tail_of
tail_of-AreContinuations b = either (ltb b 128) _ _ tt (
    either (within 194 223 b) _ _ (omega arith) (
      either (b == 224) _ _ (omega arith) (
        either (b == 237) _ _ (omega arith) (
          either (within 225 239 b) _ _ (omega arith) (
            either (b == 240) _ _ (omega arith) (
              either (within 241 243 b) _ _ (omega arith)
                (either (b == 244) _ none (omega arith) tt)))))))

pub tail_of-Every :
    (b : ℕ) {r : Bounds} {rs : List Bounds}
    → tail_of b ≡ some (r ∷ rs)
    → Every IsContinuation (r ∷ rs)
tail_of-Every b e = subst AreContinuations e (tail_of-AreContinuations b)

ascii_first : (b : ℕ) → within 32 126 b ≡ true → tail_of b ≡ some []
unfolding tail_of
ascii_first b h = ground (arith, h)

lossy-tail :
    (held : List ℕ) (r : Bounds) (rs : List Bounds) (cs rest : List ℕ)
    → IsWithin (r ∷ rs) cs
    → lossy held (r ∷ rs) (cs ++ rest) ≡ held ++ (cs ++ lossy [] [] rest)
lossy-tail held r [] (c ∷ []) rest h = ground (arith, h)
lossy-tail held r (q ∷ rs) (c ∷ cs) rest (here, there) = rw here (
    lossy-tail (held ++ c ∷ []) q rs cs rest there
    ∙ append_assoc held (c ∷ []) (cs ++ lossy [] [] rest))
lossy-tail held r [] [] rest h = absurd h
lossy-tail held r (q ∷ rs) [] rest h = absurd h
lossy-tail held r [] (c ∷ d ∷ cs) rest h = absurd h.1

lossy-char :
    (c : Char) (rest : List ℕ) → lossy [] [] (bytes_of c ++ rest) ≡ bytes_of c ++ lossy [] [] rest
lossy-char (Char.ascii b h) rest = rw (ascii_first b h, lossy) refl
lossy-char (Char.wide b r rs cs e h) rest = rw (e, lossy) (lossy-tail (b ∷ []) r rs cs rest h)

-- Text loses nothing when it is decoded.
pub from_utf8_lossy-utf8 : (text : List Char) → from_utf8_lossy (utf8 text) ≡ utf8 text
from_utf8_lossy-utf8 [] = refl
from_utf8_lossy-utf8 (c ∷ cs) =
    lossy-char c (utf8 cs) ∙ ap (λ t. bytes_of c ++ t) (from_utf8_lossy-utf8 cs)

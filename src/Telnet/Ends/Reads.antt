-- ===== src/Telnet/Ends/Reads.antt =====
-- How much the parts of rust/src/adapters/telnet_line.rs leave to read.
use nextexpress.Prelude.{
  ℕ, ◌≤◌, ◌<◌, ◌≡◌, refl, ◌∙◌, Bool, true, false, Option, none, some, List, [], ◌∷◌, Result, ok,
  err, ◌==◌, length, arith,
}
use nextexpress.Telnet.{
  Telnet, Arrival, EchoMode, IoError, next, read_from, read_one, skip_option, skip_command,
  skip_subnegotiation, skip_iac, latin1_to_utf8, commit_accepted, flush_pending_latin1, then_flush,
}
use nextexpress.Telnet.Line.{size}

next-length : (xs : List Arrival) → length (next xs).0 ≤ length xs
next-length [] = omega arith
next-length (Arrival.byte b ∷ xs) = omega arith
next-length (Arrival.quiet ∷ xs) = omega (arith, next-length xs)
next-length (Arrival.broken ∷ xs) = omega arith

next-byte : (xs : List Arrival) {b : ℕ} → (next xs).1 ≡ ok (some b) → length (next xs).0 < length xs
next-byte [] h = absurd cc
next-byte (Arrival.byte b ∷ xs) h = omega arith
next-byte (Arrival.quiet ∷ xs) h = omega (arith, next-byte xs h)
next-byte (Arrival.broken ∷ xs) h = absurd cc

read_from-size : (o : Option ℕ) (t : Telnet) → t.pushback ≡ o → size (read_from o t).0 ≤ size t
read_from-size none t e = ground (arith, e, next-length t.input)
read_from-size (some b) t e = ground (arith, e)

pub read_one-size : (t : Telnet) → size (read_one t).0 ≤ size t
unfolding read_one
read_one-size t = read_from-size t.pushback t refl

read_from-byte :
    (o : Option ℕ) (t : Telnet) {b : ℕ}
    → t.pushback ≡ o
    → (read_from o t).1 ≡ ok (some b)
    → size (read_from o t).0 < size t
read_from-byte none t e h = ground (arith, e, next-byte t.input h)
read_from-byte (some b) t e h = ground (arith, e)

-- A byte that is read is one byte less to read.
pub read_one-byte :
    (t : Telnet) {b : ℕ} → (read_one t).1 ≡ ok (some b) → size (read_one t).0 < size t
unfolding read_one
read_one-byte t h = read_from-byte t.pushback t refl h

skip_subnegotiation-length :
    (iac : Bool) (xs : List Arrival) → length (skip_subnegotiation iac xs).0 ≤ length xs
skip_subnegotiation-length iac [] = omega arith
skip_subnegotiation-length iac (Arrival.quiet ∷ xs) =
    omega (arith, skip_subnegotiation-length iac xs)
skip_subnegotiation-length iac (Arrival.broken ∷ xs) = omega arith
skip_subnegotiation-length false (Arrival.byte b ∷ xs) =
    omega (arith, skip_subnegotiation-length (b == 255) xs)
skip_subnegotiation-length true (Arrival.byte b ∷ xs) =
    ground (arith, skip_subnegotiation-length false xs)

skip_option-size : (r : Telnet × Result IoError (Option ℕ)) → size (skip_option r).0 ≡ size r.0
skip_option-size (t, ok o) = refl
skip_option-size (t, err e) = refl

skip_command-size : (r : Telnet × Result IoError (Option ℕ)) → size (skip_command r).0 ≤ size r.0
skip_command-size (t, err e) = omega arith
skip_command-size (t, ok none) = omega arith
skip_command-size (t, ok (some cmd)) = ground (
  arith,
  skip_option-size (read_one t),
  read_one-size t,
  skip_subnegotiation-length false t.input,
)

pub skip_iac-size : (t : Telnet) → size (skip_iac t).0 ≤ size t
unfolding skip_iac
skip_iac-size t = omega (arith, skip_command-size (read_one t), read_one-size t)

pub commit_accepted-size :
    (bytes : List ℕ) (echo : EchoMode) (t : Telnet) → size (commit_accepted bytes echo t).0 ≡ size t
unfolding commit_accepted
commit_accepted-size bytes echo t = ground arith

then_flush-size :
    (flush : Telnet → Telnet × Result IoError (Unit {0})) (r : Telnet × Result IoError (Unit {0}))
    → ((t : Telnet) → size (flush t).0 ≡ size t)
    → size (then_flush flush r).0 ≡ size r.0
then_flush-size flush (t, ok u) h = h t
then_flush-size flush (t, err e) h = refl

pub flush_pending_latin1-size :
    (bytes : List ℕ) (echo : EchoMode) (t : Telnet)
    → size (flush_pending_latin1 bytes echo t).0 ≡ size t
unfolding flush_pending_latin1
flush_pending_latin1-size [] echo t = refl
flush_pending_latin1-size (b ∷ bs) echo t =
    then_flush-size (flush_pending_latin1 bs echo) (commit_accepted (latin1_to_utf8 b) echo t)
      (flush_pending_latin1-size bs echo)
    ∙ commit_accepted-size (latin1_to_utf8 b) echo t

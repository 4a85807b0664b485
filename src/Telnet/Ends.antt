-- ===== src/Telnet/Ends.antt =====
-- How much the loops of rust/src/adapters/telnet_line.rs read in a round.
pub mod Reads
use nextexpress.Prelude.{
  ℕ, zero, suc, ◌+◌, ◌≤◌, ◌<◌, ◌≡◌, refl, ◌∙◌, Bool, true, false, Option, none, some, List, [], ◌∷◌,
  ◌++◌, Result, ok, err, ◌==◌, length, arith, Bool-cases, Option-cases, inl, inr,
}
use nextexpress.Telnet.{
  restate, Telnet, Arrival, EchoMode, IoError, next, read_from, read_one, write,
  try_consume_cr_trailer, skip_option, skip_command, skip_subnegotiation, skip_iac, latin1_to_utf8,
  commit_accepted, flush_pending_latin1, then_flush, pop_last_char,
}
use nextexpress.Telnet.Decoding.{Utf8, from_utf8}
use nextexpress.Telnet.Line.{
  Round, size, line_end, then_again, after_trailer, after_iac, on_high, on_text, on_erase, on_byte,
  on_continuation, then_byte, on_pending, on_end, on_read, round, continue_with, read_loop,
  read_telnet_line,
}
use nextexpress.Telnet.Key.{
  KeyRound, KeyEvent, on_key, event_after, key_after_iac, on_key_read, key_round, key_loop,
  key_continue, read_telnet_key, swallow_buffered_csi,
}
use Reads.{read_one-byte, skip_iac-size, commit_accepted-size, flush_pending_latin1-size}

-- Where a round goes on, less than `n` is left to read.
abbrev LeavesBelow : ℕ → Round → Type 0
LeavesBelow n (Round.return t result) = Unit
LeavesBelow n (Round.again t pending) = size t < n

then_again-LeavesBelow :
    (n : ℕ) (pending : List ℕ) (r : Telnet × Result IoError (Unit {0}))
    → size r.0 < n
    → LeavesBelow n (then_again pending r)
then_again-LeavesBelow n pending (t, ok u) h = h
then_again-LeavesBelow n pending (t, err e) h = tt

commit-LeavesBelow :
    (n : ℕ) (bytes : List ℕ) (echo : EchoMode) (t : Telnet)
    → size t < n
    → LeavesBelow n (then_again [] (commit_accepted bytes echo t))
commit-LeavesBelow n bytes echo t h =
    then_again-LeavesBelow n [] (commit_accepted bytes echo t)
      (omega (arith, commit_accepted-size bytes echo t))

after_iac-LeavesBelow :
    (n : ℕ) (r : Telnet × Result IoError Bool) → size r.0 < n → LeavesBelow n (after_iac r)
after_iac-LeavesBelow n (t, ok true) h = h
after_iac-LeavesBelow n (t, ok false) h = tt
after_iac-LeavesBelow n (t, err e) h = tt

after_trailer-LeavesBelow :
    (n : ℕ) (r : Telnet × Result IoError (Unit {0})) → LeavesBelow n (after_trailer r)
after_trailer-LeavesBelow n (t, ok u) = tt
after_trailer-LeavesBelow n (t, err e) = tt

on_high-LeavesBelow :
    (n b : ℕ) (echo : EchoMode) (t : Telnet) → size t < n → LeavesBelow n (on_high b echo t)
on_high-LeavesBelow n b echo t h = ground (arith, commit-LeavesBelow n (latin1_to_utf8 b) echo t h)

on_text-LeavesBelow :
    (n b : ℕ) (echo : EchoMode) (t : Telnet) → size t < n → LeavesBelow n (on_text b echo t)
on_text-LeavesBelow n b echo t h =
    ground (arith, commit-LeavesBelow n (b ∷ []) echo t h, on_high-LeavesBelow n b echo t h)

on_erase-LeavesBelow :
    (n : ℕ) (o : Option (List ℕ)) (b : ℕ) (echo : EchoMode) (t : Telnet)
    → size t < n
    → LeavesBelow n (on_erase o b echo t)
on_erase-LeavesBelow n none b echo t h = on_text-LeavesBelow n b echo t h
on_erase-LeavesBelow n (some buf) b echo t h = h

on_byte-LeavesBelow :
    (n b : ℕ) (echo : EchoMode) (t : Telnet) → size t < n → LeavesBelow n (on_byte b echo t)
unfolding on_byte
on_byte-LeavesBelow n b echo t h = ground (
  arith,
  after_iac-LeavesBelow n (skip_iac t) (omega (arith, skip_iac-size t)),
  after_trailer-LeavesBelow n (try_consume_cr_trailer t),
  on_erase-LeavesBelow n (pop_last_char t.buf) b echo t h,
  on_text-LeavesBelow n b echo t h,
)

on_continuation-LeavesBelow :
    (n : ℕ) (pending : List ℕ) (echo : EchoMode) (t : Telnet)
    → size t < n
    → LeavesBelow n (on_continuation pending echo t)
on_continuation-LeavesBelow n pending echo t h = ground (
  arith,
  commit-LeavesBelow n pending echo t h,
  then_again-LeavesBelow n [] (flush_pending_latin1 pending echo t)
      (omega (arith, flush_pending_latin1-size pending echo t)),
)

then_byte-LeavesBelow :
    (n b : ℕ) (echo : EchoMode) (r : Telnet × Result IoError (Unit {0}))
    → size r.0 < n
    → LeavesBelow n (then_byte b echo r)
then_byte-LeavesBelow n b echo (t, ok u) h = on_byte-LeavesBelow n b echo t h
then_byte-LeavesBelow n b echo (t, err e) h = tt

on_pending-LeavesBelow :
    (n : ℕ) (pending : List ℕ) (b : ℕ) (echo : EchoMode) (t : Telnet)
    → size t < n
    → LeavesBelow n (on_pending pending b echo t)
on_pending-LeavesBelow n [] b echo t h = on_byte-LeavesBelow n b echo t h
on_pending-LeavesBelow n (p ∷ ps) b echo t h = ground (
  arith,
  on_continuation-LeavesBelow n (p ∷ (ps ++ b ∷ [])) echo t h,
  then_byte-LeavesBelow n b echo (flush_pending_latin1 (p ∷ ps) echo t)
      (omega (arith, flush_pending_latin1-size (p ∷ ps) echo t)),
)

on_end-LeavesBelow : (n : ℕ) (t : Telnet) → LeavesBelow n (on_end t)
on_end-LeavesBelow n t = ground arith

on_read-LeavesBelow :
    (n : ℕ) (pending : List ℕ) (echo : EchoMode) (r : Telnet × Result IoError (Option ℕ))
    → ((b : ℕ) → r.1 ≡ ok (some b) → size r.0 < n)
    → LeavesBelow n (on_read pending echo r)
on_read-LeavesBelow n pending echo (t, err e) h = tt
on_read-LeavesBelow n pending echo (t, ok none) h =
    on_end-LeavesBelow n (record t { buf = restate pending t.buf })
on_read-LeavesBelow n pending echo (t, ok (some b)) h =
    on_pending-LeavesBelow n pending b echo t (h b refl)

-- A round that goes on has read at least one byte.
round-LeavesBelow :
    (n : ℕ) (pending : List ℕ) (echo : EchoMode) (t : Telnet)
    → size t ≤ n
    → LeavesBelow n (round pending echo t)
unfolding round
round-LeavesBelow n pending echo t h =
    on_read-LeavesBelow n pending echo (read_one t) (λ b e. omega (arith, read_one-byte t e, h))

abbrev pub LineResult : Type 0
LineResult = Telnet × Result IoError (Option (List ℕ))

continue_returns :
    (loop : List ℕ → Telnet → Option LineResult) (n : ℕ) (r : Round)
    → ((pending : List ℕ) (t : Telnet)
        → size t < n
        → (result : LineResult) × (loop pending t ≡ some result))
    → LeavesBelow n r
    → (result : LineResult) × (continue_with loop r ≡ some result)
continue_returns loop n (Round.return t result) ih h = ((t, result), refl)
continue_returns loop n (Round.again t pending) ih h = ih pending t h

read_loop_lem :
    (n : ℕ) (echo : EchoMode) (pending : List ℕ) (t : Telnet)
    → size t < n
    → (result : LineResult) × (read_loop n echo pending t ≡ some result)
unfolding read_loop
read_loop_lem zero echo pending t h = absurd (omega (arith, h))
read_loop_lem (suc n) echo pending t h =
    continue_returns (read_loop n echo) n (round pending echo t) (read_loop_lem n echo)
      (round-LeavesBelow n pending echo t (omega (arith, h)))

-- Keys.
abbrev KeyLeavesBelow : ℕ → KeyRound → Type 0
KeyLeavesBelow n (KeyRound.return t result) = Unit
KeyLeavesBelow n (KeyRound.again t) = size t < n

key_after_iac-KeyLeavesBelow :
    (n : ℕ) (r : Telnet × Result IoError Bool) → size r.0 < n → KeyLeavesBelow n (key_after_iac r)
key_after_iac-KeyLeavesBelow n (t, ok true) h = h
key_after_iac-KeyLeavesBelow n (t, ok false) h = tt
key_after_iac-KeyLeavesBelow n (t, err e) h = tt

event_after-KeyLeavesBelow :
    (n : ℕ) (key : KeyEvent) (r : Telnet × Result IoError (Unit {0}))
    → KeyLeavesBelow n (event_after key r)
event_after-KeyLeavesBelow n key (t, ok u) = tt
event_after-KeyLeavesBelow n key (t, err e) = tt

on_key-KeyLeavesBelow : (n b : ℕ) (t : Telnet) → size t < n → KeyLeavesBelow n (on_key b t)
unfolding on_key
on_key-KeyLeavesBelow n b t h = ground (
  arith,
  key_after_iac-KeyLeavesBelow n (skip_iac t) (omega (arith, skip_iac-size t)),
  event_after-KeyLeavesBelow n KeyEvent.enter (try_consume_cr_trailer t),
  event_after-KeyLeavesBelow n KeyEvent.other (swallow_buffered_csi t),
)

on_key_read-KeyLeavesBelow :
    (n : ℕ) (r : Telnet × Result IoError (Option ℕ))
    → ((b : ℕ) → r.1 ≡ ok (some b) → size r.0 < n)
    → KeyLeavesBelow n (on_key_read r)
on_key_read-KeyLeavesBelow n (t, err e) h = tt
on_key_read-KeyLeavesBelow n (t, ok none) h = tt
on_key_read-KeyLeavesBelow n (t, ok (some b)) h = on_key-KeyLeavesBelow n b t (h b refl)

abbrev pub KeyResult : Type 0
KeyResult = Telnet × Result IoError (Option KeyEvent)

key_continue_returns :
    (loop : Telnet → Option KeyResult) (n : ℕ) (r : KeyRound)
    → ((t : Telnet) → size t < n → (result : KeyResult) × (loop t ≡ some result))
    → KeyLeavesBelow n r
    → (result : KeyResult) × (key_continue loop r ≡ some result)
key_continue_returns loop n (KeyRound.return t result) ih h = ((t, result), refl)
key_continue_returns loop n (KeyRound.again t) ih h = ih t h

key_loop_lem :
    (n : ℕ) (t : Telnet) → size t < n → (result : KeyResult) × (key_loop n t ≡ some result)
unfolding key_loop key_round
key_loop_lem zero t h = absurd (omega (arith, h))
key_loop_lem (suc n) t h =
    key_continue_returns (key_loop n) n (key_round t) (key_loop_lem n)
      (on_key_read-KeyLeavesBelow n (read_one t) (λ b e. omega (arith, read_one-byte t e, h)))

-- The reading of a line and the reading of a key both come to an end, on every input and from every
-- state: a round that goes on has read a byte, so the loops make at most one round for each byte
-- that is there, and one for the end of the stream.
pub reading_ends :
    (echo : EchoMode) (t : Telnet)
    → ((result : LineResult) × (read_telnet_line echo t ≡ some result))
      × ((result : KeyResult) × (read_telnet_key t ≡ some result))
unfolding read_telnet_line read_telnet_key
reading_ends echo t = (
  read_loop_lem (suc (size t)) echo [] t (omega arith),
  key_loop_lem (suc (size t)) t (omega arith),
)

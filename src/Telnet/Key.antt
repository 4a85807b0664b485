-- ===== src/Telnet/Key.antt =====
-- `read_telnet_key` of rust/src/adapters/telnet_line.rs.
use nextexpress.Prelude.{
  ℕ, zero, suc, Bool, true, false, ◌||◌, Option, none, some, List, Result, ok, err, ◌==◌,
  if◌then◌else◌,
}
use nextexpress.Telnet.{
  Telnet, Arrival, IoError, TryRead, try_read, read_one, try_consume_cr_trailer, skip_iac,
}
use nextexpress.Telnet.Decoding.{within}
use nextexpress.Telnet.Line.{size}

-- rust/src/app/terminal.rs
pub data KeyEvent : Type 0 where
  char : ℕ → KeyEvent
  enter backspace ctrl_c other : KeyEvent

abbrev pub is_final : TryRead → Bool
is_final (TryRead.got b) = within 64 126 b
is_final TryRead.end_of_stream = true
is_final TryRead.would_block = true
is_final TryRead.failed = true

abbrev pub failure : TryRead → Result IoError (Unit {0})
failure TryRead.failed = err IoError.transport
failure _ = ok tt

-- The loop over at most so many bytes after the bracket.
abbrev pub swallow : ℕ → List Arrival → List Arrival × Result IoError (Unit {0})
swallow zero input = (input, ok tt)
swallow (suc n) input =
    let (input', result) = try_read input in
    let rest = swallow n input' in if is_final result then (input', failure result) else rest

abbrev pub csi_from : TryRead → Telnet → Telnet × Result IoError (Unit {0})
csi_from (TryRead.got b) t =
    let (input, result) = swallow 8 t.input in
    if b == b'['
    then (record t { input = input }, result)
    else (record t { pushback = some b }, ok tt)
csi_from result t = (t, failure result)

abbrev pub csi_unless : Option ℕ → Telnet → Telnet × Result IoError (Unit {0})
csi_unless (some b) t = (t, ok tt)
csi_unless none t =
    let (input, result) = try_read t.input in csi_from result (record t { input = input })

unfoldable pub swallow_buffered_csi : Telnet → Telnet × Result IoError (Unit {0})
swallow_buffered_csi t = csi_unless t.pushback t

pub data KeyRound : Type 0 where
  return : Telnet → Result IoError (Option KeyEvent) → KeyRound
  again : Telnet → KeyRound

abbrev pub event_after : KeyEvent → Telnet × Result IoError (Unit {0}) → KeyRound
event_after key (t, ok u) = return t (ok (some key))
event_after key (t, err e) = return t (err e)

abbrev pub key_after_iac : Telnet × Result IoError Bool → KeyRound
key_after_iac (t, ok true) = again t
key_after_iac (t, ok false) = return t (ok none)
key_after_iac (t, err e) = return t (err e)

unfoldable pub on_key : ℕ → Telnet → KeyRound
on_key b t =
    if b == 255
    then key_after_iac (skip_iac t)
    else if b == 13
    then event_after KeyEvent.enter (try_consume_cr_trailer t)
    else if b == 10
    then again t
    else if b == 8 || b == 127
    then return t (ok (some KeyEvent.backspace))
    else if b == 3
    then return t (ok (some KeyEvent.ctrl_c))
    else if b == 27
    then event_after KeyEvent.other (swallow_buffered_csi t)
    else if within 32 126 b
    then return t (ok (some (KeyEvent.char b)))
    else return t (ok (some KeyEvent.other))

abbrev pub on_key_read : Telnet × Result IoError (Option ℕ) → KeyRound
on_key_read (t, err e) = return t (err e)
on_key_read (t, ok none) = return t (ok none)
on_key_read (t, ok (some b)) = on_key b t

unfoldable pub key_round : Telnet → KeyRound
key_round t = on_key_read (read_one t)

abbrev pub key_continue :
    (Telnet → Option (Telnet × Result IoError (Option KeyEvent)))
    → KeyRound
    → Option (Telnet × Result IoError (Option KeyEvent))
key_continue loop (return t result) = some (t, result)
key_continue loop (again t) = loop t

unfoldable pub key_loop : ℕ → Telnet → Option (Telnet × Result IoError (Option KeyEvent))
key_loop zero t = none
key_loop (suc fuel) t = key_continue (key_loop fuel) (key_round t)

unfoldable pub read_telnet_key : Telnet → Option (Telnet × Result IoError (Option KeyEvent))
read_telnet_key t = key_loop (suc (size t)) t

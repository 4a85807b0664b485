-- ===== src/Telnet.antt =====
-- rust/src/adapters/telnet_line.rs: lines and keys read from a telnet connection. What arrives is a
-- list: bytes, moments at which a read that does not block finds nothing, and failures of the
-- connection; its end is the end of the stream. Writes are taken to succeed.
pub mod Decoding
pub mod Line
pub mod Key
pub mod Ends
pub mod Typed
pub mod Negotiation
use nextexpress.Prelude.{
  ℕ, zero, suc, ◌+◌, ◌-◌, ◌/◌, ◌%◌, Bool, true, false, ◌&&◌, ◌||◌, not, Option, none, some, List,
  [], ◌∷◌, ◌++◌, Result, ok, err, ltb, leb, ◌==◌, length, get_elem?, if◌then◌else◌,
}
use Decoding.{Utf8, from_utf8, from_utf8_lossy, within}

pub data EchoMode : Type 0 where
  visible masked : EchoMode

pub data Arrival : Type 0 where
  byte : ℕ → Arrival
  quiet broken : Arrival

pub data IoError : Type 0 where
  transport invalid_data : IoError

pub record Telnet : Type 0 where
  pub input : List Arrival
  pub pushback : Option ℕ
  pub buf : List ℕ
  pub out : List ℕ

-- `stream.read`, which waits.
abbrev pub next : List Arrival → List Arrival × Result IoError (Option ℕ)
next [] = ([], ok none)
next (Arrival.byte b ∷ xs) = (xs, ok (some b))
next (Arrival.quiet ∷ xs) = next xs
next (Arrival.broken ∷ xs) = (xs, err IoError.transport)

pub data TryRead : Type 0 where
  got : ℕ → TryRead
  end_of_stream would_block failed : TryRead

-- `stream.try_read`, which does not wait.
abbrev pub try_read : List Arrival → List Arrival × TryRead
try_read [] = ([], TryRead.end_of_stream)
try_read (Arrival.byte b ∷ xs) = (xs, TryRead.got b)
try_read (Arrival.quiet ∷ xs) = (xs, TryRead.would_block)
try_read (Arrival.broken ∷ xs) = (xs, TryRead.failed)

abbrev pub read_from : Option ℕ → Telnet → Telnet × Result IoError (Option ℕ)
read_from (some b) t = (record t { pushback = none }, ok (some b))
read_from none t = let (input, result) = next t.input in (record t { input = input }, result)

unfoldable pub read_one : Telnet → Telnet × Result IoError (Option ℕ)
read_one t = read_from t.pushback t

abbrev pub write : List ℕ → Telnet → Telnet
write bytes t = record t { out = t.out ++ bytes }

abbrev pub cr_trailer : TryRead → Telnet → Telnet × Result IoError (Unit {0})
cr_trailer (TryRead.got b) t =
    if not (b == 10) && not (b == 0) then (record t { pushback = some b }, ok tt) else (t, ok tt)
cr_trailer TryRead.end_of_stream t = (t, ok tt)
cr_trailer TryRead.would_block t = (t, ok tt)
cr_trailer TryRead.failed t = (t, err IoError.transport)

unfoldable pub try_consume_cr_trailer : Telnet → Telnet × Result IoError (Unit {0})
try_consume_cr_trailer t =
    let (input, result) = try_read t.input in cr_trailer result (record t { input = input })

-- `SB … IAC SE`; the flag says that the last byte was the first of a pair, an IAC. No byte is pushed
-- back here, since the read of the command took it.
abbrev pub skip_subnegotiation : Bool → List Arrival → List Arrival × Result IoError Bool
skip_subnegotiation iac [] = ([], ok false)
skip_subnegotiation iac (Arrival.quiet ∷ xs) = skip_subnegotiation iac xs
skip_subnegotiation iac (Arrival.broken ∷ xs) = (xs, err IoError.transport)
skip_subnegotiation false (Arrival.byte b ∷ xs) = skip_subnegotiation (b == 255) xs
skip_subnegotiation true (Arrival.byte b ∷ xs) =
    let rest = skip_subnegotiation false xs in if b == 240 then (xs, ok true) else rest

-- The rest of the sequence, by its command.
abbrev pub skip_option : Telnet × Result IoError (Option ℕ) → Telnet × Result IoError Bool
skip_option (t, ok option) = (t, ok true)
skip_option (t, err e) = (t, err e)

abbrev pub skip_command : Telnet × Result IoError (Option ℕ) → Telnet × Result IoError Bool
skip_command (t, err e) = (t, err e)
skip_command (t, ok none) = (t, ok false)
skip_command (t, ok (some cmd)) =
    if within 251 254 cmd
    then skip_option (read_one t)
    else if cmd == 250
    then (let (input, result) = skip_subnegotiation false t.input in
        (record t { input = input }, result))
    else (t, ok true)

unfoldable pub skip_iac : Telnet → Telnet × Result IoError Bool
skip_iac t = skip_command (read_one t)

abbrev pub max_terminal_line_bytes : ℕ
max_terminal_line_bytes = 4096

-- The two halves have no bit in common, so that `|` is a sum.
unfoldable pub latin1_to_utf8 : ℕ → List ℕ
latin1_to_utf8 b = (192 + b / 64) ∷ (128 + b % 64) ∷ []

abbrev pub echoed : EchoMode → List ℕ → List ℕ
echoed EchoMode.visible bytes = bytes
echoed EchoMode.masked bytes = b'*' ∷ []

unfoldable pub commit_accepted : List ℕ → EchoMode → Telnet → Telnet × Result IoError (Unit {0})
commit_accepted bytes echo t =
    if ltb max_terminal_line_bytes (length t.buf + length bytes)
    then (t, err IoError.invalid_data)
    else (record t { buf = t.buf ++ bytes; out = t.out ++ echoed echo bytes }, ok tt)

-- The bytes that `pending` held; the first error ends it.
abbrev pub then_flush :
    (Telnet → Telnet × Result IoError (Unit {0}))
    → Telnet × Result IoError (Unit {0})
    → Telnet × Result IoError (Unit {0})
then_flush flush (t, ok u) = flush t
then_flush flush (t, err e) = (t, err e)

unfoldable pub flush_pending_latin1 :
    List ℕ → EchoMode → Telnet → Telnet × Result IoError (Unit {0})
flush_pending_latin1 [] echo t = (t, ok tt)
flush_pending_latin1 (b ∷ bs) echo t =
    then_flush (flush_pending_latin1 bs echo) (commit_accepted (latin1_to_utf8 b) echo t)

-- Latin-1 at the end of the stream, with no check of the length and no echo.
abbrev pub restate : List ℕ → List ℕ → List ℕ
restate [] buf = buf
restate (b ∷ bs) buf = restate bs (buf ++ latin1_to_utf8 b)

abbrev pub is_continuation : Option ℕ → Bool
is_continuation none = false
is_continuation (some b) = within 128 191 b

-- `while start > 0 && …`
abbrev pub walk_back : List ℕ → ℕ → ℕ
walk_back buf zero = zero
walk_back buf (suc start) =
    let before = walk_back buf start in
    if is_continuation (get_elem? buf (suc start)) then before else suc start

abbrev pub truncate : ℕ → List ℕ → List ℕ
truncate zero buf = []
truncate (suc n) [] = []
truncate (suc n) (b ∷ bs) = b ∷ truncate n bs

-- The line without its last character; none for an empty line.
unfoldable pub pop_last_char : List ℕ → Option (List ℕ)
pop_last_char [] = none
pop_last_char (b ∷ bs) = some (truncate (walk_back (b ∷ bs) (length bs)) (b ∷ bs))

-- ===== src/Telnet/Line.antt =====
-- `read_telnet_line` of rust/src/adapters/telnet_line.rs. One round of its loop is a function, and
-- the loop is a recursion on fuel.
use nextexpress.Prelude.{
  ℕ, zero, suc, ◌+◌, Bool, true, false, ◌||◌, Option, none, some, List, [], ◌∷◌, ◌++◌, Result, ok,
  err, ◌==◌, length, if◌then◌else◌,
}
use nextexpress.Telnet.{
  Telnet, EchoMode, IoError, read_one, write, try_consume_cr_trailer, skip_iac, latin1_to_utf8,
  commit_accepted, flush_pending_latin1, restate, pop_last_char,
}
use nextexpress.Telnet.Decoding.{Utf8, from_utf8, from_utf8_lossy, within}

-- The end of a round: the function returns, or the loop goes on with these bytes of a character
-- that is not complete.
pub data Round : Type 0 where
  return : Telnet → Result IoError (Option (List ℕ)) → Round
  again : Telnet → List ℕ → Round

unfoldable pub take_line : Telnet → Telnet × List ℕ
take_line t = (record t { buf = [] }, from_utf8_lossy t.buf)

abbrev pub crlf : List ℕ
crlf = 13 ∷ 10 ∷ []

abbrev pub line_end : Telnet → Round
line_end t = let (t', line) = take_line (write crlf t) in return t' (ok (some line))

-- `?` on a call without a value.
abbrev pub then_again : List ℕ → Telnet × Result IoError (Unit {0}) → Round
then_again pending (t, ok u) = again t pending
then_again pending (t, err e) = return t (err e)

abbrev pub after_trailer : Telnet × Result IoError (Unit {0}) → Round
after_trailer (t, ok u) = line_end t
after_trailer (t, err e) = return t (err e)

abbrev pub after_iac : Telnet × Result IoError Bool → Round
after_iac (t, ok true) = again t []
after_iac (t, ok false) = return t (ok none)
after_iac (t, err e) = return t (err e)

-- The arms of the match after that of the erasing bytes.
abbrev pub on_high : ℕ → EchoMode → Telnet → Round
on_high b echo t = elim (from_utf8 (b ∷ [])) [
  | Utf8.incomplete ↦ again t (b ∷ [])
  | Utf8.valid ↦ then_again [] (commit_accepted (latin1_to_utf8 b) echo t)
  | Utf8.invalid ↦ then_again [] (commit_accepted (latin1_to_utf8 b) echo t)
]

abbrev pub on_text : ℕ → EchoMode → Telnet → Round
on_text b echo t =
    if within 32 127 b
    then then_again [] (commit_accepted (b ∷ []) echo t)
    else if within 128 254 b
    then on_high b echo t
    else again t []

abbrev pub erase_triplet : List ℕ
erase_triplet = 8 ∷ 32 ∷ 8 ∷ []

-- The arm of the erasing bytes has a guard; where it fails, the byte goes on to the arms below.
abbrev pub on_erase : Option (List ℕ) → ℕ → EchoMode → Telnet → Round
on_erase (some buf) b echo t = again (write erase_triplet (record t { buf = buf })) []
on_erase none b echo t = on_text b echo t

unfoldable pub on_byte : ℕ → EchoMode → Telnet → Round
on_byte b echo t =
    if b == 255
    then after_iac (skip_iac t)
    else if b == 13
    then after_trailer (try_consume_cr_trailer t)
    else if b == 10
    then line_end t
    else if b == 8 || b == 127
    then on_erase (pop_last_char t.buf) b echo t
    else on_text b echo t

-- A continuation byte while a character is not complete.
abbrev pub on_continuation : List ℕ → EchoMode → Telnet → Round
on_continuation pending echo t = elim (from_utf8 pending) [
  | Utf8.valid ↦ then_again [] (commit_accepted pending echo t)
  | Utf8.incomplete ↦ again t pending
  | Utf8.invalid ↦ then_again [] (flush_pending_latin1 pending echo t)
]

abbrev pub then_byte : ℕ → EchoMode → Telnet × Result IoError (Unit {0}) → Round
then_byte b echo (t, ok u) = on_byte b echo t
then_byte b echo (t, err e) = return t (err e)

abbrev pub on_pending : List ℕ → ℕ → EchoMode → Telnet → Round
on_pending [] b echo t = on_byte b echo t
on_pending (p ∷ ps) b echo t =
    if within 128 191 b
    then on_continuation ((p ∷ ps) ++ b ∷ []) echo t
    else then_byte b echo (flush_pending_latin1 (p ∷ ps) echo t)

abbrev pub no_line : List ℕ → Bool
no_line [] = true
no_line (b ∷ bs) = false

-- The end of the stream.
abbrev pub on_end : Telnet → Round
on_end t =
    if no_line t.buf
    then return t (ok none)
    else (let (t', line) = take_line t in return t' (ok (some line)))

abbrev pub on_read : List ℕ → EchoMode → Telnet × Result IoError (Option ℕ) → Round
on_read pending echo (t, err e) = return t (err e)
on_read pending echo (t, ok none) = on_end (record t { buf = restate pending t.buf })
on_read pending echo (t, ok (some b)) = on_pending pending b echo t

unfoldable pub round : List ℕ → EchoMode → Telnet → Round
round pending echo t = on_read pending echo (read_one t)

abbrev pub continue_with :
    (List ℕ → Telnet → Option (Telnet × Result IoError (Option (List ℕ))))
    → Round
    → Option (Telnet × Result IoError (Option (List ℕ)))
continue_with loop (return t result) = some (t, result)
continue_with loop (again t pending) = loop pending t

unfoldable pub read_loop :
    ℕ → EchoMode → List ℕ → Telnet → Option (Telnet × Result IoError (Option (List ℕ)))
read_loop zero echo pending t = none
read_loop (suc fuel) echo pending t = continue_with (read_loop fuel echo) (round pending echo t)

-- The bytes that are there to read.
abbrev pub pushed_back : Option ℕ → ℕ
pushed_back none = 0
pushed_back (some b) = 1

abbrev pub size : Telnet → ℕ
size t = length t.input + pushed_back t.pushback

-- As many rounds as there are arrivals, and one for the end.
unfoldable pub read_telnet_line :
    EchoMode → Telnet → Option (Telnet × Result IoError (Option (List ℕ)))
read_telnet_line echo t = read_loop (suc (size t)) echo [] t

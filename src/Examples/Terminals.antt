-- ===== src/Examples/Terminals.antt =====
-- The theorems on telnet input, at a short text.
use nextexpress.Prelude.{
  ℕ, zero, suc, ◌≤◌, ◌≡◌, refl, some, List, [], ◌∷◌, ◌++◌, codes, err, arith, length,
}
use nextexpress.Telnet.{EchoMode, Arrival, IoError, write, echoed, max_terminal_line_bytes}
use nextexpress.Telnet.Decoding.{continuation, tail_of}
use nextexpress.Telnet.Line.{Round, round, on_byte, read_telnet_line, crlf, erase_triplet}
use nextexpress.Telnet.Key.{KeyRound, key_round, read_telnet_key}
use nextexpress.Telnet.Ends.{LineResult, KeyResult, reading_ends}
use nextexpress.Telnet.Typed.{Char, bytes_of, utf8, echo_of, arriving}
use nextexpress.Telnet.Typed.Rounds.{at}
use nextexpress.Telnet.Typed.Lines.{returned, read_telnet_line-utf8}
use nextexpress.Telnet.Typed.Limit.{read_telnet_line-overflow}
use nextexpress.Telnet.Typed.Erasing.{on_byte-erase}
use nextexpress.Telnet.Negotiation.{Negotiation, sent, negotiation_skipped}

abbrev letter : Char
letter = Char.ascii b'n' refl

-- é
abbrev accented : Char
unfolding tail_of
accented = Char.wide 195 continuation [] (169 ∷ []) refl (refl, tt)

abbrev word : List Char
unfolding accented
word = letter ∷ accented ∷ letter ∷ []

-- The text, and an `x` behind the CR.
abbrev line_in : List Arrival
unfolding word accented
line_in = arriving (utf8 word) (Arrival.byte 13 ∷ Arrival.byte b'x' ∷ [])

reading_ends_example :
    ((result : LineResult) × (read_telnet_line EchoMode.visible (at line_in [] []) ≡ some result))
    × ((result : KeyResult) × (read_telnet_key (at line_in [] []) ≡ some result))
reading_ends_example = reading_ends EchoMode.visible (at line_in [] [])

word_fits : length (utf8 word) ≤ max_terminal_line_bytes
unfolding word accented
word_fits = omega arith

read_telnet_line-utf8_example :
    let read = λ (ending : List Arrival).
      read_telnet_line EchoMode.masked (at (arriving (utf8 word) ending) [] []) in
    let done = returned (at [] [] (([] ++ echo_of EchoMode.masked word) ++ crlf)) (utf8 word) in
    (read (Arrival.byte 10 ∷ []) ≡ done)
    × (read (Arrival.byte 13 ∷ Arrival.byte 10 ∷ []) ≡ done)
    × (read (Arrival.byte 13 ∷ Arrival.byte 0 ∷ []) ≡ done)
    × (read (Arrival.byte 13 ∷ Arrival.quiet ∷ []) ≡ done)
    × (read (Arrival.byte 13 ∷ Arrival.byte b'x' ∷ [])
        ≡ returned
            (record (at [] [] (([] ++ echo_of EchoMode.masked word) ++ crlf)) {
              pushback = some b'x';
            })
            (utf8 word))
read_telnet_line-utf8_example =
    read_telnet_line-utf8 EchoMode.masked word [] [] b'x' word_fits (omega arith) (omega arith)

abbrev letters : ℕ → List Char
letters zero = []
letters (suc n) = letter ∷ letters n

on_byte-erase_example :
    let t = at [] [] [] in
    let shorter = Round.again (write erase_triplet (record t { buf = codes "n" })) [] in
    (on_byte 8 EchoMode.visible (record t { buf = codes "n" ++ bytes_of accented }) ≡ shorter)
    × (on_byte 127 EchoMode.visible (record t { buf = codes "n" ++ bytes_of accented }) ≡ shorter)
    × (on_byte 8 EchoMode.visible t ≡ Round.again t [])
    × (on_byte 127 EchoMode.visible t
        ≡ Round.again (write (echoed EchoMode.visible (127 ∷ [])) (record t { buf = 127 ∷ [] })) [])
on_byte-erase_example = on_byte-erase EchoMode.visible (at [] [] []) (codes "n") accented

abbrev terminal_type : Negotiation
terminal_type = Negotiation.subnegotiation (24 ∷ 1 ∷ []) (refl, (refl, tt))

negotiation_skipped_example :
    let input = Arrival.byte 255 ∷ arriving (sent terminal_type) line_in in
    (round [] EchoMode.visible (at input (codes "a") [])
      ≡ Round.again (at line_in (codes "a") []) [])
    × (key_round (at input (codes "a") []) ≡ KeyRound.again (at line_in (codes "a") []))
negotiation_skipped_example =
    negotiation_skipped EchoMode.visible terminal_type line_in (codes "a") []

full : length (utf8 (letters 4096)) ≤ max_terminal_line_bytes
full = omega arith

read_telnet_line-overflow_example :
    read_telnet_line EchoMode.visible
      (at (arriving (utf8 (letters 4096)) (arriving (bytes_of letter) [])) [] [])
    ≡ some (
      at [] (utf8 (letters 4096)) ([] ++ echo_of EchoMode.visible (letters 4096)),
      err IoError.invalid_data,
    )
read_telnet_line-overflow_example =
    read_telnet_line-overflow EchoMode.visible (letters 4096) letter [] [] full (omega arith)

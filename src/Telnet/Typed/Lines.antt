-- ===== src/Telnet/Typed/Lines.antt =====
-- Typed lines, through `read_telnet_line` of rust/src/adapters/telnet_line.rs.
use nextexpress.Prelude.{
  ℕ, suc, ◌+◌, ◌≤◌, ◌≡◌, ◌≢◌, refl, ap, ◌∙◌, some, List, [], ◌∷◌, ◌++◌, arith, length, ok,
}
use nextexpress.Telnet.{
  Telnet, EchoMode, Arrival, read_one, try_consume_cr_trailer, max_terminal_line_bytes,
}
use nextexpress.Telnet.Decoding.{from_utf8_lossy}
use nextexpress.Telnet.Line.{
  Round, round, on_byte, take_line, crlf, continue_with, read_loop, read_telnet_line,
}
use nextexpress.Telnet.Typed.{Char, utf8, echo_of, arriving, from_utf8_lossy-utf8}
use nextexpress.Telnet.Typed.Rounds.{at, rounds, text_rounds, LineResult}

length-arriving :
    (bs : List ℕ) (xs : List Arrival) → length (arriving bs xs) ≡ length bs + length xs
length-arriving [] xs = omega arith
length-arriving (b ∷ bs) xs = omega (arith, length-arriving bs xs)

rounds_lem : (bs : List ℕ) (fuel : ℕ) → rounds bs fuel ≡ length bs + fuel
rounds_lem [] fuel = omega arith
rounds_lem (b ∷ bs) fuel = omega (arith, rounds_lem bs fuel)

pub enough :
    (bs : List ℕ) (xs : List Arrival)
    → suc (length (arriving bs xs) + 0) ≡ rounds bs (suc (length xs))
enough bs xs = omega (arith, length-arriving bs xs, rounds_lem bs (suc (length xs)))

abbrev pub returned : Telnet → List ℕ → LineResult
returned t line = some (t, ok (some line))

-- A line end as a round: it leaves this terminal and returns the decoded buffer.
abbrev EndsLine : List Arrival → (List ℕ → Telnet) → Type 0
EndsLine ending after =
    (echo : EchoMode) (buf out : List ℕ)
    → round [] echo (at ending buf out)
      ≡ Round.return (after (out ++ crlf)) (ok (some (from_utf8_lossy buf)))

-- A text and a line end.
typed_line :
    (echo : EchoMode) (text : List Char) (ending : List Arrival) (after : List ℕ → Telnet)
    (out : List ℕ)
    → length (utf8 text) ≤ max_terminal_line_bytes
    → EndsLine ending after
    → read_telnet_line echo (at (arriving (utf8 text) ending) [] out)
      ≡ returned (after ((out ++ echo_of echo text) ++ crlf)) (utf8 text)
unfolding read_telnet_line read_loop
typed_line echo text ending after out room ends =
    ap (λ n. read_loop n echo [] (at (arriving (utf8 text) ending) [] out))
      (enough (utf8 text) ending)
    ∙ text_rounds (suc (length ending)) echo text ending [] out (omega (arith, room))
    ∙ ap (continue_with (read_loop (length ending) echo))
        (ends echo (utf8 text) (out ++ echo_of echo text))
    ∙ ap (returned (after ((out ++ echo_of echo text) ++ crlf))) (from_utf8_lossy-utf8 text)

module _ (rest : List Arrival) where
  lf : EndsLine (Arrival.byte 10 ∷ rest) (at rest [])
  unfolding round read_one on_byte take_line
  lf echo buf out = refl

  cr_lf : EndsLine (Arrival.byte 13 ∷ Arrival.byte 10 ∷ rest) (at rest [])
  unfolding round read_one on_byte take_line try_consume_cr_trailer
  cr_lf echo buf out = refl

  cr_nul : EndsLine (Arrival.byte 13 ∷ Arrival.byte 0 ∷ rest) (at rest [])
  unfolding round read_one on_byte take_line try_consume_cr_trailer
  cr_nul echo buf out = refl

  cr_alone : EndsLine (Arrival.byte 13 ∷ Arrival.quiet ∷ rest) (at rest [])
  unfolding round read_one on_byte take_line try_consume_cr_trailer
  cr_alone echo buf out = refl

  cr_then :
      (x : ℕ)
      → x ≢ 10
      → x ≢ 0
      → EndsLine
          (Arrival.byte 13 ∷ Arrival.byte x ∷ rest)
          (λ out. record (at rest [] out) { pushback = some x })
  unfolding round read_one on_byte take_line try_consume_cr_trailer
  cr_then x h k echo buf out = ground arith

-- Typed lines come through whole. A text of printable ASCII and of characters of several bytes, of at
-- most 4096 bytes and ended by LF, CR LF, CR NUL or a CR that nothing follows yet, is returned as it
-- was typed, with what follows left to read and an empty buffer. After a CR with another byte behind it
-- that byte is pushed back. What was echoed is the text, or a star for each character, and the line
-- end.
pub read_telnet_line-utf8 :
    (echo : EchoMode) (text : List Char) (rest : List Arrival) (out : List ℕ) (x : ℕ)
    → length (utf8 text) ≤ max_terminal_line_bytes
    → x ≢ 10
    → x ≢ 0
    → let read = λ (ending : List Arrival).
      read_telnet_line echo (at (arriving (utf8 text) ending) [] out) in
      let done = returned (at rest [] ((out ++ echo_of echo text) ++ crlf)) (utf8 text) in
      (read (Arrival.byte 10 ∷ rest) ≡ done)
      × (read (Arrival.byte 13 ∷ Arrival.byte 10 ∷ rest) ≡ done)
      × (read (Arrival.byte 13 ∷ Arrival.byte 0 ∷ rest) ≡ done)
      × (read (Arrival.byte 13 ∷ Arrival.quiet ∷ rest) ≡ done)
      × (read (Arrival.byte 13 ∷ Arrival.byte x ∷ rest)
          ≡ returned
              (record (at rest [] ((out ++ echo_of echo text) ++ crlf)) { pushback = some x })
              (utf8 text))
read_telnet_line-utf8 echo text rest out x room h k = (
  typed_line echo text (Arrival.byte 10 ∷ rest) (at rest []) out room (lf rest),
  typed_line echo text (Arrival.byte 13 ∷ Arrival.byte 10 ∷ rest) (at rest []) out room
      (cr_lf rest),
  typed_line echo text (Arrival.byte 13 ∷ Arrival.byte 0 ∷ rest) (at rest []) out room
      (cr_nul rest),
  typed_line echo text (Arrival.byte 13 ∷ Arrival.quiet ∷ rest) (at rest []) out room
      (cr_alone rest),
  typed_line echo text (Arrival.byte 13 ∷ Arrival.byte x ∷ rest)
      (λ o. record (at rest [] o) { pushback = some x }) out room (cr_then rest x h k),
)

-- ===== src/Telnet/Typed/Limit.antt =====
-- The length limit of `read_telnet_line` of rust/src/adapters/telnet_line.rs.
use nextexpress.Prelude.{
  ℕ, suc, ◌+◌, ◌≤◌, ◌<◌, ◌≡◌, ap, ◌∙◌, some, List, [], ◌++◌, arith, length, err,
}
use nextexpress.Telnet.{
  Telnet, EchoMode, Arrival, IoError, commit_accepted, max_terminal_line_bytes,
}
use nextexpress.Telnet.Line.{then_again, continue_with, read_loop, read_telnet_line}
use nextexpress.Telnet.Typed.{Char, bytes_of, utf8, echo_of, arriving}
use nextexpress.Telnet.Typed.Rounds.{at, text_rounds, char_rounds}
use nextexpress.Telnet.Typed.Lines.{enough}

commit_overflows :
    (bytes : List ℕ) (echo : EchoMode) (t : Telnet)
    → max_terminal_line_bytes < length t.buf + length bytes
    → commit_accepted bytes echo t ≡ (t, err IoError.invalid_data)
unfolding commit_accepted
commit_overflows bytes echo t h = ground (arith, h)

-- A line that is too long is refused at the first character that does not fit into 4096 bytes: the
-- reading ends with an error, what came before stays in the buffer and is echoed, the character is
-- neither, and what follows it is left to read.
pub read_telnet_line-overflow :
    (echo : EchoMode) (text : List Char) (c : Char) (rest : List Arrival) (out : List ℕ)
    → length (utf8 text) ≤ max_terminal_line_bytes
    → max_terminal_line_bytes < length (utf8 text) + length (bytes_of c)
    → read_telnet_line echo (at (arriving (utf8 text) (arriving (bytes_of c) rest)) [] out)
      ≡ some (at rest (utf8 text) (out ++ echo_of echo text), err IoError.invalid_data)
unfolding read_telnet_line
read_telnet_line-overflow echo text c rest out room full =
    ap (λ n. read_loop n echo [] (at (arriving (utf8 text) (arriving (bytes_of c) rest)) [] out))
      (enough (utf8 text) (arriving (bytes_of c) rest))
    ∙ text_rounds (suc (length (arriving (bytes_of c) rest))) echo text (arriving (bytes_of c) rest)
        [] out (omega (arith, room))
    ∙ ap
        (λ n.
          read_loop n echo []
            (at (arriving (bytes_of c) rest) (utf8 text) (out ++ echo_of echo text)))
        (omega (arith, enough (bytes_of c) rest))
    ∙ char_rounds (suc (length rest)) echo c rest (utf8 text) (out ++ echo_of echo text)
    ∙ ap (λ r. continue_with (read_loop (suc (length rest)) echo) (then_again [] r))
        (commit_overflows (bytes_of c) echo (at rest (utf8 text) (out ++ echo_of echo text)) full)

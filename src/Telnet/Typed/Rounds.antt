-- ===== src/Telnet/Typed/Rounds.antt =====
-- The rounds of `read_telnet_line` of rust/src/adapters/telnet_line.rs on typed characters.
use nextexpress.Prelude.{
  ℕ, suc, ◌+◌, ◌≤◌, ◌≡◌, refl, ap, sym, ◌∙◌, true, Option, none, some, List, [], ◌∷◌, ◌++◌, arith,
  Every, length, length-append, Result, ok,
}
use mathlib.Core.List.{append_assoc, append-nil}
use nextexpress.Telnet.{
  Telnet, EchoMode, Arrival, IoError, echoed, read_one, commit_accepted, max_terminal_line_bytes,
}
use nextexpress.Telnet.Decoding.{Bounds, Utf8, within, tail_of, check, from_utf8}
use nextexpress.Telnet.Line.{
  Round, round, on_byte, on_continuation, then_again, continue_with, read_loop,
}
use nextexpress.Telnet.Typed.{
  IsWithin, Char, bytes_of, utf8, echo_of, arriving, lead_byte, IsContinuation, tail_of-Every,
  arriving-append,
}

-- The terminal between two reads that wait: nothing is pushed back.
abbrev pub at : List Arrival → List ℕ → List ℕ → Telnet
at input buf out = record { input = input; pushback = none; buf = buf; out = out }

-- As many rounds more as there are bytes.
abbrev pub rounds : List ℕ → ℕ → ℕ
rounds [] fuel = fuel
rounds (b ∷ bs) fuel = suc (rounds bs fuel)

pub rounds-append :
    (bs cs : List ℕ) (fuel : ℕ) → rounds (bs ++ cs) fuel ≡ rounds bs (rounds cs fuel)
rounds-append [] cs fuel = refl
rounds-append (b ∷ bs) cs fuel = ap suc (rounds-append bs cs fuel)

commit_fits :
    (bytes : List ℕ) (echo : EchoMode) (input : List Arrival) (buf out : List ℕ)
    → length buf + length bytes ≤ max_terminal_line_bytes
    → commit_accepted bytes echo (at input buf out)
      ≡ (at input (buf ++ bytes) (out ++ echoed echo bytes), ok tt)
unfolding commit_accepted
commit_fits bytes echo input buf out h = ground (arith, h)

-- A commit as the end of a round.
abbrev pub committing : List ℕ → EchoMode → Telnet → Round
committing bytes echo t = then_again [] (commit_accepted bytes echo t)

ascii_round :
    (b : ℕ) (echo : EchoMode) (xs : List Arrival) (buf out : List ℕ)
    → within 32 126 b ≡ true
    → round [] echo (at (Arrival.byte b ∷ xs) buf out) ≡ committing (b ∷ []) echo (at xs buf out)
unfolding round read_one on_byte
ascii_round b echo xs buf out h = ground (arith, h)

lead_round :
    (b : ℕ) (r : Bounds) (rs : List Bounds) (echo : EchoMode) (xs : List Arrival) (buf out : List ℕ)
    → tail_of b ≡ some (r ∷ rs)
    → round [] echo (at (Arrival.byte b ∷ xs) buf out) ≡ Round.again (at xs buf out) (b ∷ [])
unfolding round read_one on_byte
lead_round b r rs echo xs buf out e = ground (arith, e, lead_byte b e)

-- What has been read of a character leaves these bounds for the rest.
abbrev pub Awaits : List ℕ → List Bounds → Type 0
Awaits held rs = (more : List ℕ) → check [] (held ++ more) ≡ check rs more

Awaits-step :
    (held : List ℕ) (r : Bounds) (rs : List Bounds) (c : ℕ)
    → Awaits held (r ∷ rs)
    → within r.lo r.hi c ≡ true
    → Awaits (held ++ c ∷ []) rs
Awaits-step held r rs c h e more =
    ap (check []) (append_assoc held (c ∷ []) more) ∙ h (c ∷ more) ∙ ground (arith, e)

awaited : (held : List ℕ) (rs : List Bounds) → Awaits held rs → from_utf8 held ≡ check rs []
awaited held rs h = ap (check []) (sym (append-nil held)) ∙ h []

continuation_byte :
    (r : Bounds) (c : ℕ) → IsContinuation r → within r.lo r.hi c ≡ true → within 128 191 c ≡ true
continuation_byte r c h e = ground (arith, h.0, h.1, e)

on_continuation_incomplete :
    (held : List ℕ) (echo : EchoMode) (t : Telnet)
    → from_utf8 held ≡ Utf8.incomplete
    → on_continuation held echo t ≡ Round.again t held
on_continuation_incomplete held echo t e = rw (e, on_continuation) refl

on_continuation_valid :
    (held : List ℕ) (echo : EchoMode) (t : Telnet)
    → from_utf8 held ≡ Utf8.valid
    → on_continuation held echo t ≡ committing held echo t
on_continuation_valid held echo t e = rw (e, on_continuation) refl

held_round :
    (p : ℕ) (ps : List ℕ) (c : ℕ) (echo : EchoMode) (xs : List Arrival) (buf out : List ℕ)
    → within 128 191 c ≡ true
    → round (p ∷ ps) echo (at (Arrival.byte c ∷ xs) buf out)
      ≡ on_continuation ((p ∷ ps) ++ c ∷ []) echo (at xs buf out)
unfolding round read_one
held_round p ps c echo xs buf out e = rw e refl

abbrev pub LineResult : Type 0
LineResult = Option (Telnet × Result IoError (Option (List ℕ)))

after_round :
    (fuel : ℕ) (echo : EchoMode) (pending held : List ℕ) (t t' : Telnet)
    → round pending echo t ≡ Round.again t' held
    → read_loop (suc fuel) echo pending t ≡ read_loop fuel echo held t'
unfolding read_loop
after_round fuel echo pending held t t' e = ap (continue_with (read_loop fuel echo)) e

last_round :
    (fuel : ℕ) (echo : EchoMode) (pending : List ℕ) (t : Telnet) (r : Round)
    → round pending echo t ≡ r
    → read_loop (suc fuel) echo pending t ≡ continue_with (read_loop fuel echo) r
unfolding read_loop
last_round fuel echo pending t r e = ap (continue_with (read_loop fuel echo)) e

-- The rounds on the rest of a character of several bytes end with its commit.
wide_rounds :
    (fuel : ℕ) (echo : EchoMode) (p : ℕ) (ps : List ℕ) (r : Bounds) (rs : List Bounds) (cs : List ℕ)
    (xs : List Arrival) (buf out : List ℕ)
    → Awaits (p ∷ ps) (r ∷ rs)
    → Every IsContinuation (r ∷ rs)
    → IsWithin (r ∷ rs) cs
    → read_loop (rounds cs fuel) echo (p ∷ ps) (at (arriving cs xs) buf out)
      ≡ continue_with (read_loop fuel echo) (committing ((p ∷ ps) ++ cs) echo (at xs buf out))
wide_rounds fuel echo p ps r rs [] xs buf out awaits bounds h = absurd h
wide_rounds fuel echo p ps r [] (c ∷ []) xs buf out awaits bounds h =
    last_round fuel echo (p ∷ ps) (at (Arrival.byte c ∷ xs) buf out)
      (committing ((p ∷ ps) ++ c ∷ []) echo (at xs buf out))
      (held_round p ps c echo xs buf out (continuation_byte r c bounds.0 h.0)
        ∙ on_continuation_valid ((p ∷ ps) ++ c ∷ []) echo (at xs buf out)
            (awaited ((p ∷ ps) ++ c ∷ []) [] (Awaits-step (p ∷ ps) r [] c awaits h.0)))
wide_rounds fuel echo p ps r [] (c ∷ d ∷ cs) xs buf out awaits bounds h = absurd h.1
wide_rounds fuel echo p ps r (q ∷ rs) (c ∷ []) xs buf out awaits bounds h = absurd h.1
wide_rounds fuel echo p ps r (q ∷ rs) (c ∷ d ∷ cs) xs buf out awaits bounds h =
    let step = Awaits-step (p ∷ ps) r (q ∷ rs) c awaits h.0 in
    after_round (rounds (d ∷ cs) fuel) echo (p ∷ ps) (p ∷ (ps ++ c ∷ []))
      (at (arriving (c ∷ d ∷ cs) xs) buf out) (at (arriving (d ∷ cs) xs) buf out)
      (held_round p ps c echo (arriving (d ∷ cs) xs) buf out (continuation_byte r c bounds.0 h.0)
        ∙ on_continuation_incomplete (p ∷ (ps ++ c ∷ [])) echo (at (arriving (d ∷ cs) xs) buf out)
            (awaited (p ∷ (ps ++ c ∷ [])) (q ∷ rs) step))
    ∙ wide_rounds fuel echo p (ps ++ c ∷ []) q rs (d ∷ cs) xs buf out step bounds.1 h.1
    ∙ ap (λ t. continue_with (read_loop fuel echo) (committing t echo (at xs buf out)))
        (append_assoc (p ∷ ps) (c ∷ []) (d ∷ cs))

first-Awaits : (b : ℕ) (rs : List Bounds) → tail_of b ≡ some rs → Awaits (b ∷ []) rs
first-Awaits b rs e more = rw (e, check) refl

-- The rounds on one character end with its commit.
pub char_rounds :
    (fuel : ℕ) (echo : EchoMode) (c : Char) (xs : List Arrival) (buf out : List ℕ)
    → read_loop (rounds (bytes_of c) fuel) echo [] (at (arriving (bytes_of c) xs) buf out)
      ≡ continue_with (read_loop fuel echo) (committing (bytes_of c) echo (at xs buf out))
char_rounds fuel echo (Char.ascii b h) xs buf out =
    last_round fuel echo [] (at (Arrival.byte b ∷ xs) buf out)
      (committing (b ∷ []) echo (at xs buf out)) (ascii_round b echo xs buf out h)
char_rounds fuel echo (Char.wide b r rs cs e h) xs buf out =
    after_round (rounds cs fuel) echo [] (b ∷ []) (at (arriving (b ∷ cs) xs) buf out)
      (at (arriving cs xs) buf out) (lead_round b r rs echo (arriving cs xs) buf out e)
    ∙ wide_rounds fuel echo b [] r rs cs xs buf out (first-Awaits b (r ∷ rs) e) (tail_of-Every b e)
        h

room_for :
    (buf one more : List ℕ) (n : ℕ)
    → length buf + length (one ++ more) ≤ n
    → (length buf + length one ≤ n) × (length (buf ++ one) + length more ≤ n)
room_for buf one more n h = (
  omega (arith, h, length-append {0} one more),
  omega (arith, h, length-append {0} one more, length-append {0} buf one),
)

-- The rounds on a text: it lands in the buffer, character by character, and each is echoed once.
pub text_rounds :
    (fuel : ℕ) (echo : EchoMode) (text : List Char) (xs : List Arrival) (buf out : List ℕ)
    → length buf + length (utf8 text) ≤ max_terminal_line_bytes
    → read_loop (rounds (utf8 text) fuel) echo [] (at (arriving (utf8 text) xs) buf out)
      ≡ read_loop fuel echo [] (at xs (buf ++ utf8 text) (out ++ echo_of echo text))
text_rounds fuel echo [] xs buf out room =
    sym (λ i. read_loop fuel echo [] (at xs (append-nil buf i) (append-nil out i)))
text_rounds fuel echo (c ∷ cs) xs buf out room =
    let (one, more) = room_for buf (bytes_of c) (utf8 cs) max_terminal_line_bytes room in
    (λ i.
      read_loop (rounds-append (bytes_of c) (utf8 cs) fuel i) echo []
        (at (arriving-append (bytes_of c) (utf8 cs) xs i) buf out))
    ∙ char_rounds (rounds (utf8 cs) fuel) echo c (arriving (utf8 cs) xs) buf out
    ∙ ap (λ r. continue_with (read_loop (rounds (utf8 cs) fuel) echo) (then_again [] r))
        (commit_fits (bytes_of c) echo (arriving (utf8 cs) xs) buf out one)
    ∙ text_rounds fuel echo cs xs (buf ++ bytes_of c) (out ++ echoed echo (bytes_of c)) more
    ∙ λ i. read_loop fuel echo [] (
        at xs (append_assoc buf (bytes_of c) (utf8 cs) i)
          (append_assoc out (echoed echo (bytes_of c)) (echo_of echo cs) i))

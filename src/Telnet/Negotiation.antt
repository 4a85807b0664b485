-- ===== src/Telnet/Negotiation.antt =====
-- Telnet negotiation in rust/src/adapters/telnet_line.rs.
use nextexpress.Prelude.{
  ℕ, ◌≡◌, refl, ap, ◌∙◌, true, false, List, [], ◌∷◌, ◌++◌, arith, Every, ok, ◌==◌,
}
use nextexpress.Telnet.{Telnet, EchoMode, Arrival, read_one, skip_iac, skip_subnegotiation}
use nextexpress.Telnet.Decoding.{within}
use nextexpress.Telnet.Line.{Round, after_iac, round, on_byte}
use nextexpress.Telnet.Key.{KeyRound, key_after_iac, key_round, on_key}
use nextexpress.Telnet.Typed.{arriving}
use nextexpress.Telnet.Typed.Rounds.{at}

-- WILL, WONT, DO and DONT with their option, a subnegotiation whose parameters have no IAC, and the
-- commands of two bytes.
pub data Negotiation : Type 0 where
  request : (cmd option : ℕ) → within 251 254 cmd ≡ true → Negotiation
  subnegotiation : (parameters : List ℕ) → Every (λ p. (p == 255) ≡ false) parameters → Negotiation
  command : (cmd : ℕ) → within 241 249 cmd ≡ true → Negotiation

-- What follows the IAC.
abbrev pub sent : Negotiation → List ℕ
sent (Negotiation.request cmd option h) = cmd ∷ option ∷ []
sent (Negotiation.subnegotiation parameters h) = 250 ∷ (parameters ++ 255 ∷ 240 ∷ [])
sent (Negotiation.command cmd h) = cmd ∷ []

skip_subnegotiation_lem :
    (parameters : List ℕ) (rest : List Arrival)
    → Every (λ p. (p == 255) ≡ false) parameters
    → skip_subnegotiation false (arriving (parameters ++ 255 ∷ 240 ∷ []) rest) ≡ (rest, ok true)
skip_subnegotiation_lem [] rest h = refl
skip_subnegotiation_lem (p ∷ ps) rest h =
    ap (λ iac. skip_subnegotiation iac (arriving (ps ++ 255 ∷ 240 ∷ []) rest)) h.0
    ∙ skip_subnegotiation_lem ps rest h.1

skip_iac_lem :
    (n : Negotiation) (rest : List Arrival) (buf out : List ℕ)
    → skip_iac (at (arriving (sent n) rest) buf out) ≡ (at rest buf out, ok true)
unfolding skip_iac read_one
skip_iac_lem (Negotiation.request cmd option h) rest buf out = ground (arith, h)
skip_iac_lem (Negotiation.subnegotiation ps h) rest buf out =
    ground (arith, skip_subnegotiation_lem ps rest h)
skip_iac_lem (Negotiation.command cmd h) rest buf out = ground (arith, h)

iac_in_line : (echo : EchoMode) (t : Telnet) → on_byte 255 echo t ≡ after_iac (skip_iac t)
unfolding on_byte
iac_in_line echo t = refl

iac_in_keys : (t : Telnet) → on_key 255 t ≡ key_after_iac (skip_iac t)
unfolding on_key
iac_in_keys t = refl

line_round :
    (echo : EchoMode) (input : List Arrival) (buf out : List ℕ)
    → round [] echo (at (Arrival.byte 255 ∷ input) buf out) ≡ on_byte 255 echo (at input buf out)
unfolding round read_one
line_round echo input buf out = refl

key_round_lem :
    (input : List Arrival) (buf out : List ℕ)
    → key_round (at (Arrival.byte 255 ∷ input) buf out) ≡ on_key 255 (at input buf out)
unfolding key_round read_one
key_round_lem input buf out = refl

-- A negotiation leaves no trace between two characters: the loops that read a line and a key go on
-- behind it, with the line, the output and the push-back slot as they were.
pub negotiation_skipped :
    (echo : EchoMode) (n : Negotiation) (rest : List Arrival) (buf out : List ℕ)
    → let input = Arrival.byte 255 ∷ arriving (sent n) rest in
      (round [] echo (at input buf out) ≡ Round.again (at rest buf out) [])
      × (key_round (at input buf out) ≡ KeyRound.again (at rest buf out))
negotiation_skipped echo n rest buf out = (
  line_round echo (arriving (sent n) rest) buf out
      ∙ iac_in_line echo (at (arriving (sent n) rest) buf out)
      ∙ ap after_iac (skip_iac_lem n rest buf out),
  key_round_lem (arriving (sent n) rest) buf out
      ∙ iac_in_keys (at (arriving (sent n) rest) buf out)
      ∙ ap key_after_iac (skip_iac_lem n rest buf out),
)

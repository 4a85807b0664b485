-- ===== src/Telnet/Typed/Erasing.antt =====
-- The erasing bytes of `read_telnet_line` of rust/src/adapters/telnet_line.rs.
use nextexpress.Prelude.{
  ℕ, zero, suc, ◌≤◌, ◌≡◌, ◌==◌, ◌||◌, refl, ap, sym, ◌∙◌, true, false, some, List, [], ◌∷◌, ◌++◌,
  arith, Every, length, get_elem?,
}
use nextexpress.Telnet.{
  Telnet, EchoMode, write, echoed, commit_accepted, walk_back, truncate, is_continuation,
  pop_last_char,
}
use nextexpress.Telnet.Decoding.{Bounds, within}
use nextexpress.Telnet.Line.{Round, on_byte, on_erase, erase_triplet}
use nextexpress.Telnet.Typed.{IsWithin, IsContinuation, Char, bytes_of, lead_byte, tail_of-Every}
use nextexpress.Telnet.Typed.Rounds.{rounds}

get_elem?-append : (pre ys : List ℕ) (k : ℕ) → get_elem? (pre ++ ys) (rounds pre k) ≡ get_elem? ys k
get_elem?-append [] ys k = refl
get_elem?-append (x ∷ xs) ys k = get_elem?-append xs ys k

rounds-suc : (pre : List ℕ) (k : ℕ) → rounds pre (suc k) ≡ suc (rounds pre k)
rounds-suc [] k = refl
rounds-suc (x ∷ xs) k = ap suc (rounds-suc xs k)

truncate-append : (pre ys : List ℕ) → truncate (rounds pre zero) (pre ++ ys) ≡ pre
truncate-append [] ys = refl
truncate-append (x ∷ xs) ys = ap (λ t. x ∷ t) (truncate-append xs ys)

walk_step :
    (buf : List ℕ) (n : ℕ)
    → is_continuation (get_elem? buf (suc n)) ≡ true
    → walk_back buf (suc n) ≡ walk_back buf n
walk_step buf n h = rw h refl

walk_stop : (buf : List ℕ) (n : ℕ) → is_continuation (get_elem? buf n) ≡ false → walk_back buf n ≡ n
walk_stop buf zero h = refl
walk_stop buf (suc n) h = rw h refl

get_continuation :
    (cs : List ℕ) (k : ℕ)
    → Every (λ c. within 128 191 c ≡ true) cs
    → suc k ≤ length cs
    → is_continuation (get_elem? cs k) ≡ true
get_continuation [] k h le = absurd (omega (arith, le))
get_continuation (c ∷ cs) zero h le = h.0
get_continuation (c ∷ cs) (suc k) h le = get_continuation cs k h.1 (omega (arith, le))

-- The walk back ends at the first byte of the last character.
walk_back-append :
    (pre : List ℕ) (b : ℕ) (cs : List ℕ) (k : ℕ)
    → within 128 191 b ≡ false
    → Every (λ c. within 128 191 c ≡ true) cs
    → k ≤ length cs
    → walk_back (pre ++ b ∷ cs) (rounds pre k) ≡ rounds pre zero
walk_back-append pre b cs zero lead conts le =
    walk_stop (pre ++ b ∷ cs) (rounds pre zero)
      (ap is_continuation (get_elem?-append pre (b ∷ cs) zero) ∙ lead)
walk_back-append pre b cs (suc k) lead conts le =
    ap (walk_back (pre ++ b ∷ cs)) (rounds-suc pre k)
    ∙ walk_step (pre ++ b ∷ cs) (rounds pre k) (
        ap (λ n. is_continuation (get_elem? (pre ++ b ∷ cs) n)) (sym (rounds-suc pre k))
        ∙ ap is_continuation (get_elem?-append pre (b ∷ cs) (suc k))
        ∙ get_continuation cs k conts le)
    ∙ walk_back-append pre b cs k lead conts (omega (arith, le))

popped :
    (x : ℕ) (xs : List ℕ)
    → pop_last_char (x ∷ xs) ≡ some (truncate (walk_back (x ∷ xs) (length xs)) (x ∷ xs))
unfolding pop_last_char
popped x xs = refl

rounds-length :
    (pre : List ℕ) (b : ℕ) (cs : List ℕ) → length (pre ++ b ∷ cs) ≡ suc (rounds pre (length cs))
rounds-length [] b cs = refl
rounds-length (x ∷ xs) b cs = ap suc (rounds-length xs b cs)

pop_last_char-append :
    (pre : List ℕ) (b : ℕ) (cs : List ℕ)
    → within 128 191 b ≡ false
    → Every (λ c. within 128 191 c ≡ true) cs
    → pop_last_char (pre ++ b ∷ cs) ≡ some pre
pop_last_char-append [] b cs lead conts =
    popped b cs
    ∙ ap (λ n. some (truncate n (b ∷ cs)))
        (walk_back-append [] b cs (length cs) lead conts (omega arith))
pop_last_char-append (x ∷ xs) b cs lead conts =
    popped x (xs ++ b ∷ cs)
    ∙ ap (λ n. some (truncate (walk_back (x ∷ (xs ++ b ∷ cs)) n) (x ∷ (xs ++ b ∷ cs))))
        (rounds-length xs b cs)
    ∙ ap (λ n. some (truncate n (x ∷ (xs ++ b ∷ cs))))
        (walk_back-append (x ∷ xs) b cs (length cs) lead conts (omega arith))
    ∙ ap some (truncate-append (x ∷ xs) (b ∷ cs))

within_continuations :
    (rs : List Bounds) (cs : List ℕ)
    → Every IsContinuation rs
    → IsWithin rs cs
    → Every (λ c. within 128 191 c ≡ true) cs
within_continuations [] [] bounds h = tt
within_continuations (r ∷ rs) (c ∷ cs) bounds h =
    (ground (arith, bounds.0.0, bounds.0.1, h.0), within_continuations rs cs bounds.1 h.1)
within_continuations [] (c ∷ cs) bounds h = absurd h
within_continuations (r ∷ rs) [] bounds h = absurd h

lead_is_no_continuation : (b : ℕ) → within 194 244 b ≡ true → within 128 191 b ≡ false
lead_is_no_continuation b h = ground (arith, h)

ascii_is_no_continuation : (b : ℕ) → within 32 126 b ≡ true → within 128 191 b ≡ false
ascii_is_no_continuation b h = ground (arith, h)

-- The last character goes as a whole.
pub pop_last_char-char : (pre : List ℕ) (c : Char) → pop_last_char (pre ++ bytes_of c) ≡ some pre
pop_last_char-char pre (Char.ascii b h) =
    pop_last_char-append pre b [] (ascii_is_no_continuation b h) tt
pop_last_char-char pre (Char.wide b r rs cs e h) =
    pop_last_char-append pre b cs (lead_is_no_continuation b (lead_byte b e))
      (within_continuations (r ∷ rs) cs (tail_of-Every b e) h)

erase_byte :
    (b : ℕ) (echo : EchoMode) (t : Telnet)
    → (b == 8 || b == 127) ≡ true
    → on_byte b echo t ≡ on_erase (pop_last_char t.buf) b echo t
unfolding on_byte
erase_byte b echo t h = ground (arith, h)

erased :
    (b : ℕ) (echo : EchoMode) (t : Telnet) (pre : List ℕ) (c : Char)
    → (b == 8 || b == 127) ≡ true
    → on_byte b echo (record t { buf = pre ++ bytes_of c })
      ≡ Round.again (write erase_triplet (record t { buf = pre })) []
erased b echo t pre c h =
    erase_byte b echo (record t { buf = pre ++ bytes_of c }) h
    ∙ ap (λ o. on_erase o b echo (record t { buf = pre ++ bytes_of c })) (pop_last_char-char pre c)

-- A backspace or a DEL takes the last character, of however many bytes, from the line and from the
-- screen. On an empty line a backspace does nothing, but a DEL is taken into the line and echoed.
pub on_byte-erase :
    (echo : EchoMode) (t : Telnet) (pre : List ℕ) (c : Char)
    → let empty = record t { buf = [] } in
      let shorter = Round.again (write erase_triplet (record t { buf = pre })) [] in
      (on_byte 8 echo (record t { buf = pre ++ bytes_of c }) ≡ shorter)
      × (on_byte 127 echo (record t { buf = pre ++ bytes_of c }) ≡ shorter)
      × (on_byte 8 echo empty ≡ Round.again empty [])
      × (on_byte 127 echo empty
          ≡ Round.again (write (echoed echo (127 ∷ [])) (record t { buf = 127 ∷ [] })) [])
unfolding on_byte pop_last_char commit_accepted
on_byte-erase echo t pre c = (erased 8 echo t pre c refl, erased 127 echo t pre c refl, refl, refl)

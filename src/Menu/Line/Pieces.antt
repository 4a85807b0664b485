-- ===== src/Menu/Line/Pieces.antt =====
-- Lines of words between single spaces, split and trimmed as rust/src/app/menu_command.rs does.
use nextexpress.Prelude.{
  ℕ, ◌≡◌, refl, ap, ◌∙◌, Bool, true, false, not, [], ◌∷◌, ◌++◌, filter, arith,
}
use nextexpress.Text.{Text, is_empty}
use nextexpress.Menu.Line.{
  is_whitespace, is_ascii_whitespace, trim_start, trim_cons, trim_end, trim, split, words, all,
}

-- A word: at least one character, none of which is whitespace.
abbrev pub IsWord : Text → Type 0
IsWord [] = ⊥
IsWord (c ∷ cs) = all (λ d. not (is_whitespace d)) (c ∷ cs) ≡ true

ascii_is_whitespace : (c : ℕ) → is_whitespace c ≡ false → is_ascii_whitespace c ≡ false
unfolding is_whitespace is_ascii_whitespace
ascii_is_whitespace c h = ground (arith, h)

split-word : (test : ℕ → Bool) (w : Text) → all (λ d. not (test d)) w ≡ true → split test w ≡ w ∷ []
split-word test [] h = refl
split-word test (c ∷ cs) h = ground (arith, h, split-word test cs)

split-append :
    (test : ℕ → Bool) (w rest : Text) (c : ℕ)
    → all (λ d. not (test d)) w ≡ true
    → test c ≡ true
    → split test (w ++ c ∷ rest) ≡ w ∷ split test rest
split-append test [] rest c h t = ground (arith, t)
split-append test (d ∷ ds) rest c h t = ground (arith, h, split-append test ds rest c)

ascii_word :
    (w : Text)
    → all (λ d. not (is_whitespace d)) w ≡ true
    → all (λ d. not (is_ascii_whitespace d)) w ≡ true
ascii_word [] h = refl
ascii_word (c ∷ cs) h = ground (arith, h, ascii_is_whitespace c, ascii_word cs)

pub words-word : (w : Text) → IsWord w → words is_ascii_whitespace w ≡ w ∷ []
words-word [] h = absurd h
words-word (c ∷ cs) h =
    ap (filter (λ v. not (is_empty v)))
      (split-word is_ascii_whitespace (c ∷ cs) (ascii_word (c ∷ cs) h))

pub words-append :
    (w rest : Text)
    → IsWord w
    → words is_ascii_whitespace (w ++ b' ' ∷ rest) ≡ w ∷ words is_ascii_whitespace rest
unfolding is_ascii_whitespace
words-append [] rest h = absurd h
words-append (c ∷ cs) rest h =
    ap (filter (λ v. not (is_empty v)))
      (split-append is_ascii_whitespace (c ∷ cs) rest b' ' (ascii_word (c ∷ cs) h) refl)

trim_end-word : (w : Text) → all (λ d. not (is_whitespace d)) w ≡ true → trim_end w ≡ w
trim_end-word [] h = refl
trim_end-word (c ∷ cs) h = rw (trim_end-word cs (ground (arith, h))) (ends c cs (ground (arith, h)))
  where
    ends : (c : ℕ) (cs : Text) → is_whitespace c ≡ false → trim_cons c cs ≡ c ∷ cs
    ends c [] h = ground (arith, h)
    ends c (d ∷ ds) h = refl

-- What ends in a word has nothing to trim at its end.
trim_end-append : (before w : Text) → IsWord w → trim_end (before ++ w) ≡ before ++ w
trim_end-append before [] h = absurd h
trim_end-append [] (c ∷ cs) h = trim_end-word (c ∷ cs) h
trim_end-append (b ∷ []) (c ∷ cs) h = ap (trim_cons b) (trim_end-word (c ∷ cs) h)
trim_end-append (b ∷ d ∷ ds) (c ∷ cs) h = ap (trim_cons b) (trim_end-append (d ∷ ds) (c ∷ cs) h)

-- A line that starts with a character other than whitespace and ends in a word is trimmed already.
pub trim-append :
    (b : ℕ) (before w : Text)
    → is_whitespace b ≡ false
    → IsWord w
    → trim (b ∷ before ++ w) ≡ b ∷ before ++ w
unfolding trim
trim-append b before w h word =
    ap trim_end (start b (before ++ w) h) ∙ trim_end-append (b ∷ before) w word
  where
    start : (b : ℕ) (t : Text) → is_whitespace b ≡ false → trim_start (b ∷ t) ≡ b ∷ t
    start b t h = rw h refl

-- ===== src/Menu/Case/Line.antt =====
-- Upper case and the string operations of rust/src/app/menu_command.rs.
use nextexpress.Prelude.{
  ℕ, ◌≡◌, refl, ap, ◌∙◌, Bool, false, ◌&&◌, ◌||◌, not, List, [], ◌∷◌, map, Option, none, some,
  arith, ◌==◌, filter, Every,
}
use nextexpress.Text.{Text, text_eq, is_empty}
use nextexpress.Menu.Line.{
  is_whitespace, is_ascii_whitespace, is_digit, upper, to_upper, eq_ignore_case, within,
  starts_with, trim_start, trim_cons, trim_end, trim, push_first, split, words, split_once,
  strip_prefix, all,
}

-- A test that does not tell a letter from its capital.
abbrev pub IgnoresCase : (ℕ → Bool) → Type 0
IgnoresCase test = (c : ℕ) → test (upper c) ≡ test c

pub is_whitespace-upper : IgnoresCase is_whitespace
unfolding is_whitespace upper
is_whitespace-upper c = ground arith

pub is_ascii_whitespace-upper : IgnoresCase is_ascii_whitespace
unfolding is_ascii_whitespace upper
is_ascii_whitespace-upper c = ground arith

pub is_digit-upper : IgnoresCase is_digit
unfolding is_digit upper
is_digit-upper c = ground arith

upper-upper : (c : ℕ) → upper (upper c) ≡ upper c
unfolding upper
upper-upper c = ground arith

pub to_upper-to_upper : (t : Text) → to_upper (to_upper t) ≡ to_upper t
to_upper-to_upper [] = refl
to_upper-to_upper (c ∷ cs) = λ i. upper-upper c i ∷ to_upper-to_upper cs i

-- A character that is no letter.
abbrev pub is_letter : ℕ → Bool
is_letter c = within b'a' b'z' c || within b'A' b'Z' c

pub ==-upper : (p c : ℕ) → is_letter p ≡ false → (upper c == p) ≡ (c == p)
unfolding upper
==-upper p c h = ground arith

pub is_empty-to_upper : (t : Text) → is_empty (to_upper t) ≡ is_empty t
is_empty-to_upper [] = refl
is_empty-to_upper (c ∷ cs) = refl

pub starts_with-to_upper :
    (test : ℕ → Bool)
    → IgnoresCase test
    → (t : Text) → starts_with test (to_upper t) ≡ starts_with test t
starts_with-to_upper test h [] = refl
starts_with-to_upper test h (c ∷ cs) = h c

pub all-to_upper :
    (test : ℕ → Bool) → IgnoresCase test → (t : Text) → all test (to_upper t) ≡ all test t
all-to_upper test h [] = refl
all-to_upper test h (c ∷ cs) = λ i. h c i && all-to_upper test h cs i

trim_start-to_upper : (t : Text) → trim_start (to_upper t) ≡ to_upper (trim_start t)
trim_start-to_upper [] = refl
trim_start-to_upper (c ∷ cs) = ground (arith, is_whitespace-upper c, trim_start-to_upper cs)

trim_cons-to_upper :
    (c : ℕ) (t : Text) → trim_cons (upper c) (to_upper t) ≡ to_upper (trim_cons c t)
trim_cons-to_upper c [] = ground (arith, is_whitespace-upper c)
trim_cons-to_upper c (d ∷ ds) = refl

trim_end-to_upper : (t : Text) → trim_end (to_upper t) ≡ to_upper (trim_end t)
trim_end-to_upper [] = refl
trim_end-to_upper (c ∷ cs) =
    ap (trim_cons (upper c)) (trim_end-to_upper cs) ∙ trim_cons-to_upper c (trim_end cs)

pub trim-to_upper : (t : Text) → trim (to_upper t) ≡ to_upper (trim t)
unfolding trim
trim-to_upper t = ap trim_end (trim_start-to_upper t) ∙ trim_end-to_upper (trim_start t)

push_first-to_upper :
    (c : ℕ) (ws : List Text)
    → push_first (upper c) (map to_upper ws) ≡ map to_upper (push_first c ws)
push_first-to_upper c [] = refl
push_first-to_upper c (w ∷ ws) = refl

pub split-to_upper :
    (test : ℕ → Bool)
    → IgnoresCase test
    → (t : Text) → split test (to_upper t) ≡ map to_upper (split test t)
split-to_upper test h [] = refl
split-to_upper test h (c ∷ cs) =
    ground (arith, h c, split-to_upper test h cs, push_first-to_upper c (split test cs))

filter-to_upper :
    (ws : List Text)
    → filter (λ w. not (is_empty w)) (map to_upper ws)
      ≡ map to_upper (filter (λ w. not (is_empty w)) ws)
filter-to_upper [] = refl
filter-to_upper (w ∷ ws) = ground (arith, is_empty-to_upper w, filter-to_upper ws)

pub words-to_upper :
    (test : ℕ → Bool)
    → IgnoresCase test
    → (t : Text) → words test (to_upper t) ≡ map to_upper (words test t)
words-to_upper test h t =
    ap (filter (λ w. not (is_empty w))) (split-to_upper test h t) ∙ filter-to_upper (split test t)

-- `to_upper` under an Option.
abbrev pub upper_option : Option Text → Option Text
upper_option none = none
upper_option (some t) = some (to_upper t)

pub split_once-to_upper :
    (test : ℕ → Bool)
    → IgnoresCase test
    → (t : Text)
    → split_once test (to_upper t)
      ≡ (to_upper (split_once test t).0, upper_option (split_once test t).1)
split_once-to_upper test h [] = refl
split_once-to_upper test h (c ∷ cs) = ground (arith, h c, split_once-to_upper test h cs)

pub strip_prefix-to_upper :
    (p : ℕ)
    → is_letter p ≡ false
    → (t : Text) → strip_prefix p (to_upper t) ≡ upper_option (strip_prefix p t)
strip_prefix-to_upper p h [] = refl
strip_prefix-to_upper p h (c ∷ cs) = ground (arith, ==-upper p c h)

pub eq_ignore_case-to_upper : (t s : Text) → eq_ignore_case (to_upper t) s ≡ eq_ignore_case t s
eq_ignore_case-to_upper t s = ap (λ u. text_eq u (to_upper s)) (to_upper-to_upper t)

pub text_eq-to_upper :
    (t s : Text) → Every (λ p. is_letter p ≡ false) s → text_eq (to_upper t) s ≡ text_eq t s
text_eq-to_upper [] [] h = refl
text_eq-to_upper [] (p ∷ ps) h = refl
text_eq-to_upper (c ∷ cs) [] h = refl
text_eq-to_upper (c ∷ cs) (p ∷ ps) h = λ i. ==-upper p c h.0 i && text_eq-to_upper cs ps h.1 i

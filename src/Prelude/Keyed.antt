-- ===== src/Prelude/Keyed.antt =====
-- Lists of rows that a number keys, and a fold that puts rows into such a list one by one.
use Prim.Native.Nat.{ℕ}
use mathlib.Core.Path.{◌≡◌, refl, ap, ◌∙◌}
use mathlib.Core.Bool.{Bool, true, false}
use mathlib.Core.List.{List, [], ◌∷◌, ◌++◌, map}
use mathlib.Core.Option.{Option, none, some}
use native.Mathlib.Omega.{arith}
use nextexpress.Prelude.Tests.{if◌then◌else◌, ◌==◌}
use nextexpress.Prelude.Lists.{find, filter, update_first}
use nextexpress.Prelude.Search.{Every, Every-map, Every-all}

-- `iter().filter_map(f)`.
abbrev pub some_cons : {P : Type 0} → Option P → List P → List P
some_cons none ps = ps
some_cons (some p) ps = p ∷ ps

abbrev pub filter_map : {A P : Type 0} → (A → Option P) → List A → List P
filter_map f [] = []
filter_map f (x ∷ xs) = some_cons (f x) (filter_map f xs)

-- `for patch in patches { patch.apply_to(state) }`.
abbrev pub apply_all : {P S : Type 0} → (P → S → S) → List P → S → S
apply_all apply [] s = s
apply_all apply (p ∷ ps) s = apply_all apply ps (apply p s)

pub filter_map-filter :
    {A P : Type 0} (test : A → Bool) (f : A → P) (xs : List A)
    → filter_map (λ x. if test x then some (f x) else none) xs ≡ map f (filter test xs)
filter_map-filter test f [] = refl
filter_map-filter test f (x ∷ xs) = ground (arith, filter_map-filter test f xs)

module _ {A : Type 0} (key : A → ℕ) where
  abbrev pub has_key : ℕ → A → Bool
  has_key k row = key row == k

  -- The keys of the rows are different from each other.
  abbrev pub HasDistinctKeys : List A → Type 0
  HasDistinctKeys [] = Unit
  HasDistinctKeys (x ∷ xs) = Every (λ y. (key y == key x) ≡ false) xs × HasDistinctKeys xs

  -- The row takes the place of the first one with its key, or the end of the list.
  abbrev pub put : A → List A → List A
  put c [] = c ∷ []
  put c (x ∷ xs) = if has_key (key c) x then c ∷ xs else x ∷ put c xs

  abbrev pub put_all : List A → List A → List A
  put_all [] xs = xs
  put_all (c ∷ cs) xs = put_all cs (put c xs)

  -- The rows of the first list are, in order, the first rows of the second, each grown by
  -- `Grown`; the rows that the second has more are `Fresh`.
  abbrev pub IsGrowth : (A → A → Type 0) → (A → Type 0) → List A → List A → Type 0
  IsGrowth Grown Fresh [] cs = Every Fresh cs
  IsGrowth Grown Fresh (b ∷ bs) [] = ⊥
  IsGrowth Grown Fresh (b ∷ bs) (c ∷ cs) = (key b ≡ key c) × Grown b c × IsGrowth Grown Fresh bs cs

  -- What a growth says of a row, by the row of its key before.
  abbrev pub Fits : (A → A → Type 0) → (A → Type 0) → Option A → A → Type 0
  Fits Grown Fresh none c = Fresh c
  Fits Grown Fresh (some b) c = Grown b c

  pub find-put :
      (c : A) (k : ℕ) (xs : List A)
      → (k == key c) ≡ false
      → find (has_key k) (put c xs) ≡ find (has_key k) xs
  find-put c k [] h = ground arith
  find-put c k (x ∷ xs) h = ground (arith, find-put c k xs h)

  pub append-put :
      (c : A) (xs : List A) → find (has_key (key c)) xs ≡ none → xs ++ c ∷ [] ≡ put c xs
  append-put c [] h = refl
  append-put c (x ∷ xs) h = ground (arith, append-put c xs)

  pub update_first-put :
      (c : A) (f : A → A) (b : A) (xs : List A)
      → find (has_key (key c)) xs ≡ some b
      → f b ≡ c
      → update_first (has_key (key c)) f xs ≡ put c xs
  update_first-put c f b [] h e = absurd cc
  update_first-put c f b (x ∷ xs) h e = ground (arith, update_first-put c f b xs)

  pub put_same : (c : A) (xs : List A) → find (has_key (key c)) xs ≡ some c → xs ≡ put c xs
  put_same c [] h = absurd cc
  put_same c (x ∷ xs) h = ground (arith, put_same c xs)

  put_all-cons :
      (d : A) (cs xs : List A)
      → Every (λ y. (key y == key d) ≡ false) cs
      → put_all cs (d ∷ xs) ≡ d ∷ put_all cs xs
  put_all-cons d [] xs v = refl
  put_all-cons d (c ∷ cs) xs v = ground (arith, v.0, put_all-cons d cs (put c xs) v.1)

  -- Putting the rows of a growth one by one into the list before gives the list after.
  pub put_all-IsGrowth :
      (Grown : A → A → Type 0) (Fresh : A → Type 0) (bs cs : List A)
      → HasDistinctKeys cs
      → IsGrowth Grown Fresh bs cs
      → put_all cs bs ≡ cs
  put_all-IsGrowth Grown Fresh [] [] d g = refl
  put_all-IsGrowth Grown Fresh [] (c ∷ cs) d g =
      put_all-cons c cs [] d.0 ∙ ap (λ t. c ∷ t) (put_all-IsGrowth Grown Fresh [] cs d.1 g.1)
  put_all-IsGrowth Grown Fresh (b ∷ bs) [] d g = absurd g
  put_all-IsGrowth Grown Fresh (b ∷ bs) (c ∷ cs) d (same, grown, rest) =
      ap (put_all cs) (ground (arith, same))
      ∙ put_all-cons c cs bs d.0
      ∙ ap (λ t. c ∷ t) (put_all-IsGrowth Grown Fresh bs cs d.1 rest)

  skip_row :
      (Grown : A → A → Type 0) (Fresh : A → Type 0) (b c d : A) (bs : List A)
      → key b ≡ key c
      → (key d == key c) ≡ false
      → Fits Grown Fresh (find (has_key (key d)) bs) d
      → Fits Grown Fresh (find (has_key (key d)) (b ∷ bs)) d
  skip_row Grown Fresh b c d bs same other fit =
      let differs : (key b == key d) ≡ false = ground (arith, same, other) in rw differs fit

  same_row :
      (Grown : A → A → Type 0) (Fresh : A → Type 0) (b c : A) (bs : List A)
      → key b ≡ key c
      → Grown b c
      → Fits Grown Fresh (find (has_key (key c)) (b ∷ bs)) c
  same_row Grown Fresh b c bs same grown =
      let here : (key b == key c) ≡ true = ground (arith, same) in rw here grown

  skip_rows :
      (Grown : A → A → Type 0) (Fresh : A → Type 0) (b c : A) (bs ds : List A)
      → key b ≡ key c
      → Every (λ d. (key d == key c) ≡ false) ds
      → Every (λ d. Fits Grown Fresh (find (has_key (key d)) bs) d) ds
      → Every (λ d. Fits Grown Fresh (find (has_key (key d)) (b ∷ bs)) d) ds
  skip_rows Grown Fresh b c bs [] same others fits = tt
  skip_rows Grown Fresh b c bs (d ∷ ds) same others fits = (
    skip_row Grown Fresh b c d bs same others.0 fits.0,
    skip_rows Grown Fresh b c bs ds same others.1 fits.1,
  )

  -- Each row of a growth fits the row of its key before.
  pub IsGrowth-Fits :
      (Grown : A → A → Type 0) (Fresh : A → Type 0) (bs cs : List A)
      → HasDistinctKeys cs
      → IsGrowth Grown Fresh bs cs
      → Every (λ c. Fits Grown Fresh (find (has_key (key c)) bs) c) cs
  IsGrowth-Fits Grown Fresh [] cs d g = g
  IsGrowth-Fits Grown Fresh (b ∷ bs) [] d g = tt
  IsGrowth-Fits Grown Fresh (b ∷ bs) (c ∷ cs) d (same, grown, rest) = (
    same_row Grown Fresh b c bs same grown,
    skip_rows Grown Fresh b c bs cs same d.0 (IsGrowth-Fits Grown Fresh bs cs d.1 rest),
  )

  module _ {P : Type 0} (diff : A → Option P) (apply : P → List A → List A) where
    abbrev pub apply_diff : Option P → List A → List A
    apply_diff none xs = xs
    apply_diff (some p) xs = apply p xs

    -- The difference of a row puts that row into any list that has the row before under its key.
    abbrev pub PutsRow : List A → A → Type 0
    PutsRow bs c =
        (xs : List A)
        → find (has_key (key c)) xs ≡ find (has_key (key c)) bs
        → apply_diff (diff c) xs ≡ put c xs

    apply_all-some_cons :
        (o : Option P) (ps : List P) (xs : List A)
        → apply_all apply (some_cons o ps) xs ≡ apply_all apply ps (apply_diff o xs)
    apply_all-some_cons none ps xs = refl
    apply_all-some_cons (some p) ps xs = refl

    finds_kept :
        (bs cs xs : List A) (c : A)
        → Every (λ y. (key y == key c) ≡ false) cs
        → Every (λ d. find (has_key (key d)) xs ≡ find (has_key (key d)) bs) cs
        → Every (λ d. find (has_key (key d)) (put c xs) ≡ find (has_key (key d)) bs) cs
    finds_kept bs [] xs c others finds = tt
    finds_kept bs (d ∷ cs) xs c others finds =
        (find-put c (key d) xs others.0 ∙ finds.0, finds_kept bs cs xs c others.1 finds.1)

    diffs_put :
        (bs cs xs : List A)
        → HasDistinctKeys cs
        → Every (PutsRow bs) cs
        → Every (λ d. find (has_key (key d)) xs ≡ find (has_key (key d)) bs) cs
        → apply_all apply (filter_map diff cs) xs ≡ put_all cs xs
    diffs_put bs [] xs d puts finds = refl
    diffs_put bs (c ∷ cs) xs d puts finds =
        apply_all-some_cons (diff c) (filter_map diff cs) xs
        ∙ ap (apply_all apply (filter_map diff cs)) (puts.0 xs finds.0)
        ∙ diffs_put bs cs (put c xs) d.1 puts.1 (finds_kept bs cs xs c d.0 finds.1)

    -- The differences of a growth, applied to the list before, give the list after.
    pub diffs_lem :
        (Grown : A → A → Type 0) (Fresh : A → Type 0) (bs cs : List A)
        → HasDistinctKeys cs
        → IsGrowth Grown Fresh bs cs
        → ((c : A) → Fits Grown Fresh (find (has_key (key c)) bs) c → PutsRow bs c)
        → apply_all apply (filter_map diff cs) bs ≡ cs
    diffs_lem Grown Fresh bs cs d g puts =
        diffs_put bs cs bs d (Every-map puts cs (IsGrowth-Fits Grown Fresh bs cs d g))
          (Every-all (λ c. refl) cs)
        ∙ put_all-IsGrowth Grown Fresh bs cs d g

  rows-IsGrowth : (cs : List A) → IsGrowth (λ b c. b ≡ c) (λ c. ⊥) cs cs
  rows-IsGrowth [] = tt
  rows-IsGrowth (c ∷ cs) = (refl, refl, rows-IsGrowth cs)

  -- Each row is the one found under its key, where the keys are different.
  pub find_self :
      (cs : List A)
      → HasDistinctKeys cs
      → Every (λ c. Fits (λ b c. b ≡ c) (λ c. ⊥) (find (has_key (key c)) cs) c) cs
  find_self cs d = IsGrowth-Fits (λ b c. b ≡ c) (λ c. ⊥) cs cs d (rows-IsGrowth cs)

pub filter_map-none :
    {A P : Type 0} (f : A → Option P) (xs : List A)
    → Every (λ x. f x ≡ none) xs
    → filter_map f xs ≡ []
filter_map-none f [] v = refl
filter_map-none f (x ∷ xs) v = ground (arith, v.0, filter_map-none f xs v.1)

pub filter-none :
    {A : Type 0} (test : A → Bool) (xs : List A)
    → Every (λ x. test x ≡ false) xs
    → filter test xs ≡ []
filter-none test [] v = refl
filter-none test (x ∷ xs) v = ground (arith, v.0, filter-none test xs v.1)

-- ===== src/Prelude/Lists.antt =====
-- Lists measured and searched over the native numbers, under the library's names.
use Prim.Native.Nat.{ℕ, zero, suc, ◌+◌}
use Prim.Native.Char.{code}
use Prim.Native.String.{String}
use mathlib.Core.Path.{◌≡◌, refl, ap}
use mathlib.Core.Bool.{Bool, true, false, ◌||◌}
use mathlib.Core.List.{List, [], ◌∷◌, ◌++◌}
use mathlib.Core.Option.{Option, none, some}
use native.Mathlib.Omega.{arith}
use mathlib.Core.Logic.{inl, inr}
use nextexpress.Prelude.Tests.{if◌then◌else◌, Bool-cases}

module _ {ℓ} {A : Type ℓ} where
  abbrev pub length : List A → ℕ
  length [] = 0
  length (x ∷ xs) = suc (length xs)

  -- `slice.first()`.
  abbrev pub head? : List A → Option A
  head? [] = none
  head? (x ∷ xs) = some x

  abbrev pub get_elem? : List A → ℕ → Option A
  get_elem? [] i = none
  get_elem? (x ∷ xs) zero = some x
  get_elem? (x ∷ xs) (suc i) = get_elem? xs i

  -- A write out of bounds changes nothing.
  abbrev pub set : List A → ℕ → A → List A
  set [] i v = []
  set (x ∷ xs) zero v = v ∷ xs
  set (x ∷ xs) (suc i) v = x ∷ set xs i v

  -- `iter().find(test)`.
  abbrev pub find : (A → Bool) → List A → Option A
  find test [] = none
  find test (x ∷ xs) = if test x then some x else find test xs

  -- `iter().filter(test)`.
  abbrev pub filter : (A → Bool) → List A → List A
  filter test [] = []
  filter test (x ∷ xs) = if test x then x ∷ filter test xs else filter test xs

  -- `iter().any(test)`.
  abbrev pub any : (A → Bool) → List A → Bool
  any test [] = false
  any test (x ∷ xs) = test x || any test xs

  -- `iter_mut().find(test)` followed by a write through the reference.
  abbrev pub update_first : (A → Bool) → (A → A) → List A → List A
  update_first test f [] = []
  update_first test f (x ∷ xs) = if test x then f x ∷ xs else x ∷ update_first test f xs

  pub length-append : (xs ys : List A) → length (xs ++ ys) ≡ length xs + length ys
  length-append [] ys = omega arith
  length-append (x ∷ xs) ys = omega (arith, length-append xs ys)

  pub length-set : (xs : List A) (i : ℕ) (v : A) → length (set xs i v) ≡ length xs
  length-set [] i v = refl
  length-set (x ∷ xs) zero v = refl
  length-set (x ∷ xs) (suc i) v = ap suc (length-set xs i v)

  pub length-update_first :
      (test : A → Bool) (f : A → A) (xs : List A) → length (update_first test f xs) ≡ length xs
  length-update_first test f [] = refl
  length-update_first test f (x ∷ xs) = ground (arith, length-update_first test f xs)

  -- The element that `find` returns passes the test.
  pub find-passes : (test : A → Bool) (xs : List A) {a : A} → find test xs ≡ some a → test a ≡ true
  find-passes test [] h = cc
  find-passes test (x ∷ xs) {a = a} h = ground (arith, find-passes test xs {a = a})

  -- An update that keeps the test finds the updated element.
  pub find-update_first :
      (test : A → Bool) (f : A → A) (xs : List A)
      → ((a : A) → test a ≡ true → test (f a) ≡ true)
      → {a : A} → find test xs ≡ some a
      → find test (update_first test f xs) ≡ some (f a)
  find-update_first test f [] keep h = cc
  find-update_first test f (x ∷ xs) keep {a = a} h = elim (Bool-cases (test x)) [
    | inl here ↦ rw here (rw (keep x here) (ground arith))
    | inr later ↦ rw later (rw later (find-update_first test f xs keep (ground arith)))
  ]

-- The code points of a literal: its bytes, where it is ASCII.
abbrev pub codes : String → List ℕ
codes String.[] = []
codes (String.◌∷◌ c s) = code c ∷ codes s

-- ===== src/Prelude/Search.antt =====
-- Membership and `every` over lists, and what searches say of them.
use mathlib.Core.Path.{◌≡◌, refl, sym, subst}
use mathlib.Core.Logic.{inl, inr}
use mathlib.Core.Bool.{Bool, true, false}
use mathlib.Core.List.Memᴰ.{head, tail, not-nil}
use mathlib.Core.List.{List, [], ◌∷◌, Memᴰ}
use mathlib.Core.Option.{none, some}
use native.Mathlib.Omega.{arith}
use nextexpress.Prelude.Tests.{if◌then◌else◌, Bool-cases}
use nextexpress.Prelude.Lists.{find, filter}

module _ {ℓ} {A : Type ℓ} where
  -- Every element has the property.
  abbrev pub Every : (A → Type 0) → List A → Type 0
  Every p [] = Unit
  Every p (x ∷ xs) = p x × Every p xs

  pub find-Memᴰ : (test : A → Bool) (xs : List A) {a : A} → find test xs ≡ some a → Memᴰ a xs
  find-Memᴰ test [] h = absurd cc
  find-Memᴰ test (x ∷ xs) {a = a} h = elim (Bool-cases (test x)) [
    | inl here ↦ head (ground (arith, here))
    | inr later ↦ tail (find-Memᴰ test xs (ground (arith, later)))
  ]

  pub Every-Memᴰ : (p : A → Type 0) (xs : List A) {a : A} → Every p xs → Memᴰ a xs → p a
  Every-Memᴰ p [] v m = absurd (not-nil m)
  Every-Memᴰ p (x ∷ xs) v (head e) = subst p (sym e) v.0
  Every-Memᴰ p (x ∷ xs) v (tail m) = Every-Memᴰ p xs v.1 m

  -- A search that finds nothing has refused every element.
  pub find-none-Every :
      (test : A → Bool) (xs : List A) → find test xs ≡ none → Every (λ x. test x ≡ false) xs
  find-none-Every test [] h = tt
  find-none-Every test (x ∷ xs) h = (ground arith, find-none-Every test xs (ground arith))

  pub filter-Memᴰ :
      (test : A → Bool) (xs : List A) {a : A}
      → Memᴰ a (filter test xs)
      → (test a ≡ true) × Memᴰ a xs
  filter-Memᴰ test [] m = absurd (not-nil m)
  filter-Memᴰ test (x ∷ xs) {a = a} m =
      split (test x) refl (λ k. let (t, n) = filter-Memᴰ test xs k in (t, tail n)) m
    where
      split :
          (b : Bool)
          → test x ≡ b
          → (Memᴰ a (filter test xs) → (test a ≡ true) × Memᴰ a (x ∷ xs))
          → Memᴰ a (if b then x ∷ filter test xs else filter test xs)
          → (test a ≡ true) × Memᴰ a (x ∷ xs)
      split true e rest (head h) = (ground (arith, e, h), head h)
      split true e rest (tail m) = rest m
      split false e rest m = rest m

  -- What holds of the elements that pass holds of each element that passes.
  pub Every-filter :
      (test : A → Bool) (p : A → Type 0) (xs : List A)
      → Every p (filter test xs)
      → Every (λ x. test x ≡ true → p x) xs
  Every-filter test p [] v = tt
  Every-filter test p (x ∷ xs) v = split (test x) refl v (Every-filter test p xs)
    where
      split :
          (b : Bool)
          → test x ≡ b
          → Every p (if b then x ∷ filter test xs else filter test xs)
          → (Every p (filter test xs) → Every (λ x. test x ≡ true → p x) xs)
          → (test x ≡ true → p x) × Every (λ x. test x ≡ true → p x) xs
      split true e v rest = ((λ h. v.0), rest v.1)
      split false e v rest = ((λ h. absurd (ground (arith, h, e))), rest v)

  pub Every-map :
      {p q : A → Type 0} → ((a : A) → p a → q a) → (xs : List A) → Every p xs → Every q xs
  Every-map f [] v = tt
  Every-map f (x ∷ xs) v = (f x v.0, Every-map f xs v.1)

  pub Every-all : {p : A → Type 0} → ((a : A) → p a) → (xs : List A) → Every p xs
  Every-all f [] = tt
  Every-all f (x ∷ xs) = (f x, Every-all f xs)

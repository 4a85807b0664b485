-- ===== src/Prelude/Outcome.antt =====
-- Rust's `Result`, and its `saturating_add` and `saturating_sub` on unsigned words.
use Prim.Native.Nat.{ℕ, ◌+◌, min}
use mathlib.Core.Option.{Option, none, some}

pub data Result {ℓ κ} (E : Type ℓ) (A : Type κ) : Type (ℓ ⊔ κ) where
  ok : A → Result E A
  err : E → Result E A

abbrev pub u32_max : ℕ
u32_max = 4294967295

-- `a.saturating_add(b)` on u32; `saturating_sub` is the truncated `-` of ℕ.
abbrev pub saturating_add : ℕ → ℕ → ℕ
saturating_add a b = min (a + b) u32_max

-- `option.map_or(d, f)`.
abbrev pub map_or {ℓ κ} : {A : Type ℓ} {B : Type κ} → B → (A → B) → Option A → B
map_or d f none = d
map_or d f (some a) = f a

-- Code that may panic: `none` is the panic.
infixl 5 ◌>>=◌ ◌>>◌
abbrev pub ◌>>=◌ {ℓ κ} : {A : Type ℓ} {B : Type κ} → Option A → (A → Option B) → Option B
none >>= f = none
some a >>= f = f a

abbrev pub ◌>>◌ {ℓ κ} : {A : Type ℓ} {B : Type κ} → Option A → Option B → Option B
m >> k = m >>= λ _. k

-- `result.expect(…)`
abbrev pub expect {ℓ κ} : {E : Type ℓ} {A : Type κ} → Result E A → Option A
expect (ok a) = some a
expect (err e) = none

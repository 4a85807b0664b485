-- ===== src/Node/Pool/Signals.antt =====
-- The signal slots of rust/src/app/node_pool.rs.
use nextexpress.Prelude.{
  ℕ, zero, suc, ◌≡◌, Bool, ◌&&◌, Option, none, some, List, [], ◌∷◌, arith, ◌==◌, ltb, leb, length,
  set, get_elem?, if◌then◌else◌,
}
use nextexpress.Node.Pool.{
  NodePool, write_signal, read_signal, signal_sender, attach_signal_sender, release,
}

get_elem?-set {ℓ} :
    {A : Type ℓ} (xs : List A) (i j : ℕ) (v : A)
    → get_elem? (set xs i v) j ≡ (if i == j && ltb j (length xs) then some v else get_elem? xs j)
get_elem?-set [] i j v = ground arith
get_elem?-set (x ∷ xs) zero zero v = ground arith
get_elem?-set (x ∷ xs) zero (suc j) v = ground arith
get_elem?-set (x ∷ xs) (suc i) zero v = ground arith
get_elem?-set (x ∷ xs) (suc i) (suc j) v = ground (arith, get_elem?-set xs i j v)

-- A slot is in range if its number is 1 to the number of slots.
abbrev pub in_range : ℕ → ℕ → Bool
in_range number count = leb 1 number && leb number count

module _ {Sender : Type 0} where
  read_signal-write_signal :
      (signals : List (Option Sender)) (number other : ℕ) (value : Option Sender)
      → read_signal (write_signal signals number value) other ≡ (
          if number == other && in_range other (length signals)
          then value
          else read_signal signals other)
  unfolding read_signal write_signal
  read_signal-write_signal signals zero zero value = ground arith
  read_signal-write_signal signals zero (suc j) value = ground arith
  read_signal-write_signal signals (suc i) zero value = ground arith
  read_signal-write_signal signals (suc i) (suc j) value =
      ground (arith, get_elem?-set signals i j value)

  -- Attaching a sender to a node in range is seen at that node and nowhere else, and a number out
  -- of range attaches nothing; a release, whether it succeeds or is refused, clears the slot of its
  -- number and no other.
  pub signal_sender-attach-release :
      (pool : NodePool Sender) (number other : ℕ) (sender : Sender)
      → (signal_sender (attach_signal_sender pool number sender) other ≡ (
          if number == other && in_range other (length pool.signals)
          then some sender
          else signal_sender pool other))
        × (signal_sender (release pool number).0 other ≡ (
            if number == other && in_range other (length pool.signals)
            then none
            else signal_sender pool other))
  unfolding signal_sender attach_signal_sender release
  signal_sender-attach-release pool number other sender = (
    read_signal-write_signal pool.signals number other (some sender),
    read_signal-write_signal pool.signals number other none,
  )

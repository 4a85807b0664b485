-- ===== src/Node/Pool.antt =====
-- rust/src/app/node_pool.rs: the pool of nodes. Each method holds its mutex for its whole body, so
-- it is one step from pool to pool. `Sender` stands for tokio's sender of session signals.
pub mod Signals
pub mod Refinement
use nextexpress.Prelude.{
  ℕ, zero, suc, ◌+◌, Bool, true, false, Option, none, some, List, [], ◌∷◌, map, Result, ok, err,
  ◌==◌, find, set, get_elem?, if◌then◌else◌,
}
use nextexpress.Node
use nextexpress.Node.{Node, NodeStatus, TransitionError, transition_to}

pub record NodePool (Sender : Type 0) : Type 0 where
  pub nodes : List Node
  pub signals : List (Option Sender)

pub data ReleaseError : Type 0 where
  unknown_node : ℕ → ReleaseError
  invalid_transition : TransitionError → ReleaseError

-- first, first + 1, … : `count` numbers.
abbrev pub range_from : ℕ → ℕ → List ℕ
range_from first zero = []
range_from first (suc count) = first ∷ range_from (suc first) count

abbrev pub is_idle : NodeStatus → Bool
is_idle NodeStatus.idle = true
is_idle _ = false

-- The first node that is idle takes the transition to connecting; the rest of the list stays.
unfoldable pub allocate_in : List Node → List Node × Option ℕ
unfolding transition_to
allocate_in [] = ([], none)
allocate_in (node ∷ rest) =
    let (rest', found) = allocate_in rest in
    let (node', moved) = transition_to node NodeStatus.connecting in
    if is_idle node.status
    then (node' ∷ rest, elim moved [ ok _ ↦ some node'.number | err _ ↦ none ])
    else (node ∷ rest', found)

unfoldable pub release_in : List Node → ℕ → List Node × Result ReleaseError (Unit {0})
unfolding transition_to
release_in [] number = ([], err (unknown_node number))
release_in (node ∷ rest) number =
    let (rest', outcome) = release_in rest number in
    let (node', moved) = transition_to node NodeStatus.idle in
    if node.number == number
    then (node' ∷ rest, elim moved [ ok _ ↦ ok tt | err e ↦ err (invalid_transition e) ])
    else (node ∷ rest', outcome)

module _ {Sender : Type 0} where
  unfoldable pub new_pool : ℕ → NodePool Sender
  unfolding Node.new
  new_pool max_nodes = record {
    nodes = map Node.new (range_from 1 max_nodes);
    signals = map (λ _. none) (range_from 1 max_nodes);
  }

  -- `number.checked_sub(1)` and then `get_mut`: a number out of range writes nothing.
  unfoldable pub write_signal : List (Option Sender) → ℕ → Option Sender → List (Option Sender)
  write_signal signals zero value = signals
  write_signal signals (suc index) value = set signals index value

  unfoldable pub attach_signal_sender : NodePool Sender → ℕ → Sender → NodePool Sender
  unfolding write_signal
  attach_signal_sender pool number sender = record pool {
    signals = write_signal pool.signals number (some sender);
  }

  unfoldable pub read_signal : List (Option Sender) → ℕ → Option Sender
  read_signal signals zero = none
  read_signal signals (suc index) = elim (get_elem? signals index) [
    | none ↦ none
    | some slot ↦ slot
  ]

  unfoldable pub signal_sender : NodePool Sender → ℕ → Option Sender
  unfolding read_signal
  signal_sender pool number = read_signal pool.signals number

  unfoldable pub allocate : NodePool Sender → NodePool Sender × Option ℕ
  unfolding allocate_in
  allocate pool =
      let (nodes, number) = allocate_in pool.nodes in (record pool { nodes = nodes }, number)

  -- The signal slot is cleared before the node is looked up, whatever becomes of the release.
  unfoldable pub release : NodePool Sender → ℕ → NodePool Sender × Result ReleaseError (Unit {0})
  unfolding write_signal release_in
  release pool number =
      let (nodes, outcome) = release_in pool.nodes number in
      (record pool { nodes = nodes; signals = write_signal pool.signals number none }, outcome)

  unfoldable pub status_of : NodePool Sender → ℕ → Option NodeStatus
  status_of pool number = elim (find (λ n. n.number == number) pool.nodes) [
    | none ↦ none
    | some n ↦ some n.status
  ]

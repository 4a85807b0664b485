-- ===== src/Node.antt =====
-- rust/src/domain/node.rs: a node, one concurrent-session slot, and its transition table.
pub mod Pool
use nextexpress.Prelude.{ℕ, Bool, true, false, Result, ok, err, if◌then◌else◌}

pub data NodeStatus : Type 0 where
  idle connecting logged_on logging_off : NodeStatus

pub record Node : Type 0 where
  pub number : ℕ
  pub status : NodeStatus

unfoldable pub new : ℕ → Node
new number = record { number = number; status = NodeStatus.idle }

pub record TransitionError : Type 0 where
  pub from_status : NodeStatus
  pub to_status : NodeStatus

unfoldable pub is_transition_allowed : NodeStatus → NodeStatus → Bool
is_transition_allowed NodeStatus.idle NodeStatus.connecting = true
is_transition_allowed NodeStatus.connecting NodeStatus.idle = true
is_transition_allowed NodeStatus.logging_off NodeStatus.idle = true
is_transition_allowed NodeStatus.connecting NodeStatus.logged_on = true
is_transition_allowed NodeStatus.logged_on NodeStatus.logging_off = true
is_transition_allowed _ _ = false

-- `&mut self`: the node comes back beside the result.
unfoldable pub transition_to : Node → NodeStatus → Node × Result TransitionError (Unit {0})
unfolding is_transition_allowed
transition_to node target =
    if is_transition_allowed node.status target
    then (record node { status = target }, ok tt)
    else (node, err (record { from_status = node.status; to_status = target }))

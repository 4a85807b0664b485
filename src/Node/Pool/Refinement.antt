-- ===== src/Node/Pool/Refinement.antt =====
-- The pool of rust/src/app/node_pool.rs against an abstract pool: how many nodes there are, and
-- which numbers are taken. Only the nodes matter here; the signal slots are in Signals.
use nextexpress.Prelude.{
  ℕ, zero, suc, ◌+◌, ◌≤◌, ◌<◌, ◌≡◌, refl, ap, inl, inr, Bool, true, false, ◌&&◌, Option, none, some,
  List, [], ◌∷◌, map, Result, ok, err, arith, ◌==◌, leb, ltb, length, Bool-cases, Option-cases,
  if◌then◌else◌,
}
use nextexpress.Node
use nextexpress.Node.{Node, NodeStatus}
use nextexpress.Node.Pool.{
  NodePool, ReleaseError, unknown_node, invalid_transition, range_from, allocate_in, release_in,
  new_pool, allocate, release,
}

-- Which numbers are taken.
abbrev pub Taken : Type 0
Taken = ℕ → Bool

abbrev pub put : Taken → ℕ → Bool → Taken
put taken k value = λ j. if j == k then value else taken j

abbrev pub mark : Taken → Option ℕ → Taken
mark taken none = taken
mark taken (some k) = put taken k true

-- The least free number of `count` numbers from `first` on.
abbrev pub least_free : ℕ → ℕ → Taken → Option ℕ
least_free first zero taken = none
least_free first (suc count) taken =
    if taken first then least_free (suc first) count taken else some first

abbrev still_idle : ReleaseError
still_idle =
    invalid_transition (record { from_status = NodeStatus.idle; to_status = NodeStatus.idle })

-- Giving back a taken number succeeds; a free one is refused, and so is an unknown one.
abbrev pub give_back : ℕ → ℕ → Taken → ℕ → Result ReleaseError (Unit {0})
give_back first count taken number =
    if leb first number && ltb number (first + count)
    then (if taken number then ok tt else err still_idle)
    else err (unknown_node number)

abbrev status_for : Bool → NodeStatus
status_for true = NodeStatus.connecting
status_for false = NodeStatus.idle

-- The nodes are numbered from `first` on, and a node is connecting exactly if its number is taken.
abbrev pub Represents : ℕ → List Node → Taken → Type 0
Represents first [] taken = Unit
Represents first (node ∷ rest) taken =
    (node.number ≡ first)
    × (node.status ≡ status_for (taken first))
    × Represents (suc first) rest taken

Represents-ext :
    (first : ℕ) (nodes : List Node) (taken taken' : Taken)
    → ((j : ℕ) → first ≤ j → taken j ≡ taken' j)
    → Represents first nodes taken
    → Represents first nodes taken'
Represents-ext first [] taken taken' same h = h
Represents-ext first (node ∷ rest) taken taken' same h = (
  h.0,
  ground (arith, same first),
  Represents-ext (suc first) rest taken taken' (λ j le. same j (omega arith)) h.2,
)

least_free-ge :
    (first count : ℕ) (taken : Taken) {k : ℕ} → least_free first count taken ≡ some k → first ≤ k
least_free-ge first zero taken h = cc
least_free-ge first (suc count) taken {k = k} h =
    ground (arith, least_free-ge (suc first) count taken {k = k})

mark-below :
    (first count : ℕ) (taken : Taken) (j : ℕ)
    → j < first
    → taken j ≡ mark taken (least_free first count taken) j
mark-below first count taken j h = elim (Option-cases (least_free first count taken)) [
  | inl e ↦ rw e
  | inr (k, e) ↦ rw e (ground (arith, least_free-ge first count taken {k = k}))
]

allocate_in-idle :
    (node : Node) (rest : List Node)
    → node.status ≡ NodeStatus.idle
    → allocate_in (node ∷ rest)
      ≡ (record node { status = NodeStatus.connecting } ∷ rest, some node.number)
unfolding allocate_in
allocate_in-idle node rest h = ground arith

allocate_in-connecting :
    (node : Node) (rest : List Node)
    → node.status ≡ NodeStatus.connecting
    → allocate_in (node ∷ rest) ≡ (node ∷ (allocate_in rest).0, (allocate_in rest).1)
unfolding allocate_in
allocate_in-connecting node rest h = ground arith

release_in-here :
    (node : Node) (rest : List Node) (number : ℕ) (taken : Bool)
    → node.number ≡ number
    → node.status ≡ status_for taken
    → release_in (node ∷ rest) number
      ≡ (record node { status = NodeStatus.idle } ∷ rest, if taken then ok tt else err still_idle)
unfolding release_in
release_in-here node rest number taken e h = ground arith

release_in-later :
    (node : Node) (rest : List Node) (number : ℕ)
    → (node.number == number) ≡ false
    → release_in (node ∷ rest) number
      ≡ (node ∷ (release_in rest number).0, (release_in rest number).1)
unfolding release_in
release_in-later node rest number h = ground arith

-- `allocate` takes the least free number, and no other status changes.
allocate_in-Represents :
    (first : ℕ) (nodes : List Node) (taken : Taken)
    → Represents first nodes taken
    → ((allocate_in nodes).1 ≡ least_free first (length nodes) taken)
      × Represents first (allocate_in nodes).0 (mark taken (least_free first (length nodes) taken))
unfolding allocate_in
allocate_in-Represents first [] taken h = (refl, tt)
allocate_in-Represents first (node ∷ rest) taken h = elim (Bool-cases (taken first)) [
  | inl busy ↦
      let ih = allocate_in-Represents (suc first) rest taken h.2 in
      let connecting : node.status ≡ NodeStatus.connecting = ground arith in
      rw (allocate_in-connecting node rest connecting, busy)
        (ih.0, (h.0, ground (arith, mark-below (suc first) (length rest) taken first), ih.1))
  | inr free ↦
      let idle : node.status ≡ NodeStatus.idle = ground arith in
      rw (allocate_in-idle node rest idle, free)
        (
          ground arith,
          (
            h.0,
            ground arith,
            Represents-ext (suc first) rest taken (put taken first true) (λ j le. ground arith) h.2,
          ),
        )
]

-- `release` gives back a taken number and refuses every other; no other status changes.
release_in-Represents :
    (first : ℕ) (nodes : List Node) (taken : Taken) (number : ℕ)
    → Represents first nodes taken
    → ((release_in nodes number).1 ≡ give_back first (length nodes) taken number)
      × Represents first (release_in nodes number).0 (put taken number false)
unfolding release_in
release_in-Represents first [] taken number h = (ground arith, tt)
release_in-Represents first (node ∷ rest) taken number h =
    elim (Bool-cases (node.number == number)) [
      | inl here ↦ rw (release_in-here node rest number (taken first) (ground arith) h.1) (
        ground arith,
        (
          h.0,
          ground arith,
          Represents-ext (suc first) rest taken (put taken number false) (λ j le. ground arith) h.2,
        ),
      )
      | inr later ↦
          let ih = release_in-Represents (suc first) rest taken number h.2 in
          rw (release_in-later node rest number later) (ground arith, (h.0, ground arith, ih.1))
    ]

-- What a client asks of the pool, and what it gets back.
pub data Request : Type 0 where
  allocates : Request
  releases : ℕ → Request

pub data Reply : Type 0 where
  allocated : Option ℕ → Reply
  released : Result ReleaseError (Unit {0}) → Reply

module _ {Sender : Type 0} where
  pub serve : NodePool Sender → Request → NodePool Sender × Reply
  serve pool allocates = let (pool', number) = allocate pool in (pool', allocated number)
  serve pool (releases number) =
      let (pool', outcome) = release pool number in (pool', released outcome)

  pub replies : NodePool Sender → List Request → List Reply
  replies pool [] = []
  replies pool (request ∷ rest) =
      let (pool', reply) = serve pool request in reply ∷ replies pool' rest

-- The same requests on the abstract pool of `max_nodes` numbers.
abbrev pub spec_serve : ℕ → Taken → Request → Taken × Reply
spec_serve max_nodes taken allocates =
    (mark taken (least_free 1 max_nodes taken), allocated (least_free 1 max_nodes taken))
spec_serve max_nodes taken (releases number) =
    (put taken number false, released (give_back 1 max_nodes taken number))

abbrev pub spec_replies : ℕ → Taken → List Request → List Reply
spec_replies max_nodes taken [] = []
spec_replies max_nodes taken (request ∷ rest) =
    let (taken', reply) = spec_serve max_nodes taken request in
    reply ∷ spec_replies max_nodes taken' rest

abbrev pub none_taken : Taken
none_taken = λ j. false

length-allocate_in : (nodes : List Node) → length (allocate_in nodes).0 ≡ length nodes
unfolding allocate_in
length-allocate_in [] = refl
length-allocate_in (node ∷ rest) = ground (arith, length-allocate_in rest)

length-release_in :
    (nodes : List Node) (number : ℕ) → length (release_in nodes number).0 ≡ length nodes
unfolding release_in
length-release_in [] number = refl
length-release_in (node ∷ rest) number = ground (arith, length-release_in rest number)

new-Represents :
    (first count : ℕ) → Represents first (map Node.new (range_from first count)) none_taken
unfolding Node.new
new-Represents first zero = tt
new-Represents first (suc count) = (refl, refl, new-Represents (suc first) count)

length-new : (first count : ℕ) → length (map Node.new (range_from first count)) ≡ count
length-new first zero = refl
length-new first (suc count) = ap suc (length-new (suc first) count)

module _ {Sender : Type 0} where
  abbrev IsPool : ℕ → NodePool Sender → Taken → Type 0
  IsPool max_nodes pool taken = (length pool.nodes ≡ max_nodes) × Represents 1 pool.nodes taken

  serve-IsPool :
      (max_nodes : ℕ) (pool : NodePool Sender) (taken : Taken) (request : Request)
      → IsPool max_nodes pool taken
      → ((serve pool request).1 ≡ (spec_serve max_nodes taken request).1)
        × IsPool max_nodes (serve pool request).0 (spec_serve max_nodes taken request).0
  unfolding serve allocate release
  serve-IsPool max_nodes pool taken allocates h =
      let step = allocate_in-Represents 1 pool.nodes taken h.1 in
      rw (← h.0) (ap allocated step.0, (length-allocate_in pool.nodes, step.1))
  serve-IsPool max_nodes pool taken (releases number) h =
      let step = release_in-Represents 1 pool.nodes taken number h.1 in
      rw (← h.0) (ap released step.0, (length-release_in pool.nodes number, step.1))

  replies-IsPool :
      (max_nodes : ℕ) (pool : NodePool Sender) (taken : Taken) (requests : List Request)
      → IsPool max_nodes pool taken
      → replies pool requests ≡ spec_replies max_nodes taken requests
  unfolding replies
  replies-IsPool max_nodes pool taken [] h = refl
  replies-IsPool max_nodes pool taken (request ∷ rest) h =
      let step = serve-IsPool max_nodes pool taken request h in
      cc (
        step.0,
        replies-IsPool max_nodes (serve pool request).0 (spec_serve max_nodes taken request).0 rest
            step.1,
      )

-- From a fresh pool of `max_nodes` nodes, every sequence of allocations and releases is answered
-- as the abstract pool answers it: an allocation takes the least free number of 1 to max_nodes, or
-- none if all are taken, a release of a taken number succeeds, one of a free number is refused as
-- idle to idle, and one of a number out of range as unknown.
pub replies-new_pool :
    (Sender : Type 0) (max_nodes : ℕ) (requests : List Request)
    → replies {Sender = Sender} (new_pool max_nodes) requests
      ≡ spec_replies max_nodes none_taken requests
unfolding new_pool
replies-new_pool Sender max_nodes requests =
    replies-IsPool max_nodes _ none_taken requests
      (length-new 1 max_nodes, new-Represents 1 max_nodes)

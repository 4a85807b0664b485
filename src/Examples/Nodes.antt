-- ===== src/Examples/Nodes.antt =====
-- The theorems on the node pool, at two nodes.
use nextexpress.Prelude.{ℕ, ◌≡◌, [], ◌∷◌}
use nextexpress.Node.Pool.{NodePool, new_pool}
use nextexpress.Node.Pool.Refinement.{
  allocates, releases, replies, spec_replies, none_taken, replies-new_pool,
}

replies-new_pool_example :
    replies {Sender = ℕ}
      (new_pool 2)
      (allocates ∷ allocates ∷ allocates ∷ releases 1 ∷ releases 1 ∷ releases 9 ∷ allocates ∷ [])
    ≡ spec_replies 2 none_taken
        (allocates ∷ allocates ∷ allocates ∷ releases 1 ∷ releases 1 ∷ releases 9 ∷ allocates ∷ [])
replies-new_pool_example =
    replies-new_pool ℕ 2
      (allocates ∷ allocates ∷ allocates ∷ releases 1 ∷ releases 1 ∷ releases 9 ∷ allocates ∷ [])

abbrev two_nodes : NodePool ℕ
two_nodes = new_pool 2

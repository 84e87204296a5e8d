-- ===== src/Tree/Balance.antt =====
-- tree_balance.c: the balancing by the counts. `none` is a read through NULL, or no round left.
use cmsis_rtos.Base.{ℕ, zero, suc, Option, none, some, if◌then◌else◌}
use cmsis_rtos.Tree.{Tree, leaf, node, Entry}
use cmsis_rtos.Tree.Rotation.{
  ◌>>=◌, entry_depth, entry_balance, below_minus_one, above_one, is_negative, is_positive, depth,
  balance, tree_rotate_left, tree_rotate_right,
}

-- The rotation of a child before that of the node, and that of the node.
unfoldable pub settle_right : Tree → Entry → Tree → Option Tree
settle_right l n r = do
  b ← balance l
  l' ← if is_positive b then tree_rotate_left l else some l
  tree_rotate_right (node l' n r)

unfoldable pub settle_left : Tree → Entry → Tree → Option Tree
settle_left l n r = do
  b ← balance r
  r' ← if is_negative b then tree_rotate_right r else some r
  tree_rotate_left (node l n r')

-- `tree_balance_`: the tree and the count that it returns.
unfoldable pub settle : Tree → Option (Tree × ℕ)
settle leaf = none
settle (node l n r) = do
  t ←
      if below_minus_one (entry_balance n)
      then settle_right l n r
      else if above_one (entry_balance n)
      then settle_left l n r
      else some (node l n r)
  d ← depth t
  some (t, d)

-- A node without a left child is rotated, and so is one without a right child.
unfoldable pub lean_left : Tree → Option Tree
lean_left leaf = none
lean_left (node leaf n r) = tree_rotate_left (node leaf n r)
lean_left (node (node a m b) n r) = some (node (node a m b) n r)

unfoldable pub lean_right : Tree → Option Tree
lean_right leaf = none
lean_right (node l n leaf) = tree_rotate_right (node l n leaf)
lean_right (node l n (node a m b)) = some (node l n (node a m b))

-- The call on one side with the write of the count that it returns.
unfoldable pub balance_prev : (Tree → Option (Tree × ℕ)) → Tree → Option Tree
balance_prev rec leaf = none
balance_prev rec (node l n r) = do (l', d) ← rec l; some (node l' (record n { prev_depth = d }) r)

unfoldable pub balance_next : (Tree → Option (Tree × ℕ)) → Tree → Option Tree
balance_next rec leaf = none
balance_next rec (node l n r) = do (r', d) ← rec r; some (node l (record n { next_depth = d }) r')

-- `tree_balance`. After the call on the left the left child is there, so that its second `return 1`
-- is never reached.
unfoldable pub tree_balance : ℕ → Tree → Option (Tree × ℕ)
tree_balance zero t = none
tree_balance (suc rounds) leaf = none
tree_balance (suc rounds) (node leaf n leaf) = some (node leaf n leaf, 1)
tree_balance (suc rounds) t = do
  t ← lean_left t
  t ← balance_prev (tree_balance rounds) t
  t ← lean_right t
  t ← balance_next (tree_balance rounds) t
  settle t

-- `tree_depth`: the counts are computed again.
unfoldable pub tree_depth : Tree → Tree × ℕ
tree_depth leaf = (leaf, 0)
tree_depth (node l n r) =
    let (l', below) = tree_depth l in
    let (r', above) = tree_depth r in
    let n' = record n { prev_depth = below; next_depth = above } in (node l' n' r', entry_depth n')

-- ===== src/Tree/Remove.antt =====
-- tree_merge.c, tree_remove.c: two trees become one, and the removal of a key.
use cmsis_rtos.Base.{ℕ, not, Option, none, some, if◌then◌else◌, ltb}
use cmsis_rtos.Search.{Sign}
use cmsis_rtos.Tree.{Tree, leaf, node, Entry, key_sign}
use cmsis_rtos.Tree.Rotation.{
  entry_depth, entry_balance, is_negative, lowered_left, raised_left, lowered_right, raised_right,
}
use Sign.{negative, nothing, positive}

-- The loop of rotations that raises the greatest node of a tree, given by its root; the node with
-- what is left of it.
unfoldable pub raise_last : Tree → Entry → Tree → Tree × Entry
raise_last l n leaf = (l, n)
raise_last l n (node b p c) = raise_last (node l (lowered_left n p) b) (raised_left n p) c

-- The same for the least node, with what is right of it.
unfoldable pub raise_first : Tree → Entry → Tree → Entry × Tree
raise_first leaf n r = (n, r)
raise_first (node a p b) n r = raise_first a (raised_right n p) (node b (lowered_right n p) r)

-- `tree_merge`
unfoldable pub tree_merge : Tree → Tree → Tree
tree_merge leaf tree2 = tree2
tree_merge (node a n b) leaf = node a n b
tree_merge (node a n b) (node c m d) =
    if ltb n.next_depth m.prev_depth
    then (let (l, top) = raise_last a n b in
        node l (record top { next_depth = entry_depth m }) (node c m d))
    else (let (top, r) = raise_first c m d in
        node (node a n b) (record top { prev_depth = entry_depth n }) r)

-- The loop that lets a node sink until it has one child at most; what then hangs on the link to the
-- node, and the count that is written beside the link.
unfoldable pub sink : Tree → Entry → Tree → Tree × ℕ
sink l n leaf = (l, n.prev_depth)
sink leaf n (node c p d) = (node c p d, n.next_depth)
sink (node a q b) n (node c p d) =
    let to_left = sink (node a q b) (lowered_left n p) c in
    let to_right = sink b (lowered_right n q) (node c p d) in
    if not (is_negative (entry_balance n))
    then (
      node to_left.0 (record (raised_left n p) { prev_depth = to_left.1 }) d,
      entry_depth (raised_left n p),
    )
    else (
      node a (record (raised_right n q) { next_depth = to_right.1 }) to_right.0,
      entry_depth (raised_right n q),
    )

-- What hangs on a link after the removal, the count to write beside it if the removed node hung
-- there, and the removed node.
pub record Removal : Type 0 where
  pub tree : Tree
  pub count : Option ℕ
  pub removed : Option Entry

abbrev pub cleared : Entry → Entry
cleared n = record n { prev_depth = 0; next_depth = 0 }

abbrev pub write_count : ℕ → Option ℕ → ℕ
write_count old none = old
write_count old (some d) = d

-- The link to the left child and the one to the right child after a removal below them.
abbrev pub with_prev : Removal → Entry → Tree → Tree
with_prev x n r = node x.tree (record n { prev_depth = write_count n.prev_depth x.count }) r

abbrev pub with_next : Tree → Entry → Removal → Tree
with_next l n x = node l (record n { next_depth = write_count n.next_depth x.count }) x.tree

-- `tree_remove` at a link below a parent.
unfoldable pub remove_below : Tree → ℕ → Removal
remove_below leaf key = record { tree = leaf; count = none; removed = none }
remove_below (node l n r) key =
    let below = remove_below l key in
    let above = remove_below r key in
    elim (key_sign key n.key) [
      | nothing ↦
          let (t, d) = sink l n r in record { tree = t; count = some d; removed = some (cleared n) }
      | negative ↦ record { tree = with_prev below n r; count = none; removed = below.removed }
      | positive ↦ record { tree = with_next l n above; count = none; removed = above.removed }
    ]

-- `tree_remove`
unfoldable pub tree_remove : Tree → ℕ → Tree × Option Entry
tree_remove leaf key = (leaf, none)
tree_remove (node l n r) key = elim (key_sign key n.key) [
  | nothing ↦ (tree_merge l r, some (cleared n))
  | negative ↦ let below = remove_below l key in (with_prev below n r, below.removed)
  | positive ↦ let above = remove_below r key in (with_next l n above, above.removed)
]

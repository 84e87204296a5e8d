-- ===== src/Tree/Find.antt =====
-- tree_find.c: the search that rotates. `none` is a read through NULL.
use cmsis_rtos.Base.{ℕ, Option, none, some}
use cmsis_rtos.Search.{Sign}
use cmsis_rtos.Tree.{Tree, leaf, node, Entry, key_sign}
use cmsis_rtos.Tree.Rotation.{◌>>=◌, entry_depth, tree_rotate_left}
use cmsis_rtos.Tree.Remove.{write_count}
use Sign.{negative, nothing, positive}

-- What hangs on a link after the search, and the node that is returned; the flag tells that the link
-- was written together with its count, as that of the grandparent is.
pub record Search : Type 0 where
  pub tree : Tree
  pub count : Option ℕ
  pub returned : Option Entry

abbrev pub missing : Tree → Search
missing t = record { tree = t; count = none; returned = none }

-- The rotation at the parent of the node that was found. The test `parent->prev == node` compares the
-- parent with its own child, so that the rotation is the one to the left on both sides.
unfoldable pub rotate_parent : Tree → Option Search
rotate_parent t = tree_rotate_left t >>= λ t'. elim t' [
  | leaf ↦ none
  | node a p b ↦
      some (record { tree = node a p b; count = some (entry_depth p); returned = some p })
]

-- The results below the left link and below the right link.
abbrev pub put_prev : Entry → Tree → Search → Search
put_prev p r s = record s {
  tree = node s.tree (record p { prev_depth = write_count p.prev_depth s.count }) r;
  count = none;
}

abbrev pub put_next : Tree → Entry → Search → Search
put_next l p s = record s {
  tree = node l (record p { next_depth = write_count p.next_depth s.count }) s.tree;
  count = none;
}

-- One round at a child: it is not there, it has the key, or the search goes on.
unfoldable pub at_child : Tree → ℕ → Option Search → Option Search → Option Search → Option Search
at_child leaf key absent rotated deeper = absent
at_child (node a n b) key absent rotated deeper = elim (key_sign key n.key) [
  | nothing ↦ rotated
  | negative ↦ deeper
  | positive ↦ deeper
]

-- The search below a parent that has another key.
unfoldable pub find_below : Tree → ℕ → Option Search
find_below leaf key = some (missing leaf)
find_below (node l p r) key =
    let absent = some (missing (node l p r)) in
    let rotated = rotate_parent (node l p r) in
    let below = find_below l key >>= λ s. some (put_prev p r s) in
    let above = find_below r key >>= λ s. some (put_next l p s) in
    elim (key_sign key p.key) [
      | nothing ↦ absent
      | negative ↦ at_child l key absent rotated below
      | positive ↦ at_child r key absent rotated above
    ]

abbrev pub report : Search → Option (Tree × Option Entry)
report s = some (s.tree, s.returned)

-- `tree_find`: a node at the root is returned as it stands.
unfoldable pub tree_find : Tree → ℕ → Option (Tree × Option Entry)
tree_find leaf key = some (leaf, none)
tree_find (node l n r) key = elim (key_sign key n.key) [
  | nothing ↦ some (node l n r, some n)
  | negative ↦ find_below (node l n r) key >>= report
  | positive ↦ find_below (node l n r) key >>= report
]

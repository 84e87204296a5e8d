-- ===== src/Tree/Insert.antt =====
-- tree_insert.c, r3_tree.c: insertion with a rotation at the last node, and the one that leaves the
-- nodes where they are.
use cmsis_rtos.Base.{Option, none, some, if◌then◌else◌, List, [], ◌∷◌}
use cmsis_rtos.Search.{Sign}
use cmsis_rtos.Tree.{Tree, leaf, node, alone, is_leaf, Entry, key_sign}
use Sign.{negative, nothing, positive}

-- On which side of its parent a node hangs.
pub data Side : Type 0 where
  left right : Side

-- The parent with its other child and this one.
abbrev pub hang : Side → Entry → Tree → Tree → Tree
hang left p sibling child = node child p sibling
hang right p sibling child = node sibling p child

-- The element becomes the left child of a node `n` that has none, or takes part in a rotation when
-- the node has no child and the parent no other one.
unfoldable pub attach_left : Side → Entry → Tree → Entry → Tree → Entry → Tree
attach_left side p (node a q b) n r e = hang side p (node a q b) (node (alone e) n r)
attach_left side p leaf n (node a q b) e = hang side p leaf (node (alone e) n (node a q b))
attach_left right p leaf n leaf e = node (alone p) e (alone n)
attach_left left p leaf n leaf e = node (alone e) n (alone p)

unfoldable pub attach_right : Side → Entry → Tree → Tree → Entry → Entry → Tree
attach_right side p (node a q b) l n e = hang side p (node a q b) (node l n (alone e))
attach_right side p leaf (node a q b) n e = hang side p leaf (node (node a q b) n (alone e))
attach_right right p leaf leaf n e = node (alone p) n (alone e)
attach_right left p leaf leaf n e = node (alone n) e (alone p)

-- The loop of `tree_insert` at a node below the parent `p`; the tree at the parent, and the element
-- with the value that was replaced.
unfoldable pub insert_below : Side → Entry → Tree → Tree → Entry → Tree × Option Entry
insert_below side p sibling leaf e = (hang side p sibling leaf, none)
insert_below side p sibling (node l n r) e =
    let below = insert_below left n r l e in
    let above = insert_below right n l r e in
    elim (key_sign e.key n.key) [
      | nothing ↦ (
        hang side p sibling (node l (record n { value = e.value }) r),
        some (record e { value = n.value }),
      )
      | negative ↦
          if is_leaf l
          then (attach_left side p sibling n r e, none)
          else (hang side p sibling below.0, below.1)
      | positive ↦
          if is_leaf r
          then (attach_right side p sibling l n e, none)
          else (hang side p sibling above.0, above.1)
    ]

-- `tree_insert`: an empty tree stays empty.
unfoldable pub tree_insert : Tree → Entry → Tree × Option Entry
tree_insert leaf e = (leaf, none)
tree_insert (node l n r) e = elim (key_sign e.key n.key) [
  | nothing ↦ (node l (record n { value = e.value }) r, some (record e { value = n.value }))
  | negative ↦ if is_leaf l then (node (alone e) n r, none) else insert_below left n r l e
  | positive ↦ if is_leaf r then (node l n (alone e), none) else insert_below right n l r e
]

-- `tree_insert_tree` of an element without children.
unfoldable pub tree_insert_tree : Tree → Entry → Tree × Option Entry
tree_insert_tree leaf e = (alone e, none)
tree_insert_tree (node l n r) e =
    let below = tree_insert_tree l e in
    let above = tree_insert_tree r e in
    elim (key_sign e.key n.key) [
      | nothing ↦ (node l (record n { value = e.value }) r, some (record e { value = n.value }))
      | negative ↦ (node below.0 n r, below.1)
      | positive ↦ (node l n above.0, above.1)
    ]

-- The restoring of a tree from an archive: its elements are inserted in the order of the archive.
unfoldable pub restore : Tree → List Entry → Tree
restore t [] = t
restore t (e ∷ es) = restore (tree_insert_tree t e).0 es

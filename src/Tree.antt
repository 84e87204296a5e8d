-- ===== src/Tree.antt =====
-- r3_tree.h, r3_tree.c, tree_*.c: search trees with a count of the nodes on each side. A pointer to a
-- node is the tree below it, `leaf` is NULL.
pub mod Rotation
pub mod Balance
pub mod Insert
pub mod Remove
pub mod Find
pub mod Dictionary
pub mod Lookup
pub mod Inserted
pub mod Archive
pub mod Removed
pub mod Arranged
pub mod Settled
pub mod Balanced
pub mod Returned
pub mod Runs
pub mod Found
use cmsis_rtos.Base.{
  ℕ, ◌+◌, ◌*◌, ◌/◌, ◌^◌, Bool, true, false, List, [], ◌∷◌, ◌++◌, ◌==◌, if◌then◌else◌, leb, Option,
  none, some,
}
use cmsis_rtos.Base.Word.{u32, sub32}
use cmsis_rtos.Search.{Sign}
use Sign.{negative, nothing, positive}

-- The fields of `struct _tree` but the two links.
pub record Entry : Type 0 where
  pub value : ℕ
  pub key : ℕ
  pub prev_depth : ℕ
  pub next_depth : ℕ

-- `struct _tree`
pub data Tree : Type 0 where
  leaf : Tree
  node : Tree → Entry → Tree → Tree

-- A node without children.
abbrev pub alone : Entry → Tree
alone e = node leaf e leaf

abbrev pub is_leaf : Tree → Bool
is_leaf leaf = true
is_leaf (node l e r) = false

-- `tree_init`
abbrev pub tree_init : ℕ → ℕ → Entry
tree_init key value = record { value = value; key = key; prev_depth = 0; next_depth = 0 }

-- The sign of `int32_t cmp = key - node->key`.
unfoldable pub key_sign : ℕ → ℕ → Sign
key_sign key k =
    let cmp = sub32 key k in
    if cmp == 0 then nothing else if leb (2 ^ 31) cmp then negative else positive

-- `tree_lookup`, 0 for NULL
unfoldable pub tree_lookup : Tree → ℕ → ℕ
tree_lookup leaf key = 0
tree_lookup (node l e r) key =
    let below = tree_lookup l key in
    let above = tree_lookup r key in
    elim (key_sign key e.key) [ nothing ↦ e.value | negative ↦ below | positive ↦ above ]

-- `tree_lookup_mask`: the subtree of the first node with the key above its low bits; an arithmetic
-- shift of a difference is 0 when the difference is below `2 ^ shift`.
unfoldable pub tree_lookup_mask : Tree → ℕ → ℕ → Tree
tree_lookup_mask leaf key shift = leaf
tree_lookup_mask (node l e r) key shift =
    let cmp = sub32 key e.key in
    let below = tree_lookup_mask l key shift in
    let above = tree_lookup_mask r key shift in
    if cmp / 2 ^ shift == 0 then node l e r else if leb (2 ^ 31) cmp then below else above

-- `tree_replace_data`: the value before, 0 for NULL, and the tree.
unfoldable pub tree_replace_data : Tree → ℕ → ℕ → ℕ × Tree
tree_replace_data leaf key value = (0, leaf)
tree_replace_data (node l e r) key value =
    let below = tree_replace_data l key value in
    let above = tree_replace_data r key value in
    elim (key_sign key e.key) [
      | nothing ↦ (e.value, node l (record e { value = value }) r)
      | negative ↦ (below.0, node below.1 e r)
      | positive ↦ (above.0, node l e above.1)
    ]

-- `tree_min`, `tree_max`: the node at the end of the left or the right links; NULL is read through.
unfoldable pub tree_min : Tree → Option Entry
tree_min leaf = none
tree_min (node leaf e r) = some e
tree_min (node (node a n b) e r) = tree_min (node a n b)

unfoldable pub tree_max : Tree → Option Entry
tree_max leaf = none
tree_max (node l e leaf) = some e
tree_max (node l e (node a n b)) = tree_max (node a n b)

-- The calls that `tree_foreach` makes, key and value of each, in their order, and none for a NULL child.
-- It is for a tree with nodes: C reads through the pointer first, also when it is NULL.
unfoldable pub tree_foreach : Tree → List (ℕ × ℕ)
tree_foreach leaf = []
tree_foreach (node l e r) = tree_foreach l ++ ((e.key, e.value) ∷ tree_foreach r)

-- The nodes that `tree_notify` hands over, in their order, and none for a NULL child; for a tree with
-- nodes, likewise.
unfoldable pub tree_notify : Tree → List Entry
tree_notify leaf = []
tree_notify (node l e r) = e ∷ (tree_notify l ++ tree_notify r)

-- `tree_append` behind the node with the greatest key: the tree, and the node that it returns.
unfoldable pub tree_append : Tree → Entry → Option (Tree × Entry)
tree_append leaf tree = none
tree_append (node l e leaf) tree =
    some (node l e (alone (record tree { key = u32 (e.key + 1) })), e)
tree_append (node l e (node a n b)) tree = elim (tree_append (node a n b) tree) [
  | none ↦ none
  | some (next, last) ↦ some (node l e next, last)
]

-- ===== src/Tree/Lookup.antt =====
-- The look-up in a tree, and the order of the keys.
use cmsis_rtos.Base.{
  ℕ, ◌^◌, ◌<◌, ◌≡◌, refl, sym, ap, ◌∙◌, inl, inr, Bool-cases, ◌==◌, ltb, ◌⊎◌, ◌∷◌, arith, some, ◌+◌,
}
use cmsis_rtos.Search.{Sign}
use cmsis_rtos.Tree.{Tree, leaf, node, Entry, key_sign, tree_lookup, tree_foreach}
use cmsis_rtos.Tree.Dictionary.{
  IsDictionary, AllAbove-trans, AllBelow-trans, AllBelow, AllAbove, parts, find, find_before,
  find_behind, find_here, find_step, or_null,
}
use Sign.{negative, nothing, positive}

pub sign_cases :
    (k j : ℕ)
    → k < 2 ^ 31
    → j < 2 ^ 31
    → ((k ≡ j) × (key_sign k j ≡ nothing))
      ⊎ ((k < j) × (key_sign k j ≡ negative))
      ⊎ ((j < k) × (key_sign k j ≡ positive))
unfolding key_sign
sign_cases k j hk hj = elim (Bool-cases (k == j)) [
  | inl same ↦ inl (ground arith, ground arith)
  | inr other ↦ elim (Bool-cases (ltb k j)) [
    | inl less ↦ inr (inl (ground arith, ground arith))
    | inr more ↦ inr (inr (ground arith, ground arith))
  ]
]

-- A tree whose calls of `tree_foreach` come in ascending order.
abbrev pub IsSearchTree : Tree → Type 0
IsSearchTree t = IsDictionary (tree_foreach t)

-- What the order says of a key on either side of a node.
pub below_node :
    (k : ℕ) (l : Tree) (e : Entry) (r : Tree)
    → IsSearchTree (node l e r)
    → k < e.key
    → AllAbove k ((e.key, e.value) ∷ tree_foreach r)
unfolding tree_foreach
below_node k l e r d h =
    let p = parts (tree_foreach l) e.key e.value (tree_foreach r) d in
    (h, AllAbove-trans k e.key (tree_foreach r) (omega arith) p.order.above)

pub above_node :
    (k : ℕ) (l : Tree) (e : Entry) (r : Tree)
    → IsSearchTree (node l e r)
    → e.key < k + 1
    → AllBelow k (tree_foreach l)
unfolding tree_foreach
above_node k l e r d h =
    let p = parts (tree_foreach l) e.key e.value (tree_foreach r) d in
    AllBelow-trans e.key k (tree_foreach l) (omega arith) p.order.below

-- Both children of a search tree are search trees, and the key is bounded.
pub node_parts :
    (l : Tree) (n : Entry) (r : Tree)
    → IsSearchTree (node l n r)
    → IsSearchTree l × IsSearchTree r × (n.key < 2 ^ 31)
unfolding tree_foreach
node_parts l n r d =
    let p = parts (tree_foreach l) n.key n.value (tree_foreach r) d in (p.prev, p.next, p.bound)

-- Where the list of a tree has a key.
pub node-find_left :
    (k : ℕ) (l : Tree) (e : Entry) (r : Tree)
    → IsSearchTree (node l e r)
    → k < e.key
    → find k (tree_foreach (node l e r)) ≡ find k (tree_foreach l)
unfolding tree_foreach
node-find_left k l e r d h =
    find_before k (tree_foreach l) e.key e.value (tree_foreach r) (below_node k l e r d h)

pub node-find_right :
    (k : ℕ) (l : Tree) (e : Entry) (r : Tree)
    → IsSearchTree (node l e r)
    → e.key < k
    → find k (tree_foreach (node l e r)) ≡ find k (tree_foreach r)
unfolding tree_foreach
node-find_right k l e r d h =
    find_behind k (tree_foreach l) ((e.key, e.value) ∷ tree_foreach r)
      (above_node k l e r d (omega arith))
    ∙ find_step k e.key e.value (tree_foreach r) h

pub node-find_here :
    (k : ℕ) (l : Tree) (e : Entry) (r : Tree)
    → IsSearchTree (node l e r)
    → k ≡ e.key
    → find k (tree_foreach (node l e r)) ≡ some e.value
unfolding tree_foreach
node-find_here k l e r d same = rw same (
    find_behind e.key (tree_foreach l) ((e.key, e.value) ∷ tree_foreach r)
      (above_node e.key l e r d (omega arith))
    ∙ find_here e.key e.value (tree_foreach r))

-- In a tree whose keys are in order and below 2 ^ 31, `tree_lookup` of a key below 2 ^ 31 gives the
-- value that the list of the calls of `tree_foreach` has for the key, and 0 when it has none.
pub tree_lookup-find :
    (t : Tree) (k : ℕ)
    → IsSearchTree t
    → k < 2 ^ 31
    → tree_lookup t k ≡ or_null (find k (tree_foreach t))
unfolding tree_lookup tree_foreach
tree_lookup-find leaf k d h = unfold find in refl
tree_lookup-find (node l e r) k d h =
    let p = node_parts l e r d in
    elim (sign_cases k e.key h p.2) [
      | inl (same, s) ↦
          rw (s, tree_lookup, same) (ap or_null (sym (node-find_here e.key l e r d refl)))
      | inr (inl (less, s)) ↦
          rw (s, tree_lookup)
            (tree_lookup-find l k p.0 h ∙ ap or_null (sym (node-find_left k l e r d less)))
      | inr (inr (more, s)) ↦
          rw (s, tree_lookup)
            (tree_lookup-find r k p.1 h ∙ ap or_null (sym (node-find_right k l e r d more)))
    ]

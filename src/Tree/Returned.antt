-- ===== src/Tree/Returned.antt =====
-- What the insertions return: the element with the value that was replaced.
use cmsis_rtos.Base.{◌^◌, ◌<◌, ◌≡◌, ◌≢◌, refl, sym, ◌∙◌, inl, inr, Option, none, if◌then◌else◌}
use cmsis_rtos.Tree.{Tree, leaf, node, Entry, is_leaf, tree_foreach, alone}
use cmsis_rtos.Tree.Dictionary.{find}
use cmsis_rtos.Tree.Lookup.{
  IsSearchTree, sign_cases, node_parts, node-find_left, node-find_right, node-find_here,
}
use cmsis_rtos.Tree.Insert.{
  Side, left, right, hang, attach_left, attach_right, insert_below, tree_insert, tree_insert_tree,
}
use cmsis_rtos.Tree.Removed.{value_of}

abbrev Held : Entry → Tree → Option Entry → Type 0
Held e t back = value_of back ≡ find e.key (tree_foreach t)

abbrev ResultHeld : Entry → Tree → Tree × Option Entry → Type 0
ResultHeld e t result = Held e t result.1

leaf-Held : (e : Entry) → Held e leaf none
unfolding find tree_foreach
leaf-Held e = refl

Held-left :
    (e : Entry) (l : Tree) (n : Entry) (r : Tree) (back : Option Entry)
    → IsSearchTree (node l n r)
    → e.key < n.key
    → Held e l back
    → Held e (node l n r) back
Held-left e l n r back d less h = h ∙ sym (node-find_left e.key l n r d less)

Held-right :
    (e : Entry) (l : Tree) (n : Entry) (r : Tree) (back : Option Entry)
    → IsSearchTree (node l n r)
    → n.key < e.key
    → Held e r back
    → Held e (node l n r) back
Held-right e l n r back d more h = h ∙ sym (node-find_right e.key l n r d more)

-- A step to the left or to the right, whether a child is there or not.
step_left :
    (l : Tree) (e n : Entry) (r here : Tree) (there : Tree × Option Entry)
    → IsSearchTree (node l n r)
    → e.key < n.key
    → (l ≢ leaf → Held e l there.1)
    → ResultHeld e (node l n r) (if is_leaf l then (here, none) else there)
step_left leaf e n r here there d less ih = Held-left e leaf n r none d less (leaf-Held e)
step_left (node a m b) e n r here there d less ih =
    Held-left e (node a m b) n r there.1 d less (ih (λ q. cc q))

step_right :
    (r : Tree) (e : Entry) (l : Tree) (n : Entry) (here : Tree) (there : Tree × Option Entry)
    → IsSearchTree (node l n r)
    → n.key < e.key
    → (r ≢ leaf → Held e r there.1)
    → ResultHeld e (node l n r) (if is_leaf r then (here, none) else there)
step_right leaf e l n here there d more ih = Held-right e l n leaf none d more (leaf-Held e)
step_right (node a m b) e l n here there d more ih =
    Held-right e l n (node a m b) there.1 d more (ih (λ q. cc q))

insert_below-Held :
    (side : Side) (p : Entry) (sibling t : Tree) (e : Entry)
    → t ≢ leaf
    → IsSearchTree t
    → e.key < 2 ^ 31
    → Held e t (insert_below side p sibling t e).1
unfolding insert_below
insert_below-Held side p sibling leaf e ne d h = absurd (ne refl)
insert_below-Held side p sibling (node l n r) e ne d h =
    let q = node_parts l n r d in
    elim (sign_cases e.key n.key h q.2) [
      | inl (same, s) ↦ rw (s, insert_below) (sym (node-find_here e.key l n r d same))
      | inr (inl (less, s)) ↦
          let below = insert_below left n r l e in
          rw (s, insert_below)
            (step_left l e n r (attach_left side p sibling n r e)
              (hang side p sibling below.0, below.1) d less
              (λ there. insert_below-Held left n r l e there q.0 h))
      | inr (inr (more, s)) ↦
          let above = insert_below right n l r e in
          rw (s, insert_below)
            (step_right r e l n (attach_right side p sibling l n e)
              (hang side p sibling above.0, above.1) d more
              (λ there. insert_below-Held right n l r e there q.1 h))
    ]

-- In a tree with keys in order and below 2 ^ 31, `tree_insert` of an element with such a key returns the
-- element with the value that stood under its key, and NULL when there was none.
pub tree_insert-find :
    (t : Tree) (e : Entry)
    → IsSearchTree t
    → e.key < 2 ^ 31
    → value_of (tree_insert t e).1 ≡ find e.key (tree_foreach t)
unfolding tree_insert
tree_insert-find leaf e d h = leaf-Held e
tree_insert-find (node l n r) e d h =
    let q = node_parts l n r d in
    elim (sign_cases e.key n.key h q.2) [
      | inl (same, s) ↦ rw (s, tree_insert) (sym (node-find_here e.key l n r d same))
      | inr (inl (less, s)) ↦
          rw (s, tree_insert)
            (step_left l e n r (node (alone e) n r) (insert_below left n r l e) d less
              (λ there. insert_below-Held left n r l e there q.0 h))
      | inr (inr (more, s)) ↦
          rw (s, tree_insert)
            (step_right r e l n (node l n (alone e)) (insert_below right n l r e) d more
              (λ there. insert_below-Held right n l r e there q.1 h))
    ]

pub tree_insert_tree-find :
    (t : Tree) (e : Entry)
    → IsSearchTree t
    → e.key < 2 ^ 31
    → value_of (tree_insert_tree t e).1 ≡ find e.key (tree_foreach t)
unfolding tree_insert_tree
tree_insert_tree-find leaf e d h = leaf-Held e
tree_insert_tree-find (node l n r) e d h =
    let q = node_parts l n r d in
    elim (sign_cases e.key n.key h q.2) [
      | inl (same, s) ↦ rw (s, tree_insert_tree) (sym (node-find_here e.key l n r d same))
      | inr (inl (less, s)) ↦
          rw (s, tree_insert_tree)
            (Held-left e l n r (tree_insert_tree l e).1 d less (tree_insert_tree-find l e q.0 h))
      | inr (inr (more, s)) ↦
          rw (s, tree_insert_tree)
            (Held-right e l n r (tree_insert_tree r e).1 d more (tree_insert_tree-find r e q.1 h))
    ]

-- ===== src/Tree/Removed.antt =====
-- Rotations, merging and removal against the list of the keys.
use cmsis_rtos.Base.{
  ℕ, ◌^◌, ◌<◌, ◌≡◌, refl, sym, ap, ◌∙◌, inl, inr, Bool-cases, [], ◌∷◌, ◌++◌, arith, Option, none,
  some, not, ltb, append_assoc, append-nil,
}
use cmsis_rtos.Tree.{Tree, leaf, node, Entry, tree_foreach}
use cmsis_rtos.Tree.Dictionary.{find, erase, erase_before, erase_behind, erase_step, erase_here}
use cmsis_rtos.Tree.Lookup.{
  IsSearchTree, sign_cases, below_node, above_node, node_parts, node-find_left, node-find_right,
  node-find_here,
}
use cmsis_rtos.Tree.Rotation.{
  is_negative, entry_balance, lowered_left, raised_left, lowered_right, raised_right,
}
use cmsis_rtos.Tree.Remove.{
  raise_last, raise_first, tree_merge, sink, Removal, remove_below, tree_remove, with_prev,
  with_next,
}

ruleset list_laws = (append_assoc, append-nil)

-- The key and the value of a node.
abbrev pair : Entry → ℕ × ℕ
pair e = (e.key, e.value)

raise_last-foreach :
    (l : Tree) (n : Entry) (r : Tree)
    → let (a, top) = raise_last l n r in
      tree_foreach a ++ (pair top ∷ []) ≡ tree_foreach l ++ (pair n ∷ tree_foreach r)
unfolding raise_last tree_foreach
raise_last-foreach l n leaf = refl
raise_last-foreach l n (node b p c) =
    raise_last-foreach (node l (lowered_left n p) b) (raised_left n p) c
    ∙ append_assoc (tree_foreach l) (pair n ∷ tree_foreach b) (pair p ∷ tree_foreach c)

raise_first-foreach :
    (l : Tree) (n : Entry) (r : Tree)
    → let (top, c) = raise_first l n r in
      pair top ∷ tree_foreach c ≡ tree_foreach l ++ (pair n ∷ tree_foreach r)
unfolding raise_first tree_foreach
raise_first-foreach leaf n r = refl
raise_first-foreach (node a p b) n r =
    raise_first-foreach a (raised_right n p) (node b (lowered_right n p) r)
    ∙ sym (append_assoc (tree_foreach a) (pair p ∷ tree_foreach b) (pair n ∷ tree_foreach r))

-- The calls of `tree_foreach` on two merged trees are those on the first one, then those on the
-- second one.
pub tree_merge-append :
    (l r : Tree) → tree_foreach (tree_merge l r) ≡ tree_foreach l ++ tree_foreach r
unfolding tree_merge tree_foreach
tree_merge-append leaf r = refl
tree_merge-append (node a n b) leaf = sym (append-nil _)
tree_merge-append (node a n b) (node c m d) = elim (Bool-cases (ltb n.next_depth m.prev_depth)) [
  | inl fewer ↦ rw fewer (
      sym (
        append_assoc (tree_foreach (raise_last a n b).0) (pair (raise_last a n b).1 ∷ [])
          (tree_foreach (node c m d)))
      ∙ ap (λ xs. xs ++ tree_foreach (node c m d)) (raise_last-foreach a n b))
  | inr more ↦ rw more (ap (λ xs. tree_foreach (node a n b) ++ xs) (raise_first-foreach c m d))
]

sink-append :
    (l : Tree) (n : Entry) (r : Tree)
    → tree_foreach (sink l n r).0 ≡ tree_foreach l ++ tree_foreach r
unfolding sink tree_foreach
sink-append l n leaf = sym (append-nil _)
sink-append leaf n (node c p d) = refl
sink-append (node a q b) n (node c p d) = elim (Bool-cases (not (is_negative (entry_balance n)))) [
  | inl right ↦
      rw (right, sink)
        (ap (λ xs. xs ++ (pair p ∷ tree_foreach d)) (sink-append (node a q b) (lowered_left n p) c)
          ∙ append_assoc (tree_foreach (node a q b)) (tree_foreach c) (pair p ∷ tree_foreach d))
  | inr left ↦
      rw (left, sink)
        (ap (λ xs. tree_foreach a ++ (pair q ∷ xs)) (sink-append b (lowered_right n q) (node c p d))
          ∙ sym
              (append_assoc (tree_foreach a) (pair q ∷ tree_foreach b) (tree_foreach (node c p d))))
]

-- Without the node itself its tree has the entries of both children.
node-erase_here :
    (k : ℕ) (l : Tree) (n : Entry) (r : Tree)
    → IsSearchTree (node l n r)
    → k ≡ n.key
    → tree_foreach l ++ tree_foreach r ≡ erase k (tree_foreach (node l n r))
unfolding tree_foreach
node-erase_here k l n r d same = rw same (
    sym (
      erase_behind n.key (tree_foreach l) (pair n ∷ tree_foreach r)
        (above_node n.key l n r d (omega arith))
      ∙ ap (λ m. tree_foreach l ++ m) (erase_here n.key n.value (tree_foreach r))))

-- The calls on a tree and the value that was removed are those that the list has.
abbrev pub value_of : Option Entry → Option ℕ
value_of none = none
value_of (some e) = some e.value

abbrev Erases : ℕ → Tree → Tree → Option Entry → Type 0
Erases k t t' removed =
    (tree_foreach t' ≡ erase k (tree_foreach t)) × (value_of removed ≡ find k (tree_foreach t))

Erases-prev :
    (k : ℕ) (l : Tree) (n : Entry) (r : Tree) (x : Removal)
    → IsSearchTree (node l n r)
    → k < n.key
    → Erases k l x.tree x.removed
    → Erases k (node l n r) (with_prev x n r) x.removed
Erases-prev k l n r x d less e = (
  unfold tree_foreach in
      (rw (e.0) (
        sym (
          erase_before k (tree_foreach l) n.key n.value (tree_foreach r)
            (below_node k l n r d less)))),
  e.1 ∙ sym (node-find_left k l n r d less),
)

Erases-next :
    (k : ℕ) (l : Tree) (n : Entry) (r : Tree) (x : Removal)
    → IsSearchTree (node l n r)
    → n.key < k
    → Erases k r x.tree x.removed
    → Erases k (node l n r) (with_next l n x) x.removed
Erases-next k l n r x d more e = (
  unfold tree_foreach in
      (rw (e.0) (
        sym (
          erase_behind k (tree_foreach l) (pair n ∷ tree_foreach r)
            (above_node k l n r d (omega arith))
          ∙ ap (λ m. tree_foreach l ++ m) (erase_step k n.key n.value (tree_foreach r) more)))),
  e.1 ∙ sym (node-find_right k l n r d more),
)

remove_below-Erases :
    (t : Tree) (k : ℕ)
    → IsSearchTree t
    → k < 2 ^ 31
    → Erases k t (remove_below t k).tree (remove_below t k).removed
unfolding remove_below
remove_below-Erases leaf k d h = unfold erase find tree_foreach in (refl, refl)
remove_below-Erases (node l n r) k d h =
    let p = node_parts l n r d in
    elim (sign_cases k n.key h p.2) [
      | inl (same, s) ↦
          rw (s, remove_below)
            (
              sink-append l n r ∙ node-erase_here k l n r d same,
              sym (node-find_here k l n r d same),
            )
      | inr (inl (less, s)) ↦
          rw (s, remove_below)
            (Erases-prev k l n r (remove_below l k) d less (remove_below-Erases l k p.0 h))
      | inr (inr (more, s)) ↦
          rw (s, remove_below)
            (Erases-next k l n r (remove_below r k) d more (remove_below-Erases r k p.1 h))
    ]

-- In a tree with keys in order and below 2 ^ 31, `tree_remove` of such a key erases it: the list of the
-- keys with their values becomes the one without that key, and the node that is returned has the
-- value that stood there, or it is NULL when there was none.
pub tree_remove-erase :
    (t : Tree) (k : ℕ)
    → IsSearchTree t
    → k < 2 ^ 31
    → (tree_foreach (tree_remove t k).0 ≡ erase k (tree_foreach t))
      × (value_of (tree_remove t k).1 ≡ find k (tree_foreach t))
unfolding tree_remove
tree_remove-erase leaf k d h = unfold erase find tree_foreach in (refl, refl)
tree_remove-erase (node l n r) k d h =
    let p = node_parts l n r d in
    elim (sign_cases k n.key h p.2) [
      | inl (same, s) ↦
          rw (s, tree_remove)
            (
              tree_merge-append l r ∙ node-erase_here k l n r d same,
              sym (node-find_here k l n r d same),
            )
      | inr (inl (less, s)) ↦
          rw (s, tree_remove)
            (Erases-prev k l n r (remove_below l k) d less (remove_below-Erases l k p.0 h))
      | inr (inr (more, s)) ↦
          rw (s, tree_remove)
            (Erases-next k l n r (remove_below r k) d more (remove_below-Erases r k p.1 h))
    ]

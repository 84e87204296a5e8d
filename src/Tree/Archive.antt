-- ===== src/Tree/Archive.antt =====
-- A tree written by `tree_notify` and read back by `tree_insert_tree`.
use cmsis_rtos.Base.{ℕ, ◌^◌, ◌<◌, ◌≡◌, refl, ap, ap₂, ◌∙◌, inl, inr, List, [], ◌∷◌, ◌++◌, arith}
use cmsis_rtos.Tree.{Tree, leaf, node, Entry, tree_foreach, tree_notify, alone}
use cmsis_rtos.Tree.Dictionary.{AllBelow, AllAbove, AllBelow-split, AllAbove-split, parts}
use cmsis_rtos.Tree.Lookup.{IsSearchTree, sign_cases}
use cmsis_rtos.Tree.Insert.{tree_insert_tree, restore}

-- Every entry has a key below `k`, and a key above `k` and below 2 ^ 31.
abbrev KeysBelow : ℕ → List Entry → Type 0
KeysBelow k [] = Unit
KeysBelow k (e ∷ es) = (e.key < k) × KeysBelow k es

abbrev KeysAbove : ℕ → List Entry → Type 0
KeysAbove k [] = Unit
KeysAbove k (e ∷ es) = (k < e.key) × (e.key < 2 ^ 31) × KeysAbove k es

KeysBelow-append :
    (k : ℕ) (xs ys : List Entry) → KeysBelow k xs → KeysBelow k ys → KeysBelow k (xs ++ ys)
KeysBelow-append k [] ys b c = c
KeysBelow-append k (e ∷ xs) ys b c = (b.0, KeysBelow-append k xs ys b.1 c)

KeysAbove-append :
    (k : ℕ) (xs ys : List Entry) → KeysAbove k xs → KeysAbove k ys → KeysAbove k (xs ++ ys)
KeysAbove-append k [] ys b c = c
KeysAbove-append k (e ∷ xs) ys b c = (b.0, b.1, KeysAbove-append k xs ys b.2 c)

notify-KeysBelow : (k : ℕ) (t : Tree) → AllBelow k (tree_foreach t) → KeysBelow k (tree_notify t)
unfolding tree_foreach tree_notify
notify-KeysBelow k leaf b = tt
notify-KeysBelow k (node l e r) b =
    let (front, here, back) = AllBelow-split k (tree_foreach l) e.key e.value (tree_foreach r) b in
    (
      here,
      KeysBelow-append k (tree_notify l) (tree_notify r) (notify-KeysBelow k l front)
          (notify-KeysBelow k r back),
    )

notify-KeysAbove :
    (k : ℕ) (t : Tree)
    → AllAbove k (tree_foreach t)
    → AllBelow (2 ^ 31) (tree_foreach t)
    → KeysAbove k (tree_notify t)
unfolding tree_foreach tree_notify
notify-KeysAbove k leaf a b = tt
notify-KeysAbove k (node l e r) a b =
    let (a1, a2, a3) = AllAbove-split k (tree_foreach l) e.key e.value (tree_foreach r) a in
    let (b1, b2, b3) = AllBelow-split (2 ^ 31) (tree_foreach l) e.key e.value (tree_foreach r) b in
    (
      a2,
      b2,
      KeysAbove-append k (tree_notify l) (tree_notify r) (notify-KeysAbove k l a1 b1)
          (notify-KeysAbove k r a3 b3),
    )

restore-append : (t : Tree) (xs ys : List Entry) → restore t (xs ++ ys) ≡ restore (restore t xs) ys
unfolding restore
restore-append t [] ys = refl
restore-append t (e ∷ xs) ys = restore-append (tree_insert_tree t e).0 xs ys

-- Elements below the root go to the left, those above it to the right.
restore_left :
    (l : Tree) (n : Entry) (r : Tree) (es : List Entry)
    → n.key < 2 ^ 31
    → KeysBelow n.key es
    → restore (node l n r) es ≡ node (restore l es) n r
unfolding restore tree_insert_tree
restore_left l n r [] h b = refl
restore_left l n r (e ∷ es) h b = elim (sign_cases e.key n.key (omega (arith, b.0)) h) [
  | inl (same, s) ↦ absurd (omega (arith, b.0))
  | inr (inl (less, s)) ↦
      rw (s, tree_insert_tree) (restore_left (tree_insert_tree l e).0 n r es h b.1)
  | inr (inr (more, s)) ↦ absurd (omega (arith, b.0))
]

restore_right :
    (l : Tree) (n : Entry) (r : Tree) (es : List Entry)
    → n.key < 2 ^ 31
    → KeysAbove n.key es
    → restore (node l n r) es ≡ node l n (restore r es)
unfolding restore tree_insert_tree
restore_right l n r [] h b = refl
restore_right l n r (e ∷ es) h b = elim (sign_cases e.key n.key b.1 h) [
  | inl (same, s) ↦ absurd (omega (arith, b.0))
  | inr (inl (less, s)) ↦ absurd (omega (arith, b.0))
  | inr (inr (more, s)) ↦
      rw (s, tree_insert_tree) (restore_right l n (tree_insert_tree r e).0 es h b.2)
]

-- A tree with keys in order and below 2 ^ 31 is restored, with the same shape and the same entries,
-- when the elements that `tree_notify` handed over are inserted in that order into an empty tree.
pub restore-tree_notify : (t : Tree) → IsSearchTree t → restore leaf (tree_notify t) ≡ t
unfolding tree_notify tree_foreach
restore-tree_notify leaf d = unfold restore in refl
restore-tree_notify (node l n r) d =
    let p = parts (tree_foreach l) n.key n.value (tree_foreach r) d in
    let root : restore leaf (n ∷ (tree_notify l ++ tree_notify r))
        ≡ restore (alone n) (tree_notify l ++ tree_notify r) =
      unfold restore tree_insert_tree in refl in
    root
    ∙ restore-append (alone n) (tree_notify l) (tree_notify r)
    ∙ ap (λ t. restore t (tree_notify r))
        (restore_left leaf n leaf (tree_notify l) p.bound (notify-KeysBelow n.key l p.order.below))
    ∙ restore_right (restore leaf (tree_notify l)) n leaf (tree_notify r) p.bound
        (notify-KeysAbove n.key r p.order.above p.next.1)
    ∙ ap₂ (λ a b. node a n b) (restore-tree_notify l p.prev) (restore-tree_notify r p.next)

-- ===== src/Tree/Found.antt =====
-- What `tree_find` keeps, and where it goes wrong.
use cmsis_rtos.Base.{
  ℕ, ◌<◌, ◌≡◌, ◌≢◌, refl, ap, ◌∙◌, inl, inr, ◌⊎◌, ◌∷◌, ◌++◌, arith, Option, none, some,
  append_assoc,
}
use cmsis_rtos.Search.{Sign}
use cmsis_rtos.Tree.{Tree, leaf, node, Entry, key_sign, tree_foreach}
use cmsis_rtos.Tree.Rotation.{◌>>=◌, tree_rotate_left, lowered_left, raised_left}
use cmsis_rtos.Tree.Lookup.{IsSearchTree, sign_cases, node_parts}
use cmsis_rtos.Tree.Dictionary.{parts, AllBelow-split, AllAbove-split}
use cmsis_rtos.Tree.Find.{
  Search, missing, at_child, rotate_parent, put_prev, put_next, find_below, report, tree_find,
}
use Sign.{negative, nothing, positive}

-- A search that returns has kept the entries.
abbrev Keeps : Tree → Option Search → Type 0
Keeps t none = Unit
Keeps t (some s) = tree_foreach s.tree ≡ tree_foreach t

rotate_parent-Keeps : (t : Tree) → Keeps t (rotate_parent t)
unfolding rotate_parent tree_rotate_left tree_foreach
rotate_parent-Keeps leaf = tt
rotate_parent-Keeps (node a n leaf) = tt
rotate_parent-Keeps (node a n (node b p c)) = append_assoc (tree_foreach a) _ _

Keeps-prev :
    (l : Tree) (p : Entry) (r : Tree) (result : Option Search)
    → Keeps l result
    → Keeps (node l p r) (result >>= λ s. some (put_prev p r s))
unfolding tree_foreach
Keeps-prev l p r none h = tt
Keeps-prev l p r (some s) h = ap (λ xs. xs ++ ((p.key, p.value) ∷ tree_foreach r)) h

Keeps-next :
    (l : Tree) (p : Entry) (r : Tree) (result : Option Search)
    → Keeps r result
    → Keeps (node l p r) (result >>= λ s. some (put_next l p s))
unfolding tree_foreach
Keeps-next l p r none h = tt
Keeps-next l p r (some s) h = ap (λ xs. tree_foreach l ++ ((p.key, p.value) ∷ xs)) h

at_child-Keeps :
    (t child : Tree) (key : ℕ) (absent rotated deeper : Option Search)
    → Keeps t absent
    → Keeps t rotated
    → Keeps t deeper
    → Keeps t (at_child child key absent rotated deeper)
unfolding at_child
at_child-Keeps t leaf key absent rotated deeper x y z = x
at_child-Keeps t (node a n b) key absent rotated deeper x y z =
    elim (key_sign key n.key)
      as (λ sign.
        Keeps t (elim sign [ nothing ↦ rotated | negative ↦ deeper | positive ↦ deeper ])) [
          | nothing ↦ y
          | negative ↦ z
          | positive ↦ z
        ]

find_below-Keeps : (t : Tree) (key : ℕ) → Keeps t (find_below t key)
unfolding find_below
find_below-Keeps leaf key = refl
find_below-Keeps (node l p r) key =
    let t = node l p r in
    let absent = some (missing t) in
    let below = find_below l key >>= λ s. some (put_prev p r s) in
    let above = find_below r key >>= λ s. some (put_next l p s) in
    let kept_below = Keeps-prev l p r (find_below l key) (find_below-Keeps l key) in
    let kept_above = Keeps-next l p r (find_below r key) (find_below-Keeps r key) in
    elim (key_sign key p.key)
      as (λ sign. Keeps t (elim sign [
        | nothing ↦ absent
        | negative ↦ at_child l key absent (rotate_parent t) below
        | positive ↦ at_child r key absent (rotate_parent t) above
      ])) [
        | nothing ↦ refl
        | negative ↦
            at_child-Keeps t l key absent (rotate_parent t) below refl (rotate_parent-Keeps t)
              kept_below
        | positive ↦
            at_child-Keeps t r key absent (rotate_parent t) above refl (rotate_parent-Keeps t)
              kept_above
      ]

Sign-cases : (s : Sign) → (s ≡ negative) ⊎ (s ≡ nothing) ⊎ (s ≡ positive)
Sign-cases negative = inl refl
Sign-cases nothing = inr (inl refl)
Sign-cases positive = inr (inr refl)

pass :
    (t : Tree) (result : Option Search) (t' : Tree) (n : Option Entry)
    → Keeps t result
    → (result >>= report) ≡ some (t', n)
    → tree_foreach t' ≡ tree_foreach t
pass t none t' n kept h = cc h
pass t (some s) t' n kept h = let same : s.tree ≡ t' = cc h in rw same at kept

child_less :
    (a : Tree) (n : Entry) (b : Tree) (p : Entry) (r : Tree)
    → IsSearchTree (node (node a n b) p r)
    → n.key < p.key
unfolding tree_foreach
child_less a n b p r d =
    let outer = parts (tree_foreach (node a n b)) p.key p.value (tree_foreach r) d in
    (AllBelow-split p.key (tree_foreach a) n.key n.value (tree_foreach b) outer.order.below).1

child_more :
    (l : Tree) (p : Entry) (c : Tree) (q : Entry) (e : Tree)
    → IsSearchTree (node l p (node c q e))
    → p.key < q.key
unfolding tree_foreach
child_more l p c q e d =
    let outer = parts (tree_foreach l) p.key p.value (tree_foreach (node c q e)) d in
    (AllAbove-split p.key (tree_foreach c) q.key q.value (tree_foreach e) outer.order.above).1

-- When `tree_find` returns, the calls of `tree_foreach` are the same as before, whatever the tree and
-- the key.
pub tree_find-foreach :
    (t : Tree) (key : ℕ) (t' : Tree) (n : Option Entry)
    → tree_find t key ≡ some (t', n)
    → tree_foreach t' ≡ tree_foreach t
unfolding tree_find
tree_find-foreach leaf key t' n h = cc h
tree_find-foreach (node l m r) key t' n h =
    let t = node l m r in
    let kept = find_below-Keeps t key in
    elim (Sign-cases (key_sign key m.key)) [
      | inl left ↦ pass t (find_below t key) t' n kept (rw (left, tree_find) at h)
      | inr (inl here) ↦ cc (rw (here, tree_find) at h)
      | inr (inr right) ↦ pass t (find_below t key) t' n kept (rw (right, tree_find) at h)
    ]

-- The node is the left child of the root, so that its key is the lesser one.
found_left :
    (a : Tree) (n : Entry) (b : Tree) (p : Entry) (r : Tree)
    → IsSearchTree (node (node a n b) p r)
    → tree_find (node (node a n b) p r) n.key ≡ (rotate_parent (node (node a n b) p r) >>= report)
unfolding tree_find find_below at_child
found_left a n b p r d =
    let inner = node_parts (node a n b) p r d in
    let bound = (node_parts a n b inner.0).2 in
    let less = child_less a n b p r d in
    elim (sign_cases n.key p.key bound inner.2) [
      | inl (same, s) ↦ absurd (omega (arith, less))
      | inr (inr (more, s)) ↦ absurd (omega (arith, less))
      | inr (inl (_, s)) ↦ elim (sign_cases n.key n.key bound bound) [
        | inl (_, own) ↦ rw (s, tree_find) (rw (s, find_below) (rw (own, at_child) refl))
        | inr (inl (wrong, _)) ↦ absurd (omega arith)
        | inr (inr (wrong, _)) ↦ absurd (omega arith)
      ]
    ]

-- A search whose key the left child of the root has, in a tree with keys in order and below 2 ^ 31,
-- reads through NULL when the root has no right child, and returns the right child, a node with
-- another key, when it has one.
pub tree_find_left :
    (a : Tree) (n : Entry) (b : Tree) (p : Entry) (r : Tree)
    → IsSearchTree (node (node a n b) p r)
    → ((r ≡ leaf) × (tree_find (node (node a n b) p r) n.key ≡ none))
      ⊎ ((t : Tree) × (q : Entry) × (tree_find (node (node a n b) p r) n.key ≡ some (t, some q))
          × (q.key ≢ n.key))
tree_find_left a n b p leaf d =
    inl (refl, found_left a n b p leaf d ∙ unfold rotate_parent tree_rotate_left in refl)
tree_find_left a n b p (node c q e) d =
    let less = child_less a n b p (node c q e) d in
    let more = child_more (node a n b) p c q e d in
    inr (
      node (node (node a n b) (lowered_left p q) c) (raised_left p q) e,
      raised_left p q,
      found_left a n b p (node c q e) d ∙ unfold rotate_parent tree_rotate_left in refl,
      λ same. absurd (omega (arith, less, more, same)),
    )

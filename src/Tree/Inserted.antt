-- ===== src/Tree/Inserted.antt =====
-- Insertion against the list of the keys.
use cmsis_rtos.Base.{
  ◌^◌, ◌<◌, ◌≡◌, ◌≢◌, refl, sym, ap, ◌∙◌, inl, inr, ◌∷◌, ◌++◌, arith, Option, none, if◌then◌else◌,
}
use cmsis_rtos.Tree.{Tree, leaf, node, Entry, is_leaf, tree_foreach, alone}
use cmsis_rtos.Tree.Dictionary.{parts, put, put_before, put_behind, put_step, put_here}
use cmsis_rtos.Tree.Lookup.{IsSearchTree, sign_cases, above_node, node_parts}
use cmsis_rtos.Tree.Insert.{
  Side, left, right, hang, attach_left, attach_right, insert_below, tree_insert, tree_insert_tree,
}

-- `t'` holds what `t` holds with the element put in.
abbrev pub Puts : Entry → Tree → Tree → Type 0
Puts e t t' = tree_foreach t' ≡ put e.key e.value (tree_foreach t)

abbrev ResultPuts : Entry → Tree → Tree × Option Entry → Type 0
ResultPuts e t result = Puts e t result.0

pub alone-Puts : (e : Entry) → Puts e leaf (alone e)
unfolding tree_foreach put
alone-Puts e = refl

-- An element that belongs below a node is put into the child there.
pub Puts-prev :
    (e : Entry) (l l' : Tree) (n : Entry) (r : Tree)
    → e.key < n.key
    → Puts e l l'
    → Puts e (node l n r) (node l' n r)
unfolding tree_foreach
Puts-prev e l l' n r less q =
    rw q (sym (put_before e.key e.value (tree_foreach l) n.key n.value (tree_foreach r) less))

pub Puts-next :
    (e : Entry) (l : Tree) (n : Entry) (r r' : Tree)
    → IsSearchTree (node l n r)
    → n.key < e.key
    → Puts e r r'
    → Puts e (node l n r) (node l n r')
unfolding tree_foreach
Puts-next e l n r r' d more q = rw q (
    sym (
      put_behind e.key e.value (tree_foreach l) ((n.key, n.value) ∷ tree_foreach r)
        (above_node e.key l n r d (omega arith))
      ∙ ap (λ m. tree_foreach l ++ m) (put_step e.key e.value n.key n.value (tree_foreach r) more)))

-- An element with the key of a node gives it its value.
pub Puts-here :
    (e : Entry) (l : Tree) (n : Entry) (r : Tree)
    → IsSearchTree (node l n r)
    → e.key ≡ n.key
    → Puts e (node l n r) (node l (record n { value = e.value }) r)
unfolding tree_foreach
Puts-here e l n r d same = sym (
    rw same (
      put_behind n.key e.value (tree_foreach l) ((n.key, n.value) ∷ tree_foreach r)
        (above_node n.key l n r d (omega arith))
      ∙ ap (λ m. tree_foreach l ++ m) (put_here n.key e.value n.value (tree_foreach r))))

-- The side of the parent on which the element belongs.
abbrev OnSide : Side → Entry → Entry → Type 0
OnSide left e p = e.key < p.key
OnSide right e p = p.key < e.key

Puts-hang :
    (side : Side) (e p : Entry) (sibling t t' : Tree)
    → IsSearchTree (hang side p sibling t)
    → OnSide side e p
    → Puts e t t'
    → Puts e (hang side p sibling t) (hang side p sibling t')
Puts-hang left e p sibling t t' d on q = Puts-prev e t t' p sibling on q
Puts-hang right e p sibling t t' d on q = Puts-next e sibling p t t' d on q

attach_left-foreach :
    (side : Side) (p : Entry) (sibling : Tree) (n : Entry) (r : Tree) (e : Entry)
    → tree_foreach (attach_left side p sibling n r e)
      ≡ tree_foreach (hang side p sibling (node (alone e) n r))
unfolding attach_left tree_foreach
attach_left-foreach side p (node a q b) n r e = refl
attach_left-foreach left p leaf n (node a q b) e = refl
attach_left-foreach right p leaf n (node a q b) e = refl
attach_left-foreach right p leaf n leaf e = refl
attach_left-foreach left p leaf n leaf e = refl

attach_right-foreach :
    (side : Side) (p : Entry) (sibling l : Tree) (n e : Entry)
    → tree_foreach (attach_right side p sibling l n e)
      ≡ tree_foreach (hang side p sibling (node l n (alone e)))
unfolding attach_right tree_foreach
attach_right-foreach side p (node a q b) l n e = refl
attach_right-foreach left p leaf (node a q b) n e = refl
attach_right-foreach right p leaf (node a q b) n e = refl
attach_right-foreach right p leaf leaf n e = refl
attach_right-foreach left p leaf leaf n e = refl

hang-inner :
    (side : Side) (p : Entry) (sibling t : Tree)
    → IsSearchTree (hang side p sibling t)
    → IsSearchTree t
unfolding tree_foreach
hang-inner left p sibling t d = (parts (tree_foreach t) p.key p.value (tree_foreach sibling) d).prev
hang-inner right p sibling t d =
    (parts (tree_foreach sibling) p.key p.value (tree_foreach t) d).next

-- The two branches at a node, by whether it has a child on the side of the element; `below` is the
-- result of the loop at that child.
left_branch :
    (side : Side) (p : Entry) (sibling l : Tree) (n : Entry) (r : Tree) (e : Entry)
    (below : Tree × Option Entry)
    → IsSearchTree (hang side p sibling (node l n r))
    → OnSide side e p
    → e.key < n.key
    → (l ≢ leaf → Puts e (node l n r) below.0)
    → ResultPuts e (hang side p sibling (node l n r)) (
        if is_leaf l
        then (attach_left side p sibling n r e, none)
        else (hang side p sibling below.0, below.1))
left_branch side p sibling leaf n r e below d on less ih =
    attach_left-foreach side p sibling n r e
    ∙ Puts-hang side e p sibling (node leaf n r) (node (alone e) n r) d on
        (Puts-prev e leaf (alone e) n r less (alone-Puts e))
left_branch side p sibling (node a m b) n r e below d on less ih =
    Puts-hang side e p sibling (node (node a m b) n r) below.0 d on (ih (λ q. cc q))

right_branch :
    (side : Side) (p : Entry) (sibling l : Tree) (n : Entry) (r : Tree) (e : Entry)
    (above : Tree × Option Entry)
    → IsSearchTree (hang side p sibling (node l n r))
    → OnSide side e p
    → n.key < e.key
    → (r ≢ leaf → Puts e (node l n r) above.0)
    → ResultPuts e (hang side p sibling (node l n r)) (
        if is_leaf r
        then (attach_right side p sibling l n e, none)
        else (hang side p sibling above.0, above.1))
right_branch side p sibling l n leaf e above d on more ih =
    attach_right-foreach side p sibling l n e
    ∙ Puts-hang side e p sibling (node l n leaf) (node l n (alone e)) d on (
        Puts-next e l n leaf (alone e) (hang-inner side p sibling (node l n leaf) d) more
          (alone-Puts e))
right_branch side p sibling l n (node a m b) e above d on more ih =
    Puts-hang side e p sibling (node l n (node a m b)) above.0 d on (ih (λ q. cc q))

insert_below-Puts :
    (side : Side) (p : Entry) (sibling t : Tree) (e : Entry)
    → t ≢ leaf
    → IsSearchTree (hang side p sibling t)
    → OnSide side e p
    → e.key < 2 ^ 31
    → Puts e (hang side p sibling t) (insert_below side p sibling t e).0
unfolding insert_below
insert_below-Puts side p sibling leaf e ne d on h = absurd (ne refl)
insert_below-Puts side p sibling (node l n r) e ne d on h =
    let inner = hang-inner side p sibling (node l n r) d in
    elim (sign_cases e.key n.key h (node_parts l n r inner).2) [
      | inl (same, s) ↦
          rw (s, insert_below)
            (Puts-hang side e p sibling (node l n r) (node l (record n { value = e.value }) r) d on
              (Puts-here e l n r inner same))
      | inr (inl (less, s)) ↦
          rw (s, insert_below)
            (left_branch side p sibling l n r e (insert_below left n r l e) d on less
              (λ more. insert_below-Puts left n r l e more inner less h))
      | inr (inr (greater, s)) ↦
          rw (s, insert_below)
            (right_branch side p sibling l n r e (insert_below right n l r e) d on greater
              (λ more. insert_below-Puts right n l r e more inner greater h))
    ]

root_left :
    (l : Tree) (n : Entry) (r : Tree) (e : Entry)
    → IsSearchTree (node l n r)
    → e.key < 2 ^ 31
    → e.key < n.key
    → ResultPuts e
        (node l n r)
        (if is_leaf l then (node (alone e) n r, none) else insert_below left n r l e)
root_left leaf n r e d h less = Puts-prev e leaf (alone e) n r less (alone-Puts e)
root_left (node a m b) n r e d h less =
    insert_below-Puts left n r (node a m b) e (λ q. cc q) d less h

root_right :
    (l : Tree) (n : Entry) (r : Tree) (e : Entry)
    → IsSearchTree (node l n r)
    → e.key < 2 ^ 31
    → n.key < e.key
    → ResultPuts e
        (node l n r)
        (if is_leaf r then (node l n (alone e), none) else insert_below right n l r e)
root_right l n leaf e d h more = Puts-next e l n leaf (alone e) d more (alone-Puts e)
root_right l n (node a m b) e d h more =
    insert_below-Puts right n l (node a m b) e (λ q. cc q) d more h

-- In a tree that is not empty, with keys in order and below 2 ^ 31, `tree_insert` puts an element with
-- such a key where it belongs: the list of the keys with their values becomes the one with the
-- element put in at its place, or with its value in place of the old one under the same key.
pub tree_insert-put :
    (t : Tree) (e : Entry)
    → t ≢ leaf
    → IsSearchTree t
    → e.key < 2 ^ 31
    → tree_foreach (tree_insert t e).0 ≡ put e.key e.value (tree_foreach t)
unfolding tree_insert
tree_insert-put leaf e ne d h = absurd (ne refl)
tree_insert-put (node l n r) e ne d h = elim (sign_cases e.key n.key h (node_parts l n r d).2) [
  | inl (same, s) ↦ rw (s, tree_insert) (Puts-here e l n r d same)
  | inr (inl (less, s)) ↦ rw (s, tree_insert) (root_left l n r e d h less)
  | inr (inr (greater, s)) ↦ rw (s, tree_insert) (root_right l n r e d h greater)
]

-- In a tree with keys in order and below 2 ^ 31, also in an empty one, `tree_insert_tree` puts an
-- element with such a key where it belongs.
pub tree_insert_tree-put :
    (t : Tree) (e : Entry)
    → IsSearchTree t
    → e.key < 2 ^ 31
    → tree_foreach (tree_insert_tree t e).0 ≡ put e.key e.value (tree_foreach t)
unfolding tree_insert_tree
tree_insert_tree-put leaf e d h = alone-Puts e
tree_insert_tree-put (node l n r) e d h =
    let prev = (node_parts l n r d).0 in
    let next = (node_parts l n r d).1 in
    elim (sign_cases e.key n.key h (node_parts l n r d).2) [
      | inl (same, s) ↦ rw (s, tree_insert_tree) (Puts-here e l n r d same)
      | inr (inl (less, s)) ↦
          rw (s, tree_insert_tree)
            (Puts-prev e l (tree_insert_tree l e).0 n r less (tree_insert_tree-put l e prev h))
      | inr (inr (greater, s)) ↦
          rw (s, tree_insert_tree)
            (Puts-next e l n r (tree_insert_tree r e).0 d greater (tree_insert_tree-put r e next h))
    ]

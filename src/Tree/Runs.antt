-- ===== src/Tree/Runs.antt =====
-- Any sequence of insertions, removals and look-ups against a dictionary.
use cmsis_rtos.Base.{
  ℕ, ◌^◌, ◌<◌, ◌≡◌, refl, sym, ap, ap₂, subst, ◌∙◌, ◌++◌, List, [], ◌∷◌, arith, Option, some,
}
use cmsis_rtos.Tree.{Tree, leaf, node, tree_foreach, tree_lookup, tree_init}
use cmsis_rtos.Tree.Dictionary.{
  IsDictionary, AllBelow, AllAbove, Ascending, AllAbove-trans, find, put, erase, or_null,
}
use cmsis_rtos.Tree.Lookup.{IsSearchTree, tree_lookup-find}
use cmsis_rtos.Tree.Insert.{tree_insert, tree_insert_tree}
use cmsis_rtos.Tree.Remove.{tree_remove}
use cmsis_rtos.Tree.Inserted.{tree_insert-put, tree_insert_tree-put}
use cmsis_rtos.Tree.Removed.{tree_remove-erase, value_of}
use cmsis_rtos.Tree.Returned.{tree_insert-find, tree_insert_tree-find}

put-AllBelow : (b k v : ℕ) (m : List (ℕ × ℕ)) → k < b → AllBelow b m → AllBelow b (put k v m)
unfolding put
put-AllBelow b k v [] h a = (h, tt)
put-AllBelow b k v ((j, w) ∷ m) h a = ground (arith, put-AllBelow b k v m h a.1)

put-AllAbove : (b k v : ℕ) (m : List (ℕ × ℕ)) → b < k → AllAbove b m → AllAbove b (put k v m)
unfolding put
put-AllAbove b k v [] h a = (h, tt)
put-AllAbove b k v ((j, w) ∷ m) h a = ground (arith, put-AllAbove b k v m h a.1)

put-Ascending : (k v : ℕ) (m : List (ℕ × ℕ)) → Ascending m → Ascending (put k v m)
unfolding put
put-Ascending k v [] a = (tt, tt)
put-Ascending k v ((j, w) ∷ m) a =
    ground (arith, put-Ascending k v m a.1, put-AllAbove j k v m, AllAbove-trans k j m)

pub put-IsDictionary :
    (k v : ℕ) (m : List (ℕ × ℕ)) → k < 2 ^ 31 → IsDictionary m → IsDictionary (put k v m)
put-IsDictionary k v m h d = (put-Ascending k v m d.0, put-AllBelow (2 ^ 31) k v m h d.1)

erase-AllBelow : (b k : ℕ) (m : List (ℕ × ℕ)) → AllBelow b m → AllBelow b (erase k m)
unfolding erase
erase-AllBelow b k [] a = tt
erase-AllBelow b k ((j, w) ∷ m) a = ground (arith, erase-AllBelow b k m a.1)

erase-AllAbove : (b k : ℕ) (m : List (ℕ × ℕ)) → AllAbove b m → AllAbove b (erase k m)
unfolding erase
erase-AllAbove b k [] a = tt
erase-AllAbove b k ((j, w) ∷ m) a = ground (arith, erase-AllAbove b k m a.1)

erase-Ascending : (k : ℕ) (m : List (ℕ × ℕ)) → Ascending m → Ascending (erase k m)
unfolding erase
erase-Ascending k [] a = tt
erase-Ascending k ((j, w) ∷ m) a = ground (arith, erase-Ascending k m a.1, erase-AllAbove j k m a.0)

pub erase-IsDictionary : (k : ℕ) (m : List (ℕ × ℕ)) → IsDictionary m → IsDictionary (erase k m)
erase-IsDictionary k m d = (erase-Ascending k m d.0, erase-AllBelow (2 ^ 31) k m d.1)

-- The calls of a user; each gives a value, or NULL.
pub data Call : Type 0 where
  insert insert_tree : ℕ → ℕ → Call
  remove lookup : ℕ → Call

abbrev pub key_of : Call → ℕ
key_of (insert k v) = k
key_of (insert_tree k v) = k
key_of (remove k) = k
key_of (lookup k) = k

abbrev pub InRange : List Call → Type 0
InRange [] = Unit
InRange (c ∷ cs) = (key_of c < 2 ^ 31) × InRange cs

-- One call on a tree, and the same call on a list; `tree_insert` into an empty one does nothing.
abbrev pub call : Call → Tree → Tree × Option ℕ
call (insert k v) t =
    ((tree_insert t (tree_init k v)).0, value_of (tree_insert t (tree_init k v)).1)
call (insert_tree k v) t =
    ((tree_insert_tree t (tree_init k v)).0, value_of (tree_insert_tree t (tree_init k v)).1)
call (remove k) t = ((tree_remove t k).0, value_of (tree_remove t k).1)
call (lookup k) t = (t, some (tree_lookup t k))

abbrev pub insert_in : ℕ → ℕ → List (ℕ × ℕ) → List (ℕ × ℕ)
insert_in k v [] = []
insert_in k v (p ∷ m) = put k v (p ∷ m)

abbrev pub answer : Call → List (ℕ × ℕ) → List (ℕ × ℕ) × Option ℕ
answer (insert k v) m = (insert_in k v m, find k m)
answer (insert_tree k v) m = (put k v m, find k m)
answer (remove k) m = (erase k m, find k m)
answer (lookup k) m = (m, some (or_null (find k m)))

-- The values that a sequence of calls gives, and the state after it.
abbrev pub run : List Call → Tree → Tree × List (Option ℕ)
run [] t = (t, [])
run (c ∷ cs) t = let rest = run cs (call c t).0 in (rest.0, (call c t).1 ∷ rest.1)

abbrev pub replay : List Call → List (ℕ × ℕ) → List (ℕ × ℕ) × List (Option ℕ)
replay [] m = (m, [])
replay (c ∷ cs) m = let rest = replay cs (answer c m).0 in (rest.0, (answer c m).1 ∷ rest.1)

insert_in-append :
    (k v : ℕ) (xs : List (ℕ × ℕ)) (p : ℕ × ℕ) (ys : List (ℕ × ℕ))
    → insert_in k v (xs ++ (p ∷ ys)) ≡ put k v (xs ++ (p ∷ ys))
insert_in-append k v [] p ys = refl
insert_in-append k v (x ∷ xs) p ys = refl

tree_insert-insert_in :
    (t : Tree) (k v : ℕ)
    → IsSearchTree t
    → k < 2 ^ 31
    → tree_foreach (tree_insert t (tree_init k v)).0 ≡ insert_in k v (tree_foreach t)
tree_insert-insert_in leaf k v d h = unfold tree_insert tree_foreach in refl
tree_insert-insert_in (node l n r) k v d h =
    tree_insert-put (node l n r) (tree_init k v) (λ q. cc q) d h
    ∙ unfold tree_foreach in
      (sym (insert_in-append k v (tree_foreach l) (n.key, n.value) (tree_foreach r)))

insert_in-IsDictionary :
    (k v : ℕ) (m : List (ℕ × ℕ)) → k < 2 ^ 31 → IsDictionary m → IsDictionary (insert_in k v m)
insert_in-IsDictionary k v [] h d = d
insert_in-IsDictionary k v (p ∷ m) h d = put-IsDictionary k v (p ∷ m) h d

call-answer :
    (c : Call) (t : Tree)
    → IsSearchTree t
    → key_of c < 2 ^ 31
    → (tree_foreach (call c t).0 ≡ (answer c (tree_foreach t)).0)
      × ((call c t).1 ≡ (answer c (tree_foreach t)).1)
      × IsDictionary (answer c (tree_foreach t)).0
call-answer (insert k v) t d h = (
  tree_insert-insert_in t k v d h,
  tree_insert-find t (tree_init k v) d h,
  insert_in-IsDictionary k v (tree_foreach t) h d,
)
call-answer (insert_tree k v) t d h = (
  tree_insert_tree-put t (tree_init k v) d h,
  tree_insert_tree-find t (tree_init k v) d h,
  put-IsDictionary k v (tree_foreach t) h d,
)
call-answer (remove k) t d h = (
  (tree_remove-erase t k d h).0,
  (tree_remove-erase t k d h).1,
  erase-IsDictionary k (tree_foreach t) d,
)
call-answer (lookup k) t d h = (refl, ap some (tree_lookup-find t k d h), d)

-- From a tree whose keys are in order and below 2 ^ 31, any sequence of insertions of either kind,
-- removals and look-ups of such keys gives the values that a list of keys and values in ascending
-- order gives. The tree then holds the entries of that list, so that its keys are in order again;
-- only `tree_insert` into an empty tree is lost.
pub run-replay :
    (cs : List Call) (t : Tree)
    → InRange cs
    → IsSearchTree t
    → (tree_foreach (run cs t).0 ≡ (replay cs (tree_foreach t)).0)
      × ((run cs t).1 ≡ (replay cs (tree_foreach t)).1)
      × IsSearchTree (run cs t).0
run-replay [] t h d = (refl, refl, d)
run-replay (c ∷ cs) t h d =
    let (state, value, ordered) = call-answer c t d h.0 in
    let (last, values, kept) =
      run-replay cs (call c t).0 h.1 (subst IsDictionary (sym state) ordered) in
    (
      last ∙ ap (λ m. (replay cs m).0) state,
      ap₂ (λ v vs. v ∷ vs) value (values ∙ ap (λ m. (replay cs m).1) state),
      kept,
    )

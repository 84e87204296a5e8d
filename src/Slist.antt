-- ===== src/Slist.antt =====
-- r3_slist.c, r3_slist_copy.c, r3_slist_insert.c, r3_slist_remove.c: singly linked lists. A pointer to
-- a node is the list from that node on; a node is its address with its data. A node that the slice
-- allocator gave is an argument.
pub mod Sorted
use cmsis_rtos.Base.{ℕ, zero, suc, ◌+◌, Bool, List, [], ◌∷◌, ◌==◌, if◌then◌else◌}

pub record Node : Type 0 where
  pub address : ℕ
  pub value : ℕ

-- The address that a pointer holds, 0 for NULL.
abbrev pub address_of : List Node → ℕ
address_of [] = 0
address_of (x ∷ xs) = x.address

-- `g_slist_append`
unfoldable pub slist_append : List Node → Node → List Node
slist_append [] e = e ∷ []
slist_append (x ∷ xs) e = x ∷ slist_append xs e

-- `g_slist_prepend`, and `g_slist_prepend_atomic` in the round whose store succeeds.
unfoldable pub slist_prepend : List Node → Node → List Node
slist_prepend xs e = e ∷ xs

-- `g_slist_last`
unfoldable pub slist_last : List Node → List Node
slist_last [] = []
slist_last (x ∷ []) = x ∷ []
slist_last (x ∷ y ∷ ys) = slist_last (y ∷ ys)

-- `g_slist_nth`
unfoldable pub slist_nth : List Node → ℕ → List Node
slist_nth [] n = []
slist_nth (x ∷ xs) zero = x ∷ xs
slist_nth (x ∷ xs) (suc n) = slist_nth xs n

-- `g_slist_length`
unfoldable pub slist_length : List Node → ℕ
slist_length [] = 0
slist_length (x ∷ xs) = suc (slist_length xs)

-- `g_slist_copy`; the allocator gives the node `fresh k` in its k-th call.
unfoldable pub slist_copy : (ℕ → ℕ) → List Node → List Node
slist_copy fresh [] = []
slist_copy fresh (x ∷ xs) =
    record { address = fresh 0; value = x.value } ∷ slist_copy (λ k. fresh (suc k)) xs

-- The loop of `g_slist_insert_before` from the second node on.
unfoldable pub insert_before_rest : List Node → List Node → Node → List Node
insert_before_rest [] sibling e = e ∷ sibling
insert_before_rest (x ∷ xs) sibling e =
    let rest = insert_before_rest xs sibling e in
    if x.address == address_of sibling then e ∷ sibling else x ∷ rest

-- `g_slist_insert_before`
unfoldable pub insert_before : List Node → List Node → Node → List Node
insert_before [] sibling e = e ∷ sibling
insert_before (x ∷ xs) sibling e =
    if x.address == address_of sibling then e ∷ sibling else x ∷ insert_before_rest xs sibling e

-- The write of `g_slist_insert_after` behind the node of this address.
unfoldable pub insert_behind : List Node → ℕ → Node → List Node
insert_behind [] sibling e = []
insert_behind (x ∷ xs) sibling e =
    let rest = insert_behind xs sibling e in if x.address == sibling then x ∷ e ∷ xs else x ∷ rest

-- `g_slist_insert_after`: without a sibling the list is dropped.
unfoldable pub insert_after : List Node → ℕ → Node → List Node
insert_after xs sibling e = if sibling == 0 then e ∷ [] else insert_behind xs sibling e

-- The loop of `g_slist_remove` from the second node on, and the whole.
unfoldable pub remove_rest : List Node → ℕ → List Node
remove_rest [] value = []
remove_rest (x ∷ xs) value =
    let rest = remove_rest xs value in if x.value == value then xs else x ∷ rest

unfoldable pub slist_remove : List Node → ℕ → List Node
slist_remove [] value = []
slist_remove (x ∷ xs) value = if x.value == value then xs else x ∷ remove_rest xs value

module _ (after : ℕ → ℕ → Bool) where
  -- The loop of `g_slist_insert_sorted`; `after a b` is `func(a, b) > 0`.
  unfoldable pub insert_sorted_rest : List Node → Node → List Node
  insert_sorted_rest [] e = e ∷ []
  insert_sorted_rest (x ∷ xs) e =
      let rest = insert_sorted_rest xs e in if after x.value e.value then e ∷ x ∷ xs else x ∷ rest

  -- `g_slist_insert_sorted`
  unfoldable pub insert_sorted : List Node → Node → List Node
  insert_sorted [] e = e ∷ []
  insert_sorted (x ∷ xs) e =
      if after x.value e.value then e ∷ x ∷ xs else x ∷ insert_sorted_rest xs e

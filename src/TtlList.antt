-- ===== src/TtlList.antt =====
-- r3_ttl_list.c: lists of values under keys. A pointer to a node is the list from that node on, `[]` is
-- NULL; a value of 0 is NULL too. The slice of a node is left to the allocator.
pub mod Iteration
use cmsis_rtos.Base.{ℕ, List, [], ◌∷◌, ◌==◌, if◌then◌else◌, Bool}

-- `struct _ttl_list`
pub record Item : Type 0 where
  pub key : ℕ
  pub value : ℕ

abbrev pub item : ℕ → ℕ → Item
item k v = record { key = k; value = v }

-- `ttl_datalist_get`
unfoldable pub ttl_get : List Item → ℕ → ℕ
ttl_get [] key = 0
ttl_get (x ∷ xs) key = let rest = ttl_get xs key in if x.key == key then x.value else rest

-- `ttl_datalist_push`
unfoldable pub ttl_push : List Item → ℕ → ℕ → List Item
ttl_push xs key value = item key value ∷ xs

-- `ttl_datalist_replace`: the value before, and the list.
unfoldable pub ttl_replace : List Item → ℕ → ℕ → ℕ × List Item
ttl_replace [] key value = (0, [])
ttl_replace (x ∷ xs) key value =
    let rest = ttl_replace xs key value in
    if x.key == key then (x.value, item x.key value ∷ xs) else (rest.0, x ∷ rest.1)

-- `ttl_datalist_pop`
unfoldable pub ttl_pop : List Item → ℕ → ℕ × List Item
ttl_pop [] key = (0, [])
ttl_pop (x ∷ xs) key =
    let rest = ttl_pop xs key in if x.key == key then (x.value, xs) else (rest.0, x ∷ rest.1)

-- `ttl_datalist_clear`
unfoldable pub ttl_clear : List Item → List Item
ttl_clear xs = []

-- `ttl_datalist_get_iter`: the value, and where the iterator stands, which is kept on a miss.
unfoldable pub ttl_search : List Item → ℕ → List Item → ℕ × List Item
ttl_search [] key start = (0, start)
ttl_search (x ∷ xs) key start =
    let rest = ttl_search xs key start in if x.key == key then (x.value, x ∷ xs) else rest

unfoldable pub ttl_get_iter : List Item → ℕ → ℕ × List Item
ttl_get_iter iter key = ttl_search iter key iter

-- `ttl_datalist_get_next`: the item that is handed over, if any, and the iterator.
pub record Next : Type 0 where
  pub found : List Item
  pub iter : List Item

abbrev pub hand_over : List Item → Next
hand_over [] = record { found = []; iter = [] }
hand_over (x ∷ xs) = record { found = x ∷ []; iter = xs }

unfoldable pub ttl_get_next : List Item → List Item → Next
ttl_get_next dl [] = hand_over dl
ttl_get_next dl (x ∷ xs) = hand_over (x ∷ xs)

-- `ttl_datalist_foreach`: the items that the test picks are removed.
unfoldable pub ttl_foreach : (ℕ → ℕ → Bool) → List Item → List Item
ttl_foreach test [] = []
ttl_foreach test (x ∷ xs) =
    let rest = ttl_foreach test xs in if test x.key x.value then rest else x ∷ rest

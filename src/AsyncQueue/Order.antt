-- ===== src/AsyncQueue/Order.antt =====
-- The order in which the data come out.
use cmsis_rtos.Base.{
  ℕ, ◌≡◌, refl, ap, sym, ◌∙◌, List, [], ◌∷◌, ◌++◌, append-nil, append_assoc, Option, none, some,
}
use cmsis_rtos.AsyncQueue.{
  AsyncQueue, async_queue, reverse_onto, list_reverse, take_head, async_queue_get, async_queue_put,
}

-- The data in the queue, first in first.
abbrev pub contents : AsyncQueue → List ℕ
contents q = q.head ++ list_reverse q.tail

reverse_onto-append :
    (list top rest : List ℕ) → reverse_onto list (top ++ rest) ≡ reverse_onto list top ++ rest
unfolding reverse_onto
reverse_onto-append [] top rest = refl
reverse_onto-append (x ∷ list) top rest = reverse_onto-append list (x ∷ top) rest

-- What was put comes last.
pub async_queue_put-contents :
    (x : ℕ) (q : AsyncQueue) → contents (async_queue_put x q) ≡ contents q ++ (x ∷ [])
unfolding async_queue_put list_reverse reverse_onto
async_queue_put-contents x q =
    ap (λ l. q.head ++ l) (reverse_onto-append q.tail [] (x ∷ []))
    ∙ sym (append_assoc q.head (reverse_onto q.tail []) (x ∷ []))

-- The receiver gets the first of the data and leaves the others, or NULL from an empty queue.
pub Got : Option ℕ × AsyncQueue → List ℕ → Type 0
Got r [] = (r.0 ≡ none) × (contents r.1 ≡ [])
Got r (x ∷ xs) = (r.0 ≡ some x) × (contents r.1 ≡ xs)

take_head-Got : (head : List ℕ) → Got (take_head (async_queue head [])) head
unfolding take_head list_reverse reverse_onto Got
take_head-Got [] = (refl, refl)
take_head-Got (x ∷ list) = (refl, append-nil list)

pub async_queue_get-Got :
    (head tail : List ℕ)
    → Got (async_queue_get (async_queue head tail)) (contents (async_queue head tail))
unfolding async_queue_get take_head Got
async_queue_get-Got [] tail = take_head-Got (list_reverse tail)
async_queue_get-Got (x ∷ list) tail = (refl, refl)

-- ===== src/Queue/Fifo.antt =====
-- The queue against a first-in first-out list of nodes.
use mathlib.Core.List.{reverse, reverse_aux, reverse-append}
use cmsis_rtos.Base.{
  ℕ, ◌+◌, ◌<◌, ◌≡◌, ◌≢◌, refl, ap, subst, sym, ◌∙◌, true, false, ◌==◌, ◌||◌, Option, some, List, [],
  ◌∷◌, ◌++◌, append-nil, append_assoc, contains, contains-append, Distinct, Disjoint, length,
  length-append, arith,
}
use cmsis_rtos.Queue.{Queue, queue, Links, link, queue_init, queue_push, queue_pop, turn_round}
use cmsis_rtos.Queue.Segment.{IsSegment, IsSegment-link}
use cmsis_rtos.Queue.Reverse.{turn_round-Turned}

contains-reverse_aux :
    (a : ℕ) (xs ys : List ℕ) → contains a (reverse_aux xs ys) ≡ (contains a xs || contains a ys)
contains-reverse_aux a [] ys = refl
contains-reverse_aux a (x ∷ xs) ys = ground (arith, contains-reverse_aux a xs (x ∷ ys))

length-reverse_aux : (xs ys : List ℕ) → length (reverse_aux xs ys) ≡ length xs + length ys
length-reverse_aux [] ys = omega arith
length-reverse_aux (x ∷ xs) ys = omega (arith, length-reverse_aux xs (x ∷ ys))

-- The queue holds the nodes `xs`, first in first: those turned round already, then those of the
-- senders' list, last in first there. No node stands twice.
pub record Holds (q : Queue) (xs : List ℕ) : Type 0 where
  pub front : List ℕ
  pub back : List ℕ
  pub order : xs ≡ front ++ reverse back
  pub front_segment : IsSegment q.next q.head front
  pub back_segment : IsSegment q.next q.tail back
  pub front_distinct : Distinct front
  pub back_distinct : Distinct back
  pub apart : Disjoint front back

-- A new queue is empty.
pub queue_init-Holds : (n : Links) → Holds (queue_init n) []
unfolding queue_init
queue_init-Holds n = record {
  front = [];
  back = [];
  order = refl;
  front_segment = refl;
  back_segment = refl;
  front_distinct = tt;
  back_distinct = tt;
  apart = λ a mem. refl;
}

-- A sender puts a node that is not in the queue at its end.
pub queue_push-Holds :
    (el : ℕ) {q : Queue} {xs : List ℕ}
    → Holds q xs
    → el ≢ 0
    → contains el xs ≡ false
    → Holds (queue_push el q) (xs ++ (el ∷ []))
unfolding queue_push
queue_push-Holds el {q} {xs} h ne fresh = record {
  front = h.front;
  back = el ∷ h.back;
  order = rw h.order (
      append_assoc h.front (reverse h.back) (el ∷ [])
      ∙ ap (λ l. h.front ++ l) (sym (reverse-append (el ∷ []) h.back)));
  front_segment = IsSegment-link q.next q.head el q.tail h.front not_front h.front_segment;
  back_segment =
      (refl, ne, rw here (IsSegment-link q.next q.tail el q.tail h.back not_back h.back_segment));
  front_distinct = h.front_distinct;
  back_distinct = (not_back, h.back_distinct);
  apart = λ a mem. ground (arith, h.apart a, not_front);
}
  where
    here : link q.next el q.tail el ≡ q.tail
    here = ground arith

    split : (contains el h.front || contains el h.back) ≡ false
    split = ground (
      arith,
      ap (contains el) h.order,
      contains-append el h.front (reverse h.back),
      contains-reverse_aux el h.back [],
    )

    not_front : contains el h.front ≡ false
    not_front = ground (arith, split)

    not_back : contains el h.back ≡ false
    not_back = ground (arith, split)

-- What the receiver gets: the first node, and a queue of the others; NULL from an empty queue,
-- which stays as it is.
abbrev pub Popped : Queue → Option (ℕ × Queue) → List ℕ → Type 0
Popped q r [] = r ≡ some (0, q)
Popped q r (x ∷ xs) = (q' : Queue) × (r ≡ some (x, q')) × Holds q' xs

pop-front :
    (rounds : ℕ) (q : Queue) (x : ℕ) (front back : List ℕ)
    → IsSegment q.next q.head (x ∷ front)
    → IsSegment q.next q.tail back
    → Distinct (x ∷ front)
    → Distinct back
    → Disjoint (x ∷ front) back
    → Popped q (queue_pop rounds q) (x ∷ front ++ reverse back)
unfolding queue_pop
pop-front rounds q x front back s t d e apart = (
  record q { head = q.next q.head },
  ground arith,
  record {
    front = front;
    back = back;
    order = refl;
    front_segment = rw s.0 s.2;
    back_segment = t;
    front_distinct = d.1;
    back_distinct = e;
    apart = λ a mem. ground (arith, apart a);
  },
)

pop-turned :
    (rounds : ℕ) (q : Queue) (el head : ℕ) (n : Links)
    → q.head ≡ 0
    → q.tail ≢ 0
    → turn_round rounds q.tail 0 q.next ≡ some (el, head, n)
    → queue_pop rounds q ≡ some (el, queue head 0 n)
unfolding queue_pop
pop-turned rounds q el head n empty some_sent turned =
    let first : (q.head == 0) ≡ true = ground arith in
    let second : (q.tail == 0) ≡ false = ground arith in rw (first, second, turned, queue_pop)

pop-back :
    (rounds : ℕ) (q : Queue) (back : List ℕ)
    → length back < rounds
    → q.head ≡ 0
    → IsSegment q.next q.tail back
    → Distinct back
    → Popped q (queue_pop rounds q) (reverse back)
unfolding queue_pop
pop-back rounds q [] l empty t e = ground arith
pop-back rounds q (x ∷ back) l empty t e =
    let turned =
      turn_round-Turned rounds x 0 q.next back [] (omega arith) (refl, t.1, t.2) refl e tt
        (λ a mem. refl) in
    subst (Popped q (queue_pop rounds q)) (sym turned.nodes) (
      queue turned.head 0 turned.next,
      pop-turned rounds q turned.el turned.head turned.next empty (ground (arith, t.0, t.1))
          (rw t.0 turned.returns),
      record {
        front = turned.rest;
        back = [];
        order = sym (append-nil turned.rest);
        front_segment = turned.segment;
        back_segment = refl;
        front_distinct = turned.distinct.1;
        back_distinct = tt;
        apart = λ a mem. refl;
      },
    )

-- For every queue that holds the nodes `xs`, with more rounds of the loop than nodes, the receiver
-- gets the first of `xs` and leaves a queue of the others, or gets NULL from an empty queue, which
-- stays as it is.
pub queue_pop-Holds :
    (rounds : ℕ) {q : Queue} {xs : List ℕ}
    → Holds q xs
    → length xs < rounds
    → Popped q (queue_pop rounds q) xs
queue_pop-Holds rounds {q} {xs} h l =
    subst (Popped q (queue_pop rounds q)) (sym h.order)
      (pop_all h.front (ground arith) h.front_segment h.front_distinct h.apart)
  where
    fits : length h.back < rounds
    fits = omega (
      arith,
      l,
      ap length h.order,
      length-append h.front (reverse h.back),
      length-reverse_aux h.back [],
    )

    pop_all :
        (front : List ℕ)
        → front ≡ h.front
        → IsSegment q.next q.head front
        → Distinct front
        → Disjoint front h.back
        → Popped q (queue_pop rounds q) (front ++ reverse h.back)
    pop_all [] e s d apart = pop-back rounds q h.back fits s h.back_segment h.back_distinct
    pop_all (x ∷ front) e s d apart =
        pop-front rounds q x front h.back s h.back_segment d h.back_distinct apart

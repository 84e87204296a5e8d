-- ===== src/MessageQueue/Order.antt =====
-- Which message `osMessageQueueGet` delivers.
use mathlib.Core.List.{Perm, perm_middle}
use mathlib.Core.List.Perm
use cmsis_rtos.Base.{
  ℕ, ◌≤◌, ◌≡◌, refl, ap, sym, ◌∙◌, Bool-cases, inl, inr, true, List, [], ◌∷◌, ◌++◌, append-nil,
  append_assoc, suc, ◌+◌, ◌<◌, subst, length, leb, arith,
}
use cmsis_rtos.MemoryPool.{memory_pool_free}
use cmsis_rtos.MessageQueue.{Message, MessageQueue, Reply, copy, insert, sort_in, deliver}
use Reply.{received}

-- No message of the list has a priority above this one.
abbrev pub AllBelow : ℕ → List Message → Type 0
AllBelow prio [] = Unit
AllBelow prio (x ∷ xs) = (x.prio ≤ prio) × AllBelow prio xs

-- The priorities never rise along the list.
abbrev pub Sorted : List Message → Type 0
Sorted [] = Unit
Sorted (x ∷ xs) = AllBelow x.prio xs × Sorted xs

AllBelow-trans : (a b : ℕ) (xs : List Message) → a ≤ b → AllBelow a xs → AllBelow b xs
AllBelow-trans a b [] h all = tt
AllBelow-trans a b (x ∷ xs) h all = (omega (arith, all.0), AllBelow-trans a b xs h all.1)

insert-AllBelow :
    (prio : ℕ) (m : Message) (xs : List Message)
    → m.prio ≤ prio
    → AllBelow prio xs
    → AllBelow prio (insert m xs)
unfolding insert
insert-AllBelow prio m [] h all = (h, tt)
insert-AllBelow prio m (x ∷ xs) h all = elim (Bool-cases (leb m.prio x.prio)) [
  | inl behind ↦ rw (behind, insert) (all.0, insert-AllBelow prio m xs h all.1)
  | inr before ↦ rw (before, insert) (h, all)
]

insert-Sorted : (m : Message) (xs : List Message) → Sorted xs → Sorted (insert m xs)
unfolding insert
insert-Sorted m [] s = (tt, tt)
insert-Sorted m (x ∷ xs) s = elim (Bool-cases (leb m.prio x.prio)) [
  | inl behind ↦
      let below : m.prio ≤ x.prio = ground arith in
      rw (behind, insert) (insert-AllBelow x.prio m xs below s.0, insert-Sorted m xs s.1)
  | inr before ↦
      let above : x.prio ≤ m.prio = ground arith in
      rw (before, insert) ((above, AllBelow-trans x.prio m.prio xs above s.0), s)
]

insert-Perm : (m : Message) (xs : List Message) → Perm (insert m xs) (m ∷ xs)
unfolding insert
insert-Perm m [] = Perm.refl (m ∷ [])
insert-Perm m (x ∷ xs) = elim (Bool-cases (leb m.prio x.prio)) [
  | inl behind ↦
      rw (behind, insert) (Perm.trans (Perm.cons x (insert-Perm m xs)) (Perm.swap m x xs))
  | inr before ↦ rw (before, insert) (Perm.refl (m ∷ x ∷ xs))
]

pub sort_in-Sorted : (ms head : List Message) → Sorted head → Sorted (sort_in ms head)
unfolding sort_in
sort_in-Sorted [] head s = s
sort_in-Sorted (m ∷ ms) head s = sort_in-Sorted ms (insert m head) (insert-Sorted m head s)

pub sort_in-Perm : (ms head : List Message) → Perm (sort_in ms head) (ms ++ head)
unfolding sort_in
sort_in-Perm [] head = Perm.refl head
sort_in-Perm (m ∷ ms) head =
    Perm.trans (sort_in-Perm ms (insert m head))
      (Perm.trans (Perm.append (Perm.refl ms) (insert-Perm m head)) (perm_middle ms head))

length-insert : (m : Message) (xs : List Message) → length (insert m xs) ≡ suc (length xs)
unfolding insert
length-insert m [] = refl
length-insert m (x ∷ xs) = ground (arith, length-insert m xs)

pub length-sort_in : (ms head : List Message) → length (sort_in ms head) ≡ length ms + length head
unfolding sort_in
length-sort_in [] head = omega arith
length-sort_in (m ∷ ms) head =
    omega (arith, length-sort_in ms (insert m head), length-insert m head)

-- The message `first` is delivered, and `rest` are the messages left.
pub record Delivered (q : MessageQueue) (r : Reply × MessageQueue) : Type 0 where
  pub first : Message
  pub rest : List Message
  pub returns : r ≡ (
    received first.prio (copy q.msg_size first.bytes),
    record q { pool = (memory_pool_free first.node q.pool).1; tail = []; head = rest },
  )
  pub order : sort_in q.tail q.head ≡ first ∷ rest
  pub same : Perm (first ∷ rest) (q.tail ++ q.head)
  pub highest : AllBelow first.prio rest
  pub sorted : Sorted rest

-- When the receiver's list is sorted by priority and there is a message, `osMessageQueueGet` with a
-- token delivers one of highest priority, keeps exactly the other messages, sorted, and releases
-- the block of the delivered one.
pub deliver-Delivered :
    (q : MessageQueue) → Sorted q.head → 0 < length q.tail + length q.head → Delivered q (deliver q)
unfolding deliver
deliver-Delivered q s some_sent = from (sort_in q.tail q.head) refl
  where
    from : (all : List Message) → sort_in q.tail q.head ≡ all → Delivered q (deliver q)
    from [] e = absurd (omega (arith, ap length e, length-sort_in q.tail q.head))
    from (m ∷ rest) e =
        let sorted = subst Sorted e (sort_in-Sorted q.tail q.head s) in
        record {
          first = m;
          rest = rest;
          returns = rw (e, deliver) refl;
          order = e;
          same = subst (λ l. Perm l (q.tail ++ q.head)) e (sort_in-Perm q.tail q.head);
          highest = sorted.0;
          sorted = sorted.1;
        }

abbrev pub AllEqual : ℕ → List Message → Type 0
AllEqual prio [] = Unit
AllEqual prio (x ∷ xs) = (x.prio ≡ prio) × AllEqual prio xs

AllEqual-append :
    (prio : ℕ) (m : Message) (xs : List Message)
    → m.prio ≡ prio
    → AllEqual prio xs
    → AllEqual prio (xs ++ (m ∷ []))
AllEqual-append prio m [] e all = (e, tt)
AllEqual-append prio m (x ∷ xs) e all = (all.0, AllEqual-append prio m xs e all.1)

insert-equal :
    (prio : ℕ) (m : Message) (xs : List Message)
    → m.prio ≡ prio
    → AllEqual prio xs
    → insert m xs ≡ xs ++ (m ∷ [])
unfolding insert
insert-equal prio m [] e all = refl
insert-equal prio m (x ∷ xs) e all =
    let behind : leb m.prio x.prio ≡ true = ground (arith, all.0) in
    rw (behind, insert) (ap (λ l. x ∷ l) (insert-equal prio m xs e all.1))

-- Messages of one priority that were sent since the last call come out last sent first.
sort_in-equal :
    (prio : ℕ) (ms done : List Message)
    → AllEqual prio ms
    → AllEqual prio done
    → sort_in ms done ≡ done ++ ms
unfolding sort_in
sort_in-equal prio [] done e d = sym (append-nil done)
sort_in-equal prio (m ∷ ms) done e d =
    let behind = insert-equal prio m done e.0 d in
    rw (behind, sort_in)
      (sort_in-equal prio ms (done ++ (m ∷ [])) e.1 (AllEqual-append prio m done e.0 d)
        ∙ append_assoc done (m ∷ []) ms)

-- When the receiver has no message left over and all messages that were sent since have one
-- priority, the last one sent is delivered, and the others stay in the order last sent first.
pub deliver_latest :
    (q : MessageQueue) (m : Message) (ms : List Message)
    → q.head ≡ []
    → q.tail ≡ m ∷ ms
    → AllEqual m.prio ms
    → deliver q ≡ (
      received m.prio (copy q.msg_size m.bytes),
      record q { pool = (memory_pool_free m.node q.pool).1; tail = []; head = ms },
    )
unfolding deliver
deliver_latest q m ms h t e =
    let order = sort_in-equal m.prio (m ∷ ms) [] (refl, e) tt in rw (h, t, order, deliver) refl

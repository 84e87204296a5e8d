-- ===== src/Mail/Blocks.antt =====
-- The blocks of a message queue that are in use, and its messages.
use cmsis_rtos.Base.{
  ℕ, suc, ◌+◌, ◌*◌, ◌≤◌, ◌<◌, ◌≡◌, refl, sym, ap, ◌∙◌, inl, inr, true, false, ◌||◌, Bool-cases,
  Option, List, [], ◌∷◌, ◌++◌, map, length, length-append, contains, contains-append, Distinct,
  Distinct-snoc, ◌==◌, if◌then◌else◌, ==→eq, arith, subst, leb,
}
use mathlib.Core.List.{map-append}
use cmsis_rtos.Queue.{Queue, queue_push}
use cmsis_rtos.Queue.Fifo.{Holds, queue_push-Holds}
use cmsis_rtos.Pool.{Pool, pool_free, block_index}
use cmsis_rtos.Pool.Maps.{used, IsPool, Taken}
use cmsis_rtos.Pool.Cycle.{pool_free-Freed, Freed, block_index_lem}
use cmsis_rtos.Mail.{MailQ}
use cmsis_rtos.Mail.Count.{tally, tally-more}

-- The address of a block.
abbrev pub place : ℕ → ℕ → ℕ → ℕ
place base item k = base + k * item

-- A message queue with a pool of `n` blocks of 8 bytes or more, a whole number of words of its map, of
-- which those of the messages `xs` are in use, the blocks `ks`, first in first.
pub record IsMessageQ (base item n : ℕ) (q : MailQ) (ks xs : List ℕ) : Type 0 where
  pub pool : IsPool q.pool
  pub at : q.pool.base ≡ base
  pub step : q.pool.item_aligned_size ≡ item
  pub size : q.pool.size ≡ n
  pub whole : q.pool.maps * 32 ≡ n
  pub wide : 8 ≤ item
  pub based : 0 < base
  pub holds : Holds q.queue (map (place base item) ks)
  pub distinct : Distinct ks
  pub marked : (k : ℕ) → used q.pool k ≡ contains k ks
  pub within : (k : ℕ) → contains k ks ≡ true → k < n
  pub in_use : tally n (used q.pool) ≡ length ks
  pub contents : map (λ k. q.info (place base item k)) ks ≡ xs

-- Blocks of different numbers have different addresses.
place-injective : (base item j k : ℕ) → 0 < item → place base item j ≡ place base item k → j ≡ k
place-injective base item j k h e =
    let p : Pool = record {
      base = base;
      min = 0;
      maps = 0;
      size = 0;
      item_aligned_size = item;
      map = [];
    } in
    sym (block_index_lem p j h) ∙ ap (block_index p) e ∙ block_index_lem p k h

place-other :
    (base item j k : ℕ)
    → 0 < item
    → (j == k) ≡ false
    → (place base item j == place base item k) ≡ false
place-other base item j k h ne = elim (Bool-cases (place base item j == place base item k)) [
  | inr other ↦ other
  | inl same ↦
      let e = place-injective base item j k h (==→eq _ _ same) in absurd (ground (arith, ne, e))
]

places_apart :
    (base item x : ℕ) (ks : List ℕ)
    → 0 < item
    → contains x ks ≡ false
    → contains (place base item x) (map (place base item) ks) ≡ false
places_apart base item x [] h out = refl
places_apart base item x (k ∷ ks) h out =
    let rest = places_apart base item x ks h (ground (arith, out)) in
    let other = place-other base item k x h (ground (arith, out)) in ground (arith, rest, other)

-- What is written at a block that is not in a list leaves the words of the list.
info-kept :
    (base item : ℕ) (info : ℕ → ℕ) (x v : ℕ) (ks : List ℕ)
    → 0 < item
    → contains x ks ≡ false
    → map (λ k. if place base item k == place base item x then v else info (place base item k)) ks
      ≡ map (λ k. info (place base item k)) ks
info-kept base item info x v [] h out = refl
info-kept base item info x v (k ∷ ks) h out =
    let rest = info-kept base item info x v ks h (ground (arith, out)) in
    let other = place-other base item k x h (ground (arith, out)) in rw (other, rest) refl

-- A block that is taken and written stands behind the others.
pub put-keeps :
    (base item n info : ℕ) (q : MailQ) (ks xs : List ℕ) {r : Option (ℕ × Pool)}
    → IsMessageQ base item n q ks xs
    → (t : Taken q.pool r)
    → let block = q.pool.base + t.number * q.pool.item_aligned_size in
      let q' = record q {
        pool = t.after;
        queue = queue_push block q.queue;
        info = λ p. if p == block then info else q.info p;
      } in
      IsMessageQ base item n q' (ks ++ (t.number ∷ [])) (xs ++ (info ∷ []))
put-keeps base item n info q ks xs m t =
    let k = t.number in
    let p = q.pool in
    let block = p.base + k * p.item_aligned_size in
    let positive : 0 < item = omega (arith, m.wide) in
    let out : contains k ks ≡ false = sym (m.marked k) ∙ t.free in
    let here : block ≡ place base item k = rw (m.at, m.step) refl in
    let nodes : contains block (map (place base item) ks) ≡ false =
      rw here (places_apart base item k ks positive out) in
    let own : (place base item k == place base item k) ≡ true = ground arith in
    record {
      pool = t.well;
      at = ap (λ p. p.base) t.layout ∙ m.at;
      step = ap (λ p. p.item_aligned_size) t.layout ∙ m.step;
      size = ap (λ p. p.size) t.layout ∙ m.size;
      whole = ap (λ p. p.maps * 32) t.layout ∙ m.whole;
      wide = m.wide;
      based = m.based;
      holds =
          subst (Holds (queue_push block q.queue))
            (ap (λ b. map (place base item) ks ++ (b ∷ [])) here
              ∙ sym (map-append (place base item) ks (k ∷ [])))
            (queue_push-Holds block m.holds (λ e. absurd (omega (arith, here, m.based))) nodes);
      distinct = Distinct-snoc k ks out m.distinct;
      marked = λ j. ground (arith, t.taken j, m.marked j, contains-append j ks (k ∷ []));
      within =
          λ j h. ground (arith, m.within j, h, contains-append j ks (k ∷ []), t.within, m.whole);
      in_use =
          tally-more n (used p) (used t.after) k (omega (arith, t.within, m.whole)) t.free t.taken
          ∙ ap suc m.in_use
          ∙ omega (arith, length-append ks (k ∷ []));
      contents =
          rw (here, map-append, info-kept base item q.info k info ks positive out, m.contents, own)
            refl;
    }

free_layout :
    (p : Pool) (block : ℕ) → (pool_free p block).1 ≡ record p { map = (pool_free p block).1.map }
unfolding pool_free
free_layout p block = elim (Bool-cases (leb p.size (block_index p block))) [
  | inl beyond ↦ rw (beyond, pool_free) refl
  | inr inside ↦ rw (inside, pool_free) refl
]

-- The first block taken out of the queue and given back.
pub get-keeps :
    (base item n k : ℕ) (q : MailQ) (ks xs : List ℕ) (queue : Queue)
    → IsMessageQ base item n q (k ∷ ks) xs
    → Holds queue (map (place base item) ks)
    → let q' = record q { queue = queue; pool = (pool_free q.pool (place base item k)).1 } in
      IsMessageQ base item n q' ks (map (λ j. q.info (place base item j)) ks)
get-keeps base item n k q ks xs queue m holds =
    let p = q.pool in
    let here : place p.base p.item_aligned_size k ≡ place base item k = rw (m.at, m.step) refl in
    let freed =
      pool_free-Freed p k m.pool (omega (arith, m.size, m.whole)) (omega (arith, m.step, m.wide))
        (omega (arith, m.size, m.within k (ground arith))) in
    let result = subst (λ b. Freed p k (pool_free p b)) here freed in
    let layout = free_layout p (place base item k) in
    let marks : (j : ℕ) → used (pool_free p (place base item k)).1 j ≡ contains j ks = λ j.
      elim (Bool-cases (k == j)) [
        | inl same ↦
            let e = ==→eq k j same in
            ground
              (arith, result.cleared j, same, subst (λ v. contains v ks ≡ false) e m.distinct.0)
        | inr other ↦ ground (arith, result.cleared j, other, m.marked j)
      ] in
    record {
      pool = result.well;
      at = ap (λ r. r.base) layout ∙ m.at;
      step = ap (λ r. r.item_aligned_size) layout ∙ m.step;
      size = ap (λ r. r.size) layout ∙ m.size;
      whole = ap (λ r. r.maps * 32) layout ∙ m.whole;
      wide = m.wide;
      based = m.based;
      holds = holds;
      distinct = m.distinct.1;
      marked = marks;
      within = λ j h. m.within j (ground (arith, h));
      in_use = omega (
        arith,
        m.in_use,
        tally-more n (used (pool_free p (place base item k)).1) (used p) k
            (m.within k (ground arith)) (marks k ∙ m.distinct.0)
            (λ j. m.marked j ∙ ap (λ v. (k == j) || v) (sym (marks j))),
      );
      contents = refl;
    }

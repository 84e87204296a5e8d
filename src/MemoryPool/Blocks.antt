-- ===== src/MemoryPool/Blocks.antt =====
-- Who has the blocks of a memory pool.
use cmsis_rtos.Base.{
  ℕ, zero, suc, ◌+◌, ◌*◌, ◌/◌, ◌^◌, ◌<◌, ◌≡◌, ◌≢◌, refl, ap, sym, subst, ◌∙◌, false, List, [], ◌∷◌,
  ◌++◌, append_assoc, append-nil, length, length-append, contains, contains-append, Distinct, some,
  ◌==◌, arith,
}
use cmsis_rtos.Base.Word.{sub32, u32}
use cmsis_rtos.Semaphore.{init, enter, leave, fetch_add_loop}
use cmsis_rtos.MemoryPool.{
  MemoryPool, memory_pool, link_blocks, memory_pool_new, atomic_list_push, atomic_list_pop,
  memory_pool_alloc, memory_pool_free,
}

pub Distinct-out :
    (x : ℕ) (xs ys : List ℕ)
    → Distinct (xs ++ (x ∷ ys))
    → (contains x (xs ++ ys) ≡ false) × Distinct (xs ++ ys)
Distinct-out x [] ys d = d
Distinct-out x (z ∷ xs) ys d =
    let (out, rest) = Distinct-out x xs ys d.1 in
    let here = contains-append z xs (x ∷ ys) in
    let there = contains-append z xs ys in
    (ground (arith, out, here, d.0), (ground (arith, here, there, d.0), rest))

pub Distinct-in :
    (x : ℕ) (xs ys : List ℕ)
    → contains x (xs ++ ys) ≡ false
    → Distinct (xs ++ ys)
    → Distinct (xs ++ (x ∷ ys))
Distinct-in x [] ys out d = (out, d)
Distinct-in x (z ∷ xs) ys out d =
    let here = contains-append z xs (x ∷ ys) in
    let there = contains-append z xs ys in
    (ground (arith, here, there, d.0, out), Distinct-in x xs ys (ground arith) d.1)

-- The counter is the number of free blocks; the free blocks and those in use, `held`, are all
-- different and `total` in number.
pub record Shares (p : MemoryPool) (held : List ℕ) (total : ℕ) : Type 0 where
  pub counted : p.count ≡ length p.free
  pub distinct : Distinct (p.free ++ held)
  pub sum : length p.free + length held ≡ total

-- A pool whose blocks are shared gives one of its free blocks whenever the counter is not 0.
pub memory_pool_alloc-Shares :
    (svc : MemoryPool → ℕ × MemoryPool) (p : MemoryPool) (held : List ℕ) (total : ℕ)
    → Shares p held total
    → total < 2 ^ 32
    → p.count ≢ 0
    → (block : ℕ) × (p' : MemoryPool) × (memory_pool_alloc svc p ≡ (some block, p'))
      × (p.free ≡ block ∷ p'.free)
      × Shares p' (block ∷ held) total
unfolding memory_pool_alloc enter atomic_list_pop
memory_pool_alloc-Shares svc p held total h l ne = from p.free refl
  where
    from :
        (free : List ℕ)
        → p.free ≡ free
        → (block : ℕ) × (p' : MemoryPool) × (memory_pool_alloc svc p ≡ (some block, p'))
          × (p.free ≡ block ∷ p'.free)
          × Shares p' (block ∷ held) total
    from [] e = absurd (ne (h.counted ∙ ap length e))
    from (block ∷ rest) e =
        let counter : (p.count == 0) ≡ false = ground arith in
        let share = subst (λ f. Distinct (f ++ held)) e h.distinct in
        (
          block,
          memory_pool (sub32 p.count 1) rest,
          rw (counter, e, counter, memory_pool_alloc, enter, atomic_list_pop) refl,
          e,
          record {
            counted = omega (arith, h.counted, ap length e, h.sum);
            distinct = Distinct-in block rest held share.0 share.1;
            sum = omega (arith, h.sum, ap length e);
          },
        )

pub memory_pool_free-Shares :
    (p : MemoryPool) (before after : List ℕ) (block total : ℕ)
    → Shares p (before ++ (block ∷ after)) total
    → total < 2 ^ 32
    → Shares (memory_pool_free block p).1 (before ++ after) total
unfolding memory_pool_free atomic_list_push leave fetch_add_loop
memory_pool_free-Shares p before after block total h l = record {
  counted = omega (arith, h.counted, h.sum, length-append before (block ∷ after));
  distinct = free_distinct;
  sum = omega (arith, h.sum, length-append before (block ∷ after), length-append before after);
}
  where
    free_distinct : Distinct (block ∷ p.free ++ (before ++ after))
    free_distinct =
        subst (λ xs. (contains block xs ≡ false) × Distinct xs) (append_assoc p.free before after)
          (Distinct-out block (p.free ++ before) after
            (subst Distinct (sym (append_assoc p.free before (block ∷ after))) h.distinct))

-- A new pool of blocks a step apart, with none of them in use, shares its blocks.
link_blocks_lem :
    (rounds elem stride : ℕ)
    → 0 < stride
    → (length (link_blocks rounds elem stride) ≡ suc rounds)
      × Distinct (link_blocks rounds elem stride)
      × ((a : ℕ) → a < elem → contains a (link_blocks rounds elem stride) ≡ false)
unfolding link_blocks
link_blocks_lem zero elem stride h = (refl, (refl, tt), λ a l. ground arith)
link_blocks_lem (suc rounds) elem stride h =
    let (count, distinct, below) = link_blocks_lem rounds (elem + stride) stride h in
    (
      ap suc count,
      (below elem (omega arith), distinct),
      λ a l. ground (arith, below a (omega arith)),
    )

pub memory_pool_new-Shares :
    (n block_size base : ℕ)
    → 0 < n
    → n < 2 ^ 32
    → 0 < block_size
    → block_size + 3 < 2 ^ 32
    → Shares (memory_pool_new n block_size base) [] n
unfolding memory_pool_new init
memory_pool_new-Shares n block_size base pos l size fits =
    let stride = u32 (block_size + 3) / 4 * 4 in
    let (count, distinct, _) = link_blocks_lem (sub32 n 1) base stride (omega arith) in
    record {
      counted = omega (arith, count);
      distinct = subst Distinct (sym (append-nil (link_blocks (sub32 n 1) base stride))) distinct;
      sum = omega (arith, count);
    }

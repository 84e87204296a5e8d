-- ===== src/Slice/Shared.antt =====
-- Slices in use over any sequence of allocations and releases.
use cmsis_rtos.Base.{
  ℕ, zero, suc, ◌+◌, ◌≤◌, ◌<◌, ◌≡◌, refl, ◌∙◌, List, [], ◌∷◌, Option, none, some, arith,
}
use cmsis_rtos.Slice.{Pools, bitn_mask_idx, slice_free1, Alloc, slice_alloc}
use cmsis_rtos.Slice.Cover.{
  within, covers, width, given, supply, total-with_pool, bitn_mask_idx-fits, slice_alloc-supply,
}

-- A slice in use, with the size that was asked for.
pub record Held : Type 0 where
  pub at : ℕ
  pub size : ℕ

pub record State : Type 0 where
  pub pools : Pools
  pub blocks : List ℕ
  pub held : List Held

abbrev pub state : Pools → List ℕ → List Held → State
state pools blocks held = record { pools = pools; blocks = blocks; held = held }

abbrev pub start : List ℕ → State
start blocks = state (λ i. []) blocks []

-- An allocation of a size, and the release of the slice that is at a place of the list.
pub data Call : Type 0 where
  alloc : ℕ → Call
  free : ℕ → Call

abbrev added : ℕ → Option ℕ → List Held → List Held
added size none held = held
added size (some p) held = record { at = p; size = size } ∷ held

abbrev pub taken : ℕ → Alloc → List Held → State
taken size a held = state a.pools a.blocks (added size a.slice held)

-- The list without the slice at a place, and that slice.
unfoldable pub drop_at : ℕ → List Held → Option Held × List Held
drop_at k [] = (none, [])
drop_at zero (h ∷ hs) = (some h, hs)
drop_at (suc k) (h ∷ hs) = let rest = drop_at k hs in (rest.0, h ∷ rest.1)

unfoldable pub released : Option Held × List Held → Pools → List ℕ → State
released (none, held) pools blocks = state pools blocks held
released (some h, held) pools blocks = state (slice_free1 h.size h.at pools) blocks held

unfoldable pub step : Call → State → State
step (alloc size) s = taken size (slice_alloc size s.pools s.blocks) s.held
step (free k) s = released (drop_at k s.held) s.pools s.blocks

unfoldable pub run : List Call → State → State
run [] s = s
run (c ∷ cs) s = run cs (step c s)

-- The sizes that the pools are made for.
abbrev pub Served : List Call → Type 0
Served [] = Unit
Served (alloc size ∷ cs) = ((4 < size) × (size ≤ 64)) × Served cs
Served (free k ∷ cs) = Served cs

-- The slices in use that cover a byte, by the size that was asked for and by that of the pool.
abbrev pub users : ℕ → List Held → ℕ
users x [] = 0
users x (h ∷ hs) = within x h.at h.size + users x hs

abbrev occupied : ℕ → List Held → ℕ
occupied x [] = 0
occupied x (h ∷ hs) = within x h.at (width (bitn_mask_idx h.size)) + occupied x hs

abbrev AllServed : List Held → Type 0
AllServed [] = Unit
AllServed (h ∷ hs) = ((4 < h.size) × (h.size ≤ 64)) × AllServed hs

abbrev sum : ℕ → State → ℕ
sum x s = occupied x s.held + supply s.pools s.blocks x

added-sum :
    (x size : ℕ) (o : Option ℕ) (held : List Held)
    → AllServed held
    → 4 < size
    → size ≤ 64
    → (occupied x (added size o held) ≡ given x (width (bitn_mask_idx size)) o + occupied x held)
      × AllServed (added size o held)
added-sum x size none held all low high = (omega arith, all)
added-sum x size (some p) held all low high = (refl, ((low, high), all))

-- A slice that stays in use behind a release.
released-more :
    (x : ℕ) (h : Held) (r : Option Held × List Held) (pools : Pools) (blocks : List ℕ)
    → (4 < h.size) × (h.size ≤ 64)
    → AllServed (released r pools blocks).held
    → let s = released (r.0, h ∷ r.1) pools blocks in
      (sum x s ≡ within x h.at (width (bitn_mask_idx h.size)) + sum x (released r pools blocks))
      × AllServed s.held
unfolding released
released-more x h (none, held) pools blocks served all = (omega arith, (served, all))
released-more x h (some g, held) pools blocks served all = (omega arith, (served, all))

drop_at-sum :
    (x k : ℕ) (pools : Pools) (blocks : List ℕ) (held : List Held)
    → AllServed held
    → let s = released (drop_at k held) pools blocks in
      (sum x s ≡ sum x (state pools blocks held)) × AllServed s.held
unfolding drop_at released slice_free1
drop_at-sum x k pools blocks [] all = (refl, tt)
drop_at-sum x zero pools blocks (h ∷ hs) all =
    let i = bitn_mask_idx h.size in
    let (bound, _) = bitn_mask_idx-fits h.size all.0.0 all.0.1 in
    (omega (arith, total-with_pool 5 pools x i (h.at ∷ pools i) bound), all.1)
drop_at-sum x (suc k) pools blocks (h ∷ hs) all =
    let (same, rest) = drop_at-sum x k pools blocks hs all.1 in
    let (more, served) = released-more x h (drop_at k hs) pools blocks all.0 rest in
    (omega (arith, same, more), served)

run-sum :
    (x : ℕ) (cs : List Call) (s : State)
    → Served cs
    → AllServed s.held
    → (sum x (run cs s) ≡ sum x s) × AllServed (run cs s).held
unfolding run step
run-sum x [] s calls all = (refl, all)
run-sum x (alloc size ∷ cs) s calls all =
    let a = slice_alloc size s.pools s.blocks in
    let (low, high) = calls.0 in
    let (more, served) = added-sum x size a.slice s.held all low high in
    let (same, last) = run-sum x cs (step (alloc size) s) calls.1 served in
    (omega (arith, same, more, slice_alloc-supply size s.pools s.blocks x low high), last)
run-sum x (free k ∷ cs) s calls all =
    let (fewer, served) = drop_at-sum x k s.pools s.blocks s.held all in
    let (same, last) = run-sum x cs (step (free k) s) calls served in (same ∙ fewer, last)

within-wider : (x at a b : ℕ) → a ≤ b → within x at a ≤ within x at b
within-wider x at a b h = ground arith

users-occupied : (x : ℕ) (held : List Held) → AllServed held → users x held ≤ occupied x held
users-occupied x [] all = omega arith
users-occupied x (h ∷ hs) all =
    let (_, wide) = bitn_mask_idx-fits h.size all.0.0 all.0.1 in
    omega (
      arith,
      within-wider x h.at h.size (width (bitn_mask_idx h.size)) wide,
      users-occupied x hs all.1,
    )

-- From empty pools, after any calls of `g_slice_alloc` for sizes between 5 and 64 and of
-- `g_slice_free1` for slices in use, a byte that lies in at most one of the blocks that `malloc` gives
-- belongs to at most one of the slices in use, and to none when it lies in no block.
pub run-never_shared :
    (x : ℕ) (cs : List Call) (blocks : List ℕ)
    → Served cs
    → covers x 128 blocks ≤ 1
    → (users x (run cs (start blocks)).held ≤ covers x 128 blocks)
      × (users x (run cs (start blocks)).held ≤ 1)
run-never_shared x cs blocks calls apart =
    let (same, served) = run-sum x cs (start blocks) calls tt in
    let part = users-occupied x (run cs (start blocks)).held served in
    (omega (arith, same, part), omega (arith, same, part, apart))

-- ===== src/Tests/Slices.antt =====
-- The slices at concrete inputs.
use cmsis_rtos.Base.{ℕ, ◌≤◌, ◌≡◌, List, [], ◌∷◌, arith, refl}
use cmsis_rtos.Base.Masks.{clz}
use cmsis_rtos.Slice.{Pools, bitn_mask_idx, slice_alloc, cut, slice_init, slice_free1}
use cmsis_rtos.Slice.Cover.{covers}
use cmsis_rtos.Slice.Shared.{
  Call, alloc, free, start, step, run, drop_at, released, users, run-never_shared,
}

-- Two slices of 64 bytes, one of 12; the older one of the two is released and taken again.
abbrev calls : List Call
calls = alloc 64 ∷ alloc 40 ∷ alloc 12 ∷ free 2 ∷ alloc 50 ∷ []

abbrev blocks : List ℕ
blocks = 1000 ∷ 2000 ∷ 3000 ∷ []

one_left : (run calls (start blocks)).blocks ≡ 3000 ∷ []
unfolding run step slice_alloc bitn_mask_idx clz slice_init cut drop_at released slice_free1
one_left = refl

run-never_shared_example :
    (users 1070 (run calls (start blocks)).held ≤ covers 1070 128 blocks)
    × (users 1070 (run calls (start blocks)).held ≤ 1)
run-never_shared_example =
    run-never_shared 1070 calls blocks
      (
        (omega arith, omega arith),
        (
          (omega arith, omega arith),
          ((omega arith, omega arith), ((omega arith, omega arith), tt)),
        ),
      )
      (omega arith)

abbrev no_slices : Pools
no_slices = λ i. []

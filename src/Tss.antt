-- ===== src/Tss.antt =====
-- c11_tss.c: the keys of threads.h. A key is the address of its entry, which the caller takes from the
-- slices; the keys of a thread are linked from the newest on and kept as a list for each thread.
pub mod Destroyed
use cmsis_rtos.Base.{ℕ, ◌==◌, ◌&&◌, not, if◌then◌else◌, List, [], ◌∷◌}

-- `struct os_tss` for every key, and the field `tss` of every thread.
pub record Tss : Type 0 where
  pub value : ℕ → ℕ
  pub dtor : ℕ → ℕ
  pub keys : ℕ → List ℕ

abbrev pub put : (ℕ → ℕ) → ℕ → ℕ → ℕ → ℕ
put f key v k = if k == key then v else f k

abbrev pub put_keys : (ℕ → List ℕ) → ℕ → List ℕ → ℕ → List ℕ
put_keys f thr keys t = if t == thr then keys else f t

-- `tss_create` of the entry at `key` by the thread `thr`.
unfoldable pub tss_create : ℕ → ℕ → ℕ → Tss → Tss
tss_create thr key dtor s = record {
  value = put s.value key 0;
  dtor = put s.dtor key dtor;
  keys = put_keys s.keys thr (key ∷ s.keys thr);
}

unfoldable pub tss_delete : ℕ → Tss → Tss
tss_delete key s = record s { value = put s.value key 0; dtor = put s.dtor key 0 }

unfoldable pub tss_get : ℕ → Tss → ℕ
tss_get key s = s.value key

unfoldable pub tss_set : ℕ → ℕ → Tss → Tss
tss_set key val s = record s { value = put s.value key val }

-- `tss_destroy` of a thread's keys: the calls of destructors with their values, and the entries. The
-- destructors are taken not to use the keys.
unfoldable pub tss_destroy : List ℕ → Tss → List (ℕ × ℕ) × Tss
tss_destroy [] s = ([], s)
tss_destroy (key ∷ keys) s =
    let rest = tss_destroy keys (tss_delete key s) in
    (
      (if not (s.dtor key == 0) && not (s.value key == 0)
          then (s.dtor key, s.value key) ∷ rest.0
          else rest.0),
      rest.1,
    )

-- ===== src/Pipe.antt =====
-- pipe.c: a ring of items with a semaphore for their number. The array is a function from places to
-- items; an item of 0 is NULL.
pub mod Ordered
use cmsis_rtos.Base.{ℕ, suc, ◌+◌, ◌==◌, if◌then◌else◌}
use cmsis_rtos.Base.Word.{u16}
use cmsis_rtos.Semaphore.{enter, leave}

-- `struct _osPipe`
pub record Pipe : Type 0 where
  pub count : ℕ
  pub write_pos : ℕ
  pub read_pos : ℕ
  pub length : ℕ
  pub base : ℕ → ℕ

abbrev pub stored : (ℕ → ℕ) → ℕ → ℕ → ℕ → ℕ
stored base place item i = if i == place then item else base i

-- A position at the end of the ring goes back to its begin.
abbrev pub turned : ℕ → ℕ → ℕ
turned length pos = if pos == length then 0 else pos

-- `pipe_write`
unfoldable pub pipe_write : ℕ → Pipe → ℕ × Pipe
pipe_write item p =
    let place = turned p.length p.write_pos in
    let r = leave p.count in
    if p.count == p.length then (0, p) else (
      r.count,
      record p { count = r.cell; write_pos = u16 (place + 1); base = stored p.base place item },
    )

-- `pipe_read`
unfoldable pub pipe_read : Pipe → ℕ × Pipe
pipe_read p =
    let r = enter p.count in
    let place = turned p.length p.read_pos in
    if r.count == 0
    then (0, record p { count = r.cell })
    else (p.base place, record p { count = r.cell; read_pos = u16 (place + 1) })

-- `pipe_create` on an array with any contents.
unfoldable pub pipe_create : ℕ → (ℕ → ℕ) → Pipe
pipe_create length base = record {
  count = 0;
  write_pos = 0;
  read_pos = 0;
  length = u16 length;
  base = base;
}

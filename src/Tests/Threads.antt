-- ===== src/Tests/Threads.antt =====
-- c11_mutex.c and c11_cond.c at concrete inputs.
use cmsis_rtos.Scheduler.{Cells}

abbrev locked : Cells
locked p = 0

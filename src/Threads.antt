-- ===== src/Threads.antt =====
-- c11_mutex.c, c11_cond.c: the mutexes and condition variables of threads.h.
pub mod Mutex
pub mod Condition

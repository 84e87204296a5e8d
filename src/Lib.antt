-- ===== src/Lib.antt =====
-- CMSIS-RTOS R3v2: models of the real-time kernel's C sources and what is proved of them.
--
-- The system is a kernel for Cortex-M processors with the interfaces CMSIS-RTOS 1 and 2, ISO C threads
-- and POSIX. At its centre stands a counting semaphore in one atomic word. Mutexes, semaphores, memory
-- pools and message queues take a token of such a word themselves when there is one; otherwise they
-- make the system call SVC_EVENT_WAIT, and the scheduler takes the token on behalf of the thread that
-- waits, or ends the wait at its timeout. The system tick moves the clock and serves the software
-- timers. Interrupts and threads hand over nodes by a lock-free queue.
--
-- Files, with the sources they model:
--   Base, Base/*: shared names; lists, machine words and single bits over the native numbers.
--   Semaphore, Semaphore/*: semaphore.h, atomic.h. `enter` is `semaphore_enter`, `leave` is
--     `semaphore_leave`; a failed exclusive store is a value in the list of `enter_loop`.
--   Scheduler, Scheduler/*: thread.c (`osThreadScheduler`, `svc_handler_event_wait`,
--     `svc_handler_usleep`), sys/thread.h. `poll` is one round of the scheduler's loop at one thread,
--     `schedule` is the loop on the ring of threads.
--     Scheduler/Signals has the queue of signals.
--   Rtos, Rtos/*: mutex.c, semaphore.c, semaphore2.c, `osEventWait` of thread.c. The system call is a
--     parameter `svc`; `kernel_wait` fills it by the scheduler's `poll`. Rtos/Exclusion has the
--     interleavings of any number of tasks on one cell, waits that end by their timeout among them.
--   Threads, Threads/*: c11_mutex.c, c11_cond.c.
--   Queue, Queue/*: queue.c, queue.h, with the links of the nodes as a store.
--   MemoryPool, MemoryPool/*: memory_pool.c; MemoryPool/Runs has any number of calls, with those that
--     wait.
--     MessageQueue, MessageQueue/*: message_queue.c.
--   Pool, Pool/*: pool.c, the pools with a bit for each block.
--   Mail, Mail/*: message.c and mail.c, with the pool of Pool and the queue of Queue; the system call of
--     their waits is a parameter.
--   Timer, Timer/*: timer.c. Kernel, Kernel/*: the clock of kernel.c, time.h.
--   Memory, Memory/*: r3_stdlib_mem*.c, r3_stdlib_str*.c. Calendar, Calendar/*: r3_stdlib_mktime.c.
--   Slist, Slist/*: r3_slist*.c. AsyncQueue, AsyncQueue/*: async_queue.c. Search, Search/*: bsearch.c.
--   Tree, Tree/*: r3_tree.h, r3_tree.c, tree_*.c, the search trees with counts; Tree/Dictionary has the
--     lists of keys and values that they stand for. Utf8, Utf8/*: r3_stdlib_utf8.c.
--   Family, Family/*: the tree nodes and the joining of lists in queue.h.
--   Ring, Ring/*: the other parts of thread.c, `thrd_create`, `svc_handler_kill` and the stack pool,
--     with the links of the threads as a store; `Ring/Chain` has the ring as a list.
--   Dispatch, Dispatch/*: the whole of `osThreadScheduler` (`thread_scheduler`) on the fields of the threads
--     by address: `deliver` is the loop over queued signals, `look` the loop over the ring, `activate`
--     the first activation; `signal_set` and `signal_clear` are `osSignalSet` and `osSignalClear`.
--   Heap, Heap/*: malloc.c. `aligned_alloc`, `malloc`, `calloc`, `free_block` for `free`, and
--     `mem_garbage` for the collector `r3_mem_garbage`, on the words in front of the blocks.
--   Checksum, Checksum/*: crc16.c, crc.h and the checksum of modbus.c. Modbus, Modbus/*: modbus.c,
--     on a memory of bytes, with its registers found by the bisection of Search.
--   Magma, Magma/*: magma.c, the block cipher, its authentication code (Magma/Cmac) and its counter mode.
--   Thrd, Thrd/*: c11_thread.c, threads of ISO C on the fields of the threads by address.
--   SigQueue, SigQueue/*: the queue of signals with values of signal.c, and `pthread_sigmask`.
--   TtlList, TtlList/*: r3_ttl_list.c. Slice, Slice/*: r3_slice.c, with the blocks of `malloc` as a
--     list. Pipe, Pipe/*: pipe.c. Tss, Tss/*: c11_tss.c.
--   Tests, Tests/*: the theorems at concrete inputs.
--
-- Conventions. An `int` or a pointer is its bit pattern, a number below 2 ^ 32; sums that wrap are
-- written with `% 2 ^ 32`. The memory of a pool of blocks ends below 2 ^ 32, so the addresses of its
-- blocks do not wrap. A shift by the width of a word or more, which C leaves undefined, changes nothing
-- in `stack_free`. A linked list is a list of its nodes, but in Queue, Timer, Ring and Dispatch the
-- links are a store, since the code relinks them. Memory that the caller or an allocator provides is an
-- argument.
-- A thread blocks in a system call: the call is a parameter that gives the status of the event and the
-- state, changed by the other threads, when the thread runs again.
--
-- Fuel. The loop of `queue_pop` and that of `osTimerStop` run on rounds: one more round than there are
-- nodes is enough, and `osTimerStop` of a timer that is not in the list never ends. The loop of
-- `osThreadScheduler` ends within one round for each thread while one of them is running; the ring
-- always holds "main". Its loop over queued signals ends within one round more than the value of the
-- word of ready bits, since each round clears one. The loop of `svc_handler_kill` ends within one round
-- for each thread besides "main", unless the thread is not in the ring. A bisection ends within one
-- round more than there are elements, a string function within one round more than its string has characters. `tree_balance`
-- recurs on rounds, as many as there are nodes. The loop of the collector in malloc.c makes five
-- rounds, as the source counts them. A retry loop on an exclusive store takes the values that its
-- rounds read.
--
-- Not modelled: context switch and fault handlers (assembly and hardware), and the parts of the
-- repository that are no part of the kernel's core: the other ciphers and hashes, file systems, the
-- ELF loader, sockets and pthread wrappers.
pub mod Base
pub mod Semaphore
pub mod Scheduler
pub mod Rtos
pub mod Threads
pub mod Queue
pub mod Timer
pub mod Kernel
pub mod Pool
pub mod MemoryPool
pub mod MessageQueue
pub mod Tests
pub mod Memory
pub mod Calendar
pub mod Slist
pub mod AsyncQueue
pub mod Search
pub mod Tree
pub mod Utf8
pub mod Checksum
pub mod Modbus
pub mod Ring
pub mod TtlList
pub mod Family
pub mod Slice
pub mod Pipe
pub mod Tss
pub mod Dispatch
pub mod Heap
pub mod Mail
pub mod Magma
pub mod SigQueue
pub mod Thrd

-- ===== src/Tests.antt =====
-- The theorems of the library at concrete inputs.
mod Semaphore
mod Scheduler
mod Rtos
mod Queue
mod Messages
mod Pool
mod Time
mod Threads
mod Library
mod Tree
mod Text
mod Wire
mod Ring
mod Slices
mod Pipes
mod Keys
mod Delivery
mod Heaps
mod Mails
mod Cipher
mod Signals
mod Joins

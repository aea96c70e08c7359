-- ===== src/Threads.antt =====
-- hw3_thread-library-lala-ju: user-level threads, their scheduler and the three thread functions.
pub mod Tcb
pub mod Scheduler
pub mod Programs
pub mod Setup
pub mod Machine
mod Tests

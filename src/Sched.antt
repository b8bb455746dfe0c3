-- ===== src/Sched.antt =====
-- kern/schedule: the timer list, the run queues and the scheduler.
pub mod Types
pub mod Store
pub mod Timer
pub mod Rr
pub mod Mlfq
pub mod Run

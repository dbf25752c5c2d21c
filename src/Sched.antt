-- ===== src/Sched.antt =====
-- The core of the scheduler, Project2/goldfish/kernel/sched/core.c.
pub mod Policy
pub mod Prio
pub mod Queue
pub mod Preempt
pub mod Errors
pub mod Setscheduler
pub mod Syscalls
pub mod Fork
pub mod Wake
pub mod Schedule
pub mod Move
pub mod Grants
pub mod Permission
pub mod Inv

-- ===== src/Sched/Inv.antt =====
-- The invariant that ties the wrr queues to the tasks' own fields, and the operations of core.c
-- that keep it.
pub mod Good
pub mod Frames
pub mod Steps
pub mod Dispatch
pub mod Parts
pub mod Requeue
pub mod Calls
pub mod Target
pub mod Waking
pub mod Wakeups
pub mod Forks
pub mod Balance
pub mod Picks
pub mod Passes
pub mod Ticking
pub mod Nice
pub mod Order
pub mod Entry
pub mod Leaving

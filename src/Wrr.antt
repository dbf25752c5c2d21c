-- ===== src/Wrr.antt =====
-- The weighted round-robin class, Project2/goldfish/kernel/sched/wrr.c.
pub mod Group
pub mod Class
pub mod Ring
pub mod Inv
pub mod Lift
pub mod Enqueue
pub mod Quiet
pub mod Dequeue
pub mod Rotate
pub mod Neighbours
pub mod Hooks
pub mod Switch
pub mod Roundtrip
pub mod Tick
pub mod Spec
pub mod Round
pub mod Interval
pub mod Select

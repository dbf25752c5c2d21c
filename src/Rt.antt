-- ===== src/Rt.antt =====
-- The real-time class of Project2/goldfish/kernel/sched/rt.c. Up to Entry, the modules are about one cpu
-- with groups of tasks (CONFIG_RT_GROUP_SCHED); Balance and those after it about the runtime that the
-- cpus of a domain lend each other (CONFIG_SMP).
pub mod State
pub mod Array
pub mod Bits
pub mod Level
pub mod Start
pub mod Queue
pub mod Class
pub mod Tick
pub mod Inv
pub mod Pick
pub mod Relink
pub mod Members
pub mod Moves
pub mod Chains
pub mod Stacks
pub mod Capacity
pub mod Alike
pub mod Hooks
pub mod Requeue
pub mod Rotate
pub mod Elsewhere
pub mod Refill
pub mod Entry
pub mod Balance
pub mod Lending
pub mod Reclaim
pub mod Hotplug

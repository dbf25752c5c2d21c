-- ===== src/Load.antt =====
-- The load averages of Project2/goldfish/kernel/sched/core.c: the global one (Power, Average), what
-- its samples add up to (Conserve) and its catch-up (Window), and the load of one cpu (Backlog, Age,
-- Cpu). `unsigned long` and `long` are words of 32 bits.
pub mod Power
pub mod Average
pub mod Conserve
pub mod Window
mod Backlog
pub mod Age
pub mod Cpu

-- ===== src/Kernel.antt =====
-- The state that the scheduler keeps (Project2/goldfish/include/linux/sched.h and
-- Project2/goldfish/kernel/sched/sched.h), and what it takes from code outside the repository.
pub mod State
pub mod Env

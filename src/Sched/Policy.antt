-- ===== src/Sched/Policy.antt =====
-- The scheduling policies of include/linux/sched.h.
use android_kernel_programmi.Base.{ℕ}

abbrev pub normal : ℕ
normal = 0

abbrev pub fifo : ℕ
fifo = 1

abbrev pub rr : ℕ
rr = 2

abbrev pub batch : ℕ
batch = 3

abbrev pub idle : ℕ
idle = 5

abbrev pub wrr : ℕ
wrr = 6

-- SCHED_RESET_ON_FORK
abbrev pub reset_on_fork : ℕ
reset_on_fork = 0x40000000

abbrev pub max_rt_prio : ℕ
max_rt_prio = 100

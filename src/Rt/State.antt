-- ===== src/Rt/State.antt =====
-- The data of Project2/goldfish/kernel/sched/rt.c in the configuration of goldfish: one cpu
-- (no CONFIG_SMP) and CONFIG_RT_GROUP_SCHED. A task and its scheduling entity have the same number;
-- a group's entity has a number of its own, and so has each `rt_rq`.
use android_kernel_programmi.Sched.Policy.{max_rt_prio}
use android_kernel_programmi.Base.{ℕ, Bool, Option, List, update, ◌≡◌, ◌<◌, ◌≤◌, true, false}
use android_kernel_programmi.Base.Int.{ℤ}
use android_kernel_programmi.Kernel.Env.{ListOps}

-- `struct sched_rt_entity`. `run_list` is the priority whose list links it, if one does; `parents` is
-- the chain of its `parent` pointers, which `for_each_sched_rt_entity` walks.
pub record RtEntity : Type 0 where
  pub run_list : Option ℕ
  pub timeout : ℕ
  pub time_slice : ℕ
  pub parents : List ℕ
  pub rt_rq : ℕ
  pub my_q : Option ℕ

-- `struct rt_rq`, with `active.queue` and `active.bitmap`.
pub record RtRq : Type 0 where
  pub queue : ℕ → List ℕ
  pub bitmap : ℕ → Bool
  pub rt_nr_running : ℕ
  pub highest_prio : ℕ
  pub rt_nr_boosted : ℕ
  pub rt_throttled : Bool
  pub rt_time : ℕ
  pub rt_runtime : ℕ
  pub tg : ℕ

-- `struct task_group`: its `rt_bandwidth`, and its entity on the cpu, if it is not the root.
pub record TaskGroup : Type 0 where
  pub rt_period : ℕ
  pub rt_runtime : ℕ
  pub rt_se : Option ℕ
  pub rt_rq : ℕ

-- The fields of `struct task_struct`; `is_rt` is `sched_class == &rt_sched_class`.
pub record RtTask : Type 0 where
  pub prio : ℕ
  pub normal_prio : ℕ
  pub policy : ℕ
  pub is_rt : Bool
  pub on_rq : Bool
  pub need_resched : Bool
  pub exec_start : ℕ
  pub sum_exec_runtime : ℕ
  pub exec_max : ℕ
  pub sched_exp : ℕ

-- The tasks, the groups and the cpu's `struct rq`, whose own `rt` is the `rt_rq` number 0.
pub record RtSys : Type 0 where
  pub tasks : ℕ → RtTask
  pub entities : ℕ → RtEntity
  pub rt_rqs : ℕ → RtRq
  pub groups : ℕ → TaskGroup
  pub curr : ℕ
  pub idle : ℕ
  pub nr_running : ℕ
  pub clock_task : ℕ
  pub skip_clock_update : ℤ

abbrev pub put_rt_task : RtSys → ℕ → RtTask → RtSys
put_rt_task s p t = record s { tasks = update s.tasks p t }

abbrev pub put_rt_entity : RtSys → ℕ → RtEntity → RtSys
put_rt_entity s p e = record s { entities = update s.entities p e }

abbrev pub put_rt_rq : RtSys → ℕ → RtRq → RtSys
put_rt_rq s q r = record s { rt_rqs = update s.rt_rqs q r }

-- What the class takes from elsewhere: list.h, `sched_find_first_bit` on a bitmap of at least 101
-- bits, HZ, whether real-time bandwidth is enabled (`sysctl_sched_rt_runtime >= 0`), and the limits
-- RLIMIT_RTTIME of a task (the soft one absent for RLIM_INFINITY).
pub record RtEnv : Type 0 where
  pub list_ops : ListOps
  pub sched_find_first_bit : (ℕ → Bool) → ℕ
  pub find_first_bit_lem :
      (bits : ℕ → Bool) (n : ℕ)
      → n ≤ max_rt_prio
      → bits n ≡ true
      → (bits (sched_find_first_bit bits) ≡ true)
        × ((m : ℕ) → m < sched_find_first_bit bits → bits m ≡ false)
  pub hz : ℕ
  pub rt_bandwidth_enabled : Bool
  pub rttime_soft : ℕ → Option ℕ
  pub rttime_hard : ℕ → ℕ

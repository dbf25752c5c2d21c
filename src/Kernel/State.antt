-- ===== src/Kernel/State.antt =====
-- The scheduler's data. A task and a run queue are named by numbers (its address, its cpu), and
-- the store maps these to the fields that the modelled code reads or writes.
use android_kernel_programmi.Base.{ℕ, Bool, Option, List, update}
use android_kernel_programmi.Base.Int.{ℤ}

-- The five `struct sched_class` objects, by their addresses.
pub data SchedClass : Type 0 where
  stop rt wrr fair idle : SchedClass

-- `struct sched_wrr_entity`. `run_list` is the task's place in its queue; `back` is unused.
pub record WrrEntity : Type 0 where
  pub weight : ℕ
  pub timeout : ℕ
  pub time_slice : ℕ
  pub nr_cpus_allowed : ℕ

-- `struct wrr_rq`. The list head `queue` holds the queued tasks, first to last.
pub record WrrRq : Type 0 where
  pub queue : List ℕ
  pub wrr_nr_running : ℕ
  pub total_weight : ℕ

-- `struct task_struct`, with the fields of its `se` that the class updates.
pub record Task : Type 0 where
  pub pid : ℕ
  pub state : ℕ
  pub flags : ℕ
  pub has_mm : Bool
  pub on_cpu : Bool
  pub on_rq : Bool
  pub prio : ℕ
  pub static_prio : ℕ
  pub normal_prio : ℕ
  pub rt_priority : ℕ
  pub policy : ℕ
  pub sched_reset_on_fork : Bool
  pub sched_contributes_to_load : Bool
  pub sched_class : SchedClass
  pub wrr : WrrEntity
  pub exec_start : ℕ
  pub sum_exec_runtime : ℕ
  pub exec_max : ℕ
  pub nr_migrations : ℕ
  pub load_weight : ℕ
  pub cpu : ℕ
  pub cpus_allowed : ℕ → Bool
  pub sched_task_group : ℕ
  pub need_resched : Bool
  pub nivcsw : ℕ
  pub nvcsw : ℕ

-- `struct rq`. `cfs_h_nr_running` is `cfs.h_nr_running`.
pub record Rq : Type 0 where
  pub nr_running : ℕ
  pub nr_uninterruptible : ℕ
  pub nr_switches : ℕ
  pub skip_clock_update : ℤ
  pub cfs_h_nr_running : ℕ
  pub wrr : WrrRq
  pub curr : ℕ
  pub idle : ℕ
  pub stop : Option ℕ
  pub clock : ℕ
  pub clock_task : ℕ
  pub post_schedule : Bool

-- `now` is what `sched_clock_cpu` reads on each cpu, and `other` the state of the classes whose
-- code is not modelled, as a number that encodes it.
pub record Sys : Type 0 where
  pub tasks : ℕ → Task
  pub rqs : ℕ → Rq
  pub now : ℕ → ℕ
  pub other : ℕ

abbrev pub put_task : Sys → ℕ → Task → Sys
put_task s p t = record s { tasks = update s.tasks p t }

abbrev pub put_rq : Sys → ℕ → Rq → Sys
put_rq s c r = record s { rqs = update s.rqs c r }

abbrev pub put_wrr : Sys → ℕ → WrrRq → Sys
put_wrr s c w = put_rq s c (let r = s.rqs c in record r { wrr = w })

abbrev pub put_entity : Sys → ℕ → WrrEntity → Sys
put_entity s p e = put_task s p (let t = s.tasks p in record t { wrr = e })

abbrev pub weights : Sys → ℕ → ℕ
weights s p = (s.tasks p).wrr.weight

abbrev pub queue_of : Sys → ℕ → List ℕ
queue_of s c = (s.rqs c).wrr.queue

-- ===== src/Sched/Fork.antt =====
-- Starting a task: __sched_fork, sched_fork and wake_up_new_task of both kernels.
use android_kernel_programmi.Base.{ℕ, true, false, ◌==◌, ◌||◌, not, ltb, if◌then◌else◌}
use android_kernel_programmi.Kernel.State.{SchedClass, WrrEntity, Sys, Task, put_task, put_entity}
use android_kernel_programmi.Kernel.Env.{Env}
use android_kernel_programmi.Wrr.Group.{is_background, bg_timeslice, fg_timeslice}
use android_kernel_programmi.Sched.Policy
use android_kernel_programmi.Sched.Prio.{rt_policy, rt_prio, set_load_weight}
use android_kernel_programmi.Sched.Queue.{ops_of, activate_task, set_task_cpu, cpu_online}
use android_kernel_programmi.Sched.Preempt.{check_preempt_curr}

-- A new `run_list` is off every queue.
unfoldable pub init_fork : Task → Task
init_fork t = record t {
  on_rq = false;
  exec_start = 0;
  sum_exec_runtime = 0;
  exec_max = 0;
  nr_migrations = 0;
}

-- The `if (p->sched_reset_on_fork)` of the goldfish sched_fork; NICE_TO_PRIO(0) is 120.
unfoldable pub reset_on_fork : Task → Task
unfolding rt_policy set_load_weight
reset_on_fork t =
    let t1 : Task =
      if rt_policy t.policy
      then record t { policy = Policy.normal; static_prio = 120; rt_priority = 0 }
      else if ltb t.static_prio 120
      then record t { static_prio = 120 }
      else t in
    let t2 = record t1 { prio = t1.static_prio; normal_prio = t1.static_prio } in
    if t.sched_reset_on_fork then record (set_load_weight t2) { sched_reset_on_fork = false } else t

-- The same part of the tegra sched_fork.
unfoldable pub reset_on_fork_tegra : Task → Task
unfolding set_load_weight
reset_on_fork_tegra t =
    let t1 : Task =
      if t.policy == Policy.fifo || t.policy == Policy.rr
      then record t { policy = Policy.normal; normal_prio = t.static_prio }
      else t in
    let t2 : Task =
      if ltb t1.static_prio 120
      then set_load_weight (record t1 { static_prio = 120; normal_prio = 120 })
      else t1 in
    if t.sched_reset_on_fork then record t2 { sched_reset_on_fork = false } else t

-- `if (!rt_prio(p->prio)) p->sched_class = &fair_sched_class;`
unfoldable pub fork_class : Task → Task
unfolding rt_prio
fork_class t = if rt_prio t.prio then t else record t { sched_class = SchedClass.fair }

-- The tegra sched_fork sets the wrr class just before.
unfoldable pub fork_class_tegra : Task → Task
unfolding fork_class
fork_class_tegra t =
    fork_class (if t.policy == Policy.wrr then record t { sched_class = SchedClass.wrr } else t)

module _ (env : Env) where
  -- `p` is a copy of its parent `current` on cpu `cpu`. TASK_RUNNING is 0.
  unfoldable pub sched_fork : Sys → ℕ → ℕ → ℕ → Sys
  unfolding init_fork reset_on_fork fork_class set_task_cpu
  sched_fork s current p cpu =
      let t = init_fork (s.tasks p) in
      let t1 = reset_on_fork (record t { state = 0; prio = (s.tasks current).normal_prio }) in
      let s1 = put_task s p (fork_class t1) in
      let s2 = set_task_cpu ((ops_of env s1 p).task_fork s1 p) p cpu in
      put_task s2 p (let t = s2.tasks p in record t { on_cpu = false })

  unfoldable pub sched_fork_tegra : Sys → ℕ → ℕ → ℕ → Sys
  unfolding init_fork reset_on_fork_tegra fork_class_tegra set_task_cpu
  sched_fork_tegra s current p cpu =
      let t = init_fork (s.tasks p) in
      let t1 = reset_on_fork_tegra (record t { state = 0 }) in
      let t2 = record t1 { prio = (s.tasks current).normal_prio } in
      let s1 = put_task s p (fork_class_tegra t2) in
      let s2 = set_task_cpu ((ops_of env s1 p).task_fork s1 p) p cpu in
      put_task s2 p (let t = s2.tasks p in record t { on_cpu = false })

  -- SD flags only choose among the fair class's domains.
  unfoldable pub select_task_rq : Sys → ℕ → ℕ → ℕ → ℕ
  unfolding cpu_online
  select_task_rq s p sd_flags wake_flags =
      let t = s.tasks p in
      let cpu = (ops_of env s p).select_task_rq s p sd_flags wake_flags in
      if not (t.cpus_allowed cpu) || not (cpu_online env cpu)
      then env.fallback_rq s t.cpu p
      else cpu

  -- The slice and weight that a new task starts with.
  unfoldable pub initial_entity : Sys → ℕ → WrrEntity
  initial_entity s p =
      let t = s.tasks p in
      let e = t.wrr in
      if is_background env t.sched_task_group
      then record e { time_slice = bg_timeslice env; weight = 1 }
      else record e { time_slice = fg_timeslice env; weight = 10 }

  -- SD_BALANCE_FORK is 8 and WF_FORK 2.
  unfoldable pub wake_up_new_task : Sys → ℕ → Sys
  unfolding initial_entity set_task_cpu select_task_rq
  wake_up_new_task s p =
      let cpu = select_task_rq s p 8 0 in
      let s1 = set_task_cpu s p cpu in
      let s2 = put_entity s1 p (initial_entity s1 p) in
      let s3 = activate_task env s2 cpu p 0 in
      let s4 = put_task s3 p (let t = s3.tasks p in record t { on_rq = true }) in
      let s5 = check_preempt_curr env s4 cpu p 2 in (ops_of env s5 p).task_woken s5 cpu p

  -- On tegra only a task of the wrr policy gets a new slice and weight.
  unfoldable pub wake_up_new_task_tegra : Sys → ℕ → Sys
  unfolding initial_entity set_task_cpu select_task_rq
  wake_up_new_task_tegra s p =
      let cpu = select_task_rq s p 8 0 in
      let s1 = set_task_cpu s p cpu in
      let s2 =
        if (s1.tasks p).policy == Policy.wrr then put_entity s1 p (initial_entity s1 p) else s1 in
      let s3 = activate_task env s2 cpu p 0 in
      let s4 = put_task s3 p (let t = s3.tasks p in record t { on_rq = true }) in
      let s5 = check_preempt_curr env s4 cpu p 2 in (ops_of env s5 p).task_woken s5 cpu p

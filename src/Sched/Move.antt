-- ===== src/Sched/Move.antt =====
-- The operations of core.c that take a task off its queue and put it back elsewhere or changed.
use android_kernel_programmi.Base.{
  ℕ, Bool, true, false, Option, none, some, List, [], ◌∷◌, ◌==◌, ◌&&◌, ◌||◌, not, ltb,
  if◌then◌else◌,
}
use android_kernel_programmi.Kernel.State.{Sys, put_task}
use android_kernel_programmi.Kernel.Env.{Env}
use android_kernel_programmi.Wrr.Class.{resched_task}
use android_kernel_programmi.Sched.Policy
use android_kernel_programmi.Sched.Prio.{rt_policy, effective_prio, class_for, set_load_weight}
use android_kernel_programmi.Sched.Queue.{
  ops_of, enqueue_task, dequeue_task, activate_task, deactivate_task, set_task_cpu, cpu_online,
}
use android_kernel_programmi.Sched.Preempt.{check_class_changed, check_preempt_curr}
use android_kernel_programmi.Sched.Setscheduler.{setscheduler}

module _ (env : Env) where
  -- The task moves to the group that its cgroup now names.
  unfoldable pub sched_move_task : Sys → ℕ → Sys
  sched_move_task s p =
      let c = (s.tasks p).cpu in
      let running = (s.rqs c).curr == p in
      let on_rq = (s.tasks p).on_rq in
      let s1 = if on_rq then dequeue_task env s c p 0 else s in
      let s2 = if running then (ops_of env s1 p).put_prev_task s1 c p else s1 in
      let s3 =
        put_task s2 p (let t = s2.tasks p in record t { sched_task_group = env.new_group s2 p }) in
      let s4 = if running then (ops_of env s3 p).set_curr_task s3 c else s3 in
      if on_rq then enqueue_task env s4 c p 0 else s4

  -- Boosting by the priority inheritance of rt mutexes. The idle task is never boosted.
  unfoldable pub rt_mutex_setprio : Sys → ℕ → ℕ → Sys
  unfolding class_for
  rt_mutex_setprio s p prio =
      let c = (s.tasks p).cpu in
      let running = (s.rqs c).curr == p in
      let on_rq = (s.tasks p).on_rq in
      let oldprio = (s.tasks p).prio in
      let prev_class = (s.tasks p).sched_class in
      let s1 = if on_rq then dequeue_task env s c p 0 else s in
      let s2 = if running then (ops_of env s1 p).put_prev_task s1 c p else s1 in
      let s3 =
        put_task s2 p
          (let t = s2.tasks p in record t { sched_class = class_for t.policy prio; prio = prio }) in
      let s4 = if running then (ops_of env s3 p).set_curr_task s3 c else s3 in
      let s5 = if on_rq then enqueue_task env s4 c p (if ltb oldprio prio then 2 else 0) else s4 in
      if p == (s.rqs c).idle then s else check_class_changed env s5 c p prev_class oldprio

  -- set_user_nice, for `static_prio` = NICE_TO_PRIO(nice); a nice value out of range is refused.
  unfoldable pub set_user_nice : Sys → ℕ → ℕ → Sys
  unfolding rt_policy effective_prio set_load_weight resched_task
  set_user_nice s p static_prio =
      let t = s.tasks p in
      let c = t.cpu in
      let on_rq = t.on_rq in
      let s1 = if on_rq then dequeue_task env s c p 0 else s in
      let t1 = set_load_weight (let t = s1.tasks p in record t { static_prio = static_prio }) in
      let old_prio = t1.prio in
      let (prio', t2) = effective_prio t1 in
      let s2 = put_task s1 p (record t2 { prio = prio' }) in
      let s3 = enqueue_task env s2 c p 0 in
      let lowered_here = ltb old_prio prio' && (s3.tasks p).on_cpu in
      if t.static_prio == static_prio || ltb static_prio 100 || ltb 139 static_prio
      then s
      else if rt_policy t.policy
      then put_task s p (record t { static_prio = static_prio })
      else if on_rq
      then (if ltb prio' old_prio || lowered_here then resched_task s3 (s3.rqs c).curr else s3)
      else s2

  unfoldable pub normalize_task : Sys → ℕ → Sys
  unfolding resched_task
  normalize_task s p =
      let c = (s.tasks p).cpu in
      let prev_class = (s.tasks p).sched_class in
      let old_prio = (s.tasks p).prio in
      let on_rq = (s.tasks p).on_rq in
      let s1 = if on_rq then dequeue_task env s c p 0 else s in
      let s2 = setscheduler env s1 p Policy.normal 0 in
      let s3 =
        if on_rq
        then (let s4 = enqueue_task env s2 c p 0 in resched_task s4 (s4.rqs c).curr)
        else s2 in
      check_class_changed env s3 c p prev_class old_prio

  -- `active` is cpu_active(dest_cpu). The result is 1 where the task is at its destination.
  unfoldable pub migrate_task : Sys → Bool → ℕ → ℕ → ℕ → Sys × Bool
  unfolding set_task_cpu
  migrate_task s active p src_cpu dest_cpu =
      let t = s.tasks p in
      let s1 = set_task_cpu (dequeue_task env s src_cpu p 0) p dest_cpu in
      let s2 = check_preempt_curr env (enqueue_task env s1 dest_cpu p 0) dest_cpu p 0 in
      if not active
      then (s, false)
      else if not (t.cpu == src_cpu)
      then (s, true)
      else if not (t.cpus_allowed dest_cpu)
      then (s, false)
      else if t.on_rq
      then (s2, true)
      else (s, true)

  -- wrr.c: may the load balancer take this task of a queue?
  unfoldable pub can_pull : Sys → ℕ → ℕ → Bool
  can_pull s dst_cpu p =
      let t = s.tasks p in
      not t.on_cpu && (t.policy == Policy.wrr) && t.cpus_allowed dst_cpu && t.on_rq

  -- The `list_for_each_entry` loop: the first task that can be taken.
  unfoldable pub first_pullable : Sys → ℕ → List ℕ → Option ℕ
  unfolding can_pull
  first_pullable s dst_cpu [] = none
  first_pullable s dst_cpu (p ∷ q) =
      if can_pull s dst_cpu p then some p else first_pullable s dst_cpu q

  unfoldable pub pull_one : Sys → ℕ → ℕ → ℕ → Sys
  unfolding set_task_cpu
  pull_one s src_cpu dst_cpu p =
      let s1 = set_task_cpu (deactivate_task env s src_cpu p 0) p dst_cpu in
      check_preempt_curr env (activate_task env s1 dst_cpu p 0) dst_cpu p 0

  -- The loop over the online cpus; it stops at the first cpu that has a task to give.
  unfoldable pub pull_from : Sys → ℕ → List ℕ → Sys
  unfolding first_pullable pull_one
  pull_from s dst_cpu [] = s
  pull_from s dst_cpu (src ∷ cpus) =
      let rest = pull_from s dst_cpu cpus in
      if src == dst_cpu then rest else elim (first_pullable s dst_cpu (s.rqs src).wrr.queue) [
        | none ↦ rest
        | some p ↦ pull_one s src dst_cpu p
      ]

  unfoldable pub pull_wrr_task : Sys → ℕ → Sys
  unfolding pull_from cpu_online
  pull_wrr_task s dst_cpu = if cpu_online env dst_cpu then pull_from s dst_cpu env.online else s

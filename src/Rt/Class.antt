-- ===== src/Rt/Class.antt =====
-- The hooks of `rt_sched_class` in Project2/goldfish/kernel/sched/rt.c, one cpu, with the accounting of
-- run time against the bandwidth of the groups. Each hook works on the one run queue.
use android_kernel_programmi.Base.{
  ℕ, Bool, true, false, none, some, List, [], ◌∷◌, add32, sub32, add64, sub64, neg64, ltb, leb,
  ◌==◌, not, ◌||◌, if◌then◌else◌,
}
use android_kernel_programmi.Rt.State.{RtSys, RtEnv, put_rt_entity, put_rt_rq, put_rt_task}
use android_kernel_programmi.Rt.Array.{rt_rq_throttled}
use android_kernel_programmi.Rt.Queue.{
  chain_of, on_rt_rq, enqueue_rt_entity, dequeue_rt_entity, requeue_task_rt,
}
use android_kernel_programmi.Rt.Balance.{runtime_inf}

-- `resched_task`
abbrev pub resched : RtSys → ℕ → RtSys
resched s p = put_rt_task s p (let t = s.tasks p in record t { need_resched = true })

-- The entity of the group that owns a queue goes off or on its own queue.
unfoldable pub sched_rt_rq_dequeue : RtEnv → RtSys → ℕ → RtSys
unfolding on_rt_rq dequeue_rt_entity
sched_rt_rq_dequeue env s q = elim (s.groups (s.rt_rqs q).tg).rt_se [
  | none ↦ s
  | some e ↦ if on_rt_rq s e then dequeue_rt_entity env s e else s
]

unfoldable pub sched_rt_rq_enqueue : RtEnv → RtSys → ℕ → RtSys
unfolding on_rt_rq enqueue_rt_entity
sched_rt_rq_enqueue env s q =
    if not ((s.rt_rqs q).rt_nr_running == 0)
    then (let s1 : RtSys = elim (s.groups (s.rt_rqs q).tg).rt_se [
      | none ↦ s
      | some e ↦ if not (on_rt_rq s e) then enqueue_rt_entity env s e false else s
    ] in
        if ltb (s1.rt_rqs q).highest_prio (s1.tasks s1.curr).prio then resched s1 s1.curr else s1)
    else s

-- Where the time of a queue is above its runtime: a group with runtime is throttled, and the time of
-- one without is dropped.
unfoldable pub overrun : RtSys → ℕ → RtSys
overrun s q =
    let r = s.rt_rqs q in
    if not ((s.groups r.tg).rt_runtime == 0)
    then put_rt_rq s q (record r { rt_throttled = true })
    else put_rt_rq s q (record r { rt_time = 0 })

-- The queue of a throttled group is dequeued, unless an entity of it is boosted.
unfoldable pub dequeue_throttled : RtEnv → RtSys → ℕ → RtSys × Bool
unfolding rt_rq_throttled sched_rt_rq_dequeue
dequeue_throttled env s q =
    if rt_rq_throttled (s.rt_rqs q) then (sched_rt_rq_dequeue env s q, true) else (s, false)

unfoldable pub sched_rt_runtime_exceeded : RtEnv → RtSys → ℕ → RtSys × Bool
unfolding rt_rq_throttled overrun dequeue_throttled
sched_rt_runtime_exceeded env s q =
    let r = s.rt_rqs q in
    if r.rt_throttled
    then (s, rt_rq_throttled r)
    else if leb (s.groups r.tg).rt_period r.rt_runtime || r.rt_runtime == runtime_inf
    then (s, false)
    else if ltb r.rt_runtime r.rt_time
    then dequeue_throttled env (overrun s q) q
    else (s, false)

-- The time that ran is charged to every queue from the task up.
unfoldable pub charge : RtEnv → ℕ → RtSys → List ℕ → RtSys
unfolding sched_rt_runtime_exceeded
charge env delta s [] = s
charge env delta s (e ∷ es) =
    let q = (s.entities e).rt_rq in
    let r = s.rt_rqs q in
    let s1 = put_rt_rq s q (record r { rt_time = add64 r.rt_time delta }) in
    let (s2, exceeded) = sched_rt_runtime_exceeded env s1 q in
    charge env delta
      (if not (r.rt_runtime == runtime_inf)
        then (if exceeded then resched s2 s2.curr else s2)
        else s)
      es

-- `(s64)delta_exec < 0` counts as 0.
abbrev pub delta_exec : RtSys → ℕ
delta_exec s =
    let delta = sub64 s.clock_task (s.tasks s.curr).exec_start in if neg64 delta then 0 else delta

unfoldable pub update_curr_rt : RtEnv → RtSys → RtSys
unfolding charge
update_curr_rt env s =
    let curr = s.tasks s.curr in
    let delta = delta_exec s in
    if not curr.is_rt
    then s
    else (let t = record curr {
      exec_max = if ltb curr.exec_max delta then delta else curr.exec_max;
      sum_exec_runtime = add64 curr.sum_exec_runtime delta;
      exec_start = s.clock_task;
    } in
        let s1 = put_rt_task s s.curr t in
        if not env.rt_bandwidth_enabled then s1 else charge env delta s1 (chain_of s1 s.curr))

unfoldable pub enqueue_task_rt : RtEnv → RtSys → ℕ → Bool → Bool → RtSys
unfolding enqueue_rt_entity
enqueue_task_rt env s p wakeup head =
    let e = s.entities p in
    let s1 = if wakeup then put_rt_entity s p (record e { timeout = 0 }) else s in
    let s2 = enqueue_rt_entity env s1 p head in record s2 { nr_running = add32 s2.nr_running 1 }

unfoldable pub dequeue_task_rt : RtEnv → RtSys → ℕ → RtSys
unfolding update_curr_rt dequeue_rt_entity
dequeue_task_rt env s p =
    let s1 = dequeue_rt_entity env (update_curr_rt env s) p in
    record s1 { nr_running = sub32 s1.nr_running 1 }

unfoldable pub yield_task_rt : RtEnv → RtSys → RtSys
unfolding requeue_task_rt
yield_task_rt env s = requeue_task_rt env s s.curr false

unfoldable pub check_preempt_curr_rt : RtSys → ℕ → RtSys
check_preempt_curr_rt s p =
    if ltb (s.tasks p).prio (s.tasks s.curr).prio then resched s s.curr else s

unfoldable pub put_prev_task_rt : RtEnv → RtSys → RtSys
unfolding update_curr_rt
put_prev_task_rt env s = update_curr_rt env s

unfoldable pub set_curr_task_rt : RtSys → RtSys
set_curr_task_rt s =
    put_rt_task s s.curr (let t = s.tasks s.curr in record t { exec_start = s.clock_task })

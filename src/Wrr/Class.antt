-- ===== src/Wrr/Class.antt =====
-- The hooks of wrr_sched_class, in the order of wrr.c. Statistics and printk are left out.
use android_kernel_programmi.Base.{
  ℕ, Bool, true, false, Option, none, some, List, [], ◌∷◌, ◌==◌, ◌&&◌, not, if◌then◌else◌, add32,
  sub32, add64, sub64, neg64, lt_int, ltb, bit_and,
}
use android_kernel_programmi.Kernel.State.{
  SchedClass, WrrEntity, WrrRq, Sys, put_task, put_rq, put_wrr, put_entity,
}
use android_kernel_programmi.Kernel.Env.{Env, ClassOps}
use android_kernel_programmi.Wrr.Group.{
  fg_timeslice, bg_timeslice, group_path, is_background, reclassify,
}
use android_kernel_programmi.Wrr.Ring.{has_neighbours}

abbrev pub is_wrr : SchedClass → Bool
is_wrr SchedClass.wrr = true
is_wrr _ = false

-- resched_task of core.c.
unfoldable pub resched_task : Sys → ℕ → Sys
resched_task s p = put_task s p (let t = s.tasks p in record t { need_resched = true })

-- inc_nr_running and dec_nr_running of sched.h.
unfoldable pub inc_nr_running : Sys → ℕ → Sys
inc_nr_running s c = put_rq s c (let r = s.rqs c in record r { nr_running = add32 r.nr_running 1 })

unfoldable pub dec_nr_running : Sys → ℕ → Sys
dec_nr_running s c = put_rq s c (let r = s.rqs c in record r { nr_running = sub32 r.nr_running 1 })

unfoldable pub init_wrr_rq : WrrRq
init_wrr_rq = record { queue = []; wrr_nr_running = 0; total_weight = 0 }

unfoldable pub update_curr_wrr : Sys → ℕ → Sys
update_curr_wrr s c =
    let r = s.rqs c in
    let t = s.tasks r.curr in
    let diff = sub64 r.clock_task t.exec_start in
    let delta_exec : ℕ = if neg64 diff then 0 else diff in
    if is_wrr t.sched_class
    then put_task s r.curr (record t {
      exec_max = if ltb t.exec_max delta_exec then delta_exec else t.exec_max;
      sum_exec_runtime = add64 t.sum_exec_runtime delta_exec;
      exec_start = r.clock_task;
    })
    else s

-- An empty class hook.
abbrev pub no_hook : Sys → ℕ → ℕ → Sys
no_hook s c p = s

unfoldable pub pick_next_task_wrr : Sys → ℕ → Option ℕ
pick_next_task_wrr s c =
    let w = (s.rqs c).wrr in
    if w.wrr_nr_running == 0 then none else elim w.queue [ [] ↦ none | p ∷ _ ↦ some p ]

module _ (env : Env) where
  -- The least loaded cpu of a list, from a candidate and its load; both loads are `int`.
  unfoldable pub least_loaded : Sys → (ℕ → Bool) → ℕ → ℕ → List ℕ → ℕ
  least_loaded s allowed result minimum_weight [] = result
  least_loaded s allowed result minimum_weight (cpu ∷ cpus) =
      let temp = (s.rqs cpu).wrr.total_weight in
      let better = allowed cpu && lt_int temp minimum_weight in
      least_loaded s allowed (if better then cpu else result)
        (if better then temp else minimum_weight) cpus

  unfoldable pub select_task_rq_wrr : Sys → ℕ → ℕ → ℕ → ℕ
  unfolding least_loaded
  select_task_rq_wrr s p sd_flag flags =
      let t = s.tasks p in
      if t.wrr.nr_cpus_allowed == 1
      then t.cpu
      else least_loaded s t.cpus_allowed t.cpu (s.rqs t.cpu).wrr.total_weight env.online

  unfoldable pub enqueue_wrr_entity : Sys → ℕ → ℕ → Bool → Sys
  unfolding reclassify
  enqueue_wrr_entity s c p head =
      let e = reclassify env s p in
      let w = (s.rqs c).wrr in
      let queue' : List ℕ =
        if head then env.list_ops.list_add p w.queue else env.list_ops.list_add_tail p w.queue in
      put_wrr (put_entity s p e) c (record {
        queue = queue';
        wrr_nr_running = add32 w.wrr_nr_running 1;
        total_weight = add32 w.total_weight e.weight;
      })

  unfoldable pub dequeue_wrr_entity : Sys → ℕ → ℕ → Sys
  dequeue_wrr_entity s c p =
      let w = (s.rqs c).wrr in
      put_wrr s c (record {
        queue = env.list_ops.list_del_init p w.queue;
        wrr_nr_running = sub32 w.wrr_nr_running 1;
        total_weight = sub32 w.total_weight (s.tasks p).wrr.weight;
      })

  -- ENQUEUE_HEAD is 2.
  unfoldable pub enqueue_task_wrr : Sys → ℕ → ℕ → ℕ → Sys
  unfolding enqueue_wrr_entity inc_nr_running
  enqueue_task_wrr s c p flags =
      inc_nr_running (enqueue_wrr_entity s c p (not (bit_and flags 2 == 0))) c

  unfoldable pub dequeue_task_wrr : Sys → ℕ → ℕ → ℕ → Sys
  unfolding dequeue_wrr_entity dec_nr_running update_curr_wrr
  dequeue_task_wrr s c p flags = dec_nr_running (dequeue_wrr_entity (update_curr_wrr s c) c p) c

  unfoldable pub requeue_task_wrr : Sys → ℕ → ℕ → Bool → Sys
  requeue_task_wrr s c p head =
      let w = (s.rqs c).wrr in
      put_wrr s c (record w {
        queue =
            if head
            then env.list_ops.list_move p w.queue
            else env.list_ops.list_move_tail p w.queue;
      })

  unfoldable pub yield_task_wrr : Sys → ℕ → Sys
  unfolding requeue_task_wrr
  yield_task_wrr s c = requeue_task_wrr s c (s.rqs c).curr false

  unfoldable pub put_prev_task_wrr : Sys → ℕ → ℕ → Sys
  unfolding update_curr_wrr
  put_prev_task_wrr s c p =
      let s1 = update_curr_wrr s c in
      put_task s1 p (let t = s1.tasks p in record t { exec_start = 0 })

  -- The slice that is left after a tick, and the new slice when none is.
  unfoldable pub refill : WrrEntity → WrrEntity
  refill e = record e { time_slice = if e.weight == 1 then bg_timeslice env else fg_timeslice env }

  -- The part of task_tick_wrr that runs when the slice is used up.
  unfoldable pub expire_slice : Sys → ℕ → ℕ → Sys
  unfolding refill requeue_task_wrr resched_task has_neighbours
  expire_slice s c p =
      let s1 = put_entity s p (refill (s.tasks p).wrr) in
      if has_neighbours p (s1.rqs c).wrr.queue
      then resched_task (requeue_task_wrr s1 c p false) p
      else s1

  unfoldable pub task_tick_wrr : Sys → ℕ → ℕ → ℕ → Sys
  unfolding expire_slice update_curr_wrr
  task_tick_wrr s c p queued =
      let s1 = update_curr_wrr s c in
      let e = (s1.tasks p).wrr in
      let left = sub32 e.time_slice 1 in
      let s2 = put_entity s1 p (record e { time_slice = left }) in
      if left == 0 then expire_slice s2 c p else s2

  unfoldable pub set_curr_task_wrr : Sys → ℕ → Sys
  set_curr_task_wrr s c =
      let p = (s.rqs c).curr in
      put_task s p (let t = s.tasks p in record t { exec_start = (s.rqs c).clock_task })

  -- `rt_task(t)` is `t->prio < MAX_RT_PRIO`, and `task_rq(p)` the queue of `p`'s cpu.
  unfoldable pub switched_to_wrr : Sys → ℕ → ℕ → Sys
  unfolding resched_task
  switched_to_wrr s c p =
      let t = s.tasks p in
      let curr = (s.rqs c).curr in
      let s1 =
        if (c == t.cpu) && not (ltb (s.tasks curr).prio 100) then resched_task s curr else s in
      let e = (s1.tasks p).wrr in
      if t.on_rq && not (curr == p)
      then put_entity s1 p
          (record e { weight = if is_background env t.sched_task_group then 1 else 10 })
      else s

  unfoldable pub get_rr_interval_wrr : Sys → ℕ → ℕ → ℕ
  get_rr_interval_wrr s c p =
      if group_path env (s.tasks p).sched_task_group 1 == 0
      then fg_timeslice env
      else bg_timeslice env

  -- wrr_sched_class. Its SMP hooks and prio_changed are the empty functions of wrr.c.
  abbrev pub wrr_ops : ClassOps
  wrr_ops = record {
    enqueue_task = enqueue_task_wrr;
    dequeue_task = dequeue_task_wrr;
    yield_task = yield_task_wrr;
    check_preempt_curr = λ s c p f. s;
    pick_next_task = λ s c. (pick_next_task_wrr s c, s);
    put_prev_task = put_prev_task_wrr;
    pre_schedule = no_hook;
    post_schedule = λ s c. s;
    select_task_rq = select_task_rq_wrr;
    task_waking = λ s p. s;
    task_woken = no_hook;
    task_fork = λ s p. s;
    set_curr_task = set_curr_task_wrr;
    task_tick = task_tick_wrr;
    switched_from = no_hook;
    switched_to = switched_to_wrr;
    prio_changed = λ s c p o. s;
    get_rr_interval = get_rr_interval_wrr;
  }

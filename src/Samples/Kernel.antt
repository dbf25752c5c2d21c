-- ===== src/Samples/Kernel.antt =====
-- A machine with two cpus, whose other classes have no hooks, and a wrr queue with two tasks.
use android_kernel_programmi.Base.{
  Option, inr, inl, Bool-cases, ℕ, refl, true, false, none, some, [], ◌∷◌, ◌++◌, ◌==◌, ◌||◌, remove,
  arith, if◌then◌else◌, update,
}
use android_kernel_programmi.Base.Int.{pos}
use android_kernel_programmi.Kernel.State.{SchedClass, Task, Rq, Sys, weights}
use android_kernel_programmi.Wrr.Round.{Turning}
use android_kernel_programmi.Kernel.Env.{ClassOps, KeepsWrr, ListOps, Env}
use android_kernel_programmi.Wrr.Class.{no_hook}
use android_kernel_programmi.Wrr.Group.{is_background, group_path}
use android_kernel_programmi.Wrr.Inv.{SysOk, QueueOk}
use android_kernel_programmi.Sched.Inv.Good.{Good}
use android_kernel_programmi.Sched.Inv.Frames.{Frame-refl}

-- A class without hooks that has the task `next` to run, if any.
abbrev pub no_ops : Option ℕ → ClassOps
no_ops next = record {
  enqueue_task = λ s c p f. s;
  dequeue_task = λ s c p f. s;
  yield_task = λ s c. s;
  check_preempt_curr = λ s c p f. s;
  pick_next_task = λ s c. (next, s);
  put_prev_task = no_hook;
  pre_schedule = no_hook;
  post_schedule = λ s c. s;
  select_task_rq = λ s p d f. 0;
  task_waking = λ s p. s;
  task_woken = no_hook;
  task_fork = λ s p. s;
  set_curr_task = λ s c. s;
  task_tick = λ s c p f. s;
  switched_from = no_hook;
  switched_to = no_hook;
  prio_changed = λ s c p o. s;
  get_rr_interval = λ s c p. 0;
}

abbrev pub no_ops_keeps : (next : Option ℕ) → KeepsWrr (no_ops next)
no_ops_keeps next = record {
  enqueue_frame = λ s c p f. Frame-refl s;
  dequeue_frame = λ s c p f. Frame-refl s;
  dequeue_cpu = λ s c p f. refl;
  put_prev_cpu = λ s c p. refl;
  set_curr_cpu = λ s c p. refl;
  yield_frame = λ s c. Frame-refl s;
  preempt_frame = λ s c p f. Frame-refl s;
  pick_frame = λ s c. Frame-refl s;
  put_prev_frame = λ s c p. Frame-refl s;
  pre_frame = λ s c p. Frame-refl s;
  post_frame = λ s c. Frame-refl s;
  waking_frame = λ s p. Frame-refl s;
  woken_frame = λ s c p. Frame-refl s;
  fork_frame = λ s p. Frame-refl s;
  set_curr_frame = λ s c. Frame-refl s;
  tick_frame = λ s c p f. Frame-refl s;
  from_frame = λ s c p. Frame-refl s;
  to_frame = λ s c p. Frame-refl s;
  prio_frame = λ s c p f. Frame-refl s;
}

abbrev pub lists : ListOps
lists = record {
  list_add = λ p q. p ∷ q;
  list_add_tail = λ p q. q ++ (p ∷ []);
  list_del_init = remove;
  list_move = λ p q. p ∷ remove p q;
  list_move_tail = λ p q. remove p q ++ (p ∷ []);
  add_lem = λ p q h. refl;
  add_tail_lem = λ p q h. refl;
  del_lem = λ p q d h. refl;
  move_lem = λ p q d h. refl;
  move_tail_lem = λ p q d h. refl;
}

-- HZ is 100. Group 1 has the path "/bg", group 2 "/fg", any other "/".
abbrev pub machine : Env
machine = record {
  hz = 100;
  hz_large = omega arith;
  hz_small = omega arith;
  online = 0 ∷ 1 ∷ [];
  stack = λ i. 0;
  autogroup_path = λ tg buf. (false, buf);
  cgroup = λ tg. some tg;
  cgroup_path = λ cg buf. elim cg [
    | none ↦ buf
    | some g ↦ update buf 1 (if g == 1 then b'b' else if g == 2 then b'f' else 0)
  ];
  list_ops = lists;
  stop_ops = no_ops none;
  rt_ops = no_ops none;
  fair_ops = no_ops none;
  idle_ops = no_ops (some 0);
  stop_keeps = no_ops_keeps none;
  rt_keeps = no_ops_keeps none;
  fair_keeps = no_ops_keeps none;
  idle_keeps = no_ops_keeps (some 0);
  rt_mutex_getprio = λ s p. (s.tasks p).normal_prio;
  pi_blocked = λ p. false;
  rt_mutex_adjust_pi = λ s p. s;
  adjust_pi_lem = λ s p h. refl;
  idle_balance = λ s c. s;
  idle_balance_frame = λ s c. Frame-refl s;
  fallback_rq = λ s c p. 0;
  new_group = λ s p. 1;
}

-- Tasks 1 and 2 are runnable wrr tasks of cpu 0, the second in the background and with one tick
-- left. The others sleep, in the fair class.
abbrev pub task_at : ℕ → Task
task_at p = record {
  pid = p;
  state = if p == 1 || p == 2 then 0 else 1;
  flags = 0;
  has_mm = true;
  on_cpu = p == 1;
  on_rq = p == 1 || p == 2;
  prio = 120;
  static_prio = 120;
  normal_prio = 120;
  rt_priority = 0;
  policy = if p == 1 || p == 2 then 6 else 0;
  sched_reset_on_fork = false;
  sched_contributes_to_load = false;
  sched_class = if p == 1 || p == 2 then SchedClass.wrr else SchedClass.fair;
  wrr = record {
    weight = if p == 2 then 1 else 10;
    timeout = 0;
    time_slice = if p == 2 then 1 else 3;
    nr_cpus_allowed = 2;
  };
  exec_start = 0;
  sum_exec_runtime = 0;
  exec_max = 0;
  nr_migrations = 0;
  load_weight = 1024;
  cpu = 0;
  cpus_allowed = λ c. true;
  sched_task_group = if p == 2 then 1 else 2;
  need_resched = false;
  nivcsw = 0;
  nvcsw = 0;
}

abbrev pub rq_at : ℕ → Rq
rq_at c = record {
  nr_running = if c == 0 then 2 else 0;
  nr_uninterruptible = 0;
  nr_switches = 0;
  skip_clock_update = pos 0;
  cfs_h_nr_running = 0;
  wrr =
      if c == 0
      then record { queue = 1 ∷ 2 ∷ []; wrr_nr_running = 2; total_weight = 11 }
      else record { queue = []; wrr_nr_running = 0; total_weight = 0 };
  curr = if c == 0 then 1 else 0;
  idle = 0;
  stop = none;
  clock = 0;
  clock_task = 0;
  post_schedule = false;
}

abbrev pub two_tasks : Sys
two_tasks = record { tasks = task_at; rqs = rq_at; now = λ c. 5; other = 0 }

queue_at : (c : ℕ) → QueueOk (weights two_tasks) (rq_at c).wrr
queue_at c = elim (Bool-cases (c == 0)) [
  | inl e ↦ rw e record { no_dup = ground arith; count = ground arith; total = ground arith }
  | inr e ↦ rw e record { no_dup = ground arith; count = ground arith; total = ground arith }
]

pub two_tasks-SysOk : SysOk two_tasks
two_tasks-SysOk = record { queues = queue_at; apart = λ c d p h k. ground (arith, h, k) }

pub two_tasks-Good : Good machine two_tasks
unfolding is_background group_path
two_tasks-Good = record {
  sys = two_tasks-SysOk;
  placed = λ c p. ground arith;
  classified = λ c p h. ground (arith, h);
}

pub two_tasks-Turning : Turning two_tasks 0
two_tasks-Turning = record {
  ok = two_tasks-SysOk;
  short = omega arith;
  slices = λ p h. ground (arith, h);
}

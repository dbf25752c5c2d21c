-- ===== src/Kernel/Env.antt =====
-- What the model of the core and of wrr.c takes from elsewhere, as a parameter of every definition
-- that uses it: list.h, the cgroup code, the build's HZ, the set of online cpus, rtmutex.c, and the
-- scheduling classes other than wrr. The repository has no code for these but for rt.c, which Rt/
-- models apart, over a state of its own: here the real-time class stands as an assumption, `rt_ops`
-- with `rt_keeps`, as the other classes do.
use android_kernel_programmi.Base.{
  ℕ, ◌≤◌, ◌≡◌, Bool, true, false, Option, List, ◌∷◌, [], ◌++◌, has, NoDup, remove,
}
use android_kernel_programmi.Kernel.State.{SchedClass, Sys}

-- The hooks of a `struct sched_class` that the modelled code calls; a null hook does nothing.
pub record ClassOps : Type 0 where
  pub enqueue_task : Sys → (rq p flags : ℕ) → Sys
  pub dequeue_task : Sys → (rq p flags : ℕ) → Sys
  pub yield_task : Sys → (rq : ℕ) → Sys
  pub check_preempt_curr : Sys → (rq p flags : ℕ) → Sys
  pub pick_next_task : Sys → (rq : ℕ) → Option ℕ × Sys
  pub put_prev_task : Sys → (rq p : ℕ) → Sys
  pub pre_schedule : Sys → (rq p : ℕ) → Sys
  pub post_schedule : Sys → (rq : ℕ) → Sys
  pub select_task_rq : Sys → (p sd_flag flags : ℕ) → ℕ
  pub task_waking : Sys → (p : ℕ) → Sys
  pub task_woken : Sys → (rq p : ℕ) → Sys
  pub task_fork : Sys → (p : ℕ) → Sys
  pub set_curr_task : Sys → (rq : ℕ) → Sys
  pub task_tick : Sys → (rq p queued : ℕ) → Sys
  pub switched_from : Sys → (rq p : ℕ) → Sys
  pub switched_to : Sys → (rq p : ℕ) → Sys
  pub prio_changed : Sys → (rq p oldprio : ℕ) → Sys
  pub get_rr_interval : Sys → (rq p : ℕ) → ℕ

-- A step that leaves the wrr queues and the wrr side of every task as they are.
pub record Frame (s t : Sys) : Type 0 where
  pub rq_wrr : (c : ℕ) → (t.rqs c).wrr ≡ (s.rqs c).wrr
  pub task_wrr : (p : ℕ) → (t.tasks p).wrr ≡ (s.tasks p).wrr
  pub task_class : (p : ℕ) → (t.tasks p).sched_class ≡ (s.tasks p).sched_class
  pub task_group : (p : ℕ) → (t.tasks p).sched_task_group ≡ (s.tasks p).sched_task_group
  pub task_on_rq : (p : ℕ) → (t.tasks p).on_rq ≡ (s.tasks p).on_rq
  pub task_cpu :
      (p : ℕ) → (s.tasks p).sched_class ≡ SchedClass.wrr → (t.tasks p).cpu ≡ (s.tasks p).cpu

-- What the core relies on of another class: its hooks work on that class's own queues, and those
-- for dequeueing and for the running task migrate no task.
pub record KeepsWrr (o : ClassOps) : Type 0 where
  pub enqueue_frame : (s : Sys) (c p f : ℕ) → Frame s (o.enqueue_task s c p f)
  pub dequeue_frame : (s : Sys) (c p f : ℕ) → Frame s (o.dequeue_task s c p f)
  pub dequeue_cpu : (s : Sys) (c p f : ℕ) → ((o.dequeue_task s c p f).tasks p).cpu ≡ (s.tasks p).cpu
  pub put_prev_cpu : (s : Sys) (c p : ℕ) → ((o.put_prev_task s c p).tasks p).cpu ≡ (s.tasks p).cpu
  pub set_curr_cpu : (s : Sys) (c p : ℕ) → ((o.set_curr_task s c).tasks p).cpu ≡ (s.tasks p).cpu
  pub yield_frame : (s : Sys) (c : ℕ) → Frame s (o.yield_task s c)
  pub preempt_frame : (s : Sys) (c p f : ℕ) → Frame s (o.check_preempt_curr s c p f)
  pub pick_frame : (s : Sys) (c : ℕ) → Frame s (o.pick_next_task s c).1
  pub put_prev_frame : (s : Sys) (c p : ℕ) → Frame s (o.put_prev_task s c p)
  pub pre_frame : (s : Sys) (c p : ℕ) → Frame s (o.pre_schedule s c p)
  pub post_frame : (s : Sys) (c : ℕ) → Frame s (o.post_schedule s c)
  pub waking_frame : (s : Sys) (p : ℕ) → Frame s (o.task_waking s p)
  pub woken_frame : (s : Sys) (c p : ℕ) → Frame s (o.task_woken s c p)
  pub fork_frame : (s : Sys) (p : ℕ) → Frame s (o.task_fork s p)
  pub set_curr_frame : (s : Sys) (c : ℕ) → Frame s (o.set_curr_task s c)
  pub tick_frame : (s : Sys) (c p f : ℕ) → Frame s (o.task_tick s c p f)
  pub from_frame : (s : Sys) (c p : ℕ) → Frame s (o.switched_from s c p)
  pub to_frame : (s : Sys) (c p : ℕ) → Frame s (o.switched_to s c p)
  pub prio_frame : (s : Sys) (c p f : ℕ) → Frame s (o.prio_changed s c p f)

-- list.h, on the entries of a list in order. An entry is added only while it is off the list, and
-- moved or deleted only while it is on it, once.
pub record ListOps : Type 0 where
  pub list_add : ℕ → List ℕ → List ℕ
  pub list_add_tail : ℕ → List ℕ → List ℕ
  pub list_del_init : ℕ → List ℕ → List ℕ
  pub list_move : ℕ → List ℕ → List ℕ
  pub list_move_tail : ℕ → List ℕ → List ℕ
  pub add_lem : (p : ℕ) (q : List ℕ) → has p q ≡ false → list_add p q ≡ p ∷ q
  pub add_tail_lem : (p : ℕ) (q : List ℕ) → has p q ≡ false → list_add_tail p q ≡ q ++ (p ∷ [])
  pub del_lem : (p : ℕ) (q : List ℕ) → NoDup q → has p q ≡ true → list_del_init p q ≡ remove p q
  pub move_lem : (p : ℕ) (q : List ℕ) → NoDup q → has p q ≡ true → list_move p q ≡ p ∷ remove p q
  pub move_tail_lem :
      (p : ℕ) (q : List ℕ) → NoDup q → has p q ≡ true → list_move_tail p q ≡ remove p q ++ (p ∷ [])

-- `stack` is the uninitialised contents of a `char group_path[1024]`; the two path functions take
-- the buffer that they write to. `cgroup` is `tg->css.cgroup`, `none` the null pointer.
pub record Env : Type 0 where
  pub hz : ℕ
  pub hz_large : 100 ≤ hz
  pub hz_small : hz ≤ 1024
  pub online : List ℕ
  pub stack : ℕ → ℕ
  pub autogroup_path : ℕ → (ℕ → ℕ) → Bool × (ℕ → ℕ)
  pub cgroup : ℕ → Option ℕ
  pub cgroup_path : Option ℕ → (ℕ → ℕ) → ℕ → ℕ
  pub list_ops : ListOps
  pub stop_ops : ClassOps
  pub rt_ops : ClassOps
  pub fair_ops : ClassOps
  pub idle_ops : ClassOps
  pub stop_keeps : KeepsWrr stop_ops
  pub rt_keeps : KeepsWrr rt_ops
  pub fair_keeps : KeepsWrr fair_ops
  pub idle_keeps : KeepsWrr idle_ops
  -- rtmutex.c: the priority of a task with its waiters, and the walk of the lock chain, which does
  -- nothing for a task that waits for no lock.
  pub rt_mutex_getprio : Sys → ℕ → ℕ
  pub pi_blocked : ℕ → Bool
  pub rt_mutex_adjust_pi : Sys → ℕ → Sys
  pub adjust_pi_lem : (s : Sys) (p : ℕ) → pi_blocked p ≡ false → rt_mutex_adjust_pi s p ≡ s
  -- fair.c, called when a run queue is empty, and the cpu that select_fallback_rq finds.
  pub idle_balance : Sys → ℕ → Sys
  pub idle_balance_frame : (s : Sys) (c : ℕ) → Frame s (idle_balance s c)
  pub fallback_rq : Sys → ℕ → ℕ → ℕ
  -- `container_of(task_subsys_state_check(…))` and autogroup_task_group, for sched_move_task.
  pub new_group : Sys → ℕ → ℕ

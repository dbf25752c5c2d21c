-- ===== src/Sched/Preempt.antt =====
-- Preemption by class, a change of class, and the choice of the next task.
use android_kernel_programmi.Base.{
  ℕ, Bool, true, false, Option, none, some, List, [], ◌∷◌, ◌==◌, ◌&&◌, ◌||◌, not, if◌then◌else◌,
}
use android_kernel_programmi.Base.Int.{pos, is_neg}
use android_kernel_programmi.Kernel.State.{SchedClass, Sys, put_rq}
use android_kernel_programmi.Kernel.Env.{Env}
use android_kernel_programmi.Wrr.Class.{resched_task}
use android_kernel_programmi.Sched.Queue.{class_ops, ops_of, class_eq, class_list, update_rq_clock}

-- The `for_each_class` loop of check_preempt_curr: is `new` found before `running`?
unfoldable pub found_before : SchedClass → SchedClass → List SchedClass → Bool
found_before new running [] = false
found_before new running (k ∷ ks) =
    if class_eq k running
    then false
    else if class_eq k new
    then true
    else found_before new running ks

module _ (env : Env) where
  unfoldable pub check_preempt_curr : Sys → ℕ → ℕ → ℕ → Sys
  unfolding found_before resched_task
  check_preempt_curr s c p flags =
      let curr = (s.rqs c).curr in
      let running = (s.tasks curr).sched_class in
      let new = (s.tasks p).sched_class in
      let s1 =
        if class_eq new running
        then (class_ops env running).check_preempt_curr s c p flags
        else if found_before new running class_list
        then resched_task s curr
        else s in
      let r = s1.rqs c in
      let t = s1.tasks r.curr in
      if t.on_rq && t.need_resched then put_rq s1 c (record r { skip_clock_update = pos 1 }) else s1

  unfoldable pub check_class_changed : Sys → ℕ → ℕ → SchedClass → ℕ → Sys
  check_class_changed s c p prev_class oldprio =
      let t = s.tasks p in
      if not (class_eq prev_class t.sched_class)
      then (let s1 = (class_ops env prev_class).switched_from s c p in
          (ops_of env s1 p).switched_to s1 c p)
      else if not (oldprio == t.prio)
      then (ops_of env s p).prio_changed s c p oldprio
      else s

  unfoldable pub put_prev_task : Sys → ℕ → ℕ → Sys
  put_prev_task s c prev =
      let s1 =
        if (s.tasks prev).on_rq || is_neg (s.rqs c).skip_clock_update
        then update_rq_clock s c
        else s in
      (ops_of env s prev).put_prev_task s1 c prev

  -- The loop of pick_next_task; `none` is the BUG() behind it.
  unfoldable pub pick_in : List SchedClass → Sys → ℕ → Option ℕ × Sys
  pick_in [] s c = (none, s)
  pick_in (k ∷ ks) s c =
      let (p, s1) = (class_ops env k).pick_next_task s c in
      let rest = pick_in ks s1 c in elim p [ none ↦ rest | some q ↦ (some q, s1) ]

  unfoldable pub pick_next_task : Sys → ℕ → Option ℕ × Sys
  pick_next_task s c =
      let r = s.rqs c in
      let (p, s1) = env.fair_ops.pick_next_task s c in
      if r.nr_running == r.cfs_h_nr_running
      then (elim p [ none ↦ pick_in class_list s1 c | some q ↦ (some q, s1) ])
      else pick_in class_list s c

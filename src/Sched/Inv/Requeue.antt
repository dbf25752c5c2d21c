-- ===== src/Sched/Inv/Requeue.antt =====
-- The operations of core.c that take a task off its queue and put it back.
use android_kernel_programmi.Base.{ℕ, refl, Bool, ◌==◌, Bool-cases, inl, inr}
use android_kernel_programmi.Kernel.State.{Sys}
use android_kernel_programmi.Kernel.Env.{Env}
use android_kernel_programmi.Sched.Setscheduler.{setscheduler, change_policy}
use android_kernel_programmi.Sched.Move.{sched_move_task, rt_mutex_setprio}
use android_kernel_programmi.Sched.Inv.Good.{Good}
use android_kernel_programmi.Sched.Inv.Parts.{
  Held, check_class_changed-Good, take_off, give_up, take_up, change, put_back,
}

module _ (env : Env) where
  pub setscheduler-Held :
      (s : Sys) (p policy prio : ℕ) (b : Bool) (c : ℕ)
      → Held env s p b c
      → Held env (setscheduler env s p policy prio) p b c
  unfolding setscheduler
  setscheduler-Held s p policy prio b c h = change env s p _ b c refl refl h

  -- Changing the policy of a task keeps the invariant.
  pub change_policy-Good :
      (s : Sys) (p policy priority : ℕ) (reset : Bool)
      → Good env s
      → Good env (change_policy env s p policy priority reset)
  unfolding change_policy
  change_policy-Good s p policy priority reset g =
      let c = (s.tasks p).cpu in
      let b = (s.tasks p).on_rq in
      let running = (s.rqs c).curr == p in
      let h1 = take_off env s p b c refl refl g in
      let h2 = give_up env _ p running b c h1 in
      let h3 = change env _ p _ b c refl refl h2 in
      let h4 = setscheduler-Held _ p policy priority b c h3 in
      let h5 = take_up env _ p running b c h4 in
      check_class_changed-Good env _ c p _ _ (put_back env _ p b c 0 h5)

  -- Moving a task to another group keeps the wrr queues well formed, each with exactly the runnable
  -- wrr tasks of its cpu, and a moved task on a queue has the weight of its new group.
  pub sched_move_task-Good : (s : Sys) (p : ℕ) → Good env s → Good env (sched_move_task env s p)
  unfolding sched_move_task
  sched_move_task-Good s p g =
      let c = (s.tasks p).cpu in
      let b = (s.tasks p).on_rq in
      let running = (s.rqs c).curr == p in
      let h1 = take_off env s p b c refl refl g in
      let h2 = give_up env _ p running b c h1 in
      let h3 = change env _ p _ b c refl refl h2 in
      let h4 = take_up env _ p running b c h3 in put_back env _ p b c 0 h4

  -- Boosting or unboosting a task by the priority inheritance of rt mutexes keeps the wrr queues
  -- well formed, each with exactly the runnable wrr tasks of its cpu at the weights of their groups.
  pub rt_mutex_setprio-Good :
      (s : Sys) (p prio : ℕ) → Good env s → Good env (rt_mutex_setprio env s p prio)
  unfolding rt_mutex_setprio
  rt_mutex_setprio-Good s p prio g =
      let c = (s.tasks p).cpu in
      let b = (s.tasks p).on_rq in
      let running = (s.rqs c).curr == p in
      let h1 = take_off env s p b c refl refl g in
      let h2 = give_up env _ p running b c h1 in
      let h3 = change env _ p _ b c refl refl h2 in
      let h4 = take_up env _ p running b c h3 in
      let g5 = check_class_changed-Good env _ c p _ _ (put_back env _ p b c _ h4) in
      elim (Bool-cases (p == (s.rqs c).idle)) [ inl e ↦ rw e g | inr e ↦ rw e g5 ]

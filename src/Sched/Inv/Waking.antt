-- ===== src/Sched/Inv/Waking.antt =====
-- The parts of a wake-up and the invariant.
use android_kernel_programmi.Sched.Queue.{
  update_rq_clock, task_contributes_to_load, class_eq, class_list, enqueue_task, activate_task,
  class_ops,
}
use android_kernel_programmi.Base.Int.{pos}
use android_kernel_programmi.Sched.Inv.Dispatch.{clocked-Seat}
use android_kernel_programmi.Sched.Preempt.{found_before, check_preempt_curr}
use android_kernel_programmi.Sched.Wake.{ttwu_activate, ttwu_do_wakeup}
use android_kernel_programmi.Wrr.Class.{resched_task, enqueue_task_wrr, is_wrr}
use android_kernel_programmi.Sched.Inv.Frames.{
  Frame-refl, Frame-trans, put_rq-Frame, put_task-Frame, update_rq_clock-Frame, resched_task-Frame,
  preempt-Frame,
}
use android_kernel_programmi.Base.{
  ◌&&◌, if◌then◌else◌, Bool-cases, inl, inr, ◌∙◌, Bool, refl, ℕ, ◌≡◌, ap, true, false, arith,
}
use android_kernel_programmi.Kernel.State.{SchedClass, Sys, put_task}
use android_kernel_programmi.Kernel.Env.{Env, Frame, ClassOps, KeepsWrr}
use android_kernel_programmi.Sched.Inv.Good.{Good, Off, Frame-Good, Frame-Off}
use android_kernel_programmi.Sched.Inv.Steps.{Off-Good, enqueue_task_wrr-Good}
use android_kernel_programmi.Sched.Inv.Parts.{put_task-Off}

-- `p->on_rq = 1`
abbrev set_on_rq : Sys → ℕ → Sys
set_on_rq s p = put_task s p (let t = s.tasks p in record t { on_rq = true })

module _ (env : Env) (s : Sys) (c p flags : ℕ) (at_c : (s.tasks p).cpu ≡ c) (un : Off env s p) where
  -- Setting on_rq after the enqueue is as good as setting it before.
  swap-Frame :
      Frame
        (enqueue_task_wrr env (set_on_rq s p) c p flags)
        (set_on_rq (enqueue_task_wrr env s c p flags) p)
  unfolding enqueue_task_wrr
  swap-Frame = record {
    rq_wrr = λ d. ground arith;
    task_wrr = λ q. ground arith;
    task_class = λ q. ground arith;
    task_group = λ q. ground arith;
    task_on_rq = λ q. ground arith;
    task_cpu = λ q h. ground arith;
  }

  wrr-Good :
      (s.tasks p).sched_class ≡ SchedClass.wrr
      → Good env (set_on_rq (enqueue_task_wrr env s c p flags) p)
  wrr-Good e = Frame-Good env (enqueue_task_wrr env (set_on_rq s p) c p flags) _ swap-Frame (
      enqueue_task_wrr-Good env (set_on_rq s p) c p flags (ground arith) (ground (arith, at_c))
        (put_task-Off env s p _ un) (ground (arith, e)))

  other-Good :
      (o : ClassOps)
      → KeepsWrr o
      → is_wrr (s.tasks p).sched_class ≡ false
      → Good env (set_on_rq (o.enqueue_task s c p flags) p)
  other-Good o k e =
      let t = o.enqueue_task s c p flags in
      let f = k.enqueue_frame s c p flags in
      Off-Good env (set_on_rq t p) p (λ d. ground (arith, f.task_class p, e))
        (put_task-Off env t p _ (Frame-Off env s t f p un))

  enqueue_by-Good :
      (k : SchedClass)
      → (s.tasks p).sched_class ≡ k
      → Good env (set_on_rq ((class_ops env k).enqueue_task s c p flags) p)
  enqueue_by-Good SchedClass.wrr e = wrr-Good e
  enqueue_by-Good SchedClass.stop e = other-Good env.stop_ops env.stop_keeps (ap is_wrr e)
  enqueue_by-Good SchedClass.rt e = other-Good env.rt_ops env.rt_keeps (ap is_wrr e)
  enqueue_by-Good SchedClass.fair e = other-Good env.fair_ops env.fair_keeps (ap is_wrr e)
  enqueue_by-Good SchedClass.idle e = other-Good env.idle_ops env.idle_keeps (ap is_wrr e)

module _ (env : Env) where
  enqueued-Good :
      (s : Sys) (c p flags : ℕ)
      → (s.tasks p).cpu ≡ c
      → Off env s p
      → Good env (set_on_rq (enqueue_task env s c p flags) p)
  unfolding enqueue_task
  enqueued-Good s c p flags e un =
      let seat = clocked-Seat env s c p flags in
      enqueue_by-Good env (update_rq_clock s c) c p flags (seat.cpu ∙ e)
        (Frame-Off env s _ (update_rq_clock-Frame s c) p un) (s.tasks p).sched_class seat.class

  -- A task that is activated on its cpu, and marked runnable, completes the invariant.
  pub activated-Good :
      (s : Sys) (c p flags : ℕ)
      → (s.tasks p).cpu ≡ c
      → Off env s p
      → Good env (set_on_rq (activate_task env s c p flags) p)
  unfolding activate_task
  activated-Good s c p flags e un = elim (Bool-cases (task_contributes_to_load (s.tasks p))) [
    | inl h ↦ rw h (enqueued-Good _ c p flags e (Frame-Off env s _ (put_rq-Frame s c _ refl) p un))
    | inr h ↦ rw h (enqueued-Good s c p flags e un)
  ]

  pub task_woken-Frame :
      (s : Sys) (c p : ℕ) (k : SchedClass) → Frame s ((class_ops env k).task_woken s c p)
  task_woken-Frame s c p SchedClass.stop = env.stop_keeps.woken_frame s c p
  task_woken-Frame s c p SchedClass.rt = env.rt_keeps.woken_frame s c p
  task_woken-Frame s c p SchedClass.wrr = Frame-refl s
  task_woken-Frame s c p SchedClass.fair = env.fair_keeps.woken_frame s c p
  task_woken-Frame s c p SchedClass.idle = env.idle_keeps.woken_frame s c p

  pub task_waking-Frame :
      (s : Sys) (p : ℕ) (k : SchedClass) → Frame s ((class_ops env k).task_waking s p)
  task_waking-Frame s p SchedClass.stop = env.stop_keeps.waking_frame s p
  task_waking-Frame s p SchedClass.rt = env.rt_keeps.waking_frame s p
  task_waking-Frame s p SchedClass.wrr = Frame-refl s
  task_waking-Frame s p SchedClass.fair = env.fair_keeps.waking_frame s p
  task_waking-Frame s p SchedClass.idle = env.idle_keeps.waking_frame s p

  pub Frame-if : (s t u : Sys) (b : Bool) → Frame s t → Frame s u → Frame s (if b then t else u)
  Frame-if s t u true f g = f
  Frame-if s t u false f g = g

  -- check_preempt_curr moves nothing.
  pub check_preempt_curr-Frame :
      (s : Sys) (c p flags : ℕ) → Frame s (check_preempt_curr env s c p flags)
  unfolding check_preempt_curr
  check_preempt_curr-Frame s c p flags =
      let curr = (s.rqs c).curr in
      let running = (s.tasks curr).sched_class in
      let new = (s.tasks p).sched_class in
      let s1 =
        if class_eq new running
        then (class_ops env running).check_preempt_curr s c p flags
        else if found_before new running class_list
        then resched_task s curr
        else s in
      let f1 : Frame s s1 =
        Frame-if s _ _ (class_eq new running) (preempt-Frame env s c running p flags) (
          Frame-if s _ _ (found_before new running class_list) (resched_task-Frame s curr)
            (Frame-refl s)) in
      let r = s1.rqs c in
      let t = s1.tasks r.curr in
      Frame-if s _ s1 (t.on_rq && t.need_resched)
        (Frame-trans s s1 _ f1 (put_rq-Frame s1 c (record r { skip_clock_update = pos 1 }) refl)) f1

  -- ttwu_activate and ttwu_do_wakeup complete the wake-up of a task on its cpu.
  pub ttwu_activate-Good :
      (s : Sys) (c p flags : ℕ)
      → (s.tasks p).cpu ≡ c
      → Off env s p
      → Good env (ttwu_activate env s c p flags)
  unfolding ttwu_activate
  ttwu_activate-Good = activated-Good

  pub ttwu_do_wakeup-Good :
      (s : Sys) (c p flags : ℕ) → Good env s → Good env (ttwu_do_wakeup env s c p flags)
  unfolding ttwu_do_wakeup
  ttwu_do_wakeup-Good s c p flags g =
      let s1 = check_preempt_curr env s c p flags in
      let s2 = put_task s1 p (let t = s1.tasks p in record t { state = 0 }) in
      let g1 = Frame-Good env s s1 (check_preempt_curr-Frame s c p flags) g in
      let g2 = Frame-Good env s1 s2 (put_task-Frame s1 p _ refl refl refl refl refl) g1 in
      Frame-Good env s2 _ (task_woken-Frame s2 c p (s2.tasks p).sched_class) g2

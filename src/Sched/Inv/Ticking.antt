-- ===== src/Sched/Inv/Ticking.antt =====
-- The timer tick and the invariant.
use android_kernel_programmi.Base.{
  ℕ, refl, ◌≡◌, ◌∙◌, sym, ap, subst, true, false, List, [], ◌∷◌, ◌++◌, has, has-append,
  has-remove_ne, NoDup, remove, arith, ◌==◌, ==_iff, Bool-cases, inl, inr,
}
use android_kernel_programmi.Kernel.State.{SchedClass, Sys, queue_of}
use android_kernel_programmi.Wrr.Hooks.{task_tick_wrr-SysOk}
use android_kernel_programmi.Wrr.Tick.{weights-task_tick_wrr}
use android_kernel_programmi.Sched.Queue.{class_ops, update_rq_clock}
use android_kernel_programmi.Sched.Schedule.{scheduler_tick}
use android_kernel_programmi.Sched.Inv.Good.{Good, Frame-Good, placed_at}
use android_kernel_programmi.Sched.Inv.Frames.{update_rq_clock-Frame}
use android_kernel_programmi.Sched.Inv.Dispatch.{clocked-Seat}
use android_kernel_programmi.Sched.Inv.Balance.{pull_wrr_task-Good}
use android_kernel_programmi.Kernel.Env.{Env}
use android_kernel_programmi.Wrr.Class.{task_tick_wrr}
use android_kernel_programmi.Wrr.Quiet.{update_curr_wrr-quiet}
use android_kernel_programmi.Wrr.Switch.{group_weight}

-- Moving an entry to the end keeps the members.
has-rotated : (p q : ℕ) (xs : List ℕ) → has p xs ≡ true → has q (remove p xs ++ (p ∷ [])) ≡ has q xs
has-rotated p q xs h = ground (arith, has-append q (remove p xs) (p ∷ []), has-remove_ne p q xs, h)

module _ (env : Env) (s : Sys) (c p queued : ℕ) where
  class-tick :
      (q : ℕ) → ((task_tick_wrr env s c p queued).tasks q).sched_class ≡ (s.tasks q).sched_class
  unfolding task_tick_wrr
  class-tick q = ground arith

  on_rq-tick : (q : ℕ) → ((task_tick_wrr env s c p queued).tasks q).on_rq ≡ (s.tasks q).on_rq
  unfolding task_tick_wrr
  on_rq-tick q = ground arith

  cpu-tick : (q : ℕ) → ((task_tick_wrr env s c p queued).tasks q).cpu ≡ (s.tasks q).cpu
  unfolding task_tick_wrr
  cpu-tick q = ground arith

  seat-tick :
      (q d : ℕ) → placed_at ((task_tick_wrr env s c p queued).tasks q) d ≡ placed_at (s.tasks q) d
  seat-tick q d = rw (class-tick q, on_rq-tick q, cpu-tick q) refl

  group-tick : (q : ℕ) → group_weight env (task_tick_wrr env s c p queued) q ≡ group_weight env s q
  unfolding task_tick_wrr
  group-tick q = ground arith

  module _ (on : has p (queue_of s c) ≡ true) (d : NoDup (queue_of s c)) where
    has-tick_self :
        (q : ℕ) → has q (queue_of (task_tick_wrr env s c p queued) c) ≡ has q (queue_of s c)
    unfolding task_tick_wrr
    has-tick_self q = ground (
      arith,
      update_curr_wrr-quiet s c c,
      env.list_ops.move_tail_lem p (queue_of s c) d on,
      has-rotated p q (queue_of s c) on,
    )

  queue-tick_ne :
      (d : ℕ) → (c == d) ≡ false → queue_of (task_tick_wrr env s c p queued) d ≡ queue_of s d
  unfolding task_tick_wrr
  queue-tick_ne d ne = ground (arith, update_curr_wrr-quiet s c d)

module _ (env : Env) (s : Sys) (c p queued : ℕ) (on : has p (queue_of s c) ≡ true)
    (g : Good env s) where
  has-tick : (d q : ℕ) → has q (queue_of (task_tick_wrr env s c p queued) d) ≡ has q (queue_of s d)
  has-tick d q = elim (Bool-cases (c == d)) [
    | inl e ↦
        subst (λ x. has q (queue_of (task_tick_wrr env s c p queued) x) ≡ has q (queue_of s x))
          ((==_iff c d).0 e) (has-tick_self env s c p queued on (g.sys.queues c).no_dup q)
    | inr e ↦ ap (has q) (queue-tick_ne env s c p queued d e)
  ]

  task_tick_wrr-Good : Good env (task_tick_wrr env s c p queued)
  task_tick_wrr-Good = record {
    sys = task_tick_wrr-SysOk env s c p g.sys on queued;
    placed = λ d q. has-tick d q ∙ g.placed d q ∙ sym (seat-tick env s c p queued q d);
    classified = λ d q h.
        weights-task_tick_wrr env s c p queued q
        ∙ g.classified d q (sym (has-tick d q) ∙ h)
        ∙ sym (group-tick env s c p queued q);
  }

module _ (env : Env) where
  task_tick-Good :
      (s : Sys) (c p : ℕ) (k : SchedClass)
      → (s.tasks p).sched_class ≡ k
      → (s.tasks p).on_rq ≡ true
      → (s.tasks p).cpu ≡ c
      → Good env s
      → Good env ((class_ops env k).task_tick s c p 0)
  task_tick-Good s c p SchedClass.stop e r a g =
      Frame-Good env s _ (env.stop_keeps.tick_frame s c p 0) g
  task_tick-Good s c p SchedClass.rt e r a g =
      Frame-Good env s _ (env.rt_keeps.tick_frame s c p 0) g
  task_tick-Good s c p SchedClass.wrr e r a g =
      task_tick_wrr-Good env s c p 0 (g.placed c p ∙ ground (arith, e, r, a)) g
  task_tick-Good s c p SchedClass.fair e r a g =
      Frame-Good env s _ (env.fair_keeps.tick_frame s c p 0) g
  task_tick-Good s c p SchedClass.idle e r a g =
      Frame-Good env s _ (env.idle_keeps.tick_frame s c p 0) g

  curr-update_rq_clock : (s : Sys) (c : ℕ) → ((update_rq_clock s c).rqs c).curr ≡ (s.rqs c).curr
  unfolding update_rq_clock
  curr-update_rq_clock s c = ground arith

  -- The timer interrupt of a cpu keeps the wrr queues well formed, each with exactly the runnable
  -- wrr tasks of its cpu at the weights of their groups, also when it pulls a task from another
  -- cpu. The running task is on a queue of this cpu.
  pub scheduler_tick-Good :
      (s : Sys) (cpu : ℕ)
      → (s.tasks (s.rqs cpu).curr).on_rq ≡ true
      → (s.tasks (s.rqs cpu).curr).cpu ≡ cpu
      → Good env s
      → Good env (scheduler_tick env s cpu)
  unfolding scheduler_tick
  scheduler_tick-Good s cpu r a g =
      let s1 = update_rq_clock s cpu in
      let p = (s1.rqs cpu).curr in
      let e = curr-update_rq_clock s cpu in
      let seat = clocked-Seat env s cpu p 0 in
      let g1 = Frame-Good env s s1 (update_rq_clock-Frame s cpu) g in
      let on_rq1 = seat.on_rq ∙ ap (λ q. (s.tasks q).on_rq) e ∙ r in
      let cpu1 = seat.cpu ∙ ap (λ q. (s.tasks q).cpu) e ∙ a in
      let g2 = task_tick-Good s1 cpu p (s1.tasks p).sched_class refl on_rq1 cpu1 g1 in
      elim (Bool-cases (
        ((((class_ops env (s1.tasks p).sched_class).task_tick s1 cpu p 0).rqs
          cpu).wrr.wrr_nr_running)
        == 0)) [ inl h ↦ rw h (pull_wrr_task-Good env _ cpu g2) | inr h ↦ rw h g2 ]

-- ===== src/Sched/Inv/Dispatch.antt =====
-- enqueue_task and dequeue_task of core.c, whatever the class of the task.
use android_kernel_programmi.Base.{ℕ, ◌≡◌, refl, ◌∙◌, ap, true, false, arith}
use android_kernel_programmi.Kernel.State.{SchedClass, Sys}
use android_kernel_programmi.Kernel.Env.{Env, Frame, ClassOps, KeepsWrr}
use android_kernel_programmi.Wrr.Class.{is_wrr, dequeue_task_wrr}
use android_kernel_programmi.Sched.Queue.{update_rq_clock, class_ops, enqueue_task, dequeue_task}
use android_kernel_programmi.Sched.Inv.Good.{Good, Off, Frame-Good, Frame-Off}
use android_kernel_programmi.Sched.Inv.Frames.{update_rq_clock-Frame}
use android_kernel_programmi.Sched.Inv.Steps.{
  Good-Off, Off-Good, dequeue_task_wrr-Off, enqueue_task_wrr-Good,
}

-- What a step keeps of the task itself.
pub record Seat (s t : Sys) (p : ℕ) : Type 0 where
  pub on_rq : (t.tasks p).on_rq ≡ (s.tasks p).on_rq
  pub cpu : (t.tasks p).cpu ≡ (s.tasks p).cpu
  pub class : (t.tasks p).sched_class ≡ (s.tasks p).sched_class

pub Seat-trans : (s t u : Sys) (p : ℕ) → Seat s t p → Seat t u p → Seat s u p
Seat-trans s t u p a b = record {
  on_rq = b.on_rq ∙ a.on_rq;
  cpu = b.cpu ∙ a.cpu;
  class = b.class ∙ a.class;
}

pub Seat-refl : (s : Sys) (p : ℕ) → Seat s s p
Seat-refl s p = record { on_rq = refl; cpu = refl; class = refl }

tasks-update_rq_clock : (s : Sys) (c : ℕ) → (update_rq_clock s c).tasks ≡ s.tasks
unfolding update_rq_clock
tasks-update_rq_clock s c = ground arith

pub Frame-Seat : (s t : Sys) (p : ℕ) → Frame s t → (t.tasks p).cpu ≡ (s.tasks p).cpu → Seat s t p
Frame-Seat s t p f e = record { on_rq = f.task_on_rq p; cpu = e; class = f.task_class p }

dequeue_task_wrr-Seat :
    (env : Env) (s : Sys) (c p flags : ℕ) → Seat s (dequeue_task_wrr env s c p flags) p
unfolding dequeue_task_wrr
dequeue_task_wrr-Seat env s c p flags = record {
  on_rq = ground arith;
  cpu = ground arith;
  class = ground arith;
}

module _ (env : Env) (s : Sys) (c p flags : ℕ) where
  abbrev pub clocked : Sys
  clocked = update_rq_clock s c

  same_task : clocked.tasks p ≡ s.tasks p
  same_task = ap (λ f. f p) (tasks-update_rq_clock s c)

  pub clocked-Seat : Seat s clocked p
  clocked-Seat = record {
    on_rq = ap (λ t. t.on_rq) same_task;
    cpu = ap (λ t. t.cpu) same_task;
    class = ap (λ t. t.sched_class) same_task;
  }

  other-Seat : (o : ClassOps) → KeepsWrr o → Seat s (o.dequeue_task clocked c p flags) p
  other-Seat o k =
      let t = o.dequeue_task clocked c p flags in
      Seat-trans s clocked t p clocked-Seat (
        Frame-Seat clocked t p (k.dequeue_frame clocked c p flags)
          (k.dequeue_cpu clocked c p flags))

  dequeue_by-Seat : (k : SchedClass) → Seat s ((class_ops env k).dequeue_task clocked c p flags) p
  dequeue_by-Seat SchedClass.wrr =
      Seat-trans s clocked (dequeue_task_wrr env clocked c p flags) p clocked-Seat
        (dequeue_task_wrr-Seat env clocked c p flags)
  dequeue_by-Seat SchedClass.stop = other-Seat env.stop_ops env.stop_keeps
  dequeue_by-Seat SchedClass.rt = other-Seat env.rt_ops env.rt_keeps
  dequeue_by-Seat SchedClass.fair = other-Seat env.fair_ops env.fair_keeps
  dequeue_by-Seat SchedClass.idle = other-Seat env.idle_ops env.idle_keeps

  pub dequeue_task-Seat : Seat s (dequeue_task env s c p flags) p
  unfolding dequeue_task
  dequeue_task-Seat = dequeue_by-Seat (s.tasks p).sched_class

  module _ (runnable : (s.tasks p).on_rq ≡ true) (at_c : (s.tasks p).cpu ≡ c) where
    other-Off :
        (o : ClassOps)
        → KeepsWrr o
        → is_wrr (s.tasks p).sched_class ≡ false
        → Good env s
        → Off env (o.dequeue_task clocked c p flags) p
    other-Off o k e g =
        Frame-Off env clocked (o.dequeue_task clocked c p flags) (k.dequeue_frame clocked c p flags)
          p
          (Good-Off env clocked p (λ d. ground (arith, e, clocked-Seat))
            (Frame-Good env s clocked (update_rq_clock-Frame s c) g))

    dequeue_by-Off :
        (k : SchedClass)
        → (s.tasks p).sched_class ≡ k
        → Good env s
        → Off env ((class_ops env k).dequeue_task clocked c p flags) p
    dequeue_by-Off SchedClass.wrr e g =
        dequeue_task_wrr-Off env clocked c p flags (clocked-Seat.on_rq ∙ runnable)
          (clocked-Seat.cpu ∙ at_c) (Frame-Good env s clocked (update_rq_clock-Frame s c) g)
          (clocked-Seat.class ∙ e)
    dequeue_by-Off SchedClass.stop e g = other-Off env.stop_ops env.stop_keeps (ap is_wrr e) g
    dequeue_by-Off SchedClass.rt e g = other-Off env.rt_ops env.rt_keeps (ap is_wrr e) g
    dequeue_by-Off SchedClass.fair e g = other-Off env.fair_ops env.fair_keeps (ap is_wrr e) g
    dequeue_by-Off SchedClass.idle e g = other-Off env.idle_ops env.idle_keeps (ap is_wrr e) g

    -- A runnable task that is dequeued from its cpu is on no wrr queue.
    pub dequeue_task-Off : Good env s → Off env (dequeue_task env s c p flags) p
    unfolding dequeue_task
    dequeue_task-Off g = dequeue_by-Off (s.tasks p).sched_class refl g

    other-Good :
        (o : ClassOps)
        → KeepsWrr o
        → is_wrr (s.tasks p).sched_class ≡ false
        → Off env s p
        → Good env (o.enqueue_task clocked c p flags)
    other-Good o k e un =
        Frame-Good env clocked (o.enqueue_task clocked c p flags)
          (k.enqueue_frame clocked c p flags)
          (Off-Good env clocked p (λ d. ground (arith, e, clocked-Seat))
            (Frame-Off env s clocked (update_rq_clock-Frame s c) p un))

    enqueue_by-Good :
        (k : SchedClass)
        → (s.tasks p).sched_class ≡ k
        → Off env s p
        → Good env ((class_ops env k).enqueue_task clocked c p flags)
    enqueue_by-Good SchedClass.wrr e un =
        enqueue_task_wrr-Good env clocked c p flags (clocked-Seat.on_rq ∙ runnable)
          (clocked-Seat.cpu ∙ at_c) (Frame-Off env s clocked (update_rq_clock-Frame s c) p un)
          (clocked-Seat.class ∙ e)
    enqueue_by-Good SchedClass.stop e un = other-Good env.stop_ops env.stop_keeps (ap is_wrr e) un
    enqueue_by-Good SchedClass.rt e un = other-Good env.rt_ops env.rt_keeps (ap is_wrr e) un
    enqueue_by-Good SchedClass.fair e un = other-Good env.fair_ops env.fair_keeps (ap is_wrr e) un
    enqueue_by-Good SchedClass.idle e un = other-Good env.idle_ops env.idle_keeps (ap is_wrr e) un

    -- A runnable task that is enqueued on its cpu completes the invariant.
    pub enqueue_task-Good : Off env s p → Good env (enqueue_task env s c p flags)
    unfolding enqueue_task
    enqueue_task-Good un = enqueue_by-Good (s.tasks p).sched_class refl un

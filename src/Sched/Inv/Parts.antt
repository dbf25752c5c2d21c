-- ===== src/Sched/Inv/Parts.antt =====
-- A change of class, and the parts of a requeue: off the queue, changed, and back.
use android_kernel_programmi.Base.{
  ℕ, ◌≡◌, refl, ◌∙◌, ap, Bool, true, false, arith, ◌==◌, if◌then◌else◌, Bool-cases, inl, inr,
}
use android_kernel_programmi.Base.{update_self}
use android_kernel_programmi.Wrr.Lift.{LocalStep-SysOk}
use android_kernel_programmi.Wrr.Inv.{frame-QueueOk}
use android_kernel_programmi.Wrr.Class.{put_prev_task_wrr, set_curr_task_wrr}
use android_kernel_programmi.Kernel.State.{SchedClass, Sys, Task, weights, put_task}
use android_kernel_programmi.Kernel.Env.{Env, Frame}
use android_kernel_programmi.Wrr.Class.{switched_to_wrr}
use android_kernel_programmi.Sched.Queue.{class_ops, ops_of, class_eq, enqueue_task, dequeue_task}
use android_kernel_programmi.Sched.Preempt.{check_class_changed}
use android_kernel_programmi.Sched.Inv.Good.{Good, Off, Frame-Good, Frame-Off}
use android_kernel_programmi.Sched.Inv.Frames.{
  Frame-refl, Frame-trans, put_prev-Frame, set_curr-Frame, switched_from-Frame, prio_changed-Frame,
}
use android_kernel_programmi.Sched.Inv.Steps.{Good-Off, Off-Good}
use android_kernel_programmi.Sched.Inv.Dispatch.{
  dequeue_task-Seat, dequeue_task-Off, enqueue_task-Good,
}

module _ (env : Env) (s : Sys) (c p : ℕ) (g : Good env s) where
  -- A queued task already has the weight that switched_to_wrr would give it.
  switched_to_wrr-Frame :
      (s.tasks p).sched_class ≡ SchedClass.wrr → Frame s (switched_to_wrr env s c p)
  unfolding switched_to_wrr
  switched_to_wrr-Frame e = record {
    rq_wrr = λ d. ground arith;
    task_wrr = λ q. ground (arith, e, g.placed (s.tasks p).cpu p, g.classified (s.tasks p).cpu p);
    task_class = λ q. ground arith;
    task_group = λ q. ground arith;
    task_on_rq = λ q. ground arith;
    task_cpu = λ q h. ground arith;
  }

  switched_to-Frame :
      (k : SchedClass) → (s.tasks p).sched_class ≡ k → Frame s ((class_ops env k).switched_to s c p)
  switched_to-Frame SchedClass.stop e = env.stop_keeps.to_frame s c p
  switched_to-Frame SchedClass.rt e = env.rt_keeps.to_frame s c p
  switched_to-Frame SchedClass.wrr e = switched_to_wrr-Frame e
  switched_to-Frame SchedClass.fair e = env.fair_keeps.to_frame s c p
  switched_to-Frame SchedClass.idle e = env.idle_keeps.to_frame s c p

module _ (env : Env) (s : Sys) (c p : ℕ) where
  -- Whichever hooks check_class_changed calls, it moves nothing.
  pub check_class_changed-Frame :
      (k : SchedClass) (oldprio : ℕ)
      → Good env s
      → Frame s (check_class_changed env s c p k oldprio)
  unfolding check_class_changed
  check_class_changed-Frame k oldprio g =
      let t = s.tasks p in
      let s1 = (class_ops env k).switched_from s c p in
      let f1 = switched_from-Frame env s c k p in
      let g1 = Frame-Good env s s1 f1 g in
      elim (Bool-cases (class_eq k t.sched_class)) [
        | inr e ↦
            rw e (
              Frame-trans s s1 _ f1 (switched_to-Frame env s1 c p g1 (s1.tasks p).sched_class refl))
        | inl e ↦ elim (Bool-cases (oldprio == t.prio)) [
          | inl f ↦ rw (e, f) (Frame-refl s)
          | inr f ↦ rw (e, f) (prio_changed-Frame env s c t.sched_class p oldprio)
        ]
      ]

  pub check_class_changed-Good :
      (k : SchedClass) (oldprio : ℕ)
      → Good env s
      → Good env (check_class_changed env s c p k oldprio)
  check_class_changed-Good k oldprio g =
      Frame-Good env s _ (check_class_changed-Frame k oldprio g) g

pub put_task-Off :
    (env : Env) (s : Sys) (p : ℕ) (t : Task) → Off env s p → Off env (put_task s p t) p
put_task-Off env s p t un =
    let u = put_task s p t in
    record {
      sys =
          LocalStep-SysOk s u 0 p
            (record {
              elsewhere = λ d ne. refl;
              same = λ q ne. ground arith;
              away = λ d ne. un.off d;
              members = λ q ne. refl;
            })
            un.sys
            (frame-QueueOk (weights s) (weights u) (s.rqs 0).wrr p (λ q ne. ground arith) (un.off 0)
              (un.sys.queues 0));
      off = un.off;
      others = λ c q ne. un.others c q ne ∙ ground arith;
      classified = λ c q h. ground (arith, un.off c, un.classified c q h);
    }

put_prev-cpu :
    (env : Env) (s : Sys) (c p : ℕ) (k : SchedClass)
    → (((class_ops env k).put_prev_task s c p).tasks p).cpu ≡ (s.tasks p).cpu
unfolding put_prev_task_wrr
put_prev-cpu env s c p SchedClass.stop = env.stop_keeps.put_prev_cpu s c p
put_prev-cpu env s c p SchedClass.rt = env.rt_keeps.put_prev_cpu s c p
put_prev-cpu env s c p SchedClass.wrr = ground arith
put_prev-cpu env s c p SchedClass.fair = env.fair_keeps.put_prev_cpu s c p
put_prev-cpu env s c p SchedClass.idle = env.idle_keeps.put_prev_cpu s c p

set_curr-cpu :
    (env : Env) (s : Sys) (c p : ℕ) (k : SchedClass)
    → (((class_ops env k).set_curr_task s c).tasks p).cpu ≡ (s.tasks p).cpu
unfolding set_curr_task_wrr
set_curr-cpu env s c p SchedClass.stop = env.stop_keeps.set_curr_cpu s c p
set_curr-cpu env s c p SchedClass.rt = env.rt_keeps.set_curr_cpu s c p
set_curr-cpu env s c p SchedClass.wrr = ground arith
set_curr-cpu env s c p SchedClass.fair = env.fair_keeps.set_curr_cpu s c p
set_curr-cpu env s c p SchedClass.idle = env.idle_keeps.set_curr_cpu s c p

-- The task `p` is off its queue, and has its old `on_rq` and cpu.
pub record Held (env : Env) (s : Sys) (p : ℕ) (on_rq : Bool) (cpu : ℕ) : Type 0 where
  pub is_off : Off env s p
  pub has_on_rq : (s.tasks p).on_rq ≡ on_rq
  pub has_cpu : (s.tasks p).cpu ≡ cpu

module _ (env : Env) (s : Sys) (p : ℕ) where
  -- `if (on_rq) dequeue_task(rq, p, 0);`
  pub take_off :
      (b : Bool) (c : ℕ)
      → (s.tasks p).on_rq ≡ b
      → (s.tasks p).cpu ≡ c
      → Good env s
      → Held env (if b then dequeue_task env s c p 0 else s) p b c
  take_off true c e f g =
      let seat = dequeue_task-Seat env s c p 0 in
      record {
        is_off = dequeue_task-Off env s c p 0 e f g;
        has_on_rq = seat.on_rq ∙ e;
        has_cpu = seat.cpu ∙ f;
      }
  take_off false c e f g = record {
    is_off = Good-Off env s p (λ d. ground (arith, e)) g;
    has_on_rq = e;
    has_cpu = f;
  }

  -- `if (running) p->sched_class->put_prev_task(rq, p);`
  pub give_up :
      (running b : Bool) (c : ℕ)
      → Held env s p b c
      → Held env (if running then (ops_of env s p).put_prev_task s c p else s) p b c
  give_up false b c h = h
  give_up true b c h =
      let k = (s.tasks p).sched_class in
      let t = (class_ops env k).put_prev_task s c p in
      let f = put_prev-Frame env s c k p in
      record {
        is_off = Frame-Off env s t f p h.is_off;
        has_on_rq = f.task_on_rq p ∙ h.has_on_rq;
        has_cpu = put_prev-cpu env s c p k ∙ h.has_cpu;
      }

  -- `if (running) p->sched_class->set_curr_task(rq);`
  pub take_up :
      (running b : Bool) (c : ℕ)
      → Held env s p b c
      → Held env (if running then (ops_of env s p).set_curr_task s c else s) p b c
  take_up false b c h = h
  take_up true b c h =
      let k = (s.tasks p).sched_class in
      let t = (class_ops env k).set_curr_task s c in
      let f = set_curr-Frame env s c k in
      record {
        is_off = Frame-Off env s t f p h.is_off;
        has_on_rq = f.task_on_rq p ∙ h.has_on_rq;
        has_cpu = set_curr-cpu env s c p k ∙ h.has_cpu;
      }

  -- New values for the task, with the old `on_rq` and cpu.
  pub change :
      (t : Task) (b : Bool) (c : ℕ)
      → t.on_rq ≡ (s.tasks p).on_rq
      → t.cpu ≡ (s.tasks p).cpu
      → Held env s p b c
      → Held env (put_task s p t) p b c
  change t b c e f h = record {
    is_off = put_task-Off env s p t h.is_off;
    has_on_rq = ap (λ u. u.on_rq) (update_self s.tasks p t) ∙ e ∙ h.has_on_rq;
    has_cpu = ap (λ u. u.cpu) (update_self s.tasks p t) ∙ f ∙ h.has_cpu;
  }

  -- `if (on_rq) enqueue_task(rq, p, flags);`
  pub put_back :
      (b : Bool) (c flags : ℕ)
      → Held env s p b c
      → Good env (if b then enqueue_task env s c p flags else s)
  put_back true c flags h = enqueue_task-Good env s c p flags h.has_on_rq h.has_cpu h.is_off
  put_back false c flags h = Off-Good env s p (λ d. ground (arith, h.has_on_rq)) h.is_off

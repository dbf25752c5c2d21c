-- ===== src/Sched/Inv/Frames.antt =====
-- Steps that leave the wrr side of the system alone.
use android_kernel_programmi.Base.{ℕ, ◌≡◌, refl, ◌∙◌, arith, Bool-cases, inl, inr}
use android_kernel_programmi.Kernel.State.{SchedClass, Sys, Task, Rq, put_task, put_rq}
use android_kernel_programmi.Kernel.Env.{Env, Frame}
use android_kernel_programmi.Base.Int.{gt_nat}
use android_kernel_programmi.Wrr.Class.{
  is_wrr, update_curr_wrr, resched_task, inc_nr_running, dec_nr_running, put_prev_task_wrr,
  set_curr_task_wrr,
}
use android_kernel_programmi.Sched.Queue.{update_rq_clock, class_ops}

pub Frame-refl : (s : Sys) → Frame s s
Frame-refl s = record {
  rq_wrr = λ c. refl;
  task_wrr = λ p. refl;
  task_class = λ p. refl;
  task_group = λ p. refl;
  task_on_rq = λ p. refl;
  task_cpu = λ p h. refl;
}

pub Frame-trans : (s t u : Sys) → Frame s t → Frame t u → Frame s u
Frame-trans s t u f g = record {
  rq_wrr = λ c. g.rq_wrr c ∙ f.rq_wrr c;
  task_wrr = λ p. g.task_wrr p ∙ f.task_wrr p;
  task_class = λ p. g.task_class p ∙ f.task_class p;
  task_group = λ p. g.task_group p ∙ f.task_group p;
  task_on_rq = λ p. g.task_on_rq p ∙ f.task_on_rq p;
  task_cpu = λ p h. g.task_cpu p (f.task_class p ∙ h) ∙ f.task_cpu p h;
}

-- A run queue whose wrr part is the old one.
pub put_rq-Frame : (s : Sys) (c : ℕ) (r : Rq) → r.wrr ≡ (s.rqs c).wrr → Frame s (put_rq s c r)
put_rq-Frame s c r e = record {
  rq_wrr = λ d. ground (arith, e);
  task_wrr = λ p. refl;
  task_class = λ p. refl;
  task_group = λ p. refl;
  task_on_rq = λ p. refl;
  task_cpu = λ p h. refl;
}

-- A task whose wrr side is the old one.
pub put_task-Frame :
    (s : Sys) (p : ℕ) (t : Task)
    → t.wrr ≡ (s.tasks p).wrr
    → t.sched_class ≡ (s.tasks p).sched_class
    → t.sched_task_group ≡ (s.tasks p).sched_task_group
    → t.on_rq ≡ (s.tasks p).on_rq
    → t.cpu ≡ (s.tasks p).cpu
    → Frame s (put_task s p t)
put_task-Frame s p t a b c d e = record {
  rq_wrr = λ r. refl;
  task_wrr = λ q. ground (arith, a);
  task_class = λ q. ground (arith, b);
  task_group = λ q. ground (arith, c);
  task_on_rq = λ q. ground (arith, d);
  task_cpu = λ q h. ground (arith, e);
}

pub update_rq_clock-Frame : (s : Sys) (c : ℕ) → Frame s (update_rq_clock s c)
unfolding update_rq_clock
update_rq_clock-Frame s c = elim (Bool-cases (gt_nat (s.rqs c).skip_clock_update 0)) [
  | inl e ↦ rw e (Frame-refl s)
  | inr e ↦ rw e (put_rq-Frame s c _ refl)
]

pub update_curr_wrr-Frame : (s : Sys) (c : ℕ) → Frame s (update_curr_wrr s c)
unfolding update_curr_wrr
update_curr_wrr-Frame s c = elim (Bool-cases (is_wrr (s.tasks (s.rqs c).curr).sched_class)) [
  | inl e ↦ rw e (put_task-Frame s (s.rqs c).curr _ refl refl refl refl refl)
  | inr e ↦ rw e (Frame-refl s)
]

pub resched_task-Frame : (s : Sys) (p : ℕ) → Frame s (resched_task s p)
unfolding resched_task
resched_task-Frame s p = put_task-Frame s p _ refl refl refl refl refl

pub inc_nr_running-Frame : (s : Sys) (c : ℕ) → Frame s (inc_nr_running s c)
unfolding inc_nr_running
inc_nr_running-Frame s c = put_rq-Frame s c _ refl

pub dec_nr_running-Frame : (s : Sys) (c : ℕ) → Frame s (dec_nr_running s c)
unfolding dec_nr_running
dec_nr_running-Frame s c = put_rq-Frame s c _ refl

module _ (env : Env) (s : Sys) (c : ℕ) where
  pub put_prev_task_wrr-Frame : (p : ℕ) → Frame s (put_prev_task_wrr env s c p)
  unfolding put_prev_task_wrr
  put_prev_task_wrr-Frame p =
      Frame-trans s (update_curr_wrr s c) (put_prev_task_wrr env s c p) (update_curr_wrr-Frame s c)
        (put_task-Frame (update_curr_wrr s c) p _ refl refl refl refl refl)

  pub set_curr_task_wrr-Frame : Frame s (set_curr_task_wrr env s c)
  unfolding set_curr_task_wrr
  set_curr_task_wrr-Frame = put_task-Frame s (s.rqs c).curr _ refl refl refl refl refl

  -- The hooks put_prev_task and set_curr_task of every class.
  pub put_prev-Frame : (k : SchedClass) (p : ℕ) → Frame s ((class_ops env k).put_prev_task s c p)
  put_prev-Frame SchedClass.stop p = env.stop_keeps.put_prev_frame s c p
  put_prev-Frame SchedClass.rt p = env.rt_keeps.put_prev_frame s c p
  put_prev-Frame SchedClass.wrr p = put_prev_task_wrr-Frame p
  put_prev-Frame SchedClass.fair p = env.fair_keeps.put_prev_frame s c p
  put_prev-Frame SchedClass.idle p = env.idle_keeps.put_prev_frame s c p

  pub set_curr-Frame : (k : SchedClass) → Frame s ((class_ops env k).set_curr_task s c)
  set_curr-Frame SchedClass.stop = env.stop_keeps.set_curr_frame s c
  set_curr-Frame SchedClass.rt = env.rt_keeps.set_curr_frame s c
  set_curr-Frame SchedClass.wrr = set_curr_task_wrr-Frame
  set_curr-Frame SchedClass.fair = env.fair_keeps.set_curr_frame s c
  set_curr-Frame SchedClass.idle = env.idle_keeps.set_curr_frame s c

  pub switched_from-Frame :
      (k : SchedClass) (p : ℕ) → Frame s ((class_ops env k).switched_from s c p)
  switched_from-Frame SchedClass.stop p = env.stop_keeps.from_frame s c p
  switched_from-Frame SchedClass.rt p = env.rt_keeps.from_frame s c p
  switched_from-Frame SchedClass.wrr p = Frame-refl s
  switched_from-Frame SchedClass.fair p = env.fair_keeps.from_frame s c p
  switched_from-Frame SchedClass.idle p = env.idle_keeps.from_frame s c p

  pub prio_changed-Frame :
      (k : SchedClass) (p o : ℕ) → Frame s ((class_ops env k).prio_changed s c p o)
  prio_changed-Frame SchedClass.stop p o = env.stop_keeps.prio_frame s c p o
  prio_changed-Frame SchedClass.rt p o = env.rt_keeps.prio_frame s c p o
  prio_changed-Frame SchedClass.wrr p o = Frame-refl s
  prio_changed-Frame SchedClass.fair p o = env.fair_keeps.prio_frame s c p o
  prio_changed-Frame SchedClass.idle p o = env.idle_keeps.prio_frame s c p o

  pub preempt-Frame :
      (k : SchedClass) (p f : ℕ) → Frame s ((class_ops env k).check_preempt_curr s c p f)
  preempt-Frame SchedClass.stop p f = env.stop_keeps.preempt_frame s c p f
  preempt-Frame SchedClass.rt p f = env.rt_keeps.preempt_frame s c p f
  preempt-Frame SchedClass.wrr p f = Frame-refl s
  preempt-Frame SchedClass.fair p f = env.fair_keeps.preempt_frame s c p f
  preempt-Frame SchedClass.idle p f = env.idle_keeps.preempt_frame s c p f

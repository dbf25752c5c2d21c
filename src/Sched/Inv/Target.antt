-- ===== src/Sched/Inv/Target.antt =====
-- What __sched_setscheduler does to a task whose new policy is SCHED_WRR.
use android_kernel_programmi.Sched.Inv.Parts.{Held}
use android_kernel_programmi.Sched.Inv.Requeue.{change_policy-Good, setscheduler-Held}
use android_kernel_programmi.Sched.Inv.Frames.{update_rq_clock-Frame, set_curr-Frame}
use android_kernel_programmi.Wrr.Class.{enqueue_task_wrr}
use android_kernel_programmi.Base.{
  ℕ, refl, ◌≡◌, ◌∙◌, Bool, true, false, has, ◌==◌, ◌&&◌, if◌then◌else◌, arith,
}
use android_kernel_programmi.Kernel.State.{SchedClass, Sys, queue_of}
use android_kernel_programmi.Kernel.Env.{Env, Frame}
use android_kernel_programmi.Sched.Prio.{class_for}
use android_kernel_programmi.Sched.Queue.{enqueue_task, update_rq_clock, ops_of}
use android_kernel_programmi.Sched.Setscheduler.{setscheduler, change_policy}
use android_kernel_programmi.Sched.Inv.Good.{Good}
use android_kernel_programmi.Sched.Inv.Parts.{
  check_class_changed-Frame, take_off, give_up, take_up, change, put_back,
}
use android_kernel_programmi.Sched.Policy

-- A task of the wrr class that sits on a cpu.
pub record Joined (s : Sys) (p : ℕ) (on_rq : Bool) (cpu : ℕ) : Type 0 where
  pub class : (s.tasks p).sched_class ≡ SchedClass.wrr
  pub has_on_rq : (s.tasks p).on_rq ≡ on_rq
  pub has_cpu : (s.tasks p).cpu ≡ cpu

Frame-Joined : (s t : Sys) (p : ℕ) (b : Bool) (c : ℕ) → Frame s t → Joined s p b c → Joined t p b c
Frame-Joined s t p b c f j = record {
  class = f.task_class p ∙ j.class;
  has_on_rq = f.task_on_rq p ∙ j.has_on_rq;
  has_cpu = f.task_cpu p j.class ∙ j.has_cpu;
}

module _ (env : Env) (s : Sys) (p : ℕ) where
  setscheduler-class :
      (prio : ℕ) → ((setscheduler env s p Policy.wrr prio).tasks p).sched_class ≡ SchedClass.wrr
  unfolding setscheduler class_for
  setscheduler-class prio = ground arith

  Held-Joined :
      (prio : ℕ) (b : Bool) (c : ℕ)
      → Held env (setscheduler env s p Policy.wrr prio) p b c
      → Joined (setscheduler env s p Policy.wrr prio) p b c
  Held-Joined prio b c h = record {
    class = setscheduler-class prio;
    has_on_rq = h.has_on_rq;
    has_cpu = h.has_cpu;
  }

  set_curr-Joined :
      (running b : Bool) (c : ℕ)
      → Joined s p b c
      → Joined (if running then (ops_of env s p).set_curr_task s c else s) p b c
  set_curr-Joined false b c j = j
  set_curr-Joined true b c j =
      Frame-Joined s _ p b c (set_curr-Frame env s c (s.tasks p).sched_class) j

  enqueue_task_wrr-Joined :
      (b : Bool) (c flags : ℕ) → Joined s p b c → Joined (enqueue_task_wrr env s c p flags) p b c
  unfolding enqueue_task_wrr
  enqueue_task_wrr-Joined b c flags j = record {
    class = ground (arith, j);
    has_on_rq = ground (arith, j);
    has_cpu = ground (arith, j);
  }

module _ (env : Env) (s : Sys) (p : ℕ) where
  enqueue-Joined :
      (b b' : Bool) (c flags : ℕ)
      → Joined s p b c
      → Joined (if b' then enqueue_task env s c p flags else s) p b c
  unfolding enqueue_task
  enqueue-Joined b false c flags j = j
  enqueue-Joined b true c flags j =
      let clocked = update_rq_clock s c in
      let j1 = Frame-Joined s clocked p b c (update_rq_clock-Frame s c) j in
      rw (enqueue_task, j.class) (enqueue_task_wrr-Joined env clocked p b c flags j1)

module _ (env : Env) (s : Sys) (p : ℕ) where
  pub change_policy-Joined :
      (priority : ℕ) (reset : Bool)
      → Good env s
      → Joined (change_policy env s p Policy.wrr priority reset) p (s.tasks p).on_rq (s.tasks p).cpu
  unfolding change_policy
  change_policy-Joined priority reset g =
      let c = (s.tasks p).cpu in
      let b = (s.tasks p).on_rq in
      let running = (s.rqs c).curr == p in
      let h1 = take_off env s p b c refl refl g in
      let h2 = give_up env _ p running b c h1 in
      let h3 = change env _ p _ b c refl refl h2 in
      let h4 = setscheduler-Held env _ p Policy.wrr priority b c h3 in
      let h5 = take_up env _ p running b c h4 in
      let j4 = Held-Joined env _ p priority b c h4 in
      let j5 = set_curr-Joined env _ p running b c j4 in
      let j6 = enqueue-Joined env _ p b b c 0 j5 in
      Frame-Joined _ _ p b c (check_class_changed-Frame env _ c p _ _ (put_back env _ p b c 0 h5))
        j6

  -- From a state whose wrr queues are well formed and hold exactly the runnable wrr tasks: a task
  -- whose policy becomes SCHED_WRR is of the wrr class, and on the wrr queue of its cpu exactly
  -- when it is runnable, and on no other.
  pub change_policy_wrr :
      (priority : ℕ) (reset : Bool)
      → Good env s
      → let t = change_policy env s p Policy.wrr priority reset in
        ((t.tasks p).sched_class ≡ SchedClass.wrr)
        × ((c : ℕ) → has p (queue_of t c) ≡ ((s.tasks p).on_rq && (s.tasks p).cpu == c))
  change_policy_wrr priority reset g =
      let j = change_policy-Joined priority reset g in
      let g' = change_policy-Good env s p Policy.wrr priority reset g in
      (j.class, λ c. g'.placed c p ∙ (rw (j.class, j.has_on_rq, j.has_cpu) refl))

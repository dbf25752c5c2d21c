-- ===== src/Sched/Inv/Leaving.antt =====
-- What __sched_setscheduler does to a task whose new policy is not SCHED_WRR.
use android_kernel_programmi.Base.{
  ℕ, refl, ◌≡◌, ◌∙◌, ap, Bool, true, false, has, ◌==◌, if◌then◌else◌, arith,
}
use android_kernel_programmi.Kernel.State.{SchedClass, Sys, queue_of}
use android_kernel_programmi.Kernel.Env.{Env, Frame}
use android_kernel_programmi.Wrr.Class.{is_wrr, enqueue_task_wrr}
use android_kernel_programmi.Sched.Prio.{class_for}
use android_kernel_programmi.Sched.Queue.{class_ops, ops_of, enqueue_task, update_rq_clock}
use android_kernel_programmi.Sched.Setscheduler.{setscheduler, change_policy}
use android_kernel_programmi.Sched.Inv.Good.{Good}
use android_kernel_programmi.Sched.Inv.Frames.{set_curr-Frame, update_rq_clock-Frame}
use android_kernel_programmi.Sched.Inv.Parts.{
  Held, check_class_changed-Frame, take_off, give_up, take_up, change, put_back,
}
use android_kernel_programmi.Sched.Inv.Requeue.{setscheduler-Held, change_policy-Good}
use android_kernel_programmi.Sched.Policy

abbrev class_at : Sys → ℕ → SchedClass
class_at s p = (s.tasks p).sched_class

class-enqueue_task_wrr :
    (env : Env) (s : Sys) (c p flags : ℕ)
    → class_at (enqueue_task_wrr env s c p flags) p ≡ class_at s p
unfolding enqueue_task_wrr
class-enqueue_task_wrr env s c p flags = ground arith

class-enqueue_by :
    (env : Env) (s : Sys) (c p flags : ℕ) (k : SchedClass)
    → class_at ((class_ops env k).enqueue_task s c p flags) p ≡ class_at s p
class-enqueue_by env s c p flags SchedClass.stop =
    (env.stop_keeps.enqueue_frame s c p flags).task_class p
class-enqueue_by env s c p flags SchedClass.rt =
    (env.rt_keeps.enqueue_frame s c p flags).task_class p
class-enqueue_by env s c p flags SchedClass.wrr = class-enqueue_task_wrr env s c p flags
class-enqueue_by env s c p flags SchedClass.fair =
    (env.fair_keeps.enqueue_frame s c p flags).task_class p
class-enqueue_by env s c p flags SchedClass.idle =
    (env.idle_keeps.enqueue_frame s c p flags).task_class p

class-enqueue_task :
    (env : Env) (s : Sys) (c p flags : ℕ) (b : Bool)
    → class_at (if b then enqueue_task env s c p flags else s) p ≡ class_at s p
unfolding enqueue_task
class-enqueue_task env s c p flags false = refl
class-enqueue_task env s c p flags true =
    class-enqueue_by env (update_rq_clock s c) c p flags (class_at s p)
    ∙ (update_rq_clock-Frame s c).task_class p

class-set_curr :
    (env : Env) (s : Sys) (c p : ℕ) (b : Bool)
    → class_at (if b then (ops_of env s p).set_curr_task s c else s) p ≡ class_at s p
class-set_curr env s c p false = refl
class-set_curr env s c p true = (set_curr-Frame env s c (class_at s p)).task_class p

class-setscheduler :
    (env : Env) (s : Sys) (p policy prio : ℕ)
    → (policy == Policy.wrr) ≡ false
    → is_wrr (class_at (setscheduler env s p policy prio) p) ≡ false
unfolding setscheduler class_for
class-setscheduler env s p policy prio h = ground (arith, h)

-- A task of another class than wrr.
record Outside (s : Sys) (p : ℕ) : Type 0 where
  class : is_wrr (class_at s p) ≡ false

Held-Outside :
    (env : Env) (s : Sys) (p policy prio : ℕ) (b : Bool) (c : ℕ)
    → (policy == Policy.wrr) ≡ false
    → Held env (setscheduler env s p policy prio) p b c
    → Outside (setscheduler env s p policy prio) p
Held-Outside env s p policy prio b c h held = record {
  class = class-setscheduler env s p policy prio h;
}

set_curr-Outside :
    (env : Env) (s : Sys) (c p : ℕ) (b : Bool)
    → Outside s p
    → Outside (if b then (ops_of env s p).set_curr_task s c else s) p
set_curr-Outside env s c p b o = record { class = ap is_wrr (class-set_curr env s c p b) ∙ o.class }

enqueue-Outside :
    (env : Env) (s : Sys) (c p flags : ℕ) (b : Bool)
    → Outside s p
    → Outside (if b then enqueue_task env s c p flags else s) p
enqueue-Outside env s c p flags b o = record {
  class = ap is_wrr (class-enqueue_task env s c p flags b) ∙ o.class;
}

Frame-Outside : (s t : Sys) (p : ℕ) → Frame s t → Outside s p → Outside t p
Frame-Outside s t p f o = record { class = ap is_wrr (f.task_class p) ∙ o.class }

change_policy-Outside :
    (env : Env) (s : Sys) (p policy priority : ℕ) (reset : Bool)
    → (policy == Policy.wrr) ≡ false
    → Good env s
    → Outside (change_policy env s p policy priority reset) p
unfolding change_policy
change_policy-Outside env s p policy priority reset h g =
    let c = (s.tasks p).cpu in
    let b = (s.tasks p).on_rq in
    let running = (s.rqs c).curr == p in
    let h1 = take_off env s p b c refl refl g in
    let h2 = give_up env _ p running b c h1 in
    let h3 = change env _ p _ b c refl refl h2 in
    let h4 = setscheduler-Held env _ p policy priority b c h3 in
    let h5 = take_up env _ p running b c h4 in
    let f = check_class_changed-Frame env _ c p _ _ (put_back env _ p b c 0 h5) in
    let o4 = Held-Outside env _ p policy priority b c h h4 in
    let o5 = set_curr-Outside env _ c p running o4 in
    let o6 = enqueue-Outside env _ c p 0 b o5 in Frame-Outside _ _ p f o6

-- From a state whose wrr queues are well formed and hold exactly the runnable wrr tasks: a task
-- whose policy becomes another one than SCHED_WRR is on no wrr queue, also when it was on one
-- before.
pub change_policy_leaves :
    (env : Env) (s : Sys) (p policy priority : ℕ) (reset : Bool)
    → (policy == Policy.wrr) ≡ false
    → Good env s
    → (c : ℕ) → has p (queue_of (change_policy env s p policy priority reset) c) ≡ false
change_policy_leaves env s p policy priority reset h g c =
    (change_policy-Good env s p policy priority reset g).placed c p
    ∙ ground (arith, change_policy-Outside env s p policy priority reset h g)

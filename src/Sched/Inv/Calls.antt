-- ===== src/Sched/Inv/Calls.antt =====
-- The whole of __sched_setscheduler and of normalize_task, and the invariant.
use android_kernel_programmi.Base.{
  arith, ◌||◌, not, ◌&&◌, ◌==◌, if◌then◌else◌, ℕ, refl, Bool, true, false, Option, none, some, List,
  [], ◌∷◌, ◌≡◌,
}
use android_kernel_programmi.Sched.Errors.{hook, eperm, einval, Ret, done, fail, Errno}
use android_kernel_programmi.Sched.Prio.{rt_policy}
use android_kernel_programmi.Sched.Setscheduler.{
  Seen, valid_priority, permitted, wanted, Caller, locked_part, setscheduler_pass,
  sched_setscheduler, change_policy,
}
use android_kernel_programmi.Base.Int.{to_nat, negsuc, ℤ}
use android_kernel_programmi.Kernel.State.{Sys, SchedClass}
use android_kernel_programmi.Kernel.Env.{Env}
use android_kernel_programmi.Sched.Move.{normalize_task}
use android_kernel_programmi.Sched.Inv.Parts.{put_back, take_off, Held, check_class_changed-Good}
use android_kernel_programmi.Sched.Inv.Frames.{resched_task-Frame}
use android_kernel_programmi.Wrr.Class.{resched_task}
use android_kernel_programmi.Sched.Queue.{enqueue_task}
use android_kernel_programmi.Sched.Preempt.{check_class_changed}
use android_kernel_programmi.Sched.Inv.Requeue.{setscheduler-Held, change_policy-Good}
use android_kernel_programmi.Sched.Inv.Good.{Frame-Good, Good}
use android_kernel_programmi.Sched.Policy

-- What a pass may end with: an error or nothing to do, in the state it started from, or success
-- after the change.
pub data Ending (env : Env) (s : Sys) (p : ℕ) : Sys × Ret → Type 0 where
  refused : (e : Errno) → Ending env s p (s, fail e)
  same : Ending env s p (s, done 0)
  changed :
      (policy prio : ℕ) (reset : Bool)
      → Ending env s p (env.rt_mutex_adjust_pi (change_policy env s p policy prio reset) p, done 0)

-- The same for a pass that may also start again.
pub data PassEnding (env : Env) (s : Sys) (p : ℕ) : Option (Sys × Ret) → Type 0 where
  ended : (r : Sys × Ret) → Ending env s p r → PassEnding env s p (some r)
  again : PassEnding env s p none

PassEnding-if :
    (env : Env) (s : Sys) (p : ℕ) (b : Bool) (x y : Option (Sys × Ret))
    → PassEnding env s p x
    → PassEnding env s p y
    → PassEnding env s p (if b then x else y)
PassEnding-if env s p true x y h k = h
PassEnding-if env s p false x y h k = k

PassEnding-elim {ℓ} :
    {A : Type ℓ} (env : Env) (s : Sys) (p : ℕ) (o : Option A) (x : Option (Sys × Ret))
    (f : A → Option (Sys × Ret))
    → PassEnding env s p x
    → ((a : A) → PassEnding env s p (f a))
    → PassEnding env s p (elim o [ none ↦ x | some a ↦ f a ])
PassEnding-elim env s p none x f h k = h
PassEnding-elim env s p (some a) x f h k = k a

module _ (env : Env) (k : Caller) (user : Bool) (s : Sys) (p : ℕ) where
  locked_part-PassEnding :
      (policy priority : ℕ) (reset : Bool) (oldpolicy : Option ℕ)
      → PassEnding env s p (locked_part env k user s p policy priority reset oldpolicy)
  unfolding locked_part
  locked_part-PassEnding policy priority reset oldpolicy =
      let t = s.tasks p in
      let is_stop : Bool = elim (s.rqs t.cpu).stop [ none ↦ false | some q ↦ q == p ] in
      let raced : Bool = elim oldpolicy [ none ↦ false | some q ↦ not (q == t.policy) ] in
      let no_runtime =
        k.rt_bandwidth_enabled
        && rt_policy policy
        && k.rt_runtime_zero t.sched_task_group
        && not (k.is_autogroup t.sched_task_group) in
      let unchanged = policy == t.policy && (not (rt_policy policy) || priority == t.rt_priority) in
      PassEnding-if env s p is_stop _ _ (ended _ (refused einval)) (
        PassEnding-if env s p unchanged _ _ (ended _ same) (
          PassEnding-if env s p (user && no_runtime) _ _ (ended _ (refused eperm))
            (PassEnding-if env s p raced _ _ again (ended _ (changed policy priority reset)))))

  setscheduler_pass-PassEnding :
      (policy priority : ℤ) (seen : Seen)
      → PassEnding env s p (setscheduler_pass env k user s p policy priority seen)
  unfolding setscheduler_pass
  setscheduler_pass-PassEnding policy priority seen =
      PassEnding-elim env s p (wanted policy seen) _ _ (ended _ (refused einval)) λ w.
        let (policy', reset, oldpolicy) = w in
        let locked = locked_part-PassEnding policy' (to_nat priority) reset oldpolicy in
        let refuses =
          user && not k.capable && not (permitted k p seen policy' (to_nat priority) reset) in
        PassEnding-if env s p (not (valid_priority seen policy' priority)) _ _
          (ended _ (refused einval))
          (PassEnding-if env s p refuses _ _ (ended _ (refused eperm)) (
            PassEnding-if env s p user _ _
              (PassEnding-elim env s p (k.security p) _ _ locked λ e. ended _ (refused (hook e)))
              locked))

  PassEnding-retry :
      (o : Option (Sys × Ret)) (r : Sys × Ret)
      → PassEnding env s p o
      → Ending env s p r
      → Ending env s p (elim o [ none ↦ r | some x ↦ x ])
  PassEnding-retry _ r (ended x h) d = h
  PassEnding-retry _ r again d = d

  pub sched_setscheduler-Ending :
      (policy priority : ℤ) (raced : List Seen)
      → Ending env s p (sched_setscheduler env k user s p policy priority raced)
  unfolding sched_setscheduler
  sched_setscheduler-Ending policy priority [] =
      PassEnding-retry _ _ (setscheduler_pass-PassEnding policy priority _) (refused _)
  sched_setscheduler-Ending policy priority (seen ∷ later) =
      PassEnding-retry _ _ (setscheduler_pass-PassEnding policy priority seen)
        (sched_setscheduler-Ending (negsuc 0) priority later)

Ending-Good :
    (env : Env) (s : Sys) (p : ℕ) (r : Sys × Ret)
    → env.pi_blocked p ≡ false
    → Good env s
    → Ending env s p r
    → Good env r.0
Ending-Good env s p _ h g (refused e) = g
Ending-Good env s p _ h g same = g
Ending-Good env s p _ h g (changed policy prio reset) =
    rw (env.adjust_pi_lem (change_policy env s p policy prio reset) p h)
      (change_policy-Good env s p policy prio reset g)

Ending-fail :
    (env : Env) (s : Sys) (p : ℕ) (r : Sys × Ret) (e : Errno)
    → Ending env s p r
    → r.1 ≡ fail e
    → r.0 ≡ s
Ending-fail env s p _ e (refused x) h = refl
Ending-fail env s p _ e same h = refl
Ending-fail env s p _ e (changed policy prio reset) h = ground (arith, h)

module _ (env : Env) (k : Caller) (user : Bool) (s : Sys) (p : ℕ) (policy priority : ℤ)
    (raced : List Seen) where
  -- Whatever a caller asks for, and whatever the passes read of the task before they have the lock,
  -- __sched_setscheduler on a task that waits for no rt mutex keeps the wrr queues well
  -- formed, each with exactly the runnable wrr tasks of its cpu at the weights of their groups.
  pub sched_setscheduler-Good :
      env.pi_blocked p ≡ false
      → Good env s
      → Good env (sched_setscheduler env k user s p policy priority raced).0
  sched_setscheduler-Good h g =
      Ending-Good env s p _ h g (sched_setscheduler-Ending env k user s p policy priority raced)

  -- A call of __sched_setscheduler that reports an error has changed nothing.
  pub sched_setscheduler_fails :
      (e : Errno)
      → (sched_setscheduler env k user s p policy priority raced).1 ≡ fail e
      → (sched_setscheduler env k user s p policy priority raced).0 ≡ s
  sched_setscheduler_fails e =
      Ending-fail env s p _ e (sched_setscheduler-Ending env k user s p policy priority raced)

normalize_end :
    (env : Env) (s : Sys) (c p : ℕ) (k : SchedClass) (oldprio : ℕ) (b : Bool)
    → Held env s p b c
    → Good env (
        check_class_changed env
          (if b then (let t = enqueue_task env s c p 0 in resched_task t (t.rqs c).curr) else s)
          c
          p
          k
          oldprio)
normalize_end env s c p k oldprio true h =
    let t = enqueue_task env s c p 0 in
    let g =
      Frame-Good env t _ (resched_task-Frame t (t.rqs c).curr) (put_back env s p true c 0 h) in
    check_class_changed-Good env _ c p k oldprio g
normalize_end env s c p k oldprio false h =
    check_class_changed-Good env s c p k oldprio (put_back env s p false c 0 h)

-- Normalising a task, as sysrq does to real-time tasks, keeps the wrr queues well formed, each with
-- exactly the runnable wrr tasks of its cpu at the weights of their groups.
pub normalize_task-Good :
    (env : Env) (s : Sys) (p : ℕ) → Good env s → Good env (normalize_task env s p)
unfolding normalize_task
normalize_task-Good env s p g =
    let c = (s.tasks p).cpu in
    let b = (s.tasks p).on_rq in
    let h1 = take_off env s p b c refl refl g in
    let h2 = setscheduler-Held env _ p Policy.normal 0 b c h1 in
    normalize_end env _ c p (s.tasks p).sched_class (s.tasks p).prio b h2

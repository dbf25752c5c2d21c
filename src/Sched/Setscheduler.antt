-- ===== src/Sched/Setscheduler.antt =====
-- __setscheduler and __sched_setscheduler.
use android_kernel_programmi.Base.{
  ℕ, ◌-◌, Bool, false, Option, none, some, List, [], ◌∷◌, ◌==◌, ◌&&◌, ◌||◌, not, leb, ltb,
  if◌then◌else◌, bit_and,
}
use android_kernel_programmi.Base.Int.{ℤ, pos, negsuc, is_neg, is_zero, gt_nat, to_nat}
use android_kernel_programmi.Kernel.State.{Sys, Task, put_task}
use android_kernel_programmi.Kernel.Env.{Env}
use android_kernel_programmi.Sched.Policy
use android_kernel_programmi.Sched.Prio.{rt_policy, normal_prio, class_for, set_load_weight}
use android_kernel_programmi.Sched.Queue.{ops_of, enqueue_task, dequeue_task}
use android_kernel_programmi.Sched.Preempt.{check_class_changed}
use android_kernel_programmi.Sched.Errors.{eperm, einval, hook, Ret, done, fail}

-- `struct cred`, as far as check_same_owner reads it.
pub record Cred : Type 0 where
  pub user_ns : ℕ
  pub euid : ℕ
  pub uid : ℕ

-- The calling process and the answers of the security code to it; a hook that returns 0 is `none`.
pub record Caller : Type 0 where
  pub capable : Bool
  pub cred : Cred
  pub cred_of : ℕ → Cred
  pub rlim_rtprio : ℕ → ℕ
  pub rlim_nice : ℕ → ℕ
  pub security : ℕ → Option ℕ
  pub rt_bandwidth_enabled : Bool
  pub rt_runtime_zero : ℕ → Bool
  pub is_autogroup : ℕ → Bool

-- What one pass of __sched_setscheduler reads of the task without the run queue lock, read by read:
-- other cpus may change the task between any two of them, and before the lock is taken.
pub record Seen : Type 0 where
  -- `policy < 0`: the fork flag and the policy to keep
  pub flag : Bool
  pub policy : ℕ
  -- `p->mm`, read twice
  pub has_mm : Bool
  pub still_mm : Bool
  -- the checks of a real-time policy
  pub rt_check_policy : ℕ
  pub rt_check_priority : ℕ
  -- the check of SCHED_IDLE and TASK_NICE(p), and the last check
  pub idle_check_policy : ℕ
  pub nice_check_prio : ℕ
  pub flag_check : Bool

-- The reads of a pass during which nothing changes.
abbrev pub seen_of : Task → Seen
seen_of t = record {
  flag = t.sched_reset_on_fork;
  policy = t.policy;
  has_mm = t.has_mm;
  still_mm = t.has_mm;
  rt_check_policy = t.policy;
  rt_check_priority = t.rt_priority;
  idle_check_policy = t.policy;
  nice_check_prio = t.static_prio;
  flag_check = t.sched_reset_on_fork;
}

unfoldable pub check_same_owner : Caller → ℕ → Bool
check_same_owner k p =
    let pcred = k.cred_of p in
    if k.cred.user_ns == pcred.user_ns
    then k.cred.euid == pcred.euid || k.cred.euid == pcred.uid
    else false

-- can_nice(p, TASK_NICE(p)): 20 - nice is 140 - static_prio.
unfoldable pub can_nice : Caller → ℕ → ℕ → Bool
can_nice k p static_prio = leb (140 - static_prio) (k.rlim_nice p) || k.capable

unfoldable pub valid_policy : ℕ → Bool
valid_policy policy =
    policy == Policy.fifo
    || policy == Policy.rr
    || policy == Policy.normal
    || policy == Policy.batch
    || policy == Policy.idle
    || policy == Policy.wrr

-- What the argument `policy` asks for: the policy, the new fork flag, and the policy read if the
-- argument is negative. `none` is -EINVAL.
unfoldable pub wanted : ℤ → Seen → Option (ℕ × Bool × Option ℕ)
unfolding valid_policy
wanted (negsuc n) seen = some (seen.policy, seen.flag, some seen.policy)
wanted (pos a) seen =
    let reset = not (bit_and a Policy.reset_on_fork == 0) in
    let policy : ℕ = if reset then a - Policy.reset_on_fork else a in
    if valid_policy policy then some (policy, reset, none) else none

-- The priority must fit the policy.
unfoldable pub valid_priority : Seen → ℕ → ℤ → Bool
unfolding rt_policy
valid_priority seen policy priority =
    if is_neg priority
      || (seen.has_mm && gt_nat priority 99)
      || (not seen.still_mm && gt_nat priority 99)
    then false
    else if rt_policy policy
    then not (is_zero priority)
    else is_zero priority

-- The checks for a caller without CAP_SYS_NICE.
unfoldable pub permitted : Caller → ℕ → Seen → ℕ → ℕ → Bool → Bool
unfolding rt_policy can_nice check_same_owner
permitted k p seen policy priority reset =
    let refused =
      (not (policy == seen.rt_check_policy) && k.rlim_rtprio p == 0)
      || (ltb seen.rt_check_priority priority && ltb (k.rlim_rtprio p) priority) in
    if rt_policy policy && refused
    then false
    else if seen.idle_check_policy == Policy.idle
        && not (policy == Policy.idle)
        && not (can_nice k p seen.nice_check_prio)
    then false
    else if not (check_same_owner k p)
    then false
    else not (seen.flag_check && not reset)

module _ (env : Env) where
  unfoldable pub setscheduler : Sys → ℕ → ℕ → ℕ → Sys
  unfolding normal_prio class_for set_load_weight
  setscheduler s p policy prio =
      let t = s.tasks p in
      let t1 = record t { policy = policy; rt_priority = prio } in
      let t2 = record t1 { normal_prio = normal_prio t1 } in
      let effective = env.rt_mutex_getprio (put_task s p t2) p in
      put_task s p
        (set_load_weight (record t2 { prio = effective; sched_class = class_for policy effective }))

  -- From `on_rq = p->on_rq` to check_class_changed.
  unfoldable pub change_policy : Sys → ℕ → ℕ → ℕ → Bool → Sys
  change_policy s p policy priority reset =
      let t = s.tasks p in
      let c = t.cpu in
      let on_rq = t.on_rq in
      let running = (s.rqs c).curr == p in
      let s1 = if on_rq then dequeue_task env s c p 0 else s in
      let s2 = if running then (ops_of env s1 p).put_prev_task s1 c p else s1 in
      let s3 = put_task s2 p (let t = s2.tasks p in record t { sched_reset_on_fork = reset }) in
      let oldprio = (s3.tasks p).prio in
      let prev_class = (s3.tasks p).sched_class in
      let s4 = setscheduler s3 p policy priority in
      let s5 = if running then (ops_of env s4 p).set_curr_task s4 c else s4 in
      let s6 = if on_rq then enqueue_task env s5 c p 0 else s5 in
      check_class_changed env s6 c p prev_class oldprio

  -- The part of __sched_setscheduler under the run queue lock; `none` jumps back to `recheck`.
  unfoldable pub locked_part :
      Caller → Bool → Sys → ℕ → ℕ → ℕ → Bool → Option ℕ → Option (Sys × Ret)
  unfolding rt_policy
  locked_part k user s p policy priority reset oldpolicy =
      let t = s.tasks p in
      let r = s.rqs t.cpu in
      let is_stop : Bool = elim r.stop [ none ↦ false | some q ↦ q == p ] in
      let raced : Bool = elim oldpolicy [ none ↦ false | some q ↦ not (q == t.policy) ] in
      let no_runtime =
        k.rt_bandwidth_enabled
        && rt_policy policy
        && k.rt_runtime_zero t.sched_task_group
        && not (k.is_autogroup t.sched_task_group) in
      if is_stop
      then some (s, fail einval)
      else if policy == t.policy && (not (rt_policy policy) || priority == t.rt_priority)
      then some (s, done 0)
      else if user && no_runtime
      then some (s, fail eperm)
      else if raced
      then none
      else some (env.rt_mutex_adjust_pi (change_policy s p policy priority reset) p, done 0)

  -- One pass from `recheck`, with what it reads before it has the lock.
  unfoldable pub setscheduler_pass : Caller → Bool → Sys → ℕ → ℤ → ℤ → Seen → Option (Sys × Ret)
  unfolding locked_part wanted valid_priority permitted
  setscheduler_pass k user s p policy priority seen = elim (wanted policy seen) [
    | none ↦ some (s, fail einval)
    | some (policy', reset, oldpolicy) ↦
        if not (valid_priority seen policy' priority)
        then some (s, fail einval)
        else if user && not k.capable && not (permitted k p seen policy' (to_nat priority) reset)
        then some (s, fail eperm)
        else if user
        then (elim (k.security p) [
          | some e ↦ some (s, fail (hook e))
          | none ↦ locked_part k user s p policy' (to_nat priority) reset oldpolicy
        ])
        else locked_part k user s p policy' (to_nat priority) reset oldpolicy
  ]

  -- __sched_setscheduler. The list holds what the passes read without the lock, one entry per pass;
  -- when it is used up, other cpus leave the task alone, and the reads see what the lock then finds.
  -- Each pass finds `s` under the lock.
  unfoldable pub sched_setscheduler : Caller → Bool → Sys → ℕ → ℤ → ℤ → List Seen → Sys × Ret
  unfolding setscheduler_pass
  sched_setscheduler k user s p policy priority [] =
      elim (setscheduler_pass k user s p policy priority (seen_of (s.tasks p))) [
        | none ↦ (s, fail einval)
        | some r ↦ r
      ]
  sched_setscheduler k user s p policy priority (seen ∷ later) =
      let again = sched_setscheduler k user s p (negsuc 0) priority later in
      elim (setscheduler_pass k user s p policy priority seen) [ none ↦ again | some r ↦ r ]

-- ===== src/Sched/Grants.antt =====
-- What a caller without CAP_SYS_NICE may do to the policy of a task.
use android_kernel_programmi.Base.{
  ℕ, ◌-◌, ◌<◌, ◌≤◌, ◌≡◌, ◌⊎◌, inl, inr, refl, sym, subst, Bool, true, false, Option, none, some,
  List, [], ◌∷◌, ◌==◌, ◌&&◌, ◌||◌, not, if◌then◌else◌, arith, ltb, ==_iff, Bool-cases,
}
use android_kernel_programmi.Base.Int.{ℤ, to_nat, negsuc}
use android_kernel_programmi.Kernel.State.{Sys, Task}
use android_kernel_programmi.Kernel.Env.{Env}
use android_kernel_programmi.Sched.Policy
use android_kernel_programmi.Sched.Prio.{rt_policy}
use android_kernel_programmi.Sched.Errors.{Ret, done, fail, eperm, einval, hook}
use android_kernel_programmi.Sched.Setscheduler.{
  Seen, seen_of, Caller, check_same_owner, can_nice, permitted, wanted, valid_priority,
  change_policy, locked_part, setscheduler_pass, sched_setscheduler,
}

-- The rules for a new policy, by what a pass read of the task: the caller owns it; a real-time policy
-- is not new to it, unless its RLIMIT_RTPRIO is above 0, and its real-time priority is within that
-- limit or not raised; it leaves SCHED_IDLE only as RLIMIT_NICE allows; and its flag to reset on fork
-- is not cleared.
pub record Allowed (k : Caller) (p : ℕ) (seen : Seen) (policy prio : ℕ) (reset : Bool)
    : Type 0 where
  pub owner : check_same_owner k p ≡ true
  pub policy_limit :
      rt_policy policy ≡ true → (policy ≡ seen.rt_check_policy) ⊎ (0 < k.rlim_rtprio p)
  pub prio_limit :
      rt_policy policy ≡ true → (prio ≤ seen.rt_check_priority) ⊎ (prio ≤ k.rlim_rtprio p)
  pub idle_limit :
      seen.idle_check_policy ≡ Policy.idle
      → (policy ≡ Policy.idle) ⊎ (140 - seen.nice_check_prio ≤ k.rlim_nice p)
  pub flag_kept : seen.flag_check ≡ true → reset ≡ true

-- What a call may end with: the state as it was, or a policy that the rules allow by the reads of a
-- pass among those of the call.
pub data Granted (env : Env) (k : Caller) (s : Sys) (p : ℕ) (among : Seen → Type 0)
    : Sys × Ret → Type 0 where
  unchanged : (r : Ret) → Granted env k s p among (s, r)
  changed :
      (seen : Seen) (policy prio : ℕ) (reset : Bool)
      → among seen
      → Allowed k p seen policy prio reset
      → Granted env k s p among
          (env.rt_mutex_adjust_pi (change_policy env s p policy prio reset) p, done 0)

-- The reads of the passes: those listed, and those of a pass during which nothing changes.
abbrev pub Among : List Seen → Task → Seen → Type 0
Among [] t x = x ≡ seen_of t
Among (y ∷ ys) t x = (x ≡ y) ⊎ Among ys t x

up_to_limit : (a b l : ℕ) → (ltb b a && ltb l a) ≡ false → (a ≤ b) ⊎ (a ≤ l)
up_to_limit a b l h = elim (Bool-cases (ltb b a)) [
  | inl e ↦ inr (ground (arith, h, e))
  | inr e ↦ inl (ground (arith, e))
]

limit_or_same : (a b l : ℕ) → (not (a == b) && l == 0) ≡ false → (a ≡ b) ⊎ (0 < l)
limit_or_same a b l h = elim (Bool-cases (a == b)) [
  | inl e ↦ inl ((==_iff a b).0 e)
  | inr e ↦ inr (ground (arith, h, e))
]

module _ (env : Env) (k : Caller) (s : Sys) (p : ℕ) (weak : k.capable ≡ false) where
  permitted-Allowed :
      (seen : Seen) (policy prio : ℕ) (reset : Bool)
      → permitted k p seen policy prio reset ≡ true
      → Allowed k p seen policy prio reset
  unfolding permitted can_nice
  permitted-Allowed seen policy prio reset h = record {
    owner = ground (arith, h);
    policy_limit =
        λ rt. limit_or_same policy seen.rt_check_policy (k.rlim_rtprio p) (ground (arith, h, rt));
    prio_limit =
        λ rt. up_to_limit prio seen.rt_check_priority (k.rlim_rtprio p) (ground (arith, h, rt));
    idle_limit = λ i. elim (Bool-cases (policy == Policy.idle)) [
      | inl e ↦ inl ((==_iff policy Policy.idle).0 e)
      | inr e ↦ inr (ground (arith, h, i, e, weak))
    ];
    flag_kept = λ f. ground (arith, h, f);
  }

module _ (env : Env) (k : Caller) (s : Sys) (p : ℕ) where
  Granted-among :
      (A B : Seen → Type 0) (r : Sys × Ret)
      → ((x : Seen) → A x → B x)
      → Granted env k s p A r
      → Granted env k s p B r
  Granted-among A B _ f (Granted.unchanged r) = Granted.unchanged r
  Granted-among A B _ f (Granted.changed seen policy prio reset a h) =
      Granted.changed seen policy prio reset (f seen a) h

  -- The end of one pass, which may also start again.
  data PassGranted (seen : Seen) : Option (Sys × Ret) → Type 0 where
    ended : (r : Sys × Ret) → Granted env k s p (λ x. x ≡ seen) r → PassGranted seen (some r)
    again : PassGranted seen none

  PassGranted-if :
      (seen : Seen) (b : Bool) (x y : Option (Sys × Ret))
      → PassGranted seen x
      → (b ≡ false → PassGranted seen y)
      → PassGranted seen (if b then x else y)
  PassGranted-if seen true x y f g = f
  PassGranted-if seen false x y f g = g refl

  PassGranted-elim {ℓ} :
      {A : Type ℓ} (seen : Seen) (o : Option A) (x : Option (Sys × Ret))
      (f : A → Option (Sys × Ret))
      → PassGranted seen x
      → ((a : A) → PassGranted seen (f a))
      → PassGranted seen (elim o [ none ↦ x | some a ↦ f a ])
  PassGranted-elim seen none x f h g = h
  PassGranted-elim seen (some a) x f h g = g a

  left : (seen : Seen) (r : Ret) → PassGranted seen (some (s, r))
  left seen r = ended (s, r) (Granted.unchanged r)

  locked_part-PassGranted :
      (seen : Seen) (policy priority : ℕ) (reset : Bool) (oldpolicy : Option ℕ)
      → Allowed k p seen policy priority reset
      → PassGranted seen (locked_part env k true s p policy priority reset oldpolicy)
  unfolding locked_part
  locked_part-PassGranted seen policy priority reset oldpolicy h =
      let t = s.tasks p in
      let is_stop : Bool = elim (s.rqs t.cpu).stop [ none ↦ false | some q ↦ q == p ] in
      let raced : Bool = elim oldpolicy [ none ↦ false | some q ↦ not (q == t.policy) ] in
      let no_runtime =
        k.rt_bandwidth_enabled
        && rt_policy policy
        && k.rt_runtime_zero t.sched_task_group
        && not (k.is_autogroup t.sched_task_group) in
      let same = policy == t.policy && (not (rt_policy policy) || priority == t.rt_priority) in
      PassGranted-if seen is_stop _ _ (left seen (fail einval)) λ a.
        PassGranted-if seen same _ _ (left seen (done 0)) λ b.
          PassGranted-if seen (true && no_runtime) _ _ (left seen (fail eperm)) λ c.
            PassGranted-if seen raced _ _ again
              λ d. ended _ (Granted.changed seen policy priority reset refl h)

  PassGranted-retry :
      (seen : Seen) (A : Seen → Type 0) (o : Option (Sys × Ret)) (r : Sys × Ret)
      → A seen
      → PassGranted seen o
      → Granted env k s p A r
      → Granted env k s p A (elim o [ none ↦ r | some x ↦ x ])
  PassGranted-retry seen A _ r a (ended x h) d =
      Granted-among (λ y. y ≡ seen) A x (λ y e. subst A (sym e) a) h
  PassGranted-retry seen A _ r a again d = d

  module _ (weak : k.capable ≡ false) where
    setscheduler_pass-PassGranted :
        (policy priority : ℤ) (seen : Seen)
        → PassGranted seen (setscheduler_pass env k true s p policy priority seen)
    unfolding setscheduler_pass
    setscheduler_pass-PassGranted policy priority seen =
        PassGranted-elim seen (wanted policy seen) _ _ (left seen (fail einval)) λ w.
          let (policy', reset, oldpolicy) = w in
          let n = to_nat priority in
          let refuses = true && not k.capable && not (permitted k p seen policy' n reset) in
          PassGranted-if seen (not (valid_priority seen policy' priority)) _ _
            (left seen (fail einval))
            λ a. PassGranted-if seen refuses _ _ (left seen (fail eperm)) λ b.
              PassGranted-elim seen (k.security p) _ _
                (locked_part-PassGranted seen policy' n reset oldpolicy
                  (permitted-Allowed env k s p weak seen policy' n reset (ground (arith, weak, b))))
                (λ e. left seen (fail (hook e)))

    -- What a caller without CAP_SYS_NICE can do with __sched_setscheduler, whatever it asks for and
    -- whatever the passes read of the task without the lock: nothing, or give the task a policy
    -- that the rules allow by the reads of one pass. A task with RLIMIT_RTPRIO 0 gets no real-time
    -- policy but the one that the pass read, and none gets a real-time priority above both its
    -- limit and the one that the pass read.
    pub sched_setscheduler-Granted :
        (policy priority : ℤ) (raced : List Seen)
        → Granted env k s p
            (Among raced (s.tasks p))
            (sched_setscheduler env k true s p policy priority raced)
    unfolding sched_setscheduler
    sched_setscheduler-Granted policy priority [] =
        let x = seen_of (s.tasks p) in
        PassGranted-retry x (Among [] (s.tasks p)) _ _ refl
          (setscheduler_pass-PassGranted policy priority x) (Granted.unchanged (fail einval))
    sched_setscheduler-Granted policy priority (seen ∷ later) =
        PassGranted-retry seen (Among (seen ∷ later) (s.tasks p)) _ _ (inl refl)
          (setscheduler_pass-PassGranted policy priority seen)
          (Granted-among (Among later (s.tasks p)) (Among (seen ∷ later) (s.tasks p)) _
            (λ x a. inr a) (sched_setscheduler-Granted (negsuc 0) priority later))

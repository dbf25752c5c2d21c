-- ===== src/Sched/Permission.antt =====
-- Who may not change the policy of a task.
use android_kernel_programmi.Base.{
  ℕ, refl, ◌≡◌, Bool, true, false, Option, none, some, List, [], ◌∷◌, ◌&&◌, not, if◌then◌else◌,
  arith,
}
use android_kernel_programmi.Base.Int.{ℤ, to_nat}
use android_kernel_programmi.Kernel.State.{Sys}
use android_kernel_programmi.Kernel.Env.{Env}
use android_kernel_programmi.Sched.Errors.{Ret, fail, eperm, einval}
use android_kernel_programmi.Sched.Setscheduler.{
  Seen, seen_of, Caller, check_same_owner, permitted, wanted, valid_priority, setscheduler_pass,
  sched_setscheduler,
}

-- The call ends with EINVAL or EPERM and has changed nothing.
pub data Refused (s : Sys) : Sys × Ret → Type 0 where
  invalid : Refused s (s, fail einval)
  forbidden : Refused s (s, fail eperm)

data PassRefused (s : Sys) : Option (Sys × Ret) → Type 0 where
  refused : (r : Sys × Ret) → Refused s r → PassRefused s (some r)

PassRefused-if :
    (s : Sys) (b : Bool) (x y : Option (Sys × Ret))
    → PassRefused s x
    → (b ≡ false → PassRefused s y)
    → PassRefused s (if b then x else y)
PassRefused-if s true x y f g = f
PassRefused-if s false x y f g = g refl

PassRefused-elim {ℓ} :
    {A : Type ℓ} (s : Sys) (o : Option A) (x : Option (Sys × Ret)) (f : A → Option (Sys × Ret))
    → PassRefused s x
    → ((a : A) → PassRefused s (f a))
    → PassRefused s (elim o [ none ↦ x | some a ↦ f a ])
PassRefused-elim s none x f h k = h
PassRefused-elim s (some a) x f h k = k a

PassRefused-take :
    (s : Sys) (o : Option (Sys × Ret)) (r : Sys × Ret)
    → PassRefused s o
    → Refused s (elim o [ none ↦ r | some x ↦ x ])
PassRefused-take s _ r (refused x h) = h

module _ (env : Env) (k : Caller) (s : Sys) (p : ℕ) where
  module _ (weak : k.capable ≡ false) (foreign : check_same_owner k p ≡ false) where
    permitted-foreign :
        (seen : Seen) (policy priority : ℕ) (reset : Bool)
        → permitted k p seen policy priority reset ≡ false
    unfolding permitted
    permitted-foreign seen policy priority reset = ground (arith, foreign)

    pass-foreign :
        (policy priority : ℤ) (seen : Seen)
        → PassRefused s (setscheduler_pass env k true s p policy priority seen)
    unfolding setscheduler_pass
    pass-foreign policy priority seen =
        PassRefused-elim s (wanted policy seen) _ _ (refused _ invalid) λ w.
          let (policy', reset, oldpolicy) = w in
          PassRefused-if s (not (valid_priority seen policy' priority)) _ _ (refused _ invalid) λ h.
            PassRefused-if s
              (true && not k.capable && not (permitted k p seen policy' (to_nat priority) reset)) _
              _ (refused _ forbidden)
              (λ f. ground (arith, f, weak, permitted-foreign seen policy' (to_nat priority) reset))

    -- A caller without CAP_SYS_NICE changes nothing about a task of another user and is told EINVAL
    -- or EPERM, whatever it asks for and whatever the passes read of the task without the lock.
    pub sched_setscheduler-foreign :
        (policy priority : ℤ) (raced : List Seen)
        → Refused s (sched_setscheduler env k true s p policy priority raced)
    unfolding sched_setscheduler
    sched_setscheduler-foreign policy priority [] =
        PassRefused-take s _ _ (pass-foreign policy priority (seen_of (s.tasks p)))
    sched_setscheduler-foreign policy priority (seen ∷ later) =
        PassRefused-take s _ _ (pass-foreign policy priority seen)

-- ===== src/Sched/Inv/Entry.antt =====
-- The system calls that change a policy, and which task runs next.
use android_kernel_programmi.Base.{ℕ, refl, ◌≡◌, true, false, Option, none, some, List}
use android_kernel_programmi.Base.Int.{ℤ, pos, negsuc}
use android_kernel_programmi.Kernel.State.{Sys}
use android_kernel_programmi.Kernel.Env.{Env}
use android_kernel_programmi.Sched.Errors.{Errno, Ret, fail, efault, esrch, einval}
use android_kernel_programmi.Sched.Setscheduler.{Seen, Caller, sched_setscheduler}
use android_kernel_programmi.Sched.Syscalls.{
  User, find_process_by_pid, do_sched_setscheduler, sys_sched_setscheduler,
}
use android_kernel_programmi.Sched.Inv.Good.{Good}
use android_kernel_programmi.Sched.Inv.Calls.{sched_setscheduler-Good, sched_setscheduler_fails}

module _ (env : Env) (k : Caller) (u : User) (s : Sys) where
  -- What both theorems say of a result.
  abbrev Sound : Sys × Ret → Type 0
  Sound r = (Good env s → Good env r.0) × ((e : Errno) → r.1 ≡ fail e → r.0 ≡ s)

  error-Sound : (e : Errno) → Sound (s, fail e)
  error-Sound e = ((λ g. g), λ f h. refl)

  find-Sound :
      (policy priority : ℤ) (raced : List Seen) (o : Option ℕ)
      → ((p : ℕ) → env.pi_blocked p ≡ false)
      → Sound (elim o [
        | none ↦ (s, fail esrch)
        | some p ↦ sched_setscheduler env k true s p policy priority raced
      ])
  find-Sound policy priority raced none free = error-Sound esrch
  find-Sound policy priority raced (some p) free = (
    sched_setscheduler-Good env k true s p policy priority raced (free p),
    sched_setscheduler_fails env k true s p policy priority raced,
  )

  copied-Sound :
      (priority : Option ℤ) (pid : ℕ) (policy : ℤ) (raced : List Seen)
      → ((p : ℕ) → env.pi_blocked p ≡ false)
      → Sound (elim priority [
        | none ↦ (s, fail efault)
        | some n ↦ elim (find_process_by_pid u pid) [
          | none ↦ (s, fail esrch)
          | some p ↦ sched_setscheduler env k true s p policy n raced
        ]
      ])
  copied-Sound none pid policy raced free = error-Sound efault
  copied-Sound (some n) pid policy raced free =
      find-Sound policy n raced (find_process_by_pid u pid) free

  do_sched_setscheduler-Sound :
      (pid policy : ℤ) (param : Option ℕ) (raced : List Seen)
      → ((p : ℕ) → env.pi_blocked p ≡ false)
      → Sound (do_sched_setscheduler env k u s pid policy param raced)
  unfolding do_sched_setscheduler
  do_sched_setscheduler-Sound (negsuc n) policy param raced free = error-Sound einval
  do_sched_setscheduler-Sound (pos pid) policy none raced free = error-Sound einval
  do_sched_setscheduler-Sound (pos pid) policy (some addr) raced free =
      copied-Sound (u.copy_in addr) pid policy raced free

  sys_sched_setscheduler-Sound :
      (pid policy : ℤ) (param : Option ℕ) (raced : List Seen)
      → ((p : ℕ) → env.pi_blocked p ≡ false)
      → Sound (sys_sched_setscheduler env k u s pid policy param raced)
  unfolding sys_sched_setscheduler
  sys_sched_setscheduler-Sound pid (pos policy) param raced free =
      do_sched_setscheduler-Sound pid (pos policy) param raced free
  sys_sched_setscheduler-Sound pid (negsuc n) param raced free = error-Sound einval

  -- The system call sched_setscheduler keeps the wrr queues well formed, each with exactly the
  -- runnable wrr tasks of its cpu at the weights of their groups, for any arguments, where no task
  -- waits for an rt mutex.
  pub sys_sched_setscheduler-Good :
      (pid policy : ℤ) (param : Option ℕ) (raced : List Seen)
      → ((p : ℕ) → env.pi_blocked p ≡ false)
      → Good env s
      → Good env (sys_sched_setscheduler env k u s pid policy param raced).0
  sys_sched_setscheduler-Good pid policy param raced free =
      (sys_sched_setscheduler-Sound pid policy param raced free).0

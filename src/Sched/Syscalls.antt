-- ===== src/Sched/Syscalls.antt =====
-- The scheduling system calls.
use android_kernel_programmi.Base.{
  ℕ, ◌+◌, Bool, true, Option, none, some, List, ◌==◌, ◌||◌, if◌then◌else◌,
}
use android_kernel_programmi.Base.Int.{ℤ, pos, negsuc, is_neg}
use android_kernel_programmi.Kernel.State.{Sys}
use android_kernel_programmi.Kernel.Env.{Env}
use android_kernel_programmi.Sched.Policy
use android_kernel_programmi.Sched.Queue.{ops_of}
use android_kernel_programmi.Sched.Errors.{esrch, efault, einval, hook, Ret, done, fail}
use android_kernel_programmi.Sched.Setscheduler.{Seen, Caller, sched_setscheduler}

-- What the calls need of other parts: find_task_by_vpid, the current task, and copies from and to
-- user memory, which fail on a bad address. A null `param` is `none`.
pub record User : Type 0 where
  pub find_task : ℕ → Option ℕ
  pub current : ℕ
  pub copy_in : ℕ → Option ℤ
  pub copy_out_ok : ℕ → Bool
  pub security_get : ℕ → Option ℕ

unfoldable pub find_process_by_pid : User → ℕ → Option ℕ
find_process_by_pid u pid = if pid == 0 then some u.current else u.find_task pid

module _ (env : Env) (k : Caller) (u : User) where
  unfoldable pub do_sched_setscheduler : Sys → ℤ → ℤ → Option ℕ → List Seen → Sys × Ret
  unfolding find_process_by_pid
  do_sched_setscheduler s (negsuc n) policy param raced = (s, fail einval)
  do_sched_setscheduler s (pos pid) policy none raced = (s, fail einval)
  do_sched_setscheduler s (pos pid) policy (some addr) raced = elim (u.copy_in addr) [
    | none ↦ (s, fail efault)
    | some priority ↦ elim (find_process_by_pid u pid) [
      | none ↦ (s, fail esrch)
      | some p ↦ sched_setscheduler env k true s p policy priority raced
    ]
  ]

  unfoldable pub sys_sched_setscheduler : Sys → ℤ → ℤ → Option ℕ → List Seen → Sys × Ret
  unfolding do_sched_setscheduler
  sys_sched_setscheduler s pid policy param raced =
      if is_neg policy then (s, fail einval) else do_sched_setscheduler s pid policy param raced

  unfoldable pub sys_sched_setparam : Sys → ℤ → Option ℕ → List Seen → Sys × Ret
  unfolding do_sched_setscheduler
  sys_sched_setparam s pid param raced = do_sched_setscheduler s pid (negsuc 0) param raced

  unfoldable pub sys_sched_getscheduler : Sys → ℤ → Ret
  unfolding find_process_by_pid
  sys_sched_getscheduler s (negsuc n) = fail einval
  sys_sched_getscheduler s (pos pid) = elim (find_process_by_pid u pid) [
    | none ↦ fail esrch
    | some p ↦ elim (u.security_get p) [
      | some e ↦ fail (hook e)
      | none ↦
          let t = s.tasks p in
          done (if t.sched_reset_on_fork then t.policy + Policy.reset_on_fork else t.policy)
    ]
  ]

  -- The slice that is written to user memory, in ticks.
  unfoldable pub sys_sched_rr_get_interval : Sys → ℤ → ℕ → Ret
  unfolding find_process_by_pid
  sys_sched_rr_get_interval s (negsuc n) interval = fail einval
  sys_sched_rr_get_interval s (pos pid) interval = elim (find_process_by_pid u pid) [
    | none ↦ fail esrch
    | some p ↦ elim (u.security_get p) [
      | some e ↦ fail (hook e)
      | none ↦
          if u.copy_out_ok interval
          then done ((ops_of env s p).get_rr_interval s (s.tasks p).cpu p)
          else fail efault
    ]
  ]

unfoldable pub sys_sched_get_priority_max : ℕ → Ret
sys_sched_get_priority_max policy =
    if policy == Policy.fifo || policy == Policy.rr
    then done 99
    else if policy == Policy.normal || policy == Policy.batch || policy == Policy.idle
    then done 0
    else fail einval

unfoldable pub sys_sched_get_priority_min : ℕ → Ret
sys_sched_get_priority_min policy =
    if policy == Policy.fifo || policy == Policy.rr
    then done 1
    else if policy == Policy.normal || policy == Policy.batch || policy == Policy.idle
    then done 0
    else fail einval

-- ===== src/Sched/Wake.antt =====
-- Waking a task: try_to_wake_up and what it calls.
use android_kernel_programmi.Base.{
  not, ◌||◌, ℕ, Bool, true, false, ◌==◌, if◌then◌else◌, bit_and, sub32,
}
use android_kernel_programmi.Kernel.State.{Sys, put_task, put_rq}
use android_kernel_programmi.Kernel.Env.{Env}
use android_kernel_programmi.Sched.Queue.{
  ops_of, activate_task, set_task_cpu, task_contributes_to_load,
}
use android_kernel_programmi.Sched.Preempt.{check_preempt_curr}
use android_kernel_programmi.Sched.Fork.{select_task_rq}

module _ (env : Env) where
  -- The workqueue callback is left out.
  unfoldable pub ttwu_activate : Sys → ℕ → ℕ → ℕ → Sys
  ttwu_activate s c p en_flags =
      let s1 = activate_task env s c p en_flags in
      put_task s1 p (let t = s1.tasks p in record t { on_rq = true })

  -- The idle-time statistics are left out.
  unfoldable pub ttwu_do_wakeup : Sys → ℕ → ℕ → ℕ → Sys
  ttwu_do_wakeup s c p wake_flags =
      let s1 = check_preempt_curr env s c p wake_flags in
      let s2 = put_task s1 p (let t = s1.tasks p in record t { state = 0 }) in
      (ops_of env s2 p).task_woken s2 c p

  -- ENQUEUE_WAKEUP | ENQUEUE_WAKING is 5.
  unfoldable pub ttwu_do_activate : Sys → ℕ → ℕ → ℕ → Sys
  unfolding ttwu_activate ttwu_do_wakeup
  ttwu_do_activate s c p wake_flags =
      let r = s.rqs c in
      let s1 =
        if (s.tasks p).sched_contributes_to_load
        then put_rq s c (record r { nr_uninterruptible = sub32 r.nr_uninterruptible 1 })
        else s in
      ttwu_do_wakeup (ttwu_activate s1 c p 5) c p wake_flags

  unfoldable pub ttwu_remote : Sys → ℕ → ℕ → Sys × Bool
  unfolding ttwu_do_wakeup
  ttwu_remote s p wake_flags =
      let t = s.tasks p in
      if t.on_rq then (ttwu_do_wakeup s t.cpu p wake_flags, true) else (s, false)

  -- try_to_wake_up once the task is off its cpu: TASK_WAKING is 256, SD_BALANCE_WAKE 16 and
  -- WF_MIGRATED 4. Queueing by interprocessor interrupt (TTWU_QUEUE) is left out.
  unfoldable pub try_to_wake_up : Sys → ℕ → ℕ → ℕ → Sys × Bool
  unfolding ttwu_remote ttwu_do_activate task_contributes_to_load select_task_rq set_task_cpu
  try_to_wake_up s p state wake_flags =
      let t = s.tasks p in
      let s1 =
        put_task s p
          (record t { sched_contributes_to_load = task_contributes_to_load t; state = 256 }) in
      let s2 = (ops_of env s1 p).task_waking s1 p in
      let cpu = select_task_rq env s2 p 16 wake_flags in
      let s3 = if (s2.tasks p).cpu == cpu then s2 else set_task_cpu s2 p cpu in
      if bit_and t.state state == 0
      then (s, false)
      else if t.on_rq
      then ((ttwu_remote s p wake_flags).0, true)
      else (ttwu_do_activate s3 cpu p 0, true)

  -- TASK_NORMAL is 3. Only a task of this cpu that is not running on it is woken.
  unfoldable pub try_to_wake_up_local : Sys → ℕ → ℕ → Sys
  unfolding ttwu_activate ttwu_do_wakeup
  try_to_wake_up_local s c p =
      let t = s.tasks p in
      let s1 = if t.on_rq then s else ttwu_activate s c p 1 in
      if not (t.cpu == c) || (s.rqs c).curr == p || bit_and t.state 3 == 0
      then s
      else ttwu_do_wakeup s1 c p 0

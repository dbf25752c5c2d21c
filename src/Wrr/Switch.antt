-- ===== src/Wrr/Switch.antt =====
-- The hooks of the class that run when a task gets or gives up the cpu, or joins the class.
use android_kernel_programmi.Base.{ℕ, ◌≡◌, refl, true, has, arith, if◌then◌else◌}
use android_kernel_programmi.Kernel.State.{Sys, weights, queue_of}
use android_kernel_programmi.Kernel.Env.{Env}
use android_kernel_programmi.Wrr.Group.{is_background}
use android_kernel_programmi.Wrr.Class.{
  enqueue_task_wrr, update_curr_wrr, yield_task_wrr, put_prev_task_wrr, set_curr_task_wrr,
  switched_to_wrr,
}
use android_kernel_programmi.Wrr.Inv.{SysOk}
use android_kernel_programmi.Wrr.Lift.{quiet-SysOk}
use android_kernel_programmi.Wrr.Quiet.{update_curr_wrr-SysOk}
use android_kernel_programmi.Wrr.Rotate.{requeue_task_wrr-SysOk}

-- The weight of the task's group: 1 in the background, 10 in the foreground.
abbrev pub group_weight : Env → Sys → ℕ → ℕ
group_weight env s p = if is_background env (s.tasks p).sched_task_group then 1 else 10

module _ (env : Env) (s : Sys) (c : ℕ) where
  -- sched_yield of a running task on its queue keeps every queue well formed, with the right
  -- counters and no task on two queues.
  pub yield_task_wrr-SysOk :
      SysOk s → has (s.rqs c).curr (queue_of s c) ≡ true → SysOk (yield_task_wrr env s c)
  unfolding yield_task_wrr
  yield_task_wrr-SysOk ok on = requeue_task_wrr-SysOk env s c (s.rqs c).curr ok on

  pub put_prev_task_wrr-SysOk : (p : ℕ) → SysOk s → SysOk (put_prev_task_wrr env s c p)
  unfolding put_prev_task_wrr
  put_prev_task_wrr-SysOk p ok =
      quiet-SysOk (update_curr_wrr s c) (put_prev_task_wrr env s c p) (λ d. refl)
        (λ q. ground arith) (update_curr_wrr-SysOk s c ok)

  pub set_curr_task_wrr-SysOk : SysOk s → SysOk (set_curr_task_wrr env s c)
  unfolding set_curr_task_wrr
  set_curr_task_wrr-SysOk ok =
      quiet-SysOk s (set_curr_task_wrr env s c) (λ d. refl) (λ q. ground arith) ok

  -- The weight that enqueue_task_wrr leaves is that of the group.
  pub weights-enqueue_task_wrr :
      (p flags : ℕ) → weights (enqueue_task_wrr env s c p flags) p ≡ group_weight env s p
  unfolding enqueue_task_wrr
  weights-enqueue_task_wrr p flags = ground arith

  -- switched_to_wrr writes the weight of a queued task outside the queue's counters. It keeps the
  -- queues well formed where the task's weight is already that of its group, as after an enqueue.
  pub switched_to_wrr-SysOk :
      (p : ℕ) → SysOk s → weights s p ≡ group_weight env s p → SysOk (switched_to_wrr env s c p)
  unfolding switched_to_wrr
  switched_to_wrr-SysOk p ok w =
      quiet-SysOk s (switched_to_wrr env s c p) (λ d. ground arith) (λ q. ground arith) ok

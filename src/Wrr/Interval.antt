-- ===== src/Wrr/Interval.antt =====
-- What sched_rr_get_interval reports for a wrr task.
use android_kernel_programmi.Base.{ℕ, ◌≡◌, ◌==◌, ◌||◌, arith}
use android_kernel_programmi.Kernel.State.{Sys, weights}
use android_kernel_programmi.Kernel.Env.{Env}
use android_kernel_programmi.Wrr.Group.{group_path, is_background}
use android_kernel_programmi.Wrr.Class.{get_rr_interval_wrr}
use android_kernel_programmi.Wrr.Switch.{group_weight}
use android_kernel_programmi.Wrr.Tick.{full_slice}

-- For a task with the weight of its group, the reported interval is the slice that the task gets
-- exactly when the path of its group is one character long or its second character is 'b'.
pub get_rr_interval_wrr_agrees :
    (env : Env) (s : Sys) (c p : ℕ)
    → weights s p ≡ group_weight env s p
    → let path = group_path env (s.tasks p).sched_task_group in
      (get_rr_interval_wrr env s c p == full_slice env (weights s p))
      ≡ (path 1 == 0 || path 1 == b'b')
unfolding get_rr_interval_wrr is_background
get_rr_interval_wrr_agrees env s c p h = ground (arith, h, env.hz_large, env.hz_small)

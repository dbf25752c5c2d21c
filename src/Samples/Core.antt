-- ===== src/Samples/Core.antt =====
-- The theorems on core.c at the sample state.
use android_kernel_programmi.Sched.Fork.{sched_fork, wake_up_new_task}
use android_kernel_programmi.Sched.Inv.Wakeups.{try_to_wake_up-Good, wake_up_new_task-Good}
use android_kernel_programmi.Sched.Inv.Passes.{schedule_pass-Good}
use android_kernel_programmi.Sched.Schedule.{schedule_pass}
use android_kernel_programmi.Kernel.State.{Sys, SchedClass, queue_of}
use android_kernel_programmi.Base.{some, ℕ, refl, ◌≡◌, true, false, [], ◌∷◌, has, ◌==◌, ◌&&◌}
use android_kernel_programmi.Base.Int.{pos}
use android_kernel_programmi.Sched.Errors.{fail, einval}
use android_kernel_programmi.Sched.Setscheduler.{sched_setscheduler, change_policy}
use android_kernel_programmi.Sched.Wake.{try_to_wake_up}
use android_kernel_programmi.Sched.Move.{pull_wrr_task}
use android_kernel_programmi.Sched.Inv.Forks.{wake_up_new_task-sched_fork-Good}
use android_kernel_programmi.Sched.Inv.Good.{Off}
use android_kernel_programmi.Sched.Inv.Steps.{Good-Off}
use android_kernel_programmi.Sched.Inv.Parts.{put_task-Off}
use android_kernel_programmi.Sched.Setscheduler.{Seen, seen_of}
use android_kernel_programmi.Kernel.State.{put_task}
use android_kernel_programmi.Sched.Inv.Good.{Good}
use android_kernel_programmi.Sched.Inv.Calls.{sched_setscheduler-Good, sched_setscheduler_fails}
use android_kernel_programmi.Sched.Inv.Target.{change_policy_wrr}
use android_kernel_programmi.Sched.Inv.Balance.{pull_wrr_task-Good}
use android_kernel_programmi.Samples.Kernel.{machine, two_tasks, two_tasks-Good}
use android_kernel_programmi.Samples.Inputs.{owner}
use android_kernel_programmi.Sched.Policy

-- A pass that reads the policy SCHED_FIFO, which the lock then does not find.
abbrev fifo_seen : Seen
fifo_seen = let x = seen_of (two_tasks.tasks 3) in record x { policy = 1; rt_check_policy = 1 }

sched_setscheduler-Good_example :
    Good machine
      (sched_setscheduler machine owner true two_tasks 3 (pos 6) (pos 0) (fifo_seen ∷ [])).0
sched_setscheduler-Good_example =
    sched_setscheduler-Good machine owner true two_tasks 3 (pos 6) (pos 0) (fifo_seen ∷ []) refl
      two_tasks-Good

-- 4 is no policy.
no_policy : (sched_setscheduler machine owner true two_tasks 3 (pos 4) (pos 0) []).1 ≡ fail einval
unfolding sched_setscheduler
no_policy = refl

sched_setscheduler_fails_example :
    (sched_setscheduler machine owner true two_tasks 3 (pos 4) (pos 0) []).0 ≡ two_tasks
sched_setscheduler_fails_example =
    sched_setscheduler_fails machine owner true two_tasks 3 (pos 4) (pos 0) [] einval no_policy

change_policy_wrr_example :
    let t = change_policy machine two_tasks 3 Policy.wrr 0 false in
    ((t.tasks 3).sched_class ≡ SchedClass.wrr)
    × ((c : ℕ) → has 3 (queue_of t c) ≡ ((two_tasks.tasks 3).on_rq && (two_tasks.tasks 3).cpu == c))
change_policy_wrr_example = change_policy_wrr machine two_tasks 3 0 false two_tasks-Good

try_to_wake_up-Good_example : Good machine (try_to_wake_up machine two_tasks 3 3 0).0
try_to_wake_up-Good_example = try_to_wake_up-Good machine two_tasks 3 3 0 two_tasks-Good

wake_up_new_task-Good_example : Good machine (wake_up_new_task machine two_tasks 3)
wake_up_new_task-Good_example = wake_up_new_task-Good machine two_tasks 3 refl two_tasks-Good

pull_wrr_task-Good_example : Good machine (pull_wrr_task machine two_tasks 1)
pull_wrr_task-Good_example = pull_wrr_task-Good machine two_tasks 1 two_tasks-Good

schedule_pass-Good_example :
    (t : Sys) × ((schedule_pass machine two_tasks 0 false false (some 3) ≡ some t) × Good machine t)
schedule_pass-Good_example =
    schedule_pass-Good machine two_tasks 0 false false (some 3) refl refl (λ s. (0, refl))
      two_tasks-Good

-- Task 4 is the copy of task 1, which runs on cpu 0.
abbrev copied_task : Sys
copied_task = put_task two_tasks 4 (two_tasks.tasks 1)

copied_task-Off : Off machine copied_task 4
copied_task-Off =
    put_task-Off machine two_tasks 4 (two_tasks.tasks 1)
      (Good-Off machine two_tasks 4 (λ c. refl) two_tasks-Good)

wake_up_new_task-sched_fork-Good_example :
    let u = sched_fork machine copied_task 1 4 0 in
    Good machine u × ((u.tasks 4).on_rq ≡ false) × Good machine (wake_up_new_task machine u 4)
wake_up_new_task-sched_fork-Good_example =
    wake_up_new_task-sched_fork-Good machine copied_task 1 4 0 copied_task-Off

-- ===== src/Samples/Calls.antt =====
-- The theorems on the tick, on nice values, on migration and on permissions at the sample state.
use android_kernel_programmi.Kernel.State.{queue_of}
use android_kernel_programmi.Sched.Setscheduler.{
  change_policy, sched_setscheduler, check_same_owner,
}
use android_kernel_programmi.Sched.Inv.Leaving.{change_policy_leaves}
use android_kernel_programmi.Base.{has, refl, ◌≡◌, true, false, some, [], ◌∷◌, arith}
use android_kernel_programmi.Base.Int.{pos}
use android_kernel_programmi.Sched.Preempt.{pick_next_task}
use android_kernel_programmi.Sched.Schedule.{scheduler_tick}
use android_kernel_programmi.Sched.Grants.{Granted, Among, sched_setscheduler-Granted}
use android_kernel_programmi.Sched.Permission.{Refused, sched_setscheduler-foreign}
use android_kernel_programmi.Sched.Inv.Good.{Good}
use android_kernel_programmi.Sched.Inv.Ticking.{scheduler_tick-Good}
use android_kernel_programmi.Sched.Inv.Order.{after_rt, pick_next_task_wrr_first}
use android_kernel_programmi.Samples.Kernel.{machine, two_tasks, two_tasks-SysOk, two_tasks-Good}
use android_kernel_programmi.Samples.Inputs.{owner, stranger}

scheduler_tick-Good_example : Good machine (scheduler_tick machine two_tasks 0)
scheduler_tick-Good_example = scheduler_tick-Good machine two_tasks 0 refl refl two_tasks-Good

pick_next_task_wrr_first_example :
    pick_next_task machine two_tasks 0 ≡ (some 1, after_rt machine two_tasks 0)
pick_next_task_wrr_first_example =
    pick_next_task_wrr_first machine two_tasks 0 1 (2 ∷ []) two_tasks-SysOk refl (omega arith) refl
      refl refl

not_mine : check_same_owner stranger 3 ≡ false
unfolding check_same_owner
not_mine = refl

sched_setscheduler-foreign_example :
    Refused two_tasks (sched_setscheduler machine stranger true two_tasks 3 (pos 6) (pos 0) [])
sched_setscheduler-foreign_example =
    sched_setscheduler-foreign machine stranger two_tasks 3 refl not_mine (pos 6) (pos 0) []

sched_setscheduler-Granted_example :
    Granted machine owner two_tasks 3
      (Among [] (two_tasks.tasks 3))
      (sched_setscheduler machine owner true two_tasks 3 (pos 6) (pos 0) [])
sched_setscheduler-Granted_example =
    sched_setscheduler-Granted machine owner two_tasks 3 refl (pos 6) (pos 0) []

change_policy_leaves_example :
    has 1 (queue_of (change_policy machine two_tasks 1 0 0 false) 0) ≡ false
change_policy_leaves_example =
    change_policy_leaves machine two_tasks 1 0 0 false refl two_tasks-Good 0

-- ===== src/Samples/Queues.antt =====
-- The theorems on wrr.c at the sample state.
use android_kernel_programmi.Base.{ℕ, refl, ◌≡◌, ◌⊎◌, true, false, has, arith, ◌==◌, ◌||◌, lt_int}
use android_kernel_programmi.Kernel.State.{weights}
use android_kernel_programmi.Wrr.Group.{is_background, group_path}
use android_kernel_programmi.Wrr.Class.{
  enqueue_task_wrr, dequeue_task_wrr, select_task_rq_wrr, get_rr_interval_wrr,
}
use android_kernel_programmi.Wrr.Switch.{group_weight}
use android_kernel_programmi.Wrr.Roundtrip.{dequeue_task_wrr-enqueue_task_wrr}
use android_kernel_programmi.Wrr.Tick.{full_slice}
use android_kernel_programmi.Wrr.Spec.{shares, refreshed, total_slices}
use android_kernel_programmi.Wrr.Round.{
  Turning, turns_of, tick_fronts, served_by, earned, round_robin, tick_fronts_refines,
}
use android_kernel_programmi.Wrr.Select.{load, select_task_rq_wrr_least}
use android_kernel_programmi.Wrr.Interval.{get_rr_interval_wrr_agrees}
use android_kernel_programmi.Samples.Kernel.{machine, two_tasks, two_tasks-SysOk, two_tasks-Turning}
use android_kernel_programmi.Wrr.Spec

round_robin_example :
    let n = total_slices (turns_of two_tasks 0) in
    (served_by machine n two_tasks 0 ≡ shares (turns_of two_tasks 0))
    × (turns_of (tick_fronts machine n two_tasks 0) 0
        ≡ refreshed (earned machine 0 two_tasks) (turns_of two_tasks 0))
round_robin_example = round_robin machine 0 two_tasks two_tasks-Turning

tick_fronts_refines_example :
    (turns_of (tick_fronts machine 5 two_tasks 0) 0
      ≡ Spec.ticks (earned machine 0 two_tasks) 5 (turns_of two_tasks 0))
    × (served_by machine 5 two_tasks 0
        ≡ Spec.trace (earned machine 0 two_tasks) 5 (turns_of two_tasks 0))
    × Turning (tick_fronts machine 5 two_tasks 0) 0
tick_fronts_refines_example = tick_fronts_refines machine 0 5 two_tasks two_tasks-Turning

dequeue_task_wrr-enqueue_task_wrr_example :
    ((dequeue_task_wrr machine (enqueue_task_wrr machine two_tasks 0 3 2) 0 3 0).rqs 0).wrr
    ≡ (two_tasks.rqs 0).wrr
dequeue_task_wrr-enqueue_task_wrr_example =
    dequeue_task_wrr-enqueue_task_wrr machine two_tasks 0 3 2 0 two_tasks-SysOk (λ c. ground arith)

background_weight : weights two_tasks 2 ≡ group_weight machine two_tasks 2
unfolding is_background group_path
background_weight = ground arith

get_rr_interval_wrr_agrees_example :
    let path = group_path machine 1 in
    (get_rr_interval_wrr machine two_tasks 0 2 == full_slice machine (weights two_tasks 2))
    ≡ (path 1 == 0 || path 1 == b'b')
get_rr_interval_wrr_agrees_example =
    get_rr_interval_wrr_agrees machine two_tasks 0 2 background_weight

select_task_rq_wrr_least_example :
    let r = select_task_rq_wrr machine two_tasks 3 0 0 in
    ((r ≡ 0) ⊎ ((has r machine.online ≡ true) × (true ≡ true)))
    × (lt_int (load two_tasks 0) (load two_tasks r) ≡ false)
    × ((c : ℕ)
        → has c machine.online ≡ true
        → true ≡ true
        → lt_int (load two_tasks c) (load two_tasks r) ≡ false)
select_task_rq_wrr_least_example = select_task_rq_wrr_least machine two_tasks 3 0 0 refl

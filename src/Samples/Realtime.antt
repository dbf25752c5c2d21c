-- ===== src/Samples/Realtime.antt =====
-- The theorems on the real-time class at the tasks of one group.
use android_kernel_programmi.Base.{
  ◌∙◌, ap, sym, ◌-◌, inr, length, remove, ◌++◌, ◌==◌, [], ◌∷◌, ℕ, refl, some, true, false, ◌≡◌, ◌<◌,
  arith, ◌^◌, none, ◌||◌, has,
}
use android_kernel_programmi.Rt.Tick.{
  do_sched_rt_period_timer, task_tick_end, rr_timeslice, task_tick_rt, pick_next_task_rt,
  sched_rt_period_timer, Picked,
}
use android_kernel_programmi.Rt.Refill.{taken_off, do_sched_rt_period_timer_unthrottles, group_rq}
use android_kernel_programmi.Rt.Queue.{rt_se_prio, on_rt_rq}
use android_kernel_programmi.Sched.Policy.{rr}
use android_kernel_programmi.Rt.Relink.{queue_at}
use android_kernel_programmi.Rt.Rotate.{Owned, task_tick_end_rotates}
use android_kernel_programmi.Rt.State.{RtSys, put_rt_task}
use android_kernel_programmi.Rt.Array.{rt_rq_throttled}
use android_kernel_programmi.Rt.Class.{enqueue_task_rt, dequeue_task_rt}
use android_kernel_programmi.Rt.Stacks.{ChainOk}
use android_kernel_programmi.Rt.Hooks.{ClassOk}
use android_kernel_programmi.Rt.Entry.{
  enqueue_task_rt-ClassOk, dequeue_task_rt-ClassOk, task_tick_rt-ClassOk,
  sched_rt_period_timer-ClassOk,
}
use android_kernel_programmi.Rt.Pick.{pick_next_task_rt_picks}
use android_kernel_programmi.Samples.Group.{config, nothing_queued, nothing_queued-ClassOk}

-- Two tasks of the group queued: first task 0, which runs, then task 1.
abbrev one_queued : RtSys
one_queued = enqueue_task_rt config nothing_queued 0 false false

abbrev two_queued : RtSys
two_queued = enqueue_task_rt config one_queued 1 true false

task_0-ChainOk : ChainOk nothing_queued 0
task_0-ChainOk = λ x h. (λ m. omega arith, ground arith)

enqueue_task_rt-ClassOk_example : ClassOk 1 one_queued
enqueue_task_rt-ClassOk_example =
    enqueue_task_rt-ClassOk config 1 (omega arith) nothing_queued 0 false false
      nothing_queued-ClassOk task_0-ChainOk

one_queued-ClassOk : ClassOk 1 one_queued
one_queued-ClassOk =
    enqueue_task_rt-ClassOk config 1 (omega arith) nothing_queued 0 false false
      nothing_queued-ClassOk task_0-ChainOk

-- The tasks and the group with the numbers that they have.
numbered : (x : ℕ) → has x (0 ∷ 100 ∷ []) || has x (1 ∷ 100 ∷ []) ≡ true → x < 2 ^ 31
numbered x h = ground arith

task_0_queued-ChainOk : ChainOk one_queued 0
unfolding enqueue_task_rt
task_0_queued-ChainOk x h = (λ m. omega arith, ground (arith, numbered x))

task_1-ChainOk : ChainOk one_queued 1
unfolding enqueue_task_rt
task_1-ChainOk x h = (λ m. omega arith, ground (arith, numbered x))

two_queued-ClassOk : ClassOk 1 two_queued
two_queued-ClassOk =
    enqueue_task_rt-ClassOk config 1 (omega arith) one_queued 1 true false one_queued-ClassOk
      task_1-ChainOk

dequeue_task_rt-ClassOk_example : ClassOk 1 (dequeue_task_rt config one_queued 0)
dequeue_task_rt-ClassOk_example =
    dequeue_task_rt-ClassOk config 1 (omega arith) one_queued 0 one_queued-ClassOk
      task_0_queued-ChainOk

-- The slice of task 0 is used up.
abbrev rotated : RtSys
rotated = task_tick_rt config two_queued 0

task_tick_rt-ClassOk_example : ClassOk 1 rotated
task_tick_rt-ClassOk_example =
    task_tick_rt-ClassOk config 1 (omega arith) two_queued 0 two_queued-ClassOk

rotated-ClassOk : ClassOk 1 rotated
rotated-ClassOk = task_tick_rt-ClassOk config 1 (omega arith) two_queued 0 two_queued-ClassOk

sched_rt_period_timer-ClassOk_example :
    ClassOk 1 (sched_rt_period_timer config rotated 1 (2 ∷ 1 ∷ [])).0
sched_rt_period_timer-ClassOk_example =
    sched_rt_period_timer-ClassOk config 1 (omega arith) rotated 1 (2 ∷ 1 ∷ []) rotated-ClassOk

two_queued_count : 0 < (two_queued.rt_rqs 0).rt_nr_running
unfolding enqueue_task_rt
two_queued_count = omega arith

two_queued_open : rt_rq_throttled (two_queued.rt_rqs 0) ≡ false
unfolding enqueue_task_rt rt_rq_throttled
two_queued_open = refl

pick_next_task_rt_picks_example :
    (p : ℕ) × (pick_next_task_rt config 1 two_queued
      ≡ Picked.picked p (
          put_rt_task two_queued p
            (let t = two_queued.tasks p in record t { exec_start = two_queued.clock_task })))
    × ((two_queued.entities p).my_q ≡ none)
    × ((i : ℕ) × ((two_queued.entities p).run_list ≡ some i))
pick_next_task_rt_picks_example =
    pick_next_task_rt_picks config 1 two_queued two_queued-ClassOk.tree two_queued-ClassOk.ok
      two_queued_count two_queued_open

-- It goes to the end of its list, behind task 1.
test_tick : (rotated.rt_rqs 1).queue 50 ≡ 1 ∷ 0 ∷ []
unfolding enqueue_task_rt task_tick_rt
test_tick = refl

two_queued_linked : (two_queued.entities 0).run_list ≡ some 50
unfolding enqueue_task_rt
two_queued_linked = refl

two_queued_company : 1 < length ((queue_at two_queued 0).queue 50)
unfolding enqueue_task_rt
two_queued_company = omega arith

two_queued-Owned : Owned two_queued 0
unfolding enqueue_task_rt
two_queued-Owned = inr (100, refl)

two_queued_slice : (two_queued.entities 0).time_slice ≡ 1
unfolding enqueue_task_rt
two_queued_slice = refl

two_queued_policy : (two_queued.tasks 0).policy ≡ rr
unfolding enqueue_task_rt
two_queued_policy = refl

task_tick_end_rotates_example :
    ((queue_at (task_tick_end config two_queued 0) 0).queue 50
      ≡ remove 0 ((queue_at two_queued 0).queue 50) ++ (0 ∷ []))
    × ((j : ℕ)
        → (50 == j) ≡ false
        → (queue_at (task_tick_end config two_queued 0) 0).queue j
          ≡ (queue_at two_queued 0).queue j)
    × (((task_tick_end config two_queued 0).entities 0).time_slice ≡ rr_timeslice config)
    × (((task_tick_end config two_queued 0).tasks 0).need_resched ≡ true)
task_tick_end_rotates_example =
    task_tick_end_rotates config 1 two_queued 0 50 two_queued-ClassOk.tree two_queued-ClassOk.ok
      two_queued-Owned two_queued_policy two_queued_slice two_queued_linked two_queued_company

-- Task 0 has run for 980 ms of the group's 950 ms when the clock ticks.
abbrev late : RtSys
late = record two_queued { clock_task = 980000000 }

late-ClassOk : ClassOk 1 late
unfolding rt_se_prio
late-ClassOk =
    let c = two_queued-ClassOk in
    let k = c.ok in
    let t = c.tree in
    record {
      ok = record {
        levels = k.levels;
        links = k.links;
        placed = k.placed;
        prios = k.prios;
        filled = k.filled;
        known = k.known;
      };
      tree = record { owner = t.owner; nested = t.nested; top = t.top; deep = t.deep };
      groups = c.groups;
    }

abbrev throttled : RtSys
throttled = task_tick_rt config late 0

throttled-ClassOk : ClassOk 1 throttled
throttled-ClassOk = task_tick_rt-ClassOk config 1 (omega arith) late 0 late-ClassOk

throttled_off : on_rt_rq throttled 100 ≡ false
unfolding enqueue_task_rt task_tick_rt on_rt_rq
throttled_off = refl

throttled_rq :
    ((group_rq throttled 1).rt_throttled ≡ true)
    × ((group_rq throttled 1).tg ≡ 1)
    × ((group_rq throttled 1).rt_nr_running ≡ 2)
    × ((group_rq throttled 1).rt_time ≡ 980000000)
    × ((group_rq throttled 1).rt_runtime ≡ 950000000)
unfolding enqueue_task_rt task_tick_rt
throttled_rq = (refl, refl, refl, refl, refl)

throttled_entity : (throttled.entities 100).my_q ≡ some 1
unfolding enqueue_task_rt task_tick_rt
throttled_entity = refl

throttled_group : ((throttled.groups 1).rt_se ≡ some 100) × ((throttled.groups 1).rt_rq ≡ 1)
unfolding enqueue_task_rt task_tick_rt
throttled_group = (refl, refl)

do_sched_rt_period_timer_unthrottles_example :
    let u = (do_sched_rt_period_timer config throttled 1 1).0 in
    (on_rt_rq u 100 ≡ true)
    × ((u.rt_rqs (throttled.groups 1).rt_rq).rt_time
        ≡ (group_rq throttled 1).rt_time - taken_off throttled 1 1)
    × ((u.rt_rqs (throttled.groups 1).rt_rq).rt_throttled ≡ false)
do_sched_rt_period_timer_unthrottles_example =
    do_sched_rt_period_timer_unthrottles config 1 throttled 1 100 1 throttled-ClassOk.tree
      throttled_rq.1 throttled_group.0 (throttled_entity ∙ ap some (sym throttled_group.1))
      throttled_rq.0 (omega (arith, throttled_rq)) (omega (arith, throttled_rq))
      (omega (arith, throttled_rq)) (omega (arith, throttled_rq))

-- ===== src/Rt/Tick.antt =====
-- The timer tick, the choice of the next task and the period timer of
-- Project2/goldfish/kernel/sched/rt.c, one cpu.
use android_kernel_programmi.Sched.Policy.{max_rt_prio, rr}
use android_kernel_programmi.Base.{
  ℕ, zero, suc, ◌+◌, ◌-◌, ◌*◌, ◌/◌, ◌%◌, ◌^◌, Bool, true, false, Option, none, some, List, [], ◌∷◌,
  add32, sub32, sub64, ltb, leb, ◌==◌, not, ◌&&◌, ◌||◌, if◌then◌else◌, length,
}
use android_kernel_programmi.Base.Int.{negsuc}
use android_kernel_programmi.Rt.State.{RtRq, RtSys, RtEnv, put_rt_entity, put_rt_rq, put_rt_task}
use android_kernel_programmi.Rt.Array.{rt_rq_throttled}
use android_kernel_programmi.Rt.Queue.{chain_of, requeue_task_rt}
use android_kernel_programmi.Rt.Class.{update_curr_rt, resched, sched_rt_rq_enqueue}

-- RR_TIMESLICE
abbrev pub rr_timeslice : RtEnv → ℕ
rr_timeslice env = 100 * env.hz / 1000

-- `DIV_ROUND_UP(min(soft, hard), USEC_PER_SEC/HZ)`
unfoldable pub rttime_limit : RtEnv → ℕ → ℕ → ℕ
rttime_limit env soft hard =
    let usec = 1000000 / env.hz in
    sub32 (add32 (if ltb soft hard then soft else hard) usec) 1 / usec

unfoldable pub watchdog : RtEnv → RtSys → ℕ → RtSys
unfolding rttime_limit
watchdog env s p = elim (env.rttime_soft p) [
  | none ↦ s
  | some soft ↦
      let e = s.entities p in
      let timeout = add32 e.timeout 1 in
      let next = rttime_limit env soft (env.rttime_hard p) in
      let t = s.tasks p in
      let s = put_rt_entity s p (record e { timeout = timeout }) in
      if ltb next timeout then put_rt_task s p (record t { sched_exp = t.sum_exec_runtime }) else s
]

-- `rt_se->run_list.prev != rt_se->run_list.next`: neither is on no list nor alone on it.
unfoldable pub has_company : RtSys → ℕ → Bool
has_company s e = elim (s.entities e).run_list [
  | none ↦ false
  | some i ↦ ltb 1 (length ((s.rt_rqs (s.entities e).rt_rq).queue i))
]

-- The loop over the task and its groups, which stops at the first that is not alone.
unfoldable pub rotate : RtEnv → RtSys → ℕ → List ℕ → RtSys
unfolding has_company requeue_task_rt
rotate env s p [] = s
rotate env s p (e ∷ es) =
    let rest = rotate env s p es in
    if has_company s e then resched (requeue_task_rt env s p false) p else rest

-- The tick after the accounting: the slice of a task of policy SCHED_RR.
unfoldable pub task_tick_end : RtEnv → RtSys → ℕ → RtSys
unfolding rotate
task_tick_end env s p =
    if not ((s.tasks p).policy == rr)
    then s
    else (let e = s.entities p in
        let left = sub32 e.time_slice 1 in
        let s2 = put_rt_entity s p (record e { time_slice = left }) in
        if not (left == 0)
        then s2
        else (let s3 = put_rt_entity s p (record e { time_slice = rr_timeslice env }) in
            rotate env s3 p (chain_of s3 p)))

unfoldable pub task_tick_rt : RtEnv → RtSys → ℕ → RtSys
unfolding update_curr_rt watchdog task_tick_end
task_tick_rt env s p = task_tick_end env (watchdog env (update_curr_rt env s) p) p

unfoldable pub get_rr_interval_rt : RtEnv → RtSys → ℕ → ℕ
get_rr_interval_rt env s p = if (s.tasks p).policy == rr then rr_timeslice env else 0

-- No result where `BUG_ON(idx >= MAX_RT_PRIO)` fires, or the list at `idx` is empty.
unfoldable pub pick_next_rt_entity : RtEnv → RtRq → Option ℕ
pick_next_rt_entity env r =
    let idx = env.sched_find_first_bit r.bitmap in
    if leb max_rt_prio idx then none else elim (r.queue idx) [ [] ↦ none | e ∷ es ↦ some e ]

-- The way down through the groups, on fuel: a level per unit.
unfoldable pub pick_down : RtEnv → ℕ → RtSys → ℕ → Option ℕ
unfolding pick_next_rt_entity
pick_down env zero s q = none
pick_down env (suc fuel) s q = elim (pick_next_rt_entity env (s.rt_rqs q)) [
  | none ↦ none
  | some e ↦ elim (s.entities e).my_q [ none ↦ some e | some q ↦ pick_down env fuel s q ]
]

-- What `pick_next_task_rt` gives: no task, or a task and its state; `crash` is a BUG or a run out of
-- fuel. `depth` is how far groups are nested.
pub data Picked : Type 0 where
  idle_class : Picked
  picked : ℕ → RtSys → Picked
  crash : Picked

unfoldable pub pick_next_task_rt : RtEnv → ℕ → RtSys → Picked
unfolding pick_down rt_rq_throttled
pick_next_task_rt env depth s =
    if (s.rt_rqs 0).rt_nr_running == 0
    then Picked.idle_class
    else if rt_rq_throttled (s.rt_rqs 0)
    then Picked.idle_class
    else elim (pick_down env (depth + 1) s 0) [
      | none ↦ Picked.crash
      | some p ↦
          Picked.picked p
            (put_rt_task s p (let t = s.tasks p in record t { exec_start = s.clock_task }))
    ]

unfoldable pub switched_to_rt : RtSys → ℕ → RtSys
switched_to_rt s p =
    if (s.tasks p).on_rq && not (s.curr == p)
    then (if ltb (s.tasks p).prio (s.tasks s.curr).prio then resched s s.curr else s)
    else s

unfoldable pub prio_changed_rt : RtSys → ℕ → ℕ → RtSys
prio_changed_rt s p oldprio =
    if not (s.tasks p).on_rq
    then s
    else if s.curr == p
    then (if ltb oldprio (s.tasks p).prio then resched s p else s)
    else (if ltb (s.tasks p).prio (s.tasks s.curr).prio then resched s s.curr else s)

-- A queue's part of the period timer: its new state, whether it goes on its own queue again, and
-- whether it is idle.
unfoldable pub refill_queue : RtSys → ℕ → ℕ → RtSys × (Bool × Bool)
unfolding rt_rq_throttled
refill_queue s q overrun =
    let r = s.rt_rqs q in
    if not (r.rt_time == 0)
    then (let given = (overrun * r.rt_runtime) % 2 ^ 64 in
        let left = sub64 r.rt_time (if ltb r.rt_time given then r.rt_time else given) in
        let unthrottled = r.rt_throttled && ltb left r.rt_runtime in
        let r = record r { rt_time = left; rt_throttled = r.rt_throttled && not unthrottled } in
        let waits = unthrottled && not (r.rt_nr_running == 0) && s.curr == s.idle in
        let s = if waits then record s { skip_clock_update = negsuc 0 } else s in
        (put_rt_rq s q r, (unthrottled, left == 0 && r.rt_nr_running == 0)))
    else if not (r.rt_nr_running == 0)
    then (s, (not (rt_rq_throttled r), false))
    else (s, (false, true))

-- `do_sched_rt_period_timer` for the bandwidth of group `g`, on the one cpu: the state, and whether
-- the timer may stop.
unfoldable pub do_sched_rt_period_timer : RtEnv → RtSys → ℕ → ℕ → RtSys × Bool
unfolding refill_queue sched_rt_rq_enqueue
do_sched_rt_period_timer env s g overrun =
    let q = (s.groups g).rt_rq in
    let (s1, (enqueue, idle)) = refill_queue s q overrun in
    let throttled = (s1.rt_rqs q).rt_throttled in
    let s2 = if enqueue then sched_rt_rq_enqueue env s1 q else s1 in
    let unlimited = not env.rt_bandwidth_enabled || (s2.groups g).rt_runtime == 2 ^ 64 - 1 in
    (s2, if not throttled && unlimited then true else idle)

-- The loop of `sched_rt_period_timer`, on what `hrtimer_forward` gives in its rounds up to the 0 that
-- ends it; nothing else runs between the rounds.
unfoldable pub period_loop : RtEnv → RtSys → ℕ → List ℕ → Bool → RtSys × Bool
unfolding do_sched_rt_period_timer
period_loop env s g [] idle = (s, idle)
period_loop env s g (overrun ∷ overruns) idle =
    let (s1, idle1) = do_sched_rt_period_timer env s g overrun in
    period_loop env s1 g overruns idle1

-- The result says whether the timer stops (`HRTIMER_NORESTART`).
unfoldable pub sched_rt_period_timer : RtEnv → RtSys → ℕ → List ℕ → RtSys × Bool
unfolding period_loop
sched_rt_period_timer env s g overruns = period_loop env s g overruns false

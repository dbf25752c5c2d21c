-- ===== src/Rt/Array.antt =====
-- One `rt_rq` of Project2/goldfish/kernel/sched/rt.c: its priority array and its counters.
use android_kernel_programmi.Sched.Policy.{max_rt_prio}
use android_kernel_programmi.Base.{
  ℕ, zero, suc, Bool, true, false, List, [], ◌∷◌, update, add32, sub32, ltb, ◌==◌, not,
  if◌then◌else◌,
}
use android_kernel_programmi.Rt.State.{RtRq, RtEnv}

-- `list_empty`
abbrev pub list_empty : List ℕ → Bool
list_empty [] = true
list_empty (x ∷ xs) = false

-- `rt_rq_throttled`
unfoldable pub rt_rq_throttled : RtRq → Bool
rt_rq_throttled r = if r.rt_throttled then r.rt_nr_boosted == 0 else false

abbrev pub set_queue : RtRq → ℕ → List ℕ → RtRq
set_queue r i q = record r { queue = update r.queue i q }

abbrev pub set_bit : RtRq → ℕ → Bool → RtRq
set_bit r i b = record r { bitmap = update r.bitmap i b }

unfoldable pub inc_rt_prio : RtRq → ℕ → RtRq
inc_rt_prio r prio =
    let prev_prio = r.highest_prio in
    record r { highest_prio = if ltb prio prev_prio then prio else prev_prio }

unfoldable pub dec_rt_prio : RtEnv → RtRq → ℕ → RtRq
dec_rt_prio env r prio =
    let prev_prio = r.highest_prio in
    record r {
      highest_prio =
          if not (r.rt_nr_running == 0)
          then (if prio == prev_prio then env.sched_find_first_bit r.bitmap else prev_prio)
          else max_rt_prio;
    }

-- `inc_rt_group` and `dec_rt_group`, for an entity that is `boosted` or not; the timer that
-- `start_rt_bandwidth` starts is not part of the state.
unfoldable pub inc_rt_group : RtRq → Bool → RtRq
inc_rt_group r boosted = record r {
  rt_nr_boosted = if boosted then add32 r.rt_nr_boosted 1 else r.rt_nr_boosted;
}

unfoldable pub dec_rt_group : RtRq → Bool → RtRq
dec_rt_group r boosted = record r {
  rt_nr_boosted = if boosted then sub32 r.rt_nr_boosted 1 else r.rt_nr_boosted;
}

unfoldable pub inc_rt_tasks : RtRq → ℕ → Bool → RtRq
unfolding inc_rt_prio inc_rt_group
inc_rt_tasks r prio boosted =
    inc_rt_group (inc_rt_prio (record r { rt_nr_running = add32 r.rt_nr_running 1 }) prio) boosted

unfoldable pub dec_rt_tasks : RtEnv → RtRq → ℕ → Bool → RtRq
unfolding dec_rt_prio dec_rt_group
dec_rt_tasks env r prio boosted =
    dec_rt_group (dec_rt_prio env (record r { rt_nr_running = sub32 r.rt_nr_running 1 }) prio)
      boosted

-- An entity of priority `prio` joins the queue.
unfoldable pub join : RtEnv → RtRq → ℕ → ℕ → Bool → Bool → RtRq
unfolding inc_rt_tasks
join env r e prio boosted head =
    let queue = r.queue prio in
    let queue =
      if head then env.list_ops.list_add e queue else env.list_ops.list_add_tail e queue in
    inc_rt_tasks (set_bit (set_queue r prio queue) prio true) prio boosted

-- An entity of priority `prio` leaves the queue that links it.
unfoldable pub leave : RtEnv → RtRq → ℕ → ℕ → ℕ → Bool → RtRq
unfolding dec_rt_tasks
leave env r e linked prio boosted =
    let r = set_queue r linked (env.list_ops.list_del_init e (r.queue linked)) in
    let r : RtRq = record r {
      bitmap = if list_empty (r.queue prio) then update r.bitmap prio false else r.bitmap;
    } in
    dec_rt_tasks env r prio boosted

-- The loop of `init_rt_rq` over the priorities below `n`.
unfoldable pub init_array : ℕ → RtRq → RtRq
init_array zero r = r
init_array (suc n) r = let r = init_array n r in set_bit (set_queue r n []) n false

unfoldable pub init_rt_rq : RtRq → RtRq
unfolding init_array
init_rt_rq r = record (set_bit (init_array max_rt_prio r) max_rt_prio true) {
  rt_time = 0;
  rt_throttled = false;
  rt_runtime = 0;
}

-- What `init_tg_rt_entry` sets in the queue of a group, after `alloc_rt_sched_group` or
-- `sched_init` gave the queue its runtime.
unfoldable pub init_tg_rt_rq : RtRq → ℕ → RtRq
init_tg_rt_rq r group = record r { highest_prio = max_rt_prio; rt_nr_boosted = 0; tg = group }

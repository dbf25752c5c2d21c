-- ===== src/Rt/Entry.antt =====
-- What the core calls of rt.c, on a state of the class: tasks come, go and yield, the clock ticks, and
-- the period of a group ends.
use android_kernel_programmi.Base.{
  ℕ, ◌^◌, ◌<◌, refl, Bool, true, false, not, ◌&&◌, List, [], ◌∷◌, Option-cases, inl, inr,
  Bool-cases, if◌then◌else◌, ltb, ◌==◌, add32, sub32, sub64, ◌*◌, ◌%◌,
}
use android_kernel_programmi.Base.Int.{negsuc}
use android_kernel_programmi.Sched.Policy.{rr}
use android_kernel_programmi.Rt.State.{
  RtEntity, RtTask, RtRq, RtSys, RtEnv, put_rt_task, put_rt_entity, put_rt_rq,
}
use android_kernel_programmi.Rt.Queue.{
  chain_of, dequeue_rt_entity, enqueue_rt_entity, requeue_task_rt,
}
use android_kernel_programmi.Rt.Class.{
  resched, sched_rt_rq_enqueue, update_curr_rt, enqueue_task_rt, dequeue_task_rt, yield_task_rt,
}
use android_kernel_programmi.Rt.Tick.{
  rr_timeslice, rttime_limit, watchdog, rotate, has_company, task_tick_rt, task_tick_end,
  refill_queue, do_sched_rt_period_timer, period_loop, sched_rt_period_timer,
}
use android_kernel_programmi.Rt.Stacks.{
  Kept, ChainOk, Kin-ChainOk, dequeue_rt_entity-RtOk, enqueue_rt_entity-RtOk,
}
use android_kernel_programmi.Rt.Alike.{
  SameQueue, task_Alike, entity_Alike, rt_rq_Alike, count_Alike, skip_Alike,
}
use android_kernel_programmi.Rt.Requeue.{requeue_task_rt-Kept}
use android_kernel_programmi.Rt.Hooks.{
  ClassOk, Kept-ClassOk, alike, same, after, Kept-if, resched-Kept, update_curr_rt-Kept,
  sched_rt_rq_enqueue-Kept,
}

module _ (env : RtEnv) (depth : ℕ) (small : depth < 2 ^ 30) where
  counted : (u : RtSys) (n : ℕ) → ClassOk depth u → ClassOk depth (record u { nr_running = n })
  counted u n c =
      let v : RtSys = record u { nr_running = n } in
      Kept-ClassOk depth u v c (alike env depth small u v (count_Alike u n) c)

  -- A task that joins the class keeps a well-formed state so: for a task of a real-time priority, with a
  -- number in range as its groups', on every path of `enqueue_task_rt`. Groups are nested fewer than
  -- 2^30 deep.
  pub enqueue_task_rt-ClassOk :
      (s : RtSys) (p : ℕ) (wakeup head : Bool)
      → ClassOk depth s
      → ChainOk s p
      → ClassOk depth (enqueue_task_rt env s p wakeup head)
  unfolding enqueue_task_rt
  enqueue_task_rt-ClassOk s p wakeup head c h =
      let reset = put_rt_entity s p (let e = s.entities p in record e { timeout = 0 }) in
      let s1 = if wakeup then reset else s in
      let k1 =
        Kept-if env depth small s wakeup reset s
          (λ b. alike env depth small s reset (entity_Alike s p _ (refl, refl, refl, refl)) c)
          (λ b. same env depth small s c) in
      let c1 = Kept-ClassOk depth s s1 c k1 in
      let s2 = enqueue_rt_entity env s1 p head in
      let k2 =
        enqueue_rt_entity-RtOk env depth s1 p small c1.tree c1.ok (Kin-ChainOk s s1 p k1.1.1 h)
          head in
      let c2 = Kept-ClassOk depth s1 s2 c1 k2 in counted s2 (add32 s2.nr_running 1) c2

  -- A task that leaves keeps a well-formed state so, with the time that it ran charged first: for a
  -- task of a real-time priority, with a number in range as its groups'. Groups are nested fewer than
  -- 2^30 deep.
  pub dequeue_task_rt-ClassOk :
      (s : RtSys) (p : ℕ) → ClassOk depth s → ChainOk s p → ClassOk depth (dequeue_task_rt env s p)
  unfolding dequeue_task_rt
  dequeue_task_rt-ClassOk s p c h =
      let s1 = update_curr_rt env s in
      let k1 = update_curr_rt-Kept env depth small s c in
      let c1 = Kept-ClassOk depth s s1 c k1 in
      let s2 = dequeue_rt_entity env s1 p in
      let k2 =
        dequeue_rt_entity-RtOk env depth s1 p small c1.tree c1.ok (Kin-ChainOk s s1 p k1.1.1 h) in
      counted s2 (sub32 s2.nr_running 1) (Kept-ClassOk depth s1 s2 c1 k2)

  watchdog-Kept : (s : RtSys) (p : ℕ) → ClassOk depth s → Kept depth s (watchdog env s p)
  unfolding watchdog
  watchdog-Kept s p c = elim (Option-cases (env.rttime_soft p)) [
    | inl n ↦ rw (watchdog, n) (same env depth small s c)
    | inr (soft, m) ↦
        let e : RtEntity = let x = s.entities p in record x { timeout = add32 x.timeout 1 } in
        let s1 = put_rt_entity s p e in
        let t : RtTask = let x = s.tasks p in record x { sched_exp = x.sum_exec_runtime } in
        let s2 = put_rt_task s1 p t in
        let k1 = alike env depth small s s1 (entity_Alike s p e (refl, refl, refl, refl)) c in
        rw (watchdog, m)
          (Kept-if env depth small s (ltb (rttime_limit env soft (env.rttime_hard p)) e.timeout) s2
            s1
            (λ b.
              after env depth small s s1 s2 c k1
                (alike env depth small s1 s2 (task_Alike s1 p t refl)))
            (λ b. k1))
  ]

  rotate-Kept :
      (es : List ℕ) (s : RtSys) (p : ℕ) → ClassOk depth s → Kept depth s (rotate env s p es)
  unfolding rotate
  rotate-Kept [] s p c = same env depth small s c
  rotate-Kept (e ∷ es) s p c =
      let u = requeue_task_rt env s p false in
      let k = requeue_task_rt-Kept env depth s p false c.tree c.ok in
      Kept-if env depth small s (has_company s e) (resched u p) (rotate env s p es)
        (λ b. after env depth small s u (resched u p) c k (resched-Kept env depth small u p))
        (λ b. rotate-Kept es s p c)

  sliced :
      (s : RtSys) (p n : ℕ)
      → ClassOk depth s
      → Kept depth s (put_rt_entity s p (let e = s.entities p in record e { time_slice = n }))
  sliced s p n c =
      alike env depth small s _
        (entity_Alike s p (let e = s.entities p in record e { time_slice = n })
          (refl, refl, refl, refl))
        c

  -- A tick keeps a well-formed state so, whatever the task's policy and slice, and so for groups that
  -- the tick throttles and for tasks that it moves to the end of their lists. Groups are nested fewer
  -- than 2^30 deep.
  pub task_tick_rt-ClassOk :
      (s : RtSys) (p : ℕ) → ClassOk depth s → ClassOk depth (task_tick_rt env s p)
  unfolding task_tick_rt task_tick_end
  task_tick_rt-ClassOk s p c =
      let s0 = update_curr_rt env s in
      let k0 = update_curr_rt-Kept env depth small s c in
      let s1 = watchdog env s0 p in
      let k1 = after env depth small s s0 s1 c k0 (watchdog-Kept s0 p) in
      let c1 = Kept-ClassOk depth s s1 c k1 in
      let left = sub32 (s1.entities p).time_slice 1 in
      let s2 = put_rt_entity s1 p (let e = s1.entities p in record e { time_slice = left }) in
      let s3 =
        put_rt_entity s1 p (let e = s1.entities p in record e { time_slice = rr_timeslice env }) in
      let s4 = rotate env s3 p (chain_of s3 p) in
      let k2 = sliced s1 p left c1 in
      let k3 = sliced s1 p (rr_timeslice env) c1 in
      let k4 = after env depth small s1 s3 s4 c1 k3 (rotate-Kept (chain_of s3 p) s3 p) in
      Kept-ClassOk depth s1 (task_tick_end env s1 p) c1 (
        Kept-if env depth small s1 (not ((s1.tasks p).policy == rr)) s1
          (if not (left == 0) then s2 else s4) (λ b. same env depth small s1 c1)
          (λ b. Kept-if env depth small s1 (not (left == 0)) s2 s4 (λ h. k2) (λ h. k4)))

  refill_queue-Kept :
      (s : RtSys) (q overrun : ℕ) → ClassOk depth s → Kept depth s (refill_queue s q overrun).0
  unfolding refill_queue
  refill_queue-Kept s q overrun c =
      let r = s.rt_rqs q in
      let given = (overrun * r.rt_runtime) % 2 ^ 64 in
      let left = sub64 r.rt_time (if ltb r.rt_time given then r.rt_time else given) in
      let unthrottled = r.rt_throttled && ltb left r.rt_runtime in
      let t : RtRq = record r {
        rt_time = left;
        rt_throttled = r.rt_throttled && not unthrottled;
      } in
      let waits = unthrottled && not (r.rt_nr_running == 0) && s.curr == s.idle in
      let s1 : RtSys = record s { skip_clock_update = negsuc 0 } in
      let s2 = if waits then s1 else s in
      let k1 =
        Kept-if env depth small s waits s1 s
          (λ b. alike env depth small s s1 (skip_Alike s (negsuc 0)) c)
          (λ b. same env depth small s c) in
      let same_r : SameQueue r t = record {
        queue = refl;
        bitmap = refl;
        count = refl;
        high = refl;
      } in
      let k2 = after env depth small s s2 (put_rt_rq s2 q t) c k1 (
        alike env depth small s2 (put_rt_rq s2 q t)
          (rt_rq_Alike s2 q t (unmoved waits s q t same_r))) in
      elim (Bool-cases (r.rt_time == 0)) [
        | inr n ↦ rw (refill_queue, n) k2
        | inl z ↦ elim (Bool-cases (r.rt_nr_running == 0)) [
          | inl b ↦ rw (refill_queue, z, b) (same env depth small s c)
          | inr b ↦ rw (refill_queue, z, b) (same env depth small s c)
        ]
      ]
    where
      unmoved :
          (b : Bool) (s : RtSys) (q : ℕ) (t : RtRq)
          → SameQueue (s.rt_rqs q) t
          → SameQueue ((if b then record s { skip_clock_update = negsuc 0 } else s).rt_rqs q) t
      unmoved true s q t h = h
      unmoved false s q t h = h

  -- A round of the period timer keeps a well-formed state so, for the queue of any group. Groups are
  -- nested fewer than 2^30 deep.
  do_sched_rt_period_timer-ClassOk :
      (s : RtSys) (g overrun : ℕ)
      → ClassOk depth s
      → ClassOk depth (do_sched_rt_period_timer env s g overrun).0
  unfolding do_sched_rt_period_timer
  do_sched_rt_period_timer-ClassOk s g overrun c =
      let q = (s.groups g).rt_rq in
      let s1 = (refill_queue s q overrun).0 in
      let enqueue = (refill_queue s q overrun).1.0 in
      let k1 = refill_queue-Kept s q overrun c in
      Kept-ClassOk depth s (if enqueue then sched_rt_rq_enqueue env s1 q else s1) c (
        Kept-if env depth small s enqueue (sched_rt_rq_enqueue env s1 q) s1
          (λ b.
            after env depth small s s1 (sched_rt_rq_enqueue env s1 q) c k1
              (sched_rt_rq_enqueue-Kept env depth small s1 q))
          (λ b. k1))

  yield_task_rt-ClassOk : (s : RtSys) → ClassOk depth s → ClassOk depth (yield_task_rt env s)
  unfolding yield_task_rt
  yield_task_rt-ClassOk s c =
      Kept-ClassOk depth s (requeue_task_rt env s s.curr false) c
        (requeue_task_rt-Kept env depth s s.curr false c.tree c.ok)

  period_loop-ClassOk :
      (overruns : List ℕ) (s : RtSys) (g : ℕ) (idle : Bool)
      → ClassOk depth s
      → ClassOk depth (period_loop env s g overruns idle).0
  unfolding period_loop
  period_loop-ClassOk [] s g idle c = c
  period_loop-ClassOk (overrun ∷ overruns) s g idle c =
      let r = do_sched_rt_period_timer env s g overrun in
      period_loop-ClassOk overruns r.0 g r.1 (do_sched_rt_period_timer-ClassOk s g overrun c)

  -- The period timer keeps a well-formed state so, for the queue of any group and however many periods
  -- it is late. Groups are nested fewer than 2^30 deep, and nothing else runs between the rounds.
  pub sched_rt_period_timer-ClassOk :
      (s : RtSys) (g : ℕ) (overruns : List ℕ)
      → ClassOk depth s
      → ClassOk depth (sched_rt_period_timer env s g overruns).0
  unfolding sched_rt_period_timer
  sched_rt_period_timer-ClassOk s g overruns c = period_loop-ClassOk overruns s g false c

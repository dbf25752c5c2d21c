-- ===== src/Rt/Refill.antt =====
-- What a round of the period timer does to the queue of a throttled group and to the group's entity.
use android_kernel_programmi.Base.{
  ℕ, ◌-◌, ◌*◌, ◌%◌, ◌^◌, ◌≡◌, ◌<◌, refl, ap, ◌∙◌, Bool, true, false, some, none, has, Bool-cases,
  inl, inr, arith, ◌==◌, ==_self, if◌then◌else◌, update_self, sub64, ltb,
}
use android_kernel_programmi.Base.Int.{negsuc}
use android_kernel_programmi.Rt.State.{RtSys, RtEnv, RtRq, put_rt_rq}
use android_kernel_programmi.Rt.Queue.{
  chain_of, rt_se_prio, on_rt_rq, is_idle_group, queue_entity, unqueue_stack, dequeue_rt_stack,
  queue_chain, enqueue_rt_entity,
}
use android_kernel_programmi.Rt.Class.{resched, sched_rt_rq_enqueue}
use android_kernel_programmi.Rt.Tick.{refill_queue, do_sched_rt_period_timer}
use android_kernel_programmi.Rt.Inv.{Tree}
use android_kernel_programmi.Rt.Elsewhere.{
  owner_elsewhere, not_inside, unqueue_stack_field, unqueue_stack_else, queue_field, queue_else,
  queue_chain_else, queue_chain_others,
}

-- The state with a queue as `refill_queue` leaves it, and the clock marked or not.
abbrev refilled : RtSys → Bool → ℕ → RtRq → RtSys
refilled s b q r = put_rt_rq (if b then record s { skip_clock_update = negsuc 0 } else s) q r

-- The queue of a group, and the time that a round of the timer takes off it.
abbrev pub group_rq : RtSys → ℕ → RtRq
group_rq s g = s.rt_rqs (s.groups g).rt_rq

abbrev pub taken_off : RtSys → ℕ → ℕ → ℕ
taken_off s g overrun = (overrun * (group_rq s g).rt_runtime) % 2 ^ 64

module _ (env : RtEnv) (depth : ℕ) where
  -- A group that has tasks and is not throttled is on its queue after `enqueue_rt_entity`, and its own
  -- queue stays as it is.
  enqueue_group_lem :
      (s : RtSys) (e q : ℕ) (head : Bool)
      → Tree depth s
      → (s.entities e).my_q ≡ some q
      → (s.rt_rqs q).rt_throttled ≡ false
      → ((s.rt_rqs q).rt_nr_running == 0) ≡ false
      → let v = enqueue_rt_entity env s e head in (on_rt_rq v e ≡ true) × (v.rt_rqs q ≡ s.rt_rqs q)
  unfolding enqueue_rt_entity dequeue_rt_stack queue_chain queue_entity on_rt_rq is_idle_group
  enqueue_group_lem s e q head t m unthrottled filled =
      let w = unqueue_stack env s (chain_of s e) in
      let u = queue_entity env w e head in
      let ps = (s.entities e).parents in
      let v = queue_chain env u ps head in
      let off = owner_elsewhere depth s t e q in
      let at_w : w.rt_rqs q ≡ s.rt_rqs q =
        unqueue_stack_else env (chain_of s e) s q (λ x h. off x m h) in
      let m_w : (w.entities e).my_q ≡ some q =
        unqueue_stack_field env (λ y. y.my_q) (chain_of s e) s (λ y o. refl) e ∙ m in
      let rq_w : (x : ℕ) → (w.entities x).rt_rq ≡ (s.entities x).rt_rq =
        unqueue_stack_field env (λ y. y.rt_rq) (chain_of s e) s (λ y o. refl) in
      let e_off : ((w.entities e).rt_rq == q) ≡ false =
        ap (λ y. y == q) (rq_w e) ∙ off e m (ground (arith, ==_self e)) in
      let ps_off : (x : ℕ) → has x ps ≡ true → ((u.entities x).rt_rq == q) ≡ false = λ x h.
        ap (λ y. y == q) (queue_field env (λ y. y.rt_rq) w e head (λ y o. refl) x ∙ rq_w x)
        ∙ off x m (ground (arith, h)) in
      let busy : is_idle_group w e ≡ false =
        rw (is_idle_group, m_w, at_w, unthrottled, filled) refl in
      let linked : (u.entities e).run_list ≡ some (rt_se_prio w e) =
        rw (queue_entity, busy, ==_self e) refl in
      let kept : v.entities e ≡ u.entities e =
        queue_chain_others env ps u e head (not_inside depth s t e) in
      (
        ap (λ o. elim o [ none ↦ false | some i ↦ true ]) (ap (λ y. y.run_list) kept ∙ linked),
        queue_chain_else env ps u q head ps_off ∙ (queue_else env w e q head e_off ∙ at_w),
      )

  -- Marking a task for rescheduling changes neither.
  marked :
      (b : Bool) (v : RtSys) (p e q : ℕ) (r : RtRq)
      → (on_rt_rq v e ≡ true) × (v.rt_rqs q ≡ r)
      → let u = if b then resched v p else v in (on_rt_rq u e ≡ true) × (u.rt_rqs q ≡ r)
  unfolding on_rt_rq
  marked true v p e q r h = h
  marked false v p e q r h = h

  -- The same for `sched_rt_rq_enqueue`, on the queue of a group whose entity is `e`.
  enqueue_rq_lem :
      (s : RtSys) (e q : ℕ)
      → Tree depth s
      → (s.groups (s.rt_rqs q).tg).rt_se ≡ some e
      → (s.entities e).my_q ≡ some q
      → (s.rt_rqs q).rt_throttled ≡ false
      → ((s.rt_rqs q).rt_nr_running == 0) ≡ false
      → let v = sched_rt_rq_enqueue env s q in (on_rt_rq v e ≡ true) × (v.rt_rqs q ≡ s.rt_rqs q)
  unfolding sched_rt_rq_enqueue
  enqueue_rq_lem s e q t owner m unthrottled filled = elim (Bool-cases (on_rt_rq s e)) [
    | inl on ↦
        let b = ltb (s.rt_rqs q).highest_prio (s.tasks s.curr).prio in
        rw (sched_rt_rq_enqueue, filled, owner, on) (marked b s s.curr e q (s.rt_rqs q) (on, refl))
    | inr off ↦
        let v = enqueue_rt_entity env s e false in
        let b = ltb (v.rt_rqs q).highest_prio (v.tasks v.curr).prio in
        rw (sched_rt_rq_enqueue, filled, owner, off)
          (marked b v v.curr e q (s.rt_rqs q)
            (enqueue_group_lem s e q false t m unthrottled filled))
  ]

  Tree-refilled :
      (b : Bool) (s : RtSys) (q : ℕ) (r : RtRq) → Tree depth s → Tree depth (refilled s b q r)
  Tree-refilled true s q r t = record {
    owner = t.owner;
    nested = t.nested;
    top = t.top;
    deep = t.deep;
  }
  Tree-refilled false s q r t = record {
    owner = t.owner;
    nested = t.nested;
    top = t.top;
    deep = t.deep;
  }

  refilled_groups :
      (b : Bool) (s : RtSys) (q : ℕ) (r : RtRq)
      → ((refilled s b q r).groups ≡ s.groups)
        × ((refilled s b q r).entities ≡ s.entities)
        × ((refilled s b q r).rt_rqs q ≡ r)
  refilled_groups true s q r = (refl, refl, update_self s.rt_rqs q r)
  refilled_groups false s q r = (refl, refl, update_self s.rt_rqs q r)

  refilled_lem :
      (b : Bool) (s : RtSys) (e q : ℕ) (r : RtRq)
      → Tree depth s
      → (s.groups r.tg).rt_se ≡ some e
      → (s.entities e).my_q ≡ some q
      → r.rt_throttled ≡ false
      → (r.rt_nr_running == 0) ≡ false
      → let v = sched_rt_rq_enqueue env (refilled s b q r) q in
        (on_rt_rq v e ≡ true) × (v.rt_rqs q ≡ r)
  refilled_lem b s e q r t owner m unthrottled filled =
      let u = refilled s b q r in
      let (gs, es, at) = refilled_groups b s q r in
      let back =
        enqueue_rq_lem u e q (Tree-refilled b s q r t)
          (ap (λ y. (u.groups y.tg).rt_se) at ∙ (ap (λ y. (y r.tg).rt_se) gs ∙ owner))
          (ap (λ y. (y e).my_q) es ∙ m) (ap (λ y. y.rt_throttled) at ∙ unthrottled)
          (ap (λ y. y.rt_nr_running == 0) at ∙ filled) in
      (back.0, back.1 ∙ at)

  timer_round :
      (s : RtSys) (g overrun : ℕ) (u : RtSys) (idle : Bool)
      → refill_queue s (s.groups g).rt_rq overrun ≡ (u, (true, idle))
      → (do_sched_rt_period_timer env s g overrun).0 ≡ sched_rt_rq_enqueue env u (s.groups g).rt_rq
  unfolding do_sched_rt_period_timer
  timer_round s g overrun u idle h =
      ap (λ r. if r.1.0 then sched_rt_rq_enqueue env r.0 (s.groups g).rt_rq else r.0) h

  -- A throttled group whose period ends: where the groups form a tree, the queue belongs to the group
  -- and is owned by its entity, and the queue has tasks, has used some time, below 2^64, and has less
  -- than its runtime left to pay back once `overrun` periods of it, modulo 2^64, are taken off, a
  -- round of the timer takes them off, ends the throttling, and leaves the group's entity on its queue.
  pub do_sched_rt_period_timer_unthrottles :
      (s : RtSys) (g e overrun : ℕ)
      → Tree depth s
      → (group_rq s g).tg ≡ g
      → (s.groups g).rt_se ≡ some e
      → (s.entities e).my_q ≡ some (s.groups g).rt_rq
      → (group_rq s g).rt_throttled ≡ true
      → 0 < (group_rq s g).rt_nr_running
      → 0 < (group_rq s g).rt_time
      → (group_rq s g).rt_time < 2 ^ 64
      → (group_rq s g).rt_time - taken_off s g overrun < (group_rq s g).rt_runtime
      → let u = (do_sched_rt_period_timer env s g overrun).0 in
        (on_rt_rq u e ≡ true)
        × ((u.rt_rqs (s.groups g).rt_rq).rt_time ≡ (group_rq s g).rt_time - taken_off s g overrun)
        × ((u.rt_rqs (s.groups g).rt_rq).rt_throttled ≡ false)
  unfolding refill_queue
  do_sched_rt_period_timer_unthrottles s g e overrun t owner se m throttled running used word less =
      let q = (s.groups g).rt_rq in
      let r = s.rt_rqs q in
      let given = taken_off s g overrun in
      let left = sub64 r.rt_time (if ltb r.rt_time given then r.rt_time else given) in
      let left_eq : left ≡ r.rt_time - given = ground arith in
      let some_time : (r.rt_time == 0) ≡ false = ground arith in
      let some_task : (r.rt_nr_running == 0) ≡ false = ground arith in
      let below : ltb left r.rt_runtime ≡ true = ground (arith, left_eq, less) in
      let u : RtRq = record r { rt_time = left; rt_throttled = false } in
      let waits = s.curr == s.idle in
      let back =
        refilled_lem waits s e q u t (ap (λ y. (s.groups y).rt_se) owner ∙ se) m refl some_task in
      let refill : refill_queue s q overrun ≡ (refilled s waits q u, (true, false)) =
        rw (refill_queue, some_time, throttled, below, some_task) (ground arith) in
      let round = timer_round s g overrun (refilled s waits q u) false refill in
      (
        ap (λ y. on_rt_rq y e) round ∙ back.0,
        ap (λ y. (y.rt_rqs q).rt_time) round ∙ (ap (λ y. y.rt_time) back.1 ∙ left_eq),
        ap (λ y. (y.rt_rqs q).rt_throttled) round ∙ ap (λ y. y.rt_throttled) back.1,
      )

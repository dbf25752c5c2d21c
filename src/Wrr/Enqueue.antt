-- ===== src/Wrr/Enqueue.antt =====
-- enqueue_wrr_entity keeps the queues well formed.
use android_kernel_programmi.Base.{
  ℕ, ◌≡◌, Bool, true, false, has, arith, subst, sym, if◌then◌else◌, has-append, [], ◌∷◌,
}
use android_kernel_programmi.Kernel.State.{Sys, weights, queue_of}
use android_kernel_programmi.Kernel.Env.{Env}
use android_kernel_programmi.Wrr.Class.{enqueue_wrr_entity}
use android_kernel_programmi.Wrr.Inv.{
  QueueOk, SysOk, Unqueued, added_front, added_back, added_front-QueueOk, added_back-QueueOk,
  frame-QueueOk,
}
use android_kernel_programmi.Wrr.Lift.{LocalStep, LocalStep-SysOk}

module _ (env : Env) (s : Sys) (c p : ℕ) where
  -- The queue after an insertion.
  pub queue-enqueue_wrr_entity :
      (head : Bool)
      → has p (queue_of s c) ≡ false
      → ((enqueue_wrr_entity env s c p head).rqs c).wrr ≡ (
          if head
          then added_front (weights (enqueue_wrr_entity env s c p head)) (s.rqs c).wrr p
          else added_back (weights (enqueue_wrr_entity env s c p head)) (s.rqs c).wrr p)
  unfolding enqueue_wrr_entity
  queue-enqueue_wrr_entity head h =
      ground (
        arith,
        env.list_ops.add_lem p (queue_of s c) h,
        env.list_ops.add_tail_lem p (queue_of s c) h,
      )

  pub enqueue_wrr_entity-LocalStep :
      (head : Bool) → Unqueued s p → LocalStep s (enqueue_wrr_entity env s c p head) c p
  unfolding enqueue_wrr_entity
  enqueue_wrr_entity-LocalStep head un = record {
    elsewhere = λ d ne. ground arith;
    same = λ q ne. ground arith;
    away = λ d ne. un d;
    members = λ q ne. ground (
      arith,
      un c,
      env.list_ops.add_lem p (queue_of s c),
      env.list_ops.add_tail_lem p (queue_of s c),
      has-append q (queue_of s c) (p ∷ []),
    );
  }

  pub enqueue_wrr_entity-SysOk :
      (head : Bool) → SysOk s → Unqueued s p → SysOk (enqueue_wrr_entity env s c p head)
  enqueue_wrr_entity-SysOk true ok un =
      let t = enqueue_wrr_entity env s c p true in
      let l = enqueue_wrr_entity-LocalStep true un in
      LocalStep-SysOk s t c p l ok (
        subst (QueueOk (weights t)) (sym (queue-enqueue_wrr_entity true (un c))) (
          added_front-QueueOk (weights t) (s.rqs c).wrr p
            (frame-QueueOk (weights s) (weights t) (s.rqs c).wrr p l.same (un c) (ok.queues c))
            (un c)))
  enqueue_wrr_entity-SysOk false ok un =
      let t = enqueue_wrr_entity env s c p false in
      let l = enqueue_wrr_entity-LocalStep false un in
      LocalStep-SysOk s t c p l ok (
        subst (QueueOk (weights t)) (sym (queue-enqueue_wrr_entity false (un c))) (
          added_back-QueueOk (weights t) (s.rqs c).wrr p
            (frame-QueueOk (weights s) (weights t) (s.rqs c).wrr p l.same (un c) (ok.queues c))
            (un c)))

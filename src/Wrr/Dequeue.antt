-- ===== src/Wrr/Dequeue.antt =====
-- dequeue_wrr_entity keeps the queues well formed.
use android_kernel_programmi.Base.{
  ℕ, ◌≡◌, true, false, has, arith, ◌==◌, Bool-cases, subst, inl, inr, sym, refl, ◌∙◌, ap,
  has-remove_ne,
}
use android_kernel_programmi.Kernel.State.{Sys, WrrRq, weights, queue_of}
use android_kernel_programmi.Kernel.Env.{Env}
use android_kernel_programmi.Wrr.Class.{dequeue_wrr_entity}
use android_kernel_programmi.Wrr.Inv.{QueueOk, SysOk, taken, taken-QueueOk}
use android_kernel_programmi.Wrr.Lift.{LocalStep-SysOk}

module _ (s : Sys) (c p : ℕ) (ok : SysOk s) (on : has p (queue_of s c) ≡ true) where
  -- A queued task is on its own queue only.
  pub queued_away : (d : ℕ) → (c == d) ≡ false → has p (queue_of s d) ≡ false
  queued_away d ne = elim (Bool-cases (has p (queue_of s d))) [
    | inl e ↦ ground (arith, ok.apart c d p on e)
    | inr e ↦ e
  ]

module _ (env : Env) (s : Sys) (c p : ℕ) (ok : SysOk s) (on : has p (queue_of s c) ≡ true) where
  pub queue-dequeue_wrr_entity :
      ((dequeue_wrr_entity env s c p).rqs c).wrr ≡ taken (weights s) (s.rqs c).wrr p
  unfolding dequeue_wrr_entity
  queue-dequeue_wrr_entity =
      ground (arith, env.list_ops.del_lem p (queue_of s c) (ok.queues c).no_dup on)

  pub dequeue_wrr_entity-SysOk : SysOk (dequeue_wrr_entity env s c p)
  unfolding dequeue_wrr_entity
  dequeue_wrr_entity-SysOk =
      LocalStep-SysOk s (dequeue_wrr_entity env s c p) c p
        (record {
          elsewhere = λ d ne. ground arith;
          same = λ q ne. refl;
          away = queued_away s c p ok on;
          members = λ q ne.
              ap (λ (w : WrrRq). has q w.queue) queue-dequeue_wrr_entity
              ∙ has-remove_ne p q (queue_of s c) ne;
        })
        ok
        (subst (QueueOk (weights s)) (sym queue-dequeue_wrr_entity)
          (taken-QueueOk (weights s) (s.rqs c).wrr p (ok.queues c) on))

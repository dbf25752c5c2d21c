-- ===== src/Wrr/Rotate.antt =====
-- requeue_task_wrr keeps the queues well formed.
use android_kernel_programmi.Base.{
  ℕ, ◌≡◌, Bool, true, false, has, arith, subst, sym, refl, ◌∙◌, ap, if◌then◌else◌, has-append,
  has-remove_ne, [], ◌∷◌, ◌++◌, remove,
}
use android_kernel_programmi.Kernel.State.{Sys, weights, queue_of}
use android_kernel_programmi.Kernel.Env.{Env}
use android_kernel_programmi.Wrr.Class.{requeue_task_wrr}
use android_kernel_programmi.Wrr.Inv.{QueueOk, SysOk, moved-QueueOk}
use android_kernel_programmi.Wrr.Lift.{LocalStep-SysOk}
use android_kernel_programmi.Wrr.Dequeue.{queued_away}

module _ (env : Env) (s : Sys) (c p : ℕ) (ok : SysOk s) (on : has p (queue_of s c) ≡ true) where
  pub queue-requeue_task_wrr :
      (head : Bool)
      → queue_of (requeue_task_wrr env s c p head) c
        ≡ (if head then p ∷ remove p (queue_of s c) else remove p (queue_of s c) ++ (p ∷ []))
  unfolding requeue_task_wrr
  queue-requeue_task_wrr head = ground (
    arith,
    env.list_ops.move_lem p (queue_of s c) (ok.queues c).no_dup on,
    env.list_ops.move_tail_lem p (queue_of s c) (ok.queues c).no_dup on,
  )

  pub requeue_task_wrr-SysOk : SysOk (requeue_task_wrr env s c p false)
  unfolding requeue_task_wrr
  requeue_task_wrr-SysOk =
      LocalStep-SysOk s (requeue_task_wrr env s c p false) c p
        (record {
          elsewhere = λ d ne. ground arith;
          same = λ q ne. refl;
          away = queued_away s c p ok on;
          members = λ q ne.
              ap (has q) (queue-requeue_task_wrr false)
              ∙ ground (
                arith,
                has-append q (remove p (queue_of s c)) (p ∷ []),
                has-remove_ne p q (queue_of s c) ne,
              );
        })
        ok
        (subst (QueueOk (weights s)) (sym same_wrr)
          (moved-QueueOk (weights s) (s.rqs c).wrr p (ok.queues c) on))
    where
      same_wrr :
          ((requeue_task_wrr env s c p false).rqs c).wrr
          ≡ record ((s.rqs c).wrr) { queue = remove p (queue_of s c) ++ (p ∷ []) }
      same_wrr = ground (arith, env.list_ops.move_tail_lem p (queue_of s c) (ok.queues c).no_dup on)

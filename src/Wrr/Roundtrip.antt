-- ===== src/Wrr/Roundtrip.antt =====
-- An enqueue followed by a dequeue.
use android_kernel_programmi.Base.{
  ℕ, ◌≡◌, ◌∙◌, ap, Bool, true, false, List, [], ◌∷◌, ◌++◌, has, has-append, remove, arith, ◌==◌,
  not, if◌then◌else◌, bit_and, ◌<◌, ◌^◌,
}
use android_kernel_programmi.Kernel.State.{Sys, weights, queue_of, WrrRq}
use android_kernel_programmi.Kernel.Env.{Env}
use android_kernel_programmi.Wrr.Class.{enqueue_task_wrr, dequeue_task_wrr}
use android_kernel_programmi.Wrr.Inv.{SysOk, Unqueued, added_front, added_back, taken}
use android_kernel_programmi.Wrr.Quiet.{update_curr_wrr-quiet, update_curr_wrr-entity}
use android_kernel_programmi.Wrr.Hooks.{enqueue_task_wrr-SysOk}

pub remove-snoc : (p : ℕ) (q : List ℕ) → has p q ≡ false → remove p (q ++ (p ∷ [])) ≡ q
remove-snoc p [] h = ground arith
remove-snoc p (x ∷ q) h = ground (arith, remove-snoc p q)

module _ (env : Env) (s : Sys) (c p flags : ℕ) where
  pub queue-enqueue_task_wrr :
      has p (queue_of s c) ≡ false
      → ((enqueue_task_wrr env s c p flags).rqs c).wrr ≡ (
          if not (bit_and flags 2 == 0)
          then added_front (weights (enqueue_task_wrr env s c p flags)) (s.rqs c).wrr p
          else added_back (weights (enqueue_task_wrr env s c p flags)) (s.rqs c).wrr p)
  unfolding enqueue_task_wrr
  queue-enqueue_task_wrr h =
      ground (
        arith,
        env.list_ops.add_lem p (queue_of s c) h,
        env.list_ops.add_tail_lem p (queue_of s c) h,
      )

  pub queue-dequeue_task_wrr :
      SysOk s
      → has p (queue_of s c) ≡ true
      → ((dequeue_task_wrr env s c p flags).rqs c).wrr ≡ taken (weights s) (s.rqs c).wrr p
  unfolding dequeue_task_wrr
  queue-dequeue_task_wrr ok h = ground (
    arith,
    env.list_ops.del_lem p (queue_of s c) (ok.queues c).no_dup h,
    update_curr_wrr-quiet s c c,
    update_curr_wrr-entity s c p,
  )

taken-added :
    (f : ℕ → ℕ) (w : WrrRq) (p : ℕ) (b : Bool)
    → has p w.queue ≡ false
    → w.wrr_nr_running < 2 ^ 32
    → w.total_weight < 2 ^ 32
    → taken f (if b then added_front f w p else added_back f w p) p ≡ w
taken-added f w p true h hn ht = ground (arith)
taken-added f w p false h hn ht = ground (arith, remove-snoc p w.queue h)

added-has :
    (f : ℕ → ℕ) (w : WrrRq) (p : ℕ) (b : Bool)
    → has p (if b then added_front f w p else added_back f w p).queue ≡ true
added-has f w p true = ground arith
added-has f w p false = ground (arith, has-append p w.queue (p ∷ []))

-- A task that is on no queue, put on a well-formed one and taken off again, leaves the queue, its length and its total weight as
-- they were, at either end of the queue and whatever the task's group.
pub dequeue_task_wrr-enqueue_task_wrr :
    (env : Env) (s : Sys) (c p flags flags' : ℕ)
    → SysOk s
    → Unqueued s p
    → ((dequeue_task_wrr env (enqueue_task_wrr env s c p flags) c p flags').rqs c).wrr
      ≡ (s.rqs c).wrr
dequeue_task_wrr-enqueue_task_wrr env s c p flags flags' ok un =
    let t = enqueue_task_wrr env s c p flags in
    let e = queue-enqueue_task_wrr env s c p flags (un c) in
    queue-dequeue_task_wrr env t c p flags' (enqueue_task_wrr-SysOk env s c p flags ok un) (
      ap (λ w. has p w.queue) e
      ∙ added-has (weights t) (s.rqs c).wrr p (not (bit_and flags 2 == 0)))
    ∙ ap (λ w. taken (weights t) w p) e
    ∙ taken-added (weights t) (s.rqs c).wrr p (not (bit_and flags 2 == 0)) (un c)
        (omega (arith, (ok.queues c).count)) (omega (arith, (ok.queues c).total))

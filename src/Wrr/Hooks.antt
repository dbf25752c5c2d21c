-- ===== src/Wrr/Hooks.antt =====
-- The hooks of wrr_sched_class keep the queues well formed.
use android_kernel_programmi.Base.{
  ℕ, ◌≡◌, refl, ◌∙◌, ap, true, has, arith, ◌==◌, not, Bool-cases, inl, inr, sub32, bit_and,
}
use android_kernel_programmi.Kernel.State.{Sys, WrrEntity, weights, queue_of, put_entity}
use android_kernel_programmi.Kernel.Env.{Env}
use android_kernel_programmi.Wrr.Class.{
  enqueue_task_wrr, dequeue_task_wrr, update_curr_wrr, refill, expire_slice, task_tick_wrr,
}
use android_kernel_programmi.Wrr.Ring.{has_neighbours}
use android_kernel_programmi.Wrr.Inv.{SysOk, Unqueued}
use android_kernel_programmi.Wrr.Lift.{quiet-SysOk}
use android_kernel_programmi.Wrr.Enqueue.{enqueue_wrr_entity-SysOk}
use android_kernel_programmi.Wrr.Quiet.{
  update_curr_wrr-quiet, update_curr_wrr-SysOk, inc_nr_running-SysOk, dec_nr_running-SysOk,
  resched_task-SysOk,
}
use android_kernel_programmi.Wrr.Dequeue.{dequeue_wrr_entity-SysOk}
use android_kernel_programmi.Wrr.Rotate.{requeue_task_wrr-SysOk}

-- A new entity with the old weight.
pub put_entity-SysOk :
    (s : Sys) (p : ℕ) (e : WrrEntity) → e.weight ≡ weights s p → SysOk s → SysOk (put_entity s p e)
put_entity-SysOk s p e same ok = quiet-SysOk s (put_entity s p e) (λ d. refl) (λ q. ground arith) ok

module _ (env : Env) (s : Sys) (c p : ℕ) where
  -- enqueue_task_wrr keeps every queue well formed, with the right counters and no task on two
  -- queues, for a task that is on none.
  pub enqueue_task_wrr-SysOk :
      (flags : ℕ) → SysOk s → Unqueued s p → SysOk (enqueue_task_wrr env s c p flags)
  unfolding enqueue_task_wrr
  enqueue_task_wrr-SysOk flags ok un =
      inc_nr_running-SysOk _ c
        (enqueue_wrr_entity-SysOk env s c p (not (bit_and flags 2 == 0)) ok un)

  module _ (ok : SysOk s) (on : has p (queue_of s c) ≡ true) where
    -- dequeue_task_wrr keeps every queue well formed, with the right counters and no task on two
    -- queues, for a task on the queue that it names.
    pub dequeue_task_wrr-SysOk : (flags : ℕ) → SysOk (dequeue_task_wrr env s c p flags)
    unfolding dequeue_task_wrr
    dequeue_task_wrr-SysOk flags = dec_nr_running-SysOk _ c (
        dequeue_wrr_entity-SysOk env (update_curr_wrr s c) c p (update_curr_wrr-SysOk s c ok)
          (ap (λ w. has p w.queue) (update_curr_wrr-quiet s c c) ∙ on))

    pub expire_slice-SysOk : SysOk (expire_slice env s c p)
    unfolding expire_slice
    expire_slice-SysOk =
        let e = refill env (s.tasks p).wrr in
        let ok1 = put_entity-SysOk s p e refl ok in
        elim (Bool-cases (has_neighbours p (queue_of s c))) [
          | inl h ↦
              rw h
                (resched_task-SysOk _ p (requeue_task_wrr-SysOk env (put_entity s p e) c p ok1 on))
          | inr h ↦ rw h ok1
        ]

module _ (env : Env) (s : Sys) (c p : ℕ) (ok : SysOk s) (on : has p (queue_of s c) ≡ true) where
  -- task_tick_wrr keeps every queue well formed, with the right counters and no task on two queues,
  -- for a task on the queue that it names.
  pub task_tick_wrr-SysOk : (queued : ℕ) → SysOk (task_tick_wrr env s c p queued)
  unfolding task_tick_wrr
  task_tick_wrr-SysOk queued =
      let s1 = update_curr_wrr s c in
      let e = (s1.tasks p).wrr in
      let left = sub32 e.time_slice 1 in
      let s2 = put_entity s1 p (record e { time_slice = left }) in
      let ok2 =
        put_entity-SysOk s1 p (record e { time_slice = left }) refl
          (update_curr_wrr-SysOk s c ok) in
      elim (Bool-cases (left == 0)) [
        | inl h ↦ rw h (
            expire_slice-SysOk env s2 c p ok2
              (ap (λ w. has p w.queue) (update_curr_wrr-quiet s c c) ∙ on))
        | inr h ↦ rw h ok2
      ]

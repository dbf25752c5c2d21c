-- ===== src/Wrr/Tick.antt =====
-- What task_tick_wrr does on each branch, to the queue, the slices and the weights.
use android_kernel_programmi.Base.{
  ℕ, ◌≡◌, ◌<◌, ◌^◌, ◌-◌, true, false, List, [], ◌∷◌, ◌++◌, has, remove, length, leb, arith, ◌==◌,
  if◌then◌else◌,
}
use android_kernel_programmi.Kernel.State.{Sys, weights, queue_of}
use android_kernel_programmi.Kernel.Env.{Env}
use android_kernel_programmi.Wrr.Group.{fg_timeslice, bg_timeslice}
use android_kernel_programmi.Wrr.Class.{task_tick_wrr}
use android_kernel_programmi.Wrr.Ring.{has_neighbours}
use android_kernel_programmi.Wrr.Neighbours.{has_neighbours-eq-leb}
use android_kernel_programmi.Wrr.Inv.{SysOk}
use android_kernel_programmi.Wrr.Quiet.{update_curr_wrr-quiet, update_curr_wrr-entity}

abbrev pub slice_of : Sys → ℕ → ℕ
slice_of s p = (s.tasks p).wrr.time_slice

-- The slice that a weight earns.
abbrev pub full_slice : Env → ℕ → ℕ
full_slice env weight = if weight == 1 then bg_timeslice env else fg_timeslice env

pub full_slice_bounds : (env : Env) (w : ℕ) → (0 < full_slice env w) × (full_slice env w < 2 ^ 32)
full_slice_bounds env w = ground (arith, env.hz_large, env.hz_small)

-- Moving the only task of a queue to its end changes nothing.
rotate_alone :
    (p : ℕ) (q : List ℕ) → has p q ≡ true → leb 2 (length q) ≡ false → remove p q ++ (p ∷ []) ≡ q
rotate_alone p [] h l = ground arith
rotate_alone p (x ∷ []) h l = ground arith
rotate_alone p (x ∷ y ∷ r) h l = ground arith

module _ (env : Env) (s : Sys) (c p queued : ℕ) where
  pub weights-task_tick_wrr : (q : ℕ) → weights (task_tick_wrr env s c p queued) q ≡ weights s q
  unfolding task_tick_wrr
  weights-task_tick_wrr q =
      ground (arith, update_curr_wrr-entity s c q, update_curr_wrr-entity s c p)

  pub slice_of-task_tick_wrr_ne :
      (q : ℕ) → (p == q) ≡ false → slice_of (task_tick_wrr env s c p queued) q ≡ slice_of s q
  unfolding task_tick_wrr
  slice_of-task_tick_wrr_ne q ne = ground (arith, update_curr_wrr-entity s c q)

  pub slice_of-task_tick_wrr_self :
      0 < slice_of s p
      → slice_of s p < 2 ^ 32
      → slice_of (task_tick_wrr env s c p queued) p
        ≡ (if slice_of s p == 1 then full_slice env (weights s p) else slice_of s p - 1)
  unfolding task_tick_wrr
  slice_of-task_tick_wrr_self lo hi = ground (arith, update_curr_wrr-entity s c p)

  pub queue-task_tick_wrr_raw :
      0 < slice_of s p
      → slice_of s p < 2 ^ 32
      → queue_of (task_tick_wrr env s c p queued) c ≡ (
          if (slice_of s p == 1)
          then (if has_neighbours p (queue_of s c)
              then env.list_ops.list_move_tail p (queue_of s c)
              else queue_of s c)
          else queue_of s c)
  unfolding task_tick_wrr
  queue-task_tick_wrr_raw lo hi =
      ground (arith, update_curr_wrr-entity s c p, update_curr_wrr-quiet s c c)

  -- A timer tick on a task with a slice left, on a well-formed queue, changes the order of the
  -- queue exactly when the tick uses up the slice: then the task goes to the end.
  pub queue-task_tick_wrr :
      SysOk s
      → has p (queue_of s c) ≡ true
      → 0 < slice_of s p
      → slice_of s p < 2 ^ 32
      → queue_of (task_tick_wrr env s c p queued) c
        ≡ (if slice_of s p == 1 then remove p (queue_of s c) ++ (p ∷ []) else queue_of s c)
  queue-task_tick_wrr ok on lo hi = ground (
    arith,
    queue-task_tick_wrr_raw lo hi,
    has_neighbours-eq-leb p (queue_of s c) (ok.queues c).no_dup on,
    rotate_alone p (queue_of s c) on,
    env.list_ops.move_tail_lem p (queue_of s c) (ok.queues c).no_dup on,
  )

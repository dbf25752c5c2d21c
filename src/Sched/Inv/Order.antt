-- ===== src/Sched/Inv/Order.antt =====
-- Which task pick_next_task chooses.
use android_kernel_programmi.Base.{
  ℕ, refl, ◌≡◌, ◌∙◌, false, none, some, List, ◌∷◌, ◌<◌, ◌^◌, length, ◌==◌, arith,
}
use android_kernel_programmi.Kernel.State.{Sys, queue_of}
use android_kernel_programmi.Kernel.Env.{Env}
use android_kernel_programmi.Wrr.Class.{pick_next_task_wrr}
use android_kernel_programmi.Wrr.Inv.{SysOk}
use android_kernel_programmi.Sched.Preempt.{pick_in, pick_next_task}

module _ (env : Env) (s : Sys) (c : ℕ) where
  -- The states in which the real-time and the wrr class are asked for a task.
  abbrev pub after_stop : Sys
  after_stop = (env.stop_ops.pick_next_task s c).1

  abbrev pub after_rt : Sys
  after_rt = (env.rt_ops.pick_next_task after_stop c).1

module _ (env : Env) (s : Sys) (c p : ℕ) (q : List ℕ) where
  same_wrr : ((after_rt env s c).rqs c).wrr ≡ (s.rqs c).wrr
  same_wrr =
      (env.rt_keeps.pick_frame (after_stop env s c) c).rq_wrr c
      ∙ (env.stop_keeps.pick_frame s c).rq_wrr c

  pick-wrr :
      SysOk s
      → queue_of s c ≡ p ∷ q
      → length (p ∷ q) < 2 ^ 32
      → pick_next_task_wrr (after_rt env s c) c ≡ some p
  unfolding pick_next_task_wrr
  pick-wrr ok front short = ground (arith, same_wrr, front, short, (ok.queues c).count)

  -- With no stop and no real-time task to run, some runnable task that is not of the fair class,
  -- and a well-formed wrr queue that is not empty and shorter than 2^32, the next task is the first
  -- of the wrr queue: wrr tasks run before fair ones.
  pub pick_next_task_wrr_first :
      SysOk s
      → queue_of s c ≡ p ∷ q
      → length (p ∷ q) < 2 ^ 32
      → (env.stop_ops.pick_next_task s c).0 ≡ none
      → (env.rt_ops.pick_next_task (after_stop env s c) c).0 ≡ none
      → ((s.rqs c).nr_running == (s.rqs c).cfs_h_nr_running) ≡ false
      → pick_next_task env s c ≡ (some p, (after_rt env s c))
  unfolding pick_next_task pick_in
  pick_next_task_wrr_first ok front short no_stop no_rt other =
      rw (pick_next_task, pick_in, other, no_stop, no_rt, pick-wrr ok front short) refl

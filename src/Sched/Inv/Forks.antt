-- ===== src/Sched/Inv/Forks.antt =====
-- A new task from sched_fork to its first wake-up, in both kernels.
use android_kernel_programmi.Base.{ℕ, ◌≡◌, ◌∙◌, false, arith}
use android_kernel_programmi.Kernel.State.{SchedClass, Sys, Task, put_task}
use android_kernel_programmi.Kernel.Env.{Env, Frame}
use android_kernel_programmi.Sched.Queue.{set_task_cpu, class_ops, ops_of}
use android_kernel_programmi.Sched.Fork.{
  init_fork, reset_on_fork, reset_on_fork_tegra, fork_class, fork_class_tegra, sched_fork,
  sched_fork_tegra, wake_up_new_task, wake_up_new_task_tegra,
}
use android_kernel_programmi.Sched.Inv.Frames.{Frame-refl}
use android_kernel_programmi.Sched.Inv.Good.{Good, Off, Frame-Off}
use android_kernel_programmi.Sched.Inv.Steps.{Off-Good}
use android_kernel_programmi.Sched.Inv.Parts.{put_task-Off}
use android_kernel_programmi.Sched.Inv.Wakeups.{
  set_task_cpu-Off, wake_up_new_task-Good, wake_up_new_task_tegra-Good,
}

reset_on_fork-on_rq : (t : Task) → (reset_on_fork t).on_rq ≡ t.on_rq
unfolding reset_on_fork
reset_on_fork-on_rq t = ground arith

reset_on_fork_tegra-on_rq : (t : Task) → (reset_on_fork_tegra t).on_rq ≡ t.on_rq
unfolding reset_on_fork_tegra
reset_on_fork_tegra-on_rq t = ground arith

fork_class-on_rq : (t : Task) → (fork_class t).on_rq ≡ t.on_rq
unfolding fork_class
fork_class-on_rq t = ground arith

fork_class_tegra-on_rq : (t : Task) → (fork_class_tegra t).on_rq ≡ t.on_rq
unfolding fork_class_tegra
fork_class_tegra-on_rq t = ground (arith, fork_class-on_rq t)

module _ (env : Env) where
  fork-Frame : (s : Sys) (p : ℕ) (k : SchedClass) → Frame s ((class_ops env k).task_fork s p)
  fork-Frame s p SchedClass.stop = env.stop_keeps.fork_frame s p
  fork-Frame s p SchedClass.rt = env.rt_keeps.fork_frame s p
  fork-Frame s p SchedClass.wrr = Frame-refl s
  fork-Frame s p SchedClass.fair = env.fair_keeps.fork_frame s p
  fork-Frame s p SchedClass.idle = env.idle_keeps.fork_frame s p

  -- The end of both functions, for a task `t` that is not runnable.
  fork_end :
      (s : Sys) (p cpu : ℕ) (t : Task)
      → t.on_rq ≡ false
      → Off env s p
      → let s1 = put_task s p t in
        let s2 = set_task_cpu ((ops_of env s1 p).task_fork s1 p) p cpu in
        let u = put_task s2 p (let x = s2.tasks p in record x { on_cpu = false }) in
        Good env u × ((u.tasks p).on_rq ≡ false)
  unfolding set_task_cpu
  fork_end s p cpu t h off =
      let s1 = put_task s p t in
      let f = fork-Frame s1 p (s1.tasks p).sched_class in
      let s2 = (ops_of env s1 p).task_fork s1 p in
      let s3 = set_task_cpu s2 p cpu in
      let u = put_task s3 p (let x = s3.tasks p in record x { on_cpu = false }) in
      let off2 = Frame-Off env s1 s2 f p (put_task-Off env s p t off) in
      let off3 = set_task_cpu-Off env s2 p cpu off2 in
      let last = put_task-Off env s3 p (let x = s3.tasks p in record x { on_cpu = false }) off3 in
      let asleep : (u.tasks p).on_rq ≡ false = ground (arith, f.task_on_rq p, h) in
      (Off-Good env u p (λ c. ground (arith, asleep)) last, asleep)

  sched_fork-Good :
      (s : Sys) (current p cpu : ℕ)
      → Off env s p
      → let u = sched_fork env s current p cpu in Good env u × ((u.tasks p).on_rq ≡ false)
  unfolding sched_fork init_fork
  sched_fork-Good s current p cpu off =
      let t = init_fork (s.tasks p) in
      let t1 = record t { state = 0; prio = (s.tasks current).normal_prio } in
      fork_end s p cpu (fork_class (reset_on_fork t1))
        (fork_class-on_rq (reset_on_fork t1) ∙ reset_on_fork-on_rq t1) off

  sched_fork_tegra-Good :
      (s : Sys) (current p cpu : ℕ)
      → Off env s p
      → let u = sched_fork_tegra env s current p cpu in Good env u × ((u.tasks p).on_rq ≡ false)
  unfolding sched_fork_tegra init_fork
  sched_fork_tegra-Good s current p cpu off =
      let t = init_fork (s.tasks p) in
      let t1 = reset_on_fork_tegra (record t { state = 0 }) in
      let t2 = record t1 { prio = (s.tasks current).normal_prio } in
      fork_end s p cpu (fork_class_tegra t2)
        (fork_class_tegra-on_rq t2 ∙ reset_on_fork_tegra-on_rq (record t { state = 0 })) off

  -- A child from fork to its first wake-up, on goldfish: where the child, a copy of its parent with
  -- any fields, is on no wrr queue and the rest of the queues is well formed, the queues are well
  -- formed, each with exactly the runnable wrr tasks of its cpu at the weights of their groups, both
  -- after sched_fork, when the child is not yet runnable, and after wake_up_new_task.
  pub wake_up_new_task-sched_fork-Good :
      (s : Sys) (current p cpu : ℕ)
      → Off env s p
      → let u = sched_fork env s current p cpu in
        Good env u × ((u.tasks p).on_rq ≡ false) × Good env (wake_up_new_task env u p)
  wake_up_new_task-sched_fork-Good s current p cpu off =
      let (g, h) = sched_fork-Good s current p cpu off in
      (g, h, wake_up_new_task-Good env (sched_fork env s current p cpu) p h g)

  -- A child from fork to its first wake-up, on tegra: where the child, a copy of its parent with any
  -- fields, is on no wrr queue and the rest of the queues is well formed, the queues are well formed,
  -- each with exactly the runnable wrr tasks of its cpu at the weights of their groups, both after
  -- sched_fork, when the child is not yet runnable, and after wake_up_new_task.
  pub wake_up_new_task_tegra-sched_fork_tegra-Good :
      (s : Sys) (current p cpu : ℕ)
      → Off env s p
      → let u = sched_fork_tegra env s current p cpu in
        Good env u × ((u.tasks p).on_rq ≡ false) × Good env (wake_up_new_task_tegra env u p)
  wake_up_new_task_tegra-sched_fork_tegra-Good s current p cpu off =
      let (g, h) = sched_fork_tegra-Good s current p cpu off in
      (g, h, wake_up_new_task_tegra-Good env (sched_fork_tegra env s current p cpu) p h g)

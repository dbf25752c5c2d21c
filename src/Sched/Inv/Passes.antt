-- ===== src/Sched/Inv/Passes.antt =====
-- A pass of __schedule and the invariant.
use android_kernel_programmi.Sched.Inv.Picks.{
  pre_schedule-Frame, put_prev_task-Frame, pick_next_task-Frame, pick_next_task-some,
  context_switch-Frame, run_post_schedule-Frame,
}
use android_kernel_programmi.Base.Int.{pos}
use android_kernel_programmi.Sched.Schedule.{
  gives_up, leave_cpu, switch_to, stop_running, schedule_pass,
}
use android_kernel_programmi.Sched.Wake.{try_to_wake_up_local}
use android_kernel_programmi.Sched.Inv.Wakeups.{try_to_wake_up_local-Good}
use android_kernel_programmi.Base.{
  ℕ, refl, ◌≡◌, Bool, true, false, Option, none, some, arith, ◌==◌, if◌then◌else◌, add64, add32,
}
use android_kernel_programmi.Kernel.State.{Sys, put_task, put_rq}
use android_kernel_programmi.Kernel.Env.{Env, Frame}
use android_kernel_programmi.Sched.Queue.{ops_of, deactivate_task}
use android_kernel_programmi.Sched.Preempt.{pick_next_task}
use android_kernel_programmi.Sched.Inv.Good.{Good, Frame-Good}
use android_kernel_programmi.Sched.Inv.Frames.{put_rq-Frame, put_task-Frame}
use android_kernel_programmi.Sched.Inv.Steps.{Off-Good}
use android_kernel_programmi.Sched.Inv.Parts.{put_task-Off}
use android_kernel_programmi.Sched.Inv.Balance.{deactivate_task-Off}

module _ (env : Env) where
  Good-if : (b : Bool) (t u : Sys) → Good env t → Good env u → Good env (if b then t else u)
  Good-if true t u f g = f
  Good-if false t u f g = g

  woken-Good :
      (s : Sys) (cpu : ℕ) (worker : Option ℕ)
      → Good env s
      → Good env (elim worker [ none ↦ s | some w ↦ try_to_wake_up_local env s cpu w ])
  woken-Good s cpu none g = g
  woken-Good s cpu (some w) g = try_to_wake_up_local-Good env s cpu w g

  -- A running task that goes to sleep leaves its queue, and may wake another worker.
  stop_running-Good :
      (s : Sys) (cpu prev : ℕ) (signal : Bool) (worker : Option ℕ)
      → (s.tasks prev).on_rq ≡ true
      → (s.tasks prev).cpu ≡ cpu
      → Good env s
      → Good env (stop_running env s cpu prev signal worker)
  unfolding stop_running
  stop_running-Good s cpu prev signal worker r e g =
      let s1 = deactivate_task env s cpu prev 1 in
      let t2 = let t = s1.tasks prev in record t { on_rq = false } in
      let un = put_task-Off env s1 prev t2 (deactivate_task-Off env s cpu prev 1 r e g).0 in
      let s2 = put_task s1 prev t2 in
      let g2 = Off-Good env s2 prev (λ d. ground arith) un in
      Good-if signal _ _ (Frame-Good env s _ (put_task-Frame s prev _ refl refl refl refl refl) g)
        (Good-if _ _ s2 (woken-Good s2 cpu worker g2) g2)

  counted-Frame :
      (s : Sys) (p : ℕ) (leaves : Bool)
      → Frame s (
          put_task s p (
            let t = s.tasks p in
            if leaves
            then record t { nvcsw = add32 t.nvcsw 1 }
            else record t { nivcsw = add32 t.nivcsw 1 }))
  counted-Frame s p true = put_task-Frame s p _ refl refl refl refl refl
  counted-Frame s p false = put_task-Frame s p _ refl refl refl refl refl

  -- Before and after the choice of the next task.
  leave_cpu-Good :
      (s : Sys) (cpu : ℕ) (active signal : Bool) (worker : Option ℕ)
      → (s.tasks (s.rqs cpu).curr).on_rq ≡ true
      → (s.tasks (s.rqs cpu).curr).cpu ≡ cpu
      → Good env s
      → Good env (leave_cpu env s cpu active signal worker)
  unfolding leave_cpu
  leave_cpu-Good s cpu active signal worker r e g =
      let prev = (s.rqs cpu).curr in
      let s1 = if gives_up env s cpu active then stop_running env s cpu prev signal worker else s in
      let g1 : Good env s1 =
        Good-if (gives_up env s cpu active) _ s (stop_running-Good s cpu prev signal worker r e g)
          g in
      let s2 = (ops_of env s1 prev).pre_schedule s1 cpu prev in
      let g2 : Good env s2 =
        Frame-Good env s1 s2 (pre_schedule-Frame env s1 cpu prev (s1.tasks prev).sched_class) g1 in
      let s3 = if (s2.rqs cpu).nr_running == 0 then env.idle_balance s2 cpu else s2 in
      let g3 : Good env s3 =
        Good-if ((s2.rqs cpu).nr_running == 0) _ s2
          (Frame-Good env s2 _ (env.idle_balance_frame s2 cpu) g2) g2 in
      Frame-Good env s3 _ (put_prev_task-Frame env s3 cpu prev) g3

  switch_to-Good :
      (s : Sys) (cpu prev : ℕ) (leaves : Bool) (n : ℕ)
      → Good env s
      → Good env (switch_to env s cpu prev leaves n)
  unfolding switch_to
  switch_to-Good s cpu prev leaves n g =
      let s5 = put_task s prev (let t = s.tasks prev in record t { need_resched = false }) in
      let g5 = Frame-Good env s s5 (put_task-Frame s prev _ refl refl refl refl refl) g in
      let s6 = put_rq s5 cpu (let r = s5.rqs cpu in record r { skip_clock_update = pos 0 }) in
      let g6 = Frame-Good env s5 s6 (put_rq-Frame s5 cpu _ refl) g5 in
      let r = s6.rqs cpu in
      let s7 = put_rq s6 cpu (record r { nr_switches = add64 r.nr_switches 1; curr = n }) in
      let g7 = Frame-Good env s6 s7 (put_rq-Frame s6 cpu _ refl) g6 in
      let g8 = Frame-Good env s7 _ (counted-Frame s7 prev leaves) g7 in
      let g9 = Frame-Good env _ _ (context_switch-Frame env _ prev n) g8 in
      Frame-Good env _ _ (run_post_schedule-Frame env _ cpu) (Good-if (n == prev) s6 _ g6 g9)

  -- A pass of __schedule succeeds and keeps the wrr queues well formed, each with exactly the
  -- runnable wrr tasks of its cpu at the weights of their groups, whether the running task stays
  -- runnable, is preempted, goes to sleep, wakes another worker or is held back by a signal. The
  -- running task is on a queue of this cpu, and the idle class always has a task to run.
  pub schedule_pass-Good :
      (s : Sys) (cpu : ℕ) (active signal : Bool) (worker : Option ℕ)
      → (s.tasks (s.rqs cpu).curr).on_rq ≡ true
      → (s.tasks (s.rqs cpu).curr).cpu ≡ cpu
      → ((s : Sys) → (n : ℕ) × ((env.idle_ops.pick_next_task s cpu).0 ≡ some n))
      → Good env s
      → (t : Sys) × ((schedule_pass env s cpu active signal worker ≡ some t) × Good env t)
  unfolding schedule_pass
  schedule_pass-Good s cpu active signal worker r e h g =
      let s3 = leave_cpu env s cpu active signal worker in
      let g3 = leave_cpu-Good s cpu active signal worker r e g in
      let g4 = Frame-Good env s3 _ (pick_next_task-Frame env s3 cpu) g3 in
      let (n, f) = pick_next_task-some env s3 cpu h in
      let prev = (s.rqs cpu).curr in
      let leaves = gives_up env s cpu active in
      let s4 = (pick_next_task env s3 cpu).1 in
      (
        switch_to env s4 cpu prev leaves n,
        (rw (schedule_pass, f) refl, switch_to-Good s4 cpu prev leaves n g4),
      )

-- ===== src/Sched/Schedule.antt =====
-- The timer tick and __schedule.
use android_kernel_programmi.Base.{
  ℕ, Bool, true, false, Option, none, some, ◌==◌, ◌&&◌, not, if◌then◌else◌, bit_and, add64, add32,
}
use android_kernel_programmi.Base.Int.{pos}
use android_kernel_programmi.Kernel.State.{Sys, put_task, put_rq}
use android_kernel_programmi.Kernel.Env.{Env}
use android_kernel_programmi.Sched.Queue.{ops_of, deactivate_task, update_rq_clock}
use android_kernel_programmi.Sched.Preempt.{put_prev_task, pick_next_task}
use android_kernel_programmi.Sched.Wake.{try_to_wake_up_local}
use android_kernel_programmi.Sched.Move.{pull_wrr_task}

module _ (env : Env) where
  -- Load statistics, perf events and trigger_load_balance are left out. The last step is SMP's.
  unfoldable pub scheduler_tick : Sys → ℕ → Sys
  unfolding update_rq_clock
  scheduler_tick s cpu =
      let s1 = update_rq_clock s cpu in
      let curr = (s1.rqs cpu).curr in
      let s2 = (ops_of env s1 curr).task_tick s1 cpu curr 0 in
      if (s2.rqs cpu).wrr.wrr_nr_running == 0 then pull_wrr_task env s2 cpu else s2

  -- What __schedule does to a previous task that is not runnable: a pending signal makes it
  -- runnable again, else it leaves the queue. `worker` is what wq_worker_sleeping returns.
  unfoldable pub stop_running : Sys → ℕ → ℕ → Bool → Option ℕ → Sys
  stop_running s cpu prev signal worker =
      let s1 = deactivate_task env s cpu prev 1 in
      let s2 = put_task s1 prev (let t = s1.tasks prev in record t { on_rq = false }) in
      let is_worker = not (bit_and (s.tasks prev).flags 0x20 == 0) in
      let woken : Sys = elim worker [ none ↦ s2 | some w ↦ try_to_wake_up_local env s2 cpu w ] in
      if signal
      then put_task s prev (let t = s.tasks prev in record t { state = 0 })
      else if is_worker
      then woken
      else s2

  -- context_switch, as far as the scheduler sees it: next runs, prev no longer does.
  unfoldable pub context_switch : Sys → ℕ → ℕ → Sys
  context_switch s prev next =
      let s1 = put_task s next (let t = s.tasks next in record t { on_cpu = true }) in
      put_task s1 prev (let t = s1.tasks prev in record t { on_cpu = false })

  unfoldable pub run_post_schedule : Sys → ℕ → Sys
  run_post_schedule s cpu =
      let s1 = (ops_of env s (s.rqs cpu).curr).post_schedule s cpu in
      if (s.rqs cpu).post_schedule
      then put_rq s1 cpu (let r = s1.rqs cpu in record r { post_schedule = false })
      else s

  -- `active` is PREEMPT_ACTIVE.
  unfoldable pub gives_up : Sys → ℕ → Bool → Bool
  gives_up s cpu active = not ((s.tasks (s.rqs cpu).curr).state == 0) && not active

  -- __schedule up to put_prev_task.
  unfoldable pub leave_cpu : Sys → ℕ → Bool → Bool → Option ℕ → Sys
  unfolding stop_running gives_up
  leave_cpu s cpu active signal worker =
      let prev = (s.rqs cpu).curr in
      let s1 = if gives_up s cpu active then stop_running s cpu prev signal worker else s in
      let s2 = (ops_of env s1 prev).pre_schedule s1 cpu prev in
      let s3 = if (s2.rqs cpu).nr_running == 0 then env.idle_balance s2 cpu else s2 in
      put_prev_task env s3 cpu prev

  -- From clear_tsk_need_resched(prev) to the end, for the task `n` that was picked.
  unfoldable pub switch_to : Sys → ℕ → ℕ → Bool → ℕ → Sys
  unfolding context_switch run_post_schedule
  switch_to s cpu prev leaves n =
      let s5 = put_task s prev (let t = s.tasks prev in record t { need_resched = false }) in
      let s6 = put_rq s5 cpu (let r = s5.rqs cpu in record r { skip_clock_update = pos 0 }) in
      let s7 =
        put_rq s6 cpu
          (let r = s6.rqs cpu in record r { nr_switches = add64 r.nr_switches 1; curr = n }) in
      let s8 = put_task s7 prev (
        let t = s7.tasks prev in
        if leaves
        then record t { nvcsw = add32 t.nvcsw 1 }
        else record t { nivcsw = add32 t.nivcsw 1 }) in
      run_post_schedule (if n == prev then s6 else context_switch s8 prev n) cpu

  -- One pass of __schedule; `none` is the BUG() of pick_next_task.
  unfoldable pub schedule_pass : Sys → ℕ → Bool → Bool → Option ℕ → Option Sys
  unfolding leave_cpu switch_to gives_up
  schedule_pass s cpu active signal worker =
      let prev = (s.rqs cpu).curr in
      let (next, s4) = pick_next_task env (leave_cpu s cpu active signal worker) cpu in
      elim next [ none ↦ none | some n ↦ some (switch_to s4 cpu prev (gives_up s cpu active) n) ]

-- ===== src/Wrr/Group.antt =====
-- How the class tells a background task from a foreground one: by the path of its task group.
-- autogroup_path and cgroup_path are called the same way in six functions.
use android_kernel_programmi.Base.{ℕ, ◌*◌, ◌/◌, Bool, none, some, ◌==◌, update, if◌then◌else◌}
use android_kernel_programmi.Kernel.State.{Sys, WrrEntity}
use android_kernel_programmi.Kernel.Env.{Env}

module _ (env : Env) where
  -- WRR_FG_TIMESLICE and WRR_BG_TIMESLICE, in ticks.
  abbrev pub fg_timeslice : ℕ
  fg_timeslice = 100 * env.hz / 1000

  abbrev pub bg_timeslice : ℕ
  bg_timeslice = 10 * env.hz / 1000

  -- The contents of `group_path` after the `if` that fills it.
  unfoldable pub group_path : ℕ → ℕ → ℕ
  group_path tg =
      let (found, buf) = env.autogroup_path tg env.stack in
      if found
      then buf
      else env.cgroup_path (env.cgroup tg)
          (elim (env.cgroup tg) [ none ↦ update buf 0 0 | some _ ↦ buf ])

  -- `group_path[1] == 'b'`
  unfoldable pub is_background : ℕ → Bool
  is_background tg = group_path tg 1 == b'b'

  -- enqueue_wrr_entity: the slice and weight change when the group's kind is not that of the weight.
  unfoldable pub reclassify : Sys → ℕ → WrrEntity
  reclassify s p =
      let t = s.tasks p in
      let bg = is_background t.sched_task_group in
      let e = t.wrr in
      if bg
      then (if e.weight == 1 then e else record e { time_slice = bg_timeslice; weight = 1 })
      else (if e.weight == 10 then e else record e { time_slice = fg_timeslice; weight = 10 })

-- ===== src/Sched/Inv/Wakeups.antt =====
-- The wake-up functions of core.c, and wake_up_new_task of both kernels.
use android_kernel_programmi.Sched.Policy
use android_kernel_programmi.Sched.Fork.{
  wake_up_new_task_tegra, select_task_rq, wake_up_new_task, initial_entity,
}
use android_kernel_programmi.Sched.Wake.{
  ttwu_do_wakeup, ttwu_activate, try_to_wake_up_local, ttwu_do_activate, ttwu_remote,
  try_to_wake_up,
}
use android_kernel_programmi.Base.{
  not, ◌||◌, ℕ, refl, ◌≡◌, Bool, true, false, arith, ◌==◌, if◌then◌else◌, Bool-cases, inl, inr,
  bit_and,
}
use android_kernel_programmi.Kernel.State.{Sys, put_task, put_entity}
use android_kernel_programmi.Kernel.Env.{Env}
use android_kernel_programmi.Sched.Queue.{set_task_cpu, ops_of, task_contributes_to_load}
use android_kernel_programmi.Sched.Inv.Good.{Good, Off, Frame-Good, Frame-Off}
use android_kernel_programmi.Sched.Inv.Frames.{put_rq-Frame}
use android_kernel_programmi.Sched.Inv.Steps.{Good-Off}
use android_kernel_programmi.Sched.Inv.Parts.{put_task-Off}
use android_kernel_programmi.Sched.Inv.Waking.{
  activated-Good, ttwu_activate-Good, ttwu_do_wakeup-Good, check_preempt_curr-Frame,
  task_woken-Frame, task_waking-Frame,
}

module _ (env : Env) where
  Good-if :
      (b : Bool) (x y : Sys × Bool)
      → (b ≡ true → Good env x.0)
      → (b ≡ false → Good env y.0)
      → Good env (if b then x else y).0
  Good-if true x y f g = f refl
  Good-if false x y f g = g refl

  choose-Good :
      (b : Bool) (t u : Sys)
      → (b ≡ true → Good env t)
      → (b ≡ false → Good env u)
      → Good env (if b then t else u)
  choose-Good true t u f g = f refl
  choose-Good false t u f g = g refl

  pub set_task_cpu-Off : (s : Sys) (p c : ℕ) → Off env s p → Off env (set_task_cpu s p c) p
  unfolding set_task_cpu
  set_task_cpu-Off s p c un = put_task-Off env s p _ un

  pub cpu-set_task_cpu : (s : Sys) (p c : ℕ) → ((set_task_cpu s p c).tasks p).cpu ≡ c
  unfolding set_task_cpu
  cpu-set_task_cpu s p c = ground arith

  sleeping-Off : (s : Sys) (p : ℕ) → (s.tasks p).on_rq ≡ false → Good env s → Off env s p
  sleeping-Off s p h g = Good-Off env s p (λ c. ground (arith, h)) g

  ttwu_do_activate-Good :
      (s : Sys) (c p flags : ℕ)
      → (s.tasks p).cpu ≡ c
      → Off env s p
      → Good env (ttwu_do_activate env s c p flags)
  unfolding ttwu_do_activate
  ttwu_do_activate-Good s c p flags e un = elim (Bool-cases (s.tasks p).sched_contributes_to_load) [
    | inl h ↦ rw h (
        ttwu_do_wakeup-Good env _ c p flags
          (ttwu_activate-Good env _ c p 5 e (Frame-Off env s _ (put_rq-Frame s c _ refl) p un)))
    | inr h ↦ rw h (ttwu_do_wakeup-Good env _ c p flags (ttwu_activate-Good env s c p 5 e un))
  ]

  ttwu_remote-Good : (s : Sys) (p flags : ℕ) → Good env s → Good env (ttwu_remote env s p flags).0
  unfolding ttwu_remote
  ttwu_remote-Good s p flags g = elim (Bool-cases (s.tasks p).on_rq) [
    | inl h ↦ rw h (ttwu_do_wakeup-Good env s (s.tasks p).cpu p flags g)
    | inr h ↦ rw h g
  ]

  -- The task is moved to the cpu that was selected, unless it is there already.
  placed-Good :
      (s : Sys) (p c : ℕ)
      → Off env s p
      → Good env
          (ttwu_do_activate env (if (s.tasks p).cpu == c then s else set_task_cpu s p c) c p 0)
  placed-Good s p c un = elim (Bool-cases ((s.tasks p).cpu == c)) [
    | inl h ↦ rw h (ttwu_do_activate-Good s c p 0 (ground (arith, h)) un)
    | inr h ↦ rw h (
        ttwu_do_activate-Good (set_task_cpu s p c) c p 0 (cpu-set_task_cpu s p c)
          (set_task_cpu-Off s p c un))
  ]

  -- Waking a task keeps the wrr queues well formed, each with exactly the runnable wrr tasks of its
  -- cpu at the weights of their groups, whether the task is asleep, still on its queue, or in a
  -- state that the caller does not wake, and whichever cpu is selected for it.
  pub try_to_wake_up-Good :
      (s : Sys) (p state wake_flags : ℕ)
      → Good env s
      → Good env (try_to_wake_up env s p state wake_flags).0
  unfolding try_to_wake_up
  try_to_wake_up-Good s p state flags g =
      let t = s.tasks p in
      let t1 = record t { sched_contributes_to_load = task_contributes_to_load t; state = 256 } in
      let s1 = put_task s p t1 in
      let s2 = (ops_of env s1 p).task_waking s1 p in
      Good-if (bit_and t.state state == 0) (s, false) _ (λ h. g)
        λ h.
          Good-if t.on_rq _ _ (λ r. ttwu_remote-Good s p flags g)
            λ r.
              let un = put_task-Off env s p t1 (sleeping-Off s p r g) in
              placed-Good s2 p (select_task_rq env s2 p 16 flags)
                (Frame-Off env s1 s2 (task_waking-Frame env s1 p (s1.tasks p).sched_class) p un)

  -- Starting a new task, which is not yet runnable, keeps the wrr queues well formed, each with
  -- exactly the runnable wrr tasks of its cpu at the weights of their groups.
  pub wake_up_new_task-Good :
      (s : Sys) (p : ℕ)
      → (s.tasks p).on_rq ≡ false
      → Good env s
      → Good env (wake_up_new_task env s p)
  unfolding wake_up_new_task
  wake_up_new_task-Good s p r g =
      let cpu = select_task_rq env s p 8 0 in
      let s1 = set_task_cpu s p cpu in
      let s2 = put_entity s1 p (initial_entity env s1 p) in
      let u1 = set_task_cpu-Off s p cpu (sleeping-Off s p r g) in
      let u2 =
        put_task-Off env s1 p (let t = s1.tasks p in record t { wrr = initial_entity env s1 p })
          u1 in
      let g4 = activated-Good env s2 cpu p 0 (ground (arith, cpu-set_task_cpu s p cpu)) u2 in
      let g5 = Frame-Good env _ _ (check_preempt_curr-Frame env _ cpu p 2) g4 in
      Frame-Good env _ _ (task_woken-Frame env _ cpu p _) g5

  -- The tegra kernel changes the entity of a new task only where its policy is SCHED_WRR.
  entity-Off :
      (s : Sys) (p c : ℕ) (b : Bool)
      → (s.tasks p).cpu ≡ c
      → Off env s p
      → let t = if b then put_entity s p (initial_entity env s p) else s in
        ((t.tasks p).cpu ≡ c) × Off env t p
  entity-Off s p c true e un = (ground (arith, e), put_task-Off env s p _ un)
  entity-Off s p c false e un = (e, un)

  -- Starting a new task on the tegra kernel, which is not yet runnable, keeps the wrr queues well
  -- formed, each with exactly the runnable wrr tasks of its cpu at the weights of their groups.
  pub wake_up_new_task_tegra-Good :
      (s : Sys) (p : ℕ)
      → (s.tasks p).on_rq ≡ false
      → Good env s
      → Good env (wake_up_new_task_tegra env s p)
  unfolding wake_up_new_task_tegra
  wake_up_new_task_tegra-Good s p r g =
      let cpu = select_task_rq env s p 8 0 in
      let s1 = set_task_cpu s p cpu in
      let wrr_policy = (s1.tasks p).policy == Policy.wrr in
      let s2 = if wrr_policy then put_entity s1 p (initial_entity env s1 p) else s1 in
      let u1 = set_task_cpu-Off s p cpu (sleeping-Off s p r g) in
      let (e, u2) = entity-Off s1 p cpu wrr_policy (cpu-set_task_cpu s p cpu) u1 in
      let g4 = activated-Good env s2 cpu p 0 e u2 in
      let g5 = Frame-Good env _ _ (check_preempt_curr-Frame env _ cpu p 2) g4 in
      Frame-Good env _ _ (task_woken-Frame env _ cpu p _) g5

  -- Waking a workqueue's other worker from __schedule keeps the invariant.
  pub try_to_wake_up_local-Good :
      (s : Sys) (c p : ℕ) → Good env s → Good env (try_to_wake_up_local env s c p)
  unfolding try_to_wake_up_local
  try_to_wake_up_local-Good s c p g =
      let t = s.tasks p in
      let skips = not (t.cpu == c) || (s.rqs c).curr == p || bit_and t.state 3 == 0 in
      let s1 = if t.on_rq then s else ttwu_activate env s c p 1 in
      choose-Good skips s (ttwu_do_wakeup env s1 c p 0) (λ h. g)
        λ h. ttwu_do_wakeup-Good env s1 c p 0 (
          choose-Good t.on_rq s _ (λ r. g)
            λ r. ttwu_activate-Good env s c p 1 (ground (arith, h)) (sleeping-Off s p r g))

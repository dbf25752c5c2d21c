-- ===== src/Sched/Inv/Balance.antt =====
-- pull_wrr_task: what the load balancer takes, and the invariant.
use android_kernel_programmi.Base.{
  ℕ, refl, ◌≡◌, ◌∙◌, sym, true, some, List, [], ◌∷◌, has, arith, ◌==◌, Bool-cases, Option-cases,
  inl, inr,
}
use android_kernel_programmi.Kernel.State.{Sys, queue_of}
use android_kernel_programmi.Kernel.Env.{Env}
use android_kernel_programmi.Sched.Queue.{
  set_task_cpu, activate_task, deactivate_task, task_contributes_to_load, cpu_online,
}
use android_kernel_programmi.Sched.Move.{
  can_pull, first_pullable, pull_one, pull_from, pull_wrr_task,
}
use android_kernel_programmi.Sched.Inv.Good.{Good, Off, Frame-Good, Frame-Off}
use android_kernel_programmi.Sched.Inv.Frames.{put_rq-Frame}
use android_kernel_programmi.Sched.Inv.Dispatch.{
  dequeue_task-Off, dequeue_task-Seat, enqueue_task-Good,
}
use android_kernel_programmi.Sched.Inv.Waking.{check_preempt_curr-Frame}
use android_kernel_programmi.Sched.Inv.Wakeups.{set_task_cpu-Off, cpu-set_task_cpu}

-- The task that the loop finds is on the queue and may be taken.
pub first_pullable_lem :
    (env : Env) (s : Sys) (dst : ℕ) (q : List ℕ) (p : ℕ)
    → first_pullable env s dst q ≡ some p
    → (has p q ≡ true) × (can_pull env s dst p ≡ true)
unfolding first_pullable
first_pullable_lem env s dst [] p e = ground (arith, e)
first_pullable_lem env s dst (x ∷ q) p e = ground (arith, e, first_pullable_lem env s dst q p)

module _ (env : Env) where
  pub deactivate_task-Off :
      (s : Sys) (c p flags : ℕ)
      → (s.tasks p).on_rq ≡ true
      → (s.tasks p).cpu ≡ c
      → Good env s
      → Off env (deactivate_task env s c p flags) p
        × (((deactivate_task env s c p flags).tasks p).on_rq ≡ true)
  unfolding deactivate_task
  deactivate_task-Off s c p flags r e g = elim (Bool-cases (task_contributes_to_load (s.tasks p))) [
    | inl h ↦
        let f = put_rq-Frame s c _ refl in
        rw h (
          dequeue_task-Off env _ c p flags r e (Frame-Good env s _ f g),
          (dequeue_task-Seat env _ c p flags).on_rq ∙ r,
        )
    | inr h ↦
        rw h (dequeue_task-Off env s c p flags r e g, (dequeue_task-Seat env s c p flags).on_rq ∙ r)
  ]

  activate_task-Good :
      (s : Sys) (c p flags : ℕ)
      → (s.tasks p).on_rq ≡ true
      → (s.tasks p).cpu ≡ c
      → Off env s p
      → Good env (activate_task env s c p flags)
  unfolding activate_task
  activate_task-Good s c p flags r e un = elim (Bool-cases (task_contributes_to_load (s.tasks p))) [
    | inl h ↦
        rw h
          (enqueue_task-Good env _ c p flags r e (Frame-Off env s _ (put_rq-Frame s c _ refl) p un))
    | inr h ↦ rw h (enqueue_task-Good env s c p flags r e un)
  ]

  pub on_rq-set_task_cpu :
      (s : Sys) (p c : ℕ) → ((set_task_cpu s p c).tasks p).on_rq ≡ (s.tasks p).on_rq
  unfolding set_task_cpu
  on_rq-set_task_cpu s p c = ground arith

  pull_one-Good :
      (s : Sys) (src dst p : ℕ)
      → (s.tasks p).on_rq ≡ true
      → (s.tasks p).cpu ≡ src
      → Good env s
      → Good env (pull_one env s src dst p)
  unfolding pull_one
  pull_one-Good s src dst p r e g =
      let s0 = deactivate_task env s src p 0 in
      let s1 = set_task_cpu s0 p dst in
      let (un, r0) = deactivate_task-Off s src p 0 r e g in
      let g1 =
        activate_task-Good s1 dst p 0 (on_rq-set_task_cpu s0 p dst ∙ r0)
          (cpu-set_task_cpu env s0 p dst) (set_task_cpu-Off env s0 p dst un) in
      Frame-Good env _ _ (check_preempt_curr-Frame env _ dst p 0) g1

  pull_from-Good :
      (s : Sys) (dst : ℕ) (cpus : List ℕ) → Good env s → Good env (pull_from env s dst cpus)
  unfolding pull_from
  pull_from-Good s dst [] g = g
  pull_from-Good s dst (src ∷ cpus) g = elim (Bool-cases (src == dst)) [
    | inl h ↦ rw h (pull_from-Good s dst cpus g)
    | inr h ↦ elim (Option-cases (first_pullable env s dst (queue_of s src))) [
      | inl e ↦ rw (h, e) (pull_from-Good s dst cpus g)
      | inr (p, e) ↦
          let (m, k) = first_pullable_lem env s dst (queue_of s src) p e in
          let at_src = sym (g.placed src p) ∙ m in
          rw (h, e) (pull_one-Good s src dst p (ground (arith, at_src)) (ground (arith, at_src)) g)
    ]
  ]

  -- The load balancer keeps the wrr queues well formed, each with exactly the runnable wrr tasks of
  -- its cpu at the weights of their groups, whichever cpu asks for a task and whichever it gets.
  pub pull_wrr_task-Good : (s : Sys) (dst : ℕ) → Good env s → Good env (pull_wrr_task env s dst)
  unfolding pull_wrr_task
  pull_wrr_task-Good s dst g = elim (Bool-cases (cpu_online env dst)) [
    | inl h ↦ rw h (pull_from-Good s dst env.online g)
    | inr h ↦ rw h g
  ]

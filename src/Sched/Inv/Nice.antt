-- ===== src/Sched/Inv/Nice.antt =====
-- set_user_nice, __migrate_task and the invariant.
use android_kernel_programmi.Base.{
  subst, ℕ, refl, ◌≡◌, ◌∙◌, Bool, true, false, ◌==◌, ◌&&◌, ◌||◌, not, ltb, if◌then◌else◌, arith,
}
use android_kernel_programmi.Kernel.State.{Sys, put_task}
use android_kernel_programmi.Kernel.Env.{Env}
use android_kernel_programmi.Wrr.Class.{resched_task}
use android_kernel_programmi.Sched.Prio.{rt_policy, effective_prio, set_load_weight}
use android_kernel_programmi.Sched.Queue.{enqueue_task, dequeue_task, set_task_cpu}
use android_kernel_programmi.Sched.Move.{set_user_nice, migrate_task}
use android_kernel_programmi.Sched.Inv.Good.{Good, Frame-Good}
use android_kernel_programmi.Sched.Inv.Frames.{put_task-Frame, resched_task-Frame}
use android_kernel_programmi.Sched.Inv.Dispatch.{
  dequeue_task-Off, dequeue_task-Seat, enqueue_task-Good,
}
use android_kernel_programmi.Sched.Inv.Parts.{Held, take_off, change, put_back}
use android_kernel_programmi.Sched.Inv.Waking.{check_preempt_curr-Frame}
use android_kernel_programmi.Sched.Inv.Wakeups.{set_task_cpu-Off, cpu-set_task_cpu}
use android_kernel_programmi.Sched.Inv.Balance.{on_rq-set_task_cpu}

module _ (env : Env) where
  Good-if :
      (b : Bool) (t u : Sys)
      → (b ≡ true → Good env t)
      → (b ≡ false → Good env u)
      → Good env (if b then t else u)
  Good-if true t u f g = f refl
  Good-if false t u f g = g refl

  moved-Good :
      (s : Sys) (p src dst : ℕ)
      → (s.tasks p).on_rq ≡ true
      → (s.tasks p).cpu ≡ src
      → Good env s
      → Good env (enqueue_task env (set_task_cpu (dequeue_task env s src p 0) p dst) dst p 0)
  moved-Good s p src dst r e g =
      let s0 = dequeue_task env s src p 0 in
      let un = dequeue_task-Off env s src p 0 r e g in
      enqueue_task-Good env (set_task_cpu s0 p dst) dst p 0
        (on_rq-set_task_cpu env s0 p dst ∙ ((dequeue_task-Seat env s src p 0).on_rq ∙ r))
        (cpu-set_task_cpu env s0 p dst) (set_task_cpu-Off env s0 p dst un)

  IfGood :
      (b : Bool) (x y : Sys × Bool)
      → (b ≡ true → Good env x.0)
      → (b ≡ false → Good env y.0)
      → Good env (if b then x else y).0
  IfGood true x y f g = f refl
  IfGood false x y f g = g refl

  -- Migrating a task keeps the wrr queues well formed, each with exactly the runnable wrr tasks of
  -- its cpu at the weights of their groups, whether or not the task is still where it was expected,
  -- is runnable, and may run on the destination.
  pub migrate_task-Good :
      (s : Sys) (active : Bool) (p src dst : ℕ)
      → Good env s
      → Good env (migrate_task env s active p src dst).0
  unfolding migrate_task
  migrate_task-Good s active p src dst g =
      let t = s.tasks p in
      IfGood (not active) (s, false) _ (λ h. g)
        λ h.
          IfGood (not (t.cpu == src)) (s, true) _ (λ h. g)
            λ at_src.
              IfGood (not (t.cpus_allowed dst)) (s, false) _ (λ h. g)
                λ h.
                  IfGood t.on_rq _ (s, true)
                    (λ r.
                      let g1 = moved-Good s p src dst r (ground (arith, at_src)) g in
                      Frame-Good env _ _ (check_preempt_curr-Frame env _ dst p 0) g1)
                    (λ r. g)

module _ (env : Env) where
  -- The task that set_user_nice puts back, with its new priority.
  abbrev niced : Sys → ℕ → ℕ → Sys
  niced s p static_prio =
      let t1 = set_load_weight (let t = s.tasks p in record t { static_prio = static_prio }) in
      let (prio', t2) = effective_prio t1 in put_task s p (record t2 { prio = prio' })

  niced-Held :
      (s : Sys) (p static_prio : ℕ) (b : Bool) (c : ℕ)
      → Held env s p b c
      → Held env (niced s p static_prio) p b c
  unfolding effective_prio set_load_weight
  niced-Held s p static_prio b c h = change env s p _ b c (ground arith) (ground arith) h

  -- Changing the nice value of a task keeps the wrr queues well formed, each with exactly the
  -- runnable wrr tasks of its cpu at the weights of their groups.
  pub set_user_nice-Good :
      (s : Sys) (p static_prio : ℕ) → Good env s → Good env (set_user_nice env s p static_prio)
  unfolding set_user_nice
  set_user_nice-Good s p static_prio g =
      let t = s.tasks p in
      let b = t.on_rq in
      let c = t.cpu in
      let s1 = if b then dequeue_task env s c p 0 else s in
      let h = niced-Held s1 p static_prio b c (take_off env s p b c refl refl g) in
      let s2 = niced s1 p static_prio in
      let s3 = enqueue_task env s2 c p 0 in
      let t1 = set_load_weight (let t = s1.tasks p in record t { static_prio = static_prio }) in
      let prio' = (effective_prio t1).0 in
      let hurries = ltb prio' t1.prio || (ltb t1.prio prio' && (s3.tasks p).on_cpu) in
      let s4 = if hurries then resched_task s3 (s3.rqs c).curr else s3 in
      let requeued = if b then s4 else s2 in
      let t' = record t { static_prio = static_prio } in
      Good-if env (t.static_prio == static_prio || ltb static_prio 100 || ltb 139 static_prio) s
        (if rt_policy t.policy then put_task s p t' else requeued) (λ e. g)
        λ e.
          Good-if env (rt_policy t.policy) (put_task s p t') requeued
            (λ f. Frame-Good env s _ (put_task-Frame s p t' refl refl refl refl refl) g)
            λ f.
              Good-if env b s4 s2
                (λ r.
                  let g3 = put_back env s2 p true c 0 (subst (λ x. Held env s2 p x c) r h) in
                  Good-if env hurries _ s3
                    (λ e. Frame-Good env s3 _ (resched_task-Frame s3 (s3.rqs c).curr) g3) (λ e. g3))
                (λ r. put_back env s2 p false c 0 (subst (λ x. Held env s2 p x c) r h))

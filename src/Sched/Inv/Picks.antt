-- ===== src/Sched/Inv/Picks.antt =====
-- The parts of __schedule between which the queues change, and its choice of a task.
use android_kernel_programmi.Base.Int.{is_neg}
use android_kernel_programmi.Sched.Schedule.{context_switch, run_post_schedule}
use android_kernel_programmi.Base.{
  Option-cases, ◌++◌, ℕ, refl, ◌≡◌, Option, none, some, List, [], ◌∷◌, ◌==◌, ◌||◌, if◌then◌else◌,
  Bool-cases, inl, inr,
}
use android_kernel_programmi.Kernel.State.{SchedClass, Sys}
use android_kernel_programmi.Kernel.Env.{Env, Frame}
use android_kernel_programmi.Sched.Queue.{class_ops, ops_of, update_rq_clock, class_list}
use android_kernel_programmi.Sched.Preempt.{put_prev_task, pick_in, pick_next_task}
use android_kernel_programmi.Sched.Inv.Frames.{
  Frame-refl, Frame-trans, put_rq-Frame, put_task-Frame, update_rq_clock-Frame, put_prev-Frame,
}
use android_kernel_programmi.Sched.Inv.Waking.{Frame-if}

module _ (env : Env) where
  pub pre_schedule-Frame :
      (s : Sys) (c p : ℕ) (k : SchedClass) → Frame s ((class_ops env k).pre_schedule s c p)
  pre_schedule-Frame s c p SchedClass.stop = env.stop_keeps.pre_frame s c p
  pre_schedule-Frame s c p SchedClass.rt = env.rt_keeps.pre_frame s c p
  pre_schedule-Frame s c p SchedClass.wrr = Frame-refl s
  pre_schedule-Frame s c p SchedClass.fair = env.fair_keeps.pre_frame s c p
  pre_schedule-Frame s c p SchedClass.idle = env.idle_keeps.pre_frame s c p

  post_schedule-Frame :
      (s : Sys) (c : ℕ) (k : SchedClass) → Frame s ((class_ops env k).post_schedule s c)
  post_schedule-Frame s c SchedClass.stop = env.stop_keeps.post_frame s c
  post_schedule-Frame s c SchedClass.rt = env.rt_keeps.post_frame s c
  post_schedule-Frame s c SchedClass.wrr = Frame-refl s
  post_schedule-Frame s c SchedClass.fair = env.fair_keeps.post_frame s c
  post_schedule-Frame s c SchedClass.idle = env.idle_keeps.post_frame s c

  pick-Frame : (s : Sys) (c : ℕ) (k : SchedClass) → Frame s ((class_ops env k).pick_next_task s c).1
  pick-Frame s c SchedClass.stop = env.stop_keeps.pick_frame s c
  pick-Frame s c SchedClass.rt = env.rt_keeps.pick_frame s c
  pick-Frame s c SchedClass.wrr = Frame-refl s
  pick-Frame s c SchedClass.fair = env.fair_keeps.pick_frame s c
  pick-Frame s c SchedClass.idle = env.idle_keeps.pick_frame s c

  Frame-picked :
      (s t : Sys) (o : Option ℕ) (r : Option ℕ × Sys)
      → Frame s t
      → Frame s r.1
      → Frame s (elim o as (λ x. Option ℕ × Sys) [ none ↦ r | some q ↦ (some q, t) ]).1
  Frame-picked s t none r f g = g
  Frame-picked s t (some q) r f g = f

  pick_in-Frame : (ks : List SchedClass) (s : Sys) (c : ℕ) → Frame s (pick_in env ks s c).1
  unfolding pick_in
  pick_in-Frame [] s c = Frame-refl s
  pick_in-Frame (k ∷ ks) s c =
      let f = pick-Frame s c k in
      Frame-picked s _ _ _ f (Frame-trans s _ _ f (pick_in-Frame ks _ c))

  -- Choosing the next task moves nothing.
  pub pick_next_task-Frame : (s : Sys) (c : ℕ) → Frame s (pick_next_task env s c).1
  unfolding pick_next_task
  pick_next_task-Frame s c =
      let r = s.rqs c in
      let f = env.fair_keeps.pick_frame s c in
      elim (Bool-cases (r.nr_running == r.cfs_h_nr_running)) [
        | inl e ↦ rw e (Frame-picked s _ _ _ f (Frame-trans s _ _ f (pick_in-Frame class_list _ c)))
        | inr e ↦ rw e (pick_in-Frame class_list s c)
      ]

  pub put_prev_task-Frame : (s : Sys) (c p : ℕ) → Frame s (put_prev_task env s c p)
  unfolding put_prev_task
  put_prev_task-Frame s c p =
      let s1 =
        if (s.tasks p).on_rq || is_neg (s.rqs c).skip_clock_update
        then update_rq_clock s c
        else s in
      Frame-trans s s1 _
        (Frame-if env s _ s ((s.tasks p).on_rq || is_neg (s.rqs c).skip_clock_update)
          (update_rq_clock-Frame s c) (Frame-refl s))
        (put_prev-Frame env s1 c (s.tasks p).sched_class p)

  pub context_switch-Frame : (s : Sys) (p q : ℕ) → Frame s (context_switch env s p q)
  unfolding context_switch
  context_switch-Frame s p q =
      Frame-trans s _ _ (put_task-Frame s q _ refl refl refl refl refl)
        (put_task-Frame _ p _ refl refl refl refl refl)

  pub run_post_schedule-Frame : (s : Sys) (c : ℕ) → Frame s (run_post_schedule env s c)
  unfolding run_post_schedule
  run_post_schedule-Frame s c =
      let s1 = (ops_of env s (s.rqs c).curr).post_schedule s c in
      Frame-if env s _ s (s.rqs c).post_schedule
        (Frame-trans s s1 _ (post_schedule-Frame s c (s.tasks (s.rqs c).curr).sched_class)
          (put_rq-Frame s1 c _ refl))
        (Frame-refl s)

  pick_in-some :
      (ks : List SchedClass) (s : Sys) (c : ℕ)
      → ((s : Sys) → (n : ℕ) × ((env.idle_ops.pick_next_task s c).0 ≡ some n))
      → (n : ℕ) × ((pick_in env (ks ++ (SchedClass.idle ∷ [])) s c).0 ≡ some n)
  unfolding pick_in
  pick_in-some [] s c h = let (n, e) = h s in (n, rw (pick_in, e) refl)
  pick_in-some (k ∷ ks) s c h =
      let o = (class_ops env k).pick_next_task s c in
      elim (Option-cases o.0) [
        | inl e ↦ let (n, f) = pick_in-some ks o.1 c h in (n, rw (pick_in, e) f)
        | inr (q, e) ↦ (q, rw (pick_in, e) refl)
      ]

  pub pick_next_task-some :
      (s : Sys) (c : ℕ)
      → ((s : Sys) → (n : ℕ) × ((env.idle_ops.pick_next_task s c).0 ≡ some n))
      → (n : ℕ) × ((pick_next_task env s c).0 ≡ some n)
  unfolding pick_next_task
  pick_next_task-some s c h =
      let ks = SchedClass.stop ∷ SchedClass.rt ∷ SchedClass.wrr ∷ SchedClass.fair ∷ [] in
      let o = env.fair_ops.pick_next_task s c in
      elim (Bool-cases ((s.rqs c).nr_running == (s.rqs c).cfs_h_nr_running)) [
        | inr e ↦ let (n, f) = pick_in-some ks s c h in (n, rw (pick_next_task, e) f)
        | inl e ↦ elim (Option-cases o.0) [
          | inl d ↦ let (n, f) = pick_in-some ks o.1 c h in (n, rw (pick_next_task, e, d) f)
          | inr (q, d) ↦ (q, rw (pick_next_task, e, d) refl)
        ]
      ]

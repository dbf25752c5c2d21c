-- ===== src/Sched/Inv/Good.antt =====
-- Well-formed queues that hold the right tasks.
use android_kernel_programmi.Base.{ℕ, ◌≡◌, sym, ◌∙◌, ap, Bool, true, false, has, arith, ◌==◌, ◌&&◌}
use android_kernel_programmi.Kernel.State.{Sys, Task, WrrRq, weights, queue_of}
use android_kernel_programmi.Kernel.Env.{Env, Frame}
use android_kernel_programmi.Wrr.Class.{is_wrr}
use android_kernel_programmi.Wrr.Inv.{SysOk, Unqueued}
use android_kernel_programmi.Wrr.Lift.{Frame-SysOk}
use android_kernel_programmi.Wrr.Switch.{group_weight}

-- A task belongs on the wrr queue of a cpu when it is runnable, of the wrr class, and on that cpu.
abbrev pub placed_at : Task → ℕ → Bool
placed_at t c = t.on_rq && (is_wrr t.sched_class && t.cpu == c)

-- The queues are well formed, hold exactly the tasks that belong on them, and each queued task
-- has the weight of its group.
pub record Good (env : Env) (s : Sys) : Type 0 where
  pub sys : SysOk s
  pub placed : (c p : ℕ) → has p (queue_of s c) ≡ placed_at (s.tasks p) c
  pub classified : (c p : ℕ) → has p (queue_of s c) ≡ true → weights s p ≡ group_weight env s p

-- The same while `p` is off its queue and its fields are being changed.
pub record Off (env : Env) (s : Sys) (p : ℕ) : Type 0 where
  pub sys : SysOk s
  pub off : Unqueued s p
  pub others : (c q : ℕ) → (p == q) ≡ false → has q (queue_of s c) ≡ placed_at (s.tasks q) c
  pub classified : (c q : ℕ) → has q (queue_of s c) ≡ true → weights s q ≡ group_weight env s q

module _ (env : Env) (s t : Sys) (f : Frame s t) where
  pub Frame-has : (c q : ℕ) → has q (queue_of t c) ≡ has q (queue_of s c)
  Frame-has c q = ap (λ (w : WrrRq). has q w.queue) (f.rq_wrr c)

  pub Frame-placed_at : (q c : ℕ) → placed_at (t.tasks q) c ≡ placed_at (s.tasks q) c
  Frame-placed_at q c = ground (arith, f.task_class q, f.task_on_rq q, f.task_cpu q)

  pub Frame-group : (q : ℕ) → group_weight env t q ≡ group_weight env s q
  Frame-group q = ground (arith, f.task_group q)

  pub Frame-weights : (q : ℕ) → weights t q ≡ weights s q
  Frame-weights q = ap (λ e. e.weight) (f.task_wrr q)

  pub Frame-Good : Good env s → Good env t
  Frame-Good g = record {
    sys = Frame-SysOk s t f g.sys;
    placed = λ c q. Frame-has c q ∙ g.placed c q ∙ sym (Frame-placed_at q c);
    classified =
        λ c q h. Frame-weights q ∙ g.classified c q (sym (Frame-has c q) ∙ h) ∙ sym (Frame-group q);
  }

  pub Frame-Off : (p : ℕ) → Off env s p → Off env t p
  Frame-Off p g = record {
    sys = Frame-SysOk s t f g.sys;
    off = λ c. Frame-has c p ∙ g.off c;
    others = λ c q ne. Frame-has c q ∙ g.others c q ne ∙ sym (Frame-placed_at q c);
    classified =
        λ c q h. Frame-weights q ∙ g.classified c q (sym (Frame-has c q) ∙ h) ∙ sym (Frame-group q);
  }

-- ===== src/Sched/Inv/Steps.antt =====
-- Taking a task off its queue and putting it back, through the class of the task.
use android_kernel_programmi.Base.{
  ℕ, ◌≡◌, sym, ◌∙◌, ap, true, false, has, has-append, has-remove_ne, has-remove_self, remove, [],
  ◌∷◌, ◌++◌, arith, ◌==◌, not, if◌then◌else◌, Bool-cases, inl, inr, subst, bit_and, ==_iff,
}
use android_kernel_programmi.Kernel.State.{SchedClass, Sys, WrrRq, weights, queue_of}
use android_kernel_programmi.Kernel.Env.{Env}
use android_kernel_programmi.Wrr.Class.{enqueue_task_wrr, dequeue_task_wrr, update_curr_wrr}
use android_kernel_programmi.Wrr.Hooks.{enqueue_task_wrr-SysOk, dequeue_task_wrr-SysOk}
use android_kernel_programmi.Wrr.Roundtrip.{queue-dequeue_task_wrr, queue-enqueue_task_wrr}
use android_kernel_programmi.Wrr.Switch.{group_weight, weights-enqueue_task_wrr}
use android_kernel_programmi.Sched.Inv.Good.{
  placed_at, Good, Off, Frame-placed_at, Frame-weights, Frame-group,
}
use android_kernel_programmi.Sched.Inv.Frames.{update_curr_wrr-Frame}

pub Good-Off :
    (env : Env) (s : Sys) (p : ℕ)
    → ((c : ℕ) → placed_at (s.tasks p) c ≡ false)
    → Good env s
    → Off env s p
Good-Off env s p none g = record {
  sys = g.sys;
  off = λ c. g.placed c p ∙ none c;
  others = λ c q ne. g.placed c q;
  classified = g.classified;
}

pub Off-Good :
    (env : Env) (s : Sys) (p : ℕ)
    → ((c : ℕ) → placed_at (s.tasks p) c ≡ false)
    → Off env s p
    → Good env s
Off-Good env s p none g = record {
  sys = g.sys;
  placed = λ c q. elim (Bool-cases (p == q)) [
    | inl e ↦
        subst (λ x. has x (queue_of s c) ≡ placed_at (s.tasks x) c) ((==_iff p q).0 e)
          (g.off c ∙ sym (none c))
    | inr e ↦ g.others c q e
  ];
  classified = g.classified;
}

module _ (env : Env) (s : Sys) (c p flags : ℕ) (runnable : (s.tasks p).on_rq ≡ true)
    (at_c : (s.tasks p).cpu ≡ c) where
  module _ (g : Good env s) (wrr : (s.tasks p).sched_class ≡ SchedClass.wrr) where
    abbrev pub out : Sys
    out = dequeue_task_wrr env s c p flags

    on_queue : has p (queue_of s c) ≡ true
    on_queue = ground (arith, g.placed c p, runnable, wrr, at_c)

    queue-out : queue_of out c ≡ remove p (queue_of s c)
    queue-out = ap (λ (w : WrrRq). w.queue) (queue-dequeue_task_wrr env s c p flags g.sys on_queue)

    elsewhere : (d : ℕ) → (c == d) ≡ false → queue_of out d ≡ queue_of s d
    unfolding dequeue_task_wrr
    elsewhere d ne = ground arith

    has-out : (d q : ℕ) → (p == q) ≡ false → has q (queue_of out d) ≡ has q (queue_of s d)
    has-out d q ne = elim (Bool-cases (c == d)) [
      | inl e ↦
          subst (λ x. has q (queue_of out x) ≡ has q (queue_of s x)) ((==_iff c d).0 e)
            (ap (has q) queue-out ∙ has-remove_ne p q (queue_of s c) ne)
      | inr e ↦ ap (has q) (elsewhere d e)
    ]

    off-out : (d : ℕ) → has p (queue_of out d) ≡ false
    off-out d = elim (Bool-cases (c == d)) [
      | inl e ↦
          subst (λ x. has p (queue_of out x) ≡ false) ((==_iff c d).0 e)
            (ap (has p) queue-out ∙ has-remove_self p (queue_of s c) (g.sys.queues c).no_dup)
      | inr e ↦ ap (has p) (elsewhere d e) ∙ g.placed d p ∙ ground (arith, at_c, e)
    ]

    pub dequeue_task_wrr-Off : Off env out p
    unfolding dequeue_task_wrr
    dequeue_task_wrr-Off =
        let u = update_curr_wrr s c in
        let f = update_curr_wrr-Frame s c in
        record {
          sys = dequeue_task_wrr-SysOk env s c p g.sys on_queue flags;
          off = off-out;
          others = λ d q ne. has-out d q ne ∙ g.placed d q ∙ sym (Frame-placed_at env s u f q d);
          classified = λ d q h.
              Frame-weights env s u f q
              ∙ g.classified d q (sym (has-out d q (ne_of_has d q h)) ∙ h)
              ∙ sym (Frame-group env s u f q);
        }
      where
        ne_of_has : (d q : ℕ) → has q (queue_of out d) ≡ true → (p == q) ≡ false
        ne_of_has d q h = ground (arith, h, off-out d)

  module _ (un : Off env s p) (wrr : (s.tasks p).sched_class ≡ SchedClass.wrr) where
    abbrev pub into : Sys
    into = enqueue_task_wrr env s c p flags

    queue-into :
        queue_of into c
        ≡ (if not (bit_and flags 2 == 0) then p ∷ queue_of s c else queue_of s c ++ (p ∷ []))
    queue-into =
        ap (λ (w : WrrRq). w.queue) (queue-enqueue_task_wrr env s c p flags (un.off c))
        ∙ ground arith

    elsewhere_into : (d : ℕ) → (c == d) ≡ false → queue_of into d ≡ queue_of s d
    unfolding enqueue_task_wrr
    elsewhere_into d ne = ground arith

    has-into : (d q : ℕ) → (p == q) ≡ false → has q (queue_of into d) ≡ has q (queue_of s d)
    has-into d q ne = elim (Bool-cases (c == d)) [
      | inl e ↦
          subst (λ x. has q (queue_of into x) ≡ has q (queue_of s x)) ((==_iff c d).0 e)
            (ap (has q) queue-into ∙ ground (arith, has-append q (queue_of s c) (p ∷ []), ne))
      | inr e ↦ ap (has q) (elsewhere_into d e)
    ]

    has-into_self : (d : ℕ) → has p (queue_of into d) ≡ (c == d)
    has-into_self d = elim (Bool-cases (c == d)) [
      | inl e ↦ rw e (
          subst (λ x. has p (queue_of into x) ≡ true) ((==_iff c d).0 e)
            (ap (has p) queue-into ∙ ground (arith, has-append p (queue_of s c) (p ∷ []))))
      | inr e ↦ rw e (ap (has p) (elsewhere_into d e) ∙ un.off d)
    ]

    seat-into : (q d : ℕ) → placed_at (into.tasks q) d ≡ placed_at (s.tasks q) d
    unfolding enqueue_task_wrr
    seat-into q d = ground arith

    group-into : (q : ℕ) → group_weight env into q ≡ group_weight env s q
    unfolding enqueue_task_wrr
    group-into q = ground arith

    weights-into : (q : ℕ) → (p == q) ≡ false → weights into q ≡ weights s q
    unfolding enqueue_task_wrr
    weights-into q ne = ground arith

    pub enqueue_task_wrr-Good : Good env into
    enqueue_task_wrr-Good = record {
      sys = enqueue_task_wrr-SysOk env s c p flags un.sys un.off;
      placed = λ d q. elim (Bool-cases (p == q)) [
        | inl e ↦
            subst (λ x. has x (queue_of into d) ≡ placed_at (into.tasks x) d) ((==_iff p q).0 e)
              (has-into_self d ∙ sym (seat-into p d ∙ ground (arith, runnable, wrr, at_c)))
        | inr e ↦ has-into d q e ∙ un.others d q e ∙ sym (seat-into q d)
      ];
      classified = λ d q h. elim (Bool-cases (p == q)) [
        | inl e ↦
            subst (λ x. weights into x ≡ group_weight env into x) ((==_iff p q).0 e)
              (weights-enqueue_task_wrr env s c p flags ∙ sym (group-into p))
        | inr e ↦
            weights-into q e ∙ un.classified d q (sym (has-into d q e) ∙ h) ∙ sym (group-into q)
      ];
    }

-- ===== src/Wrr/Lift.antt =====
-- From one queue to the whole system: a step on cpu `c` about task `p`.
use android_kernel_programmi.Base.{
  ℕ, ◌≡◌, true, false, has, arith, ◌==◌, Bool-cases, subst, inl, inr, sym, ◌∙◌, ==_iff, ap,
}
use android_kernel_programmi.Kernel.State.{Sys, WrrRq, weights, queue_of}
use android_kernel_programmi.Kernel.Env.{Frame}
use android_kernel_programmi.Wrr.Inv.{QueueOk, SysOk, frame-QueueOk}

-- What a step on `c` about `p` leaves alone.
pub record LocalStep (s t : Sys) (c p : ℕ) : Type 0 where
  pub elsewhere : (d : ℕ) → (c == d) ≡ false → (t.rqs d).wrr ≡ (s.rqs d).wrr
  pub same : (q : ℕ) → (p == q) ≡ false → weights s q ≡ weights t q
  pub away : (d : ℕ) → (c == d) ≡ false → has p (queue_of s d) ≡ false
  pub members : (q : ℕ) → (p == q) ≡ false → has q (queue_of t c) ≡ has q (queue_of s c)

module _ (s t : Sys) (c p : ℕ) (l : LocalStep s t c p) (ok : SysOk s) where
  LocalStep-members :
      (d q : ℕ) → (p == q) ≡ false → has q (queue_of t d) ≡ true → has q (queue_of s d) ≡ true
  LocalStep-members d q ne h = elim (Bool-cases (c == d)) [
    | inl e ↦
        let e' : c ≡ d = (==_iff c d).0 e in
        sym (subst (λ x. has q (queue_of t x) ≡ has q (queue_of s x)) e' (l.members q ne)) ∙ h
    | inr e ↦ sym (ap (λ (w : WrrRq). has q w.queue) (l.elsewhere d e)) ∙ h
  ]

  LocalStep-at_c : (d : ℕ) → has p (queue_of t d) ≡ true → c ≡ d
  LocalStep-at_c d h = elim (Bool-cases (c == d)) [
    | inl e ↦ (==_iff c d).0 e
    | inr e ↦ ground (arith, l.elsewhere d e, l.away d e)
  ]

  pub LocalStep-SysOk : QueueOk (weights t) (t.rqs c).wrr → SysOk t
  LocalStep-SysOk here = record {
    queues = λ d. elim (Bool-cases (c == d)) [
      | inl e ↦ subst (λ x. QueueOk (weights t) (t.rqs x).wrr) ((==_iff c d).0 e) here
      | inr e ↦
          subst (QueueOk (weights t)) (sym (l.elsewhere d e)) (
            frame-QueueOk (weights s) (weights t) (s.rqs d).wrr p l.same (l.away d e) (ok.queues d))
    ];
    apart = λ d e q hd he. elim (Bool-cases (p == q)) [
      | inl same ↦
          let same' : p ≡ q = (==_iff p q).0 same in
          sym (LocalStep-at_c d (subst (λ x. has x (queue_of t d) ≡ true) (sym same') hd))
          ∙ LocalStep-at_c e (subst (λ x. has x (queue_of t e) ≡ true) (sym same') he)
      | inr ne ↦ ok.apart d e q (LocalStep-members d q ne hd) (LocalStep-members e q ne he)
    ];
  }

-- A step that leaves the queues and the weights alone keeps the invariant.
pub quiet-SysOk :
    (s t : Sys)
    → ((c : ℕ) → (t.rqs c).wrr ≡ (s.rqs c).wrr)
    → ((p : ℕ) → weights s p ≡ weights t p)
    → SysOk s
    → SysOk t
quiet-SysOk s t rq_same w_same ok = record {
  queues = λ d.
      subst (QueueOk (weights t)) (sym (rq_same d))
        (subst (λ f. QueueOk f (s.rqs d).wrr) (λ i p. w_same p i) (ok.queues d));
  apart = λ d e q hd he.
      ok.apart d e q (sym (ap (λ (w : WrrRq). has q w.queue) (rq_same d)) ∙ hd)
        (sym (ap (λ (w : WrrRq). has q w.queue) (rq_same e)) ∙ he);
}

pub Frame-SysOk : (s t : Sys) → Frame s t → SysOk s → SysOk t
Frame-SysOk s t f ok = quiet-SysOk s t f.rq_wrr (λ p. sym (ap (λ e. e.weight) (f.task_wrr p))) ok

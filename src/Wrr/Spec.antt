-- ===== src/Wrr/Spec.antt =====
-- The abstract scheduler that a wrr queue implements: tasks with the ticks left of their slices, in
-- turn order. A tick serves the first task; one whose slice is used up goes to the end, refilled.
use android_kernel_programmi.Base.{
  ℕ, zero, suc, ◌≡◌, ◌<◌, ◌-◌, ◌+◌, refl, sym, ◌∙◌, ap, List, [], ◌∷◌, ◌++◌, arith, ◌==◌,
  if◌then◌else◌, All,
}
use mathlib.Core.List.{append_assoc, append-nil}

abbrev pub Turns : Type 0
Turns = List (ℕ × ℕ)

-- The turns after a round: the same tasks in the same order, all with full slices.
abbrev pub refreshed : (ℕ → ℕ) → Turns → Turns
refreshed full [] = []
refreshed full ((p, n) ∷ q) = (p, full p) ∷ refreshed full q

abbrev pub total_slices : Turns → ℕ
total_slices [] = 0
total_slices ((p, n) ∷ q) = n + total_slices q

abbrev pub repeat_for : ℕ → ℕ → List ℕ → List ℕ
repeat_for p zero rest = rest
repeat_for p (suc n) rest = p ∷ repeat_for p n rest

-- Who runs in a round, tick by tick: each task for its slice, in order.
abbrev pub shares : Turns → List ℕ
shares [] = []
shares ((p, n) ∷ q) = repeat_for p n (shares q)

abbrev pub AllOpen : Turns → Type 0
AllOpen = All (λ t. 0 < t.1)

module _ (full : ℕ → ℕ) where
  unfoldable pub tick : Turns → Turns
  tick [] = []
  tick ((p, n) ∷ q) = if n == 1 then q ++ ((p, full p) ∷ []) else (p, n - 1) ∷ q

  unfoldable pub ticks : ℕ → Turns → Turns
  ticks zero q = q
  ticks (suc k) q = ticks k (tick q)

  abbrev pub served : Turns → List ℕ
  served [] = []
  served ((p, n) ∷ q) = p ∷ []

  unfoldable pub trace : ℕ → Turns → List ℕ
  trace zero q = []
  trace (suc k) q = served q ++ trace k (tick q)

  tick_last : (p : ℕ) (q : Turns) → tick ((p, 1) ∷ q) ≡ q ++ ((p, full p) ∷ [])
  unfolding tick
  tick_last p q = refl

  tick_more : (n p : ℕ) (q : Turns) → tick ((p, suc (suc n)) ∷ q) ≡ (p, suc n) ∷ q
  unfolding tick
  tick_more n p q = ground arith

  ticks-slice :
      (n k p : ℕ) (q : Turns)
      → ticks (suc n + k) ((p, suc n) ∷ q) ≡ ticks k (q ++ ((p, full p) ∷ []))
  unfolding ticks
  ticks-slice zero k p q =
      let e : 1 + k ≡ suc k = omega arith in rw e (ap (ticks k) (tick_last p q))
  ticks-slice (suc n) k p q =
      let e : suc (suc n) + k ≡ suc (suc n + k) = omega arith in
      rw e (ap (ticks (suc n + k)) (tick_more n p q) ∙ ticks-slice n k p q)

  trace-slice :
      (n k p : ℕ) (q : Turns)
      → trace (suc n + k) ((p, suc n) ∷ q)
        ≡ repeat_for p (suc n) (trace k (q ++ ((p, full p) ∷ [])))
  unfolding trace
  trace-slice zero k p q =
      let e : 1 + k ≡ suc k = omega arith in rw e (ap (λ t. p ∷ trace k t) (tick_last p q))
  trace-slice (suc n) k p q =
      let e : suc (suc n) + k ≡ suc (suc n + k) = omega arith in
      rw e (
        ap (λ t. p ∷ trace (suc n + k) t) (tick_more n p q) ∙ ap (λ l. p ∷ l) (trace-slice n k p q))

  -- The tasks of `q` run out their slices and line up behind `r`.
  pub ticks-shares :
      (q r : Turns) → AllOpen q → ticks (total_slices q) (q ++ r) ≡ r ++ refreshed full q
  unfolding ticks
  ticks-shares [] r h = sym (append-nil r)
  ticks-shares ((p, zero) ∷ q) r h = absurd (omega (arith, h.0))
  ticks-shares ((p, suc n) ∷ q) r h =
      ticks-slice n (total_slices q) p (q ++ r)
      ∙ ap (ticks (total_slices q)) (append_assoc q r ((p, full p) ∷ []))
      ∙ ticks-shares q (r ++ ((p, full p) ∷ [])) h.1
      ∙ append_assoc r ((p, full p) ∷ []) (refreshed full q)

  -- Meanwhile each of them runs for its slice, in order.
  pub trace-shares : (q r : Turns) → AllOpen q → trace (total_slices q) (q ++ r) ≡ shares q
  unfolding trace
  trace-shares [] r h = refl
  trace-shares ((p, zero) ∷ q) r h = absurd (omega (arith, h.0))
  trace-shares ((p, suc n) ∷ q) r h =
      trace-slice n (total_slices q) p (q ++ r)
      ∙ ap (λ t. repeat_for p (suc n) (trace (total_slices q) t))
          (append_assoc q r ((p, full p) ∷ []))
      ∙ ap (repeat_for p (suc n)) (trace-shares q (r ++ ((p, full p) ∷ [])) h.1)

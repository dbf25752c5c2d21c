-- ===== src/Rt/Reclaim.antt =====
-- The reclaim of `__disable_runtime`: what is taken back, and that nothing is left wanting.
use android_kernel_programmi.Base.{
  ℕ, ◌+◌, ◌-◌, ◌^◌, ◌≡◌, ◌<◌, ◌≤◌, refl, sym, subst, ◌∙◌, Bool, true, false, not, ◌||◌, List, [],
  ◌∷◌, sub64, ltb, ◌==◌, if◌then◌else◌, sum_of, sum_of_ext, sum_of_change, sum_of_frame,
  sum_of-remove, has, NoDup, All, Bool-cases, inl, inr, arith,
}
use android_kernel_programmi.Rt.Balance.{
  RtBandwidth, RtShare, runtime_inf, put_runtime, reclaim, reclaim_loop,
}
use android_kernel_programmi.Rt.Lending.{takes_part, runtime_of, due_of, Fair}

-- The other cpus than `c` that take part.
abbrev pub is_other : ℕ → (ℕ → RtShare) → ℕ → Bool
is_other c s i = not (i == c || (s i).rt_runtime == runtime_inf)

abbrev pub rest_of : ℕ → (ℕ → RtShare) → ℕ → ℕ
rest_of c s i = if is_other c s i then (s i).rt_runtime else 0

abbrev pub rest_due : RtBandwidth → ℕ → (ℕ → RtShare) → ℕ → ℕ
rest_due b c s i = if is_other c s i then b.rt_runtime else 0

module _ (b : RtBandwidth) (c : ℕ) (span : List ℕ) where
  -- From `s` to `t` the others together give up `w` and gain `g`, and stay what they are.
  pub record Reclaimed (s t : ℕ → RtShare) (w g : ℕ) : Type 0 where
    pub rests : sum_of (rest_of c t) span + w ≡ sum_of (rest_of c s) span + g
    pub dues : sum_of (rest_due b c t) span ≡ sum_of (rest_due b c s) span
    pub times : (i : ℕ) → (t i).rt_time ≡ (s i).rt_time

  -- One of the others gets a new runtime.
  put-Reclaimed :
      (s : ℕ → RtShare) (i v w g : ℕ)
      → NoDup span
      → has i span ≡ true
      → is_other c s i ≡ true
      → v < 2 ^ 63
      → v + w ≡ (s i).rt_runtime + g
      → Reclaimed s (put_runtime s i v) w g
  put-Reclaimed s i v w g d hi o hv e =
      let t = put_runtime s i v in
      let o' : is_other c t i ≡ true = ground arith in
      let here : rest_of c s i ≡ (s i).rt_runtime = rw o refl in
      let there : rest_of c t i ≡ v = ground arith in
      let due : rest_due b c s i ≡ b.rt_runtime = rw o refl in
      let due' : rest_due b c t i ≡ b.rt_runtime = rw o' refl in
      let sums = sum_of_change (rest_of c s) (rest_of c t) i span (λ x n. ground arith) d hi in
      let dues =
        sum_of_change (rest_due b c s) (rest_due b c t) i span (λ x n. ground arith) d hi in
      record {
        rests = omega (arith, sums, here, there, e);
        dues = omega (arith, dues, due, due');
        times = λ x. ground arith;
      }

  then-Reclaimed :
      (s t u : ℕ → RtShare) (w v : ℕ)
      → Reclaimed s t w 0
      → Reclaimed t u v 0
      → Reclaimed s u (w + v) 0
  then-Reclaimed s t u w v p q = record {
    rests = omega (arith, p.rests, q.rests);
    dues = q.dues ∙ p.dues;
    times = λ i. q.times i ∙ p.times i;
  }

pair_eq : {x u : ℕ} {p : ℕ × ℕ} → p.0 ≡ x → p.1 ≡ u → p ≡ (x, u)
pair_eq a b = λ i. (a i, b i)

reclaim_enough : (r w : ℕ) → r < 2 ^ 63 → 0 < w → w ≤ r → reclaim r w ≡ (r - w, 0)
unfolding reclaim
reclaim_enough r w hr h0 h = pair_eq (ground arith) (ground arith)

reclaim_all : (r w : ℕ) → w < 2 ^ 63 → r < w → reclaim r w ≡ (0, w - r)
unfolding reclaim
reclaim_all r w hw h = pair_eq (ground arith) (ground arith)

reclaim_back : (r n : ℕ) → r + n < 2 ^ 63 → 0 < n → reclaim r (sub64 0 n) ≡ (r + n, 0)
unfolding reclaim
reclaim_back r n h h0 = pair_eq (ground arith) (ground arith)

module _ (b : RtBandwidth) (c : ℕ) (span : List ℕ) (d : NoDup span) where
  -- What a round makes of the new runtime of `i` and the want that is left.
  after_round : List ℕ → (ℕ → RtShare) → ℕ → ℕ × ℕ → (ℕ → RtShare) × ℕ
  after_round is s i (runtime, want) = elim (want == 0) [
    | true ↦ (put_runtime s i runtime, want)
    | false ↦ reclaim_loop c is (put_runtime s i runtime) want
  ]

  abbrev pub Serves : ℕ → (ℕ → RtShare) → (ℕ → RtShare) × ℕ → Type 0
  Serves w s (t, want) = (want ≡ 0) × Reclaimed b c span s t w 0

  -- A positive want that the cpus of `is` can serve is served.
  pub reclaim_loop-Serves :
      (is : List ℕ) (s : ℕ → RtShare) (w : ℕ)
      → NoDup is
      → All (λ i. has i span ≡ true) is
      → sum_of (rest_of c s) span < 2 ^ 63
      → 0 < w
      → w < 2 ^ 63
      → w ≤ sum_of (rest_of c s) is
      → Serves w s (reclaim_loop c is s w)
  unfolding reclaim_loop after_round
  reclaim_loop-Serves [] s w n a small h0 h1 h = absurd (omega arith)
  reclaim_loop-Serves (i ∷ is) s w n a small h0 h1 h =
      elim (Bool-cases (i == c || (s i).rt_runtime == runtime_inf)) [
        | inl e ↦
            let skipped : rest_of c s i ≡ 0 = rw e refl in
            let ih = reclaim_loop-Serves is s w n.1 a.1 small h0 h1 (omega (arith, h, skipped)) in
            rw (Serves, reclaim_loop, e) ih
        | inr e ↦
            let o : is_other c s i ≡ true = rw e refl in
            let here : rest_of c s i ≡ (s i).rt_runtime = rw e refl in
            let all = sum_of-remove (rest_of c s) i span a.0 in
            let r = (s i).rt_runtime in
            let hr : r < 2 ^ 63 = omega (arith, here, all, small) in
            elim (Bool-cases (ltb r w)) [
              | inr q ↦
                  let g = reclaim_enough r w hr h0 (ground arith) in
                  rw (reclaim_loop, e)
                    (subst (λ p. Serves w s (after_round is s i p)) (sym g)
                      (
                        refl,
                        put-Reclaimed b c span s i (r - w) w 0 d a.0 o (omega arith) (ground arith),
                      ))
              | inl q ↦
                  let lt : r < w = ground arith in
                  let g = reclaim_all r w h1 lt in
                  let t = put_runtime s i 0 in
                  let p = put-Reclaimed b c span s i 0 r 0 d a.0 o (omega arith) (omega arith) in
                  let left : (w - r == 0) ≡ false = ground arith in
                  let later : sum_of (rest_of c s) is ≡ sum_of (rest_of c t) is =
                    sum_of_frame _ _ i is (λ x m. ground arith) n.0 in
                  let ih =
                    reclaim_loop-Serves is t (w - r) n.1 a.1 (omega (arith, p.rests, small))
                      (omega arith) (omega arith) (omega (arith, h, here, later)) in
                  rw (reclaim_loop, e)
                    (subst (λ p. Serves w s (after_round is s i p)) (sym g)
                      (rw (after_round, left)
                        (
                          ih.0,
                          subst (λ x. Reclaimed b c span s (reclaim_loop c is t (w - r)).0 x 0)
                              (omega arith) (then-Reclaimed b c span s t _ r (w - r) p ih.1),
                        )))
            ]
      ]

  abbrev pub Returns : ℕ → (ℕ → RtShare) → (ℕ → RtShare) × ℕ → Type 0
  Returns n s (t, want) = (want ≡ 0) × Reclaimed b c span s t 0 n

  -- What `c` has too much goes to the first of the others.
  pub reclaim_loop-Returns :
      (is : List ℕ) (s : ℕ → RtShare) (n : ℕ)
      → All (λ i. has i span ≡ true) is
      → sum_of (rest_of c s) span + n < 2 ^ 63
      → 0 < n
      → 0 < sum_of (rest_due b c s) is
      → Returns n s (reclaim_loop c is s (sub64 0 n))
  unfolding reclaim_loop after_round
  reclaim_loop-Returns [] s n a small h0 h = absurd (omega arith)
  reclaim_loop-Returns (i ∷ is) s n a small h0 h =
      elim (Bool-cases (i == c || (s i).rt_runtime == runtime_inf)) [
        | inl e ↦
            let skipped : rest_due b c s i ≡ 0 = rw e refl in
            let ih = reclaim_loop-Returns is s n a.1 small h0 (omega (arith, h, skipped)) in
            rw (Returns, reclaim_loop, e) ih
        | inr e ↦
            let o : is_other c s i ≡ true = rw e refl in
            let here : rest_of c s i ≡ (s i).rt_runtime = rw e refl in
            let all = sum_of-remove (rest_of c s) i span a.0 in
            let r = (s i).rt_runtime in
            let hr : r + n < 2 ^ 63 = omega (arith, here, all, small) in
            rw (reclaim_loop, e)
              (subst (λ p. Returns n s (after_round is s i p)) (sym (reclaim_back r n hr h0))
                (refl, put-Reclaimed b c span s i (r + n) 0 n d a.0 o hr (omega arith)))
      ]

-- The state of a cpu that is taken out, where the others have what they are due.
pub disabled-Fair :
    (b : RtBandwidth) (c : ℕ) (span : List ℕ) (s : ℕ → RtShare)
    → sum_of (rest_of c s) span ≡ sum_of (rest_due b c s) span
    → sum_of (rest_due b c s) span < 2 ^ 63
    → ((i : ℕ) → (s i).rt_time < 2 ^ 63)
    → Fair b span (put_runtime s c runtime_inf)
      × (takes_part (put_runtime s c runtime_inf) c ≡ false)
disabled-Fair b c span s e h times =
    let t = put_runtime s c runtime_inf in
    let runs : sum_of (runtime_of t) span ≡ sum_of (rest_of c s) span =
      sum_of_ext _ _ span (λ x. ground arith) in
    let dues : sum_of (due_of b t) span ≡ sum_of (rest_due b c s) span =
      sum_of_ext _ _ span (λ x. ground arith) in
    (
      record {
        shared = runs ∙ (e ∙ sym dues);
        small = rw dues h;
        times = λ i. ground (arith, times i);
      },
      ground arith,
    )

-- The runtime of `c` and of the others add up.
pub own_and_rest :
    (c : ℕ) (span : List ℕ) (s : ℕ → RtShare)
    → NoDup span
    → has c span ≡ true
    → sum_of (runtime_of s) span ≡ runtime_of s c + sum_of (rest_of c s) span
own_and_rest c span s d h =
    let out : rest_of c s c ≡ 0 = ground arith in
    omega (arith, sum_of_change (runtime_of s) (rest_of c s) c span (λ x n. ground arith) d h, out)

pub own_and_rest_due :
    (b : RtBandwidth) (c : ℕ) (span : List ℕ) (s : ℕ → RtShare)
    → NoDup span
    → has c span ≡ true
    → sum_of (due_of b s) span ≡ due_of b s c + sum_of (rest_due b c s) span
own_and_rest_due b c span s d h =
    let out : rest_due b c s c ≡ 0 = ground arith in
    omega (arith, sum_of_change (due_of b s) (rest_due b c s) c span (λ x n. ground arith) d h, out)

-- ===== src/Rt/Lending.antt =====
-- What lending and reclaiming of real-time bandwidth keep: the sum over the cpus that take part.
use android_kernel_programmi.Base.{
  ℕ, ◌+◌, ◌/◌, ◌^◌, ◌≡◌, ◌<◌, ◌≤◌, refl, sym, ◌∙◌, Bool, true, false, not, ◌&&◌, ◌||◌, List, [],
  ◌∷◌, add64, sub64, ltb, ◌==◌, if◌then◌else◌, length, sum_of, sum_of_exchange, sum_of_two, has,
  NoDup, All, All-has, Bool-cases, inl, inr, arith,
}
use native.Mathlib.Nat.{div-le_self}
use android_kernel_programmi.Rt.Balance.{
  RtBandwidth, RtShare, runtime_inf, positive64, take_from, borrow_from, borrow_loop,
  do_balance_runtime,
}

-- A cpu takes part while its runtime is not the mark of a disabled one.
abbrev pub takes_part : (ℕ → RtShare) → ℕ → Bool
takes_part s i = not ((s i).rt_runtime == runtime_inf)

abbrev pub runtime_of : (ℕ → RtShare) → ℕ → ℕ
runtime_of s i = if takes_part s i then (s i).rt_runtime else 0

abbrev pub due_of : RtBandwidth → (ℕ → RtShare) → ℕ → ℕ
due_of b s i = if takes_part s i then b.rt_runtime else 0

-- The cpus that take part have the group's runtime each, before they lend it.
pub record Fair (b : RtBandwidth) (span : List ℕ) (s : ℕ → RtShare) : Type 0 where
  pub shared : sum_of (runtime_of s) span ≡ sum_of (due_of b s) span
  pub small : sum_of (due_of b s) span < 2 ^ 63
  pub times : (i : ℕ) → (s i).rt_time < 2 ^ 63

-- The numbers of one loan: what `c` and `i` have is only moved.
loan :
    (own runtime part : ℕ)
    → own + runtime < 2 ^ 63
    → part ≤ runtime
    → (add64 own part + sub64 runtime part ≡ own + runtime)
      × (add64 own part < 2 ^ 63)
      × (sub64 runtime part < 2 ^ 63)
loan own runtime part h l = omega arith

-- The same where `own` is above the period, and gives what is too much.
surplus :
    (own runtime period : ℕ)
    → own + runtime < 2 ^ 63
    → period < own
    → let part = sub64 period own in
      (add64 own part + sub64 runtime part ≡ own + runtime)
      × (add64 own part < 2 ^ 63)
      × (sub64 runtime part < 2 ^ 63)
surplus own runtime period h l = omega arith

loan_part :
    (own runtime period lent : ℕ)
    → period < 2 ^ 63
    → own + runtime < 2 ^ 63
    → lent ≤ runtime
    → let part = if ltb period (add64 own lent) then sub64 period own else lent in
      (add64 own part + sub64 runtime part ≡ own + runtime)
      × (add64 own part < 2 ^ 63)
      × (sub64 runtime part < 2 ^ 63)
loan_part own runtime period lent hp h l = elim (Bool-cases (ltb period (add64 own lent))) [
  | inl q ↦ rw q (elim (Bool-cases (ltb period own)) [
    | inl p ↦ surplus own runtime period h (ground arith)
    | inr p ↦
        let least : sub64 period own ≤ runtime = ground arith in
        loan own runtime (sub64 period own) h least
  ])
  | inr q ↦ rw q (loan own runtime lent h l)
]

-- From `s` to `t`, runtime only moves between `c` and `i`, and stays below 2^63 there.
record Moved (s t : ℕ → RtShare) (c i : ℕ) : Type 0 where
  pub sum : (t c).rt_runtime + (t i).rt_runtime ≡ (s c).rt_runtime + (s i).rt_runtime
  pub at_c : (t c).rt_runtime < 2 ^ 63
  pub at_i : (t i).rt_runtime < 2 ^ 63
  pub off : (x : ℕ) → (c == x) ≡ false → (i == x) ≡ false → (t x).rt_runtime ≡ (s x).rt_runtime
  pub times : (x : ℕ) → (t x).rt_time ≡ (s x).rt_time

take_from-Moved :
    (s : ℕ → RtShare) (c i part : ℕ)
    → (c == i) ≡ false
    → (let own = (s c).rt_runtime in
        let runtime = (s i).rt_runtime in
        (add64 own part + sub64 runtime part ≡ own + runtime)
        × (add64 own part < 2 ^ 63)
        × (sub64 runtime part < 2 ^ 63))
    → Moved s (take_from s c i part) c i
take_from-Moved s c i part n m =
    let flip : (i == c) ≡ false = ground arith in
    record {
      sum = ground arith;
      at_c = ground arith;
      at_i = ground arith;
      off = λ x p q. ground arith;
      times = λ x. ground arith;
    }

taking : (s : ℕ → RtShare) (x : ℕ) → (s x).rt_runtime < 2 ^ 63 → takes_part s x ≡ true
taking s x h = ground arith

module _ (b : RtBandwidth) (span : List ℕ) (d : NoDup span) (c : ℕ) (hc : has c span ≡ true) where
  -- Runtime that only moves between two cpus that take part.
  Moved-Fair :
      (s t : ℕ → RtShare) (i : ℕ)
      → (c == i) ≡ false
      → has i span ≡ true
      → takes_part s c ≡ true
      → takes_part s i ≡ true
      → Moved s t c i
      → Fair b span s
      → Fair b span t
  Moved-Fair s t i n hi tc ti m f =
      let uc = taking t c m.at_c in
      let ui = taking t i m.at_i in
      let same : sum_of (due_of b s) span ≡ sum_of (due_of b t) span =
        sum_of_exchange (due_of b s) (due_of b t) c i span n d hc hi
          (λ x p q. rw (m.off x p q) refl) (rw (tc, ti, uc, ui) refl) in
      let moved : sum_of (runtime_of s) span ≡ sum_of (runtime_of t) span =
        sum_of_exchange (runtime_of s) (runtime_of t) c i span n d hc hi
          (λ x p q. rw (m.off x p q) refl) (rw (tc, ti, uc, ui) (sym m.sum)) in
      record {
        shared = sym moved ∙ (f.shared ∙ same);
        small = rw (← same) f.small;
        times = λ x. rw (m.times x) (f.times x);
      }

  -- Two cpus that take part have less than 2^63 together.
  pair_small :
      (s : ℕ → RtShare) (i : ℕ)
      → (c == i) ≡ false
      → has i span ≡ true
      → takes_part s c ≡ true
      → takes_part s i ≡ true
      → Fair b span s
      → (s c).rt_runtime + (s i).rt_runtime < 2 ^ 63
  pair_small s i n hi tc ti f =
      let two = sum_of_two (runtime_of s) c i span n hc hi in
      let own : runtime_of s c ≡ (s c).rt_runtime = rw tc refl in
      let other : runtime_of s i ≡ (s i).rt_runtime = rw ti refl in
      omega (arith, two, own, other, f.shared, f.small)

  abbrev Kept : (ℕ → RtShare) → Type 0
  Kept s = Fair b span s × (takes_part s c ≡ true)

  Moved-Kept :
      (s t : ℕ → RtShare) (i : ℕ)
      → (c == i) ≡ false
      → has i span ≡ true
      → takes_part s i ≡ true
      → Moved s t c i
      → Kept s
      → Kept t
  Moved-Kept s t i n hi ti m k = (Moved-Fair s t i n hi k.1 ti m k.0, taking t c m.at_c)

  borrow_from-Kept :
      (weight i : ℕ) (s : ℕ → RtShare)
      → b.rt_period < 2 ^ 63
      → has i span ≡ true
      → Kept s
      → Kept (borrow_from b weight c s i).0
  unfolding borrow_from
  borrow_from-Kept weight i s hp hi k =
      elim (Bool-cases (i == c || (s i).rt_runtime == runtime_inf)) [
        | inl e ↦ rw (borrow_from, e) k
        | inr e ↦
            let n : (c == i) ≡ false = ground arith in
            let ti : takes_part s i ≡ true = ground arith in
            let small = pair_small s i n hi k.1 ti k.0 in
            let own = (s c).rt_runtime in
            let runtime = (s i).rt_runtime in
            let diff = sub64 runtime (s i).rt_time in
            let lent = diff / weight in
            elim (Bool-cases (positive64 diff)) [
              | inl p ↦
                  let some_left : diff ≤ runtime = ground (arith, k.0.times i) in
                  let least : lent ≤ runtime = omega (arith, div-le_self diff weight) in
                  rw (borrow_from, e, p)
                    (Moved-Kept s _ i n hi ti
                      (take_from-Moved s c i _ n
                        (loan_part own runtime b.rt_period lent hp small least))
                      k)
              | inr p ↦ rw (borrow_from, e, p) k
            ]
      ]

  borrow_loop-Kept :
      (weight : ℕ) (is : List ℕ) (s : ℕ → RtShare) (more : Bool)
      → b.rt_period < 2 ^ 63
      → All (λ i. has i span ≡ true) is
      → Kept s
      → Kept (borrow_loop b weight c is s more).0
  unfolding borrow_loop
  borrow_loop-Kept weight [] s more hp a k = k
  borrow_loop-Kept weight (i ∷ is) s more hp a k =
      let t = (borrow_from b weight c s i).0 in
      let took = (borrow_from b weight c s i).1 in
      let kt = borrow_from-Kept weight i s hp a.0 k in
      elim (Bool-cases (took && (t c).rt_runtime == b.rt_period)) [
        | inl e ↦ rw (borrow_loop, e) kt
        | inr e ↦ rw (borrow_loop, e) (borrow_loop-Kept weight is t (more || took) hp a.1 kt)
      ]

  -- Borrowing keeps the sum of the runtimes: for a group whose period is below 2^63 and a cpu of the
  -- domain that takes part, after `do_balance_runtime` the cpus that take part have together what
  -- they are due again, and the cpu still takes part.
  pub do_balance_runtime-Fair :
      (s : ℕ → RtShare)
      → b.rt_period < 2 ^ 63
      → takes_part s c ≡ true
      → Fair b span s
      → let t = (do_balance_runtime b span s c).0 in Fair b span t × (takes_part t c ≡ true)
  unfolding do_balance_runtime
  do_balance_runtime-Fair s hp tc f =
      borrow_loop-Kept (length span) span s false hp (All-has span) (f, tc)

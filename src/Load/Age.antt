-- ===== src/Load/Age.antt =====
-- The real-time average of a cpu, `sched_avg_update` of Project2/goldfish/kernel/sched/core.c.
use native.Mathlib.Nat.{le-div_iff_mul-le, div-mul-le_self, lt-div-mul-add, div-div-eq-div-mul}
use android_kernel_programmi.Load.Power.{pow2-suc}
use android_kernel_programmi.Base.{
  ℕ, zero, suc, ◌+◌, ◌-◌, ◌*◌, ◌/◌, ◌%◌, ◌^◌, ◌<◌, ◌≤◌, ◌≡◌, Bool, true, false, not, ◌&&◌, Option,
  none, some, ltb, arith, add64, sub64, neg64,
}

-- `age_stamp` and `rt_avg` of `struct rq`.
pub record Aged : Type 0 where
  pub age_stamp : ℕ
  pub rt_avg : ℕ

-- `(s64)(rq->clock - rq->age_stamp) > period`, for a period that is not negative.
unfoldable pub is_over : ℕ → ℕ → ℕ → Bool
is_over period clock age_stamp =
    let age = sub64 clock age_stamp in not (neg64 age) && ltb period age

-- The loop, on fuel.
unfoldable pub age_loop : ℕ → ℕ → ℕ → Aged → Option Aged
unfolding is_over
age_loop zero period clock a = none
age_loop (suc fuel) period clock a = elim (is_over period clock a.age_stamp) [
  | true ↦
      age_loop fuel period clock
        (record { age_stamp = add64 a.age_stamp period; rt_avg = a.rt_avg / 2 })
  | false ↦ some a
]

-- Each round takes a period off the age.
unfoldable pub sched_avg_update : ℕ → ℕ → Aged → Option Aged
unfolding age_loop
sched_avg_update period clock a = age_loop (sub64 clock a.age_stamp / period + 1) period clock a

-- After `n` whole periods.
abbrev pub after_periods : ℕ → ℕ → Aged → Aged
after_periods n period a = record {
  age_stamp = (a.age_stamp + n * period) % 2 ^ 64;
  rt_avg = a.rt_avg / 2 ^ n;
}

some_aged : {a b : Aged} → a.age_stamp ≡ b.age_stamp → a.rt_avg ≡ b.rt_avg → some a ≡ some b
some_aged p q = λ i. some (record { age_stamp = p i; rt_avg = q i })

age_loop_lem :
    (n k period clock : ℕ) (a : Aged)
    → 0 < period
    → a.age_stamp < 2 ^ 64
    → sub64 clock a.age_stamp < 2 ^ 63
    → n * period < sub64 clock a.age_stamp
    → sub64 clock a.age_stamp ≤ n * period + period
    → n < k
    → age_loop k period clock a ≡ some (after_periods n period a)
unfolding age_loop
age_loop_lem n zero period clock a h0 ha hs h1 h2 hk = absurd (omega arith)
age_loop_lem zero (suc k) period clock a h0 ha hs h1 h2 hk =
    let no : is_over period clock a.age_stamp ≡ false = ground arith in
    rw (age_loop, no) (some_aged (omega arith) (omega arith))
age_loop_lem (suc n) (suc k) period clock a h0 ha hs h1 h2 hk =
    let yes : is_over period clock a.age_stamp ≡ true = ground arith in
    let b : Aged = record { age_stamp = add64 a.age_stamp period; rt_avg = a.rt_avg / 2 } in
    let left : sub64 clock b.age_stamp + period ≡ sub64 clock a.age_stamp = omega arith in
    rw
      (
        age_loop,
        yes,
        age_loop_lem n k period clock b h0 (omega arith) (omega arith) (omega arith) (omega arith)
            (omega arith),
      )
      (some_aged (omega arith) (rw (pow2-suc n) (div-div-eq-div-mul a.rt_avg 2 (2 ^ n))))

-- Where the stamp is behind the clock, by less than 2^63 ns, the loop of `sched_avg_update` ends, and
-- it does what the division would: with n = (age - 1) / period, the stamp moves by n periods and the
-- average is divided by 2^n. The period is not 0.
pub sched_avg_update_lem :
    (period clock : ℕ) (a : Aged)
    → 0 < period
    → a.age_stamp < 2 ^ 64
    → 0 < sub64 clock a.age_stamp
    → sub64 clock a.age_stamp < 2 ^ 63
    → sched_avg_update period clock a
      ≡ some (after_periods ((sub64 clock a.age_stamp - 1) / period) period a)
unfolding sched_avg_update
sched_avg_update_lem period clock a h0 ha h1 h2 =
    let d = sub64 clock a.age_stamp in
    let n = (d - 1) / period in
    age_loop_lem n (d / period + 1) period clock a h0 ha h2
      (omega (arith, div-mul-le_self (d - 1) period)) (omega (arith, lt-div-mul-add {a = d - 1} h0))
      (omega (
        arith,
        (le-div_iff_mul-le {x = n} {y = d} h0).1 (omega (arith, div-mul-le_self (d - 1) period)),
      ))

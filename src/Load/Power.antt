-- ===== src/Load/Power.antt =====
-- Fixed-point arithmetic of the load averages: `fixed_power_int` and `calc_load`.
use native.Mathlib.Nat.{mul-le-mul, mul-le-mul_right}
use android_kernel_programmi.Base.{
  ℕ, zero, suc, ◌+◌, ◌-◌, ◌*◌, ◌/◌, ◌%◌, ◌^◌, ◌≤◌, ◌<◌, ◌↔◌, Bool-cases, inl, inr, ◌≡◌, refl, true,
  false, Option, none, some, add32, sub32, mul32, ◌==◌, if◌then◌else◌, arith,
}

abbrev pub fshift : ℕ
fshift = 11

abbrev pub fixed_1 : ℕ
fixed_1 = 2048

-- `a *= b; a += 1UL << (frac_bits - 1); a >>= frac_bits`
unfoldable pub fixed_mul : ℕ → ℕ → ℕ → ℕ
fixed_mul frac_bits a b = add32 (mul32 a b) (2 ^ (frac_bits - 1)) / 2 ^ frac_bits

-- The loop, on fuel: a round per unit.
unfoldable pub power_loop : ℕ → ℕ → ℕ → ℕ → ℕ → Option ℕ
power_loop zero frac_bits result x n = none
power_loop (suc fuel) frac_bits result x n =
    let result = if n % 2 == 1 then fixed_mul frac_bits result x else result in
    elim (n / 2 == 0) [
      | true ↦ some result
      | false ↦ power_loop fuel frac_bits result (fixed_mul frac_bits x x) (n / 2)
    ]

-- `n` is an `unsigned int`, so 32 rounds are enough.
unfoldable pub fixed_power_int : ℕ → ℕ → ℕ → Option ℕ
fixed_power_int x frac_bits n = elim (n == 0) [
  | true ↦ some (2 ^ frac_bits)
  | false ↦ power_loop 32 frac_bits (2 ^ frac_bits) x n
]

unfoldable pub calc_load : ℕ → ℕ → ℕ → ℕ
calc_load load exp active =
    let load = mul32 load exp in
    let load = add32 load (mul32 active (sub32 fixed_1 exp)) in
    add32 load (2 ^ (fshift - 1)) / 2 ^ fshift

unfoldable pub calc_load_n : ℕ → ℕ → ℕ → ℕ → Option ℕ
calc_load_n load exp active n = elim (fixed_power_int exp fshift n) [
  | none ↦ none
  | some e ↦ some (calc_load load e active)
]

-- Whether the run of a loop gave a result.
abbrev pub Ends : Option ℕ → Type 0
Ends none = ⊥
Ends (some m) = Unit

pub pow2-suc : (k : ℕ) → 2 ^ suc k ≡ 2 * 2 ^ k
pow2-suc k = omega arith

pow2_pos : (k : ℕ) → 0 < 2 ^ k
pow2_pos zero = omega arith
pow2_pos (suc k) = omega (arith, pow2-suc k, pow2_pos k)

-- With n not 0, the loop of `fixed_power_int` ends within k rounds exactly when n is below 2^k,
-- whatever the other numbers are.
pub power_loop-rounds : (k f r x n : ℕ) → 0 < n → Ends (power_loop k f r x n) ↔ (n < 2 ^ k)
unfolding power_loop
power_loop-rounds zero f r x n h = ground arith
power_loop-rounds (suc k) f r x n h = elim (Bool-cases (n / 2 == 0)) [
  | inl e ↦ rw (Ends, e) (ground (arith, pow2-suc k, pow2_pos k))
  | inr e ↦
      rw (Ends, e)
        (let ih = power_loop-rounds k f _ _ (n / 2) (ground arith) in
          (λ p. ground (arith, pow2-suc k, ih.0 p), λ p. ih.1 (ground (arith, pow2-suc k))))
]

-- The product of two fractions is a fraction, and no word wraps round.
pub fixed_mul_le : (a b : ℕ) → a ≤ fixed_1 → b ≤ fixed_1 → fixed_mul fshift a b ≤ fixed_1
unfolding fixed_mul
fixed_mul_le a b ha hb = omega (arith, mul-le-mul ha hb)

-- A round-by-round bound: from fractions the loop gives a fraction.
power_loop_le :
    (k r x n m : ℕ) → r ≤ fixed_1 → x ≤ fixed_1 → power_loop k fshift r x n ≡ some m → m ≤ fixed_1
unfolding power_loop
power_loop_le zero r x n m hr hx e = ground arith
power_loop_le (suc k) r x n m hr hx e = ground (
  arith,
  fixed_mul_le r x hr hx,
  power_loop_le k (if n % 2 == 1 then fixed_mul fshift r x else r) (fixed_mul fshift x x) (n / 2) m,
  fixed_mul_le x x hx hx,
)

Ends-result : (o : Option ℕ) → Ends o → (m : ℕ) × (o ≡ some m)
Ends-result none h = absurd h
Ends-result (some m) h = (m, refl)

-- For a fraction `x` of at most 1, with 11 fractional bits, and any n below 2^32, `fixed_power_int`
-- ends with a fraction of at most 1.
pub fixed_power_int_fraction :
    (x n : ℕ)
    → x ≤ fixed_1
    → n < 2 ^ 32
    → (m : ℕ) × (fixed_power_int x fshift n ≡ some m) × (m ≤ fixed_1)
unfolding fixed_power_int
fixed_power_int_fraction x n hx hn = elim (Bool-cases (n == 0)) [
  | inl e ↦ (fixed_1, rw (fixed_power_int, e) refl, ground arith)
  | inr e ↦
      let ends = Ends-result _ ((power_loop-rounds 32 fshift fixed_1 x n (ground arith)).1 hn) in
      (
        ends.0,
        rw (fixed_power_int, e) ends.1,
        power_loop_le 32 fixed_1 x n ends.0 (ground arith) hx ends.1,
      )
]

-- A mixture of two values, in parts of `fixed_1`.
mixture :
    (lo hi a b x y : ℕ)
    → x + y ≡ fixed_1
    → (lo ≤ a) × (a ≤ hi)
    → (lo ≤ b) × (b ≤ hi)
    → (lo * fixed_1 ≤ a * x + b * y) × (a * x + b * y ≤ hi * fixed_1)
mixture lo hi a b x y e ha hb =
    let whole : (n : ℕ) → n * x + n * y ≡ n * fixed_1 = λ n. rw (← e) (omega arith) in
    (
      omega (arith, whole lo, mul-le-mul_right x ha.0, mul-le-mul_right y hb.0),
      omega (arith, whole hi, mul-le-mul_right x ha.1, mul-le-mul_right y hb.1),
    )

-- An average of two values is between them: for a weight `exp` of at most 1 and values below 2^21
-- (a load of 1024), `calc_load` is at least the smaller and at most the larger of them.
pub calc_load_between :
    (lo hi load exp active : ℕ)
    → exp ≤ fixed_1
    → hi < 2 ^ 21
    → (lo ≤ load) × (load ≤ hi)
    → (lo ≤ active) × (active ≤ hi)
    → (lo ≤ calc_load load exp active) × (calc_load load exp active ≤ hi)
unfolding calc_load
calc_load_between lo hi load exp active he hh hl ha =
    let c = fixed_1 - exp in
    let complement : sub32 fixed_1 exp ≡ c = omega arith in
    let m = mixture lo hi load active exp c (omega arith) hl ha in
    rw (calc_load, complement) (omega (arith, m))

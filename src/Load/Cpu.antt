-- ===== src/Load/Cpu.antt =====
-- `update_cpu_load` of Project2/goldfish/kernel/sched/core.c.
use native.Mathlib.Nat.{pow-le-pow_right}
use android_kernel_programmi.Base.{
  ℕ, zero, suc, ◌+◌, ◌-◌, ◌/◌, ◌^◌, ◌<◌, ◌≤◌, ◌≡◌, refl, ap, Option, some, List, [], ◌∷◌, add32,
  sub32, mul32, ltb, ◌==◌, if◌then◌else◌, Bool-cases, inl, inr, ◌⊎◌, arith, length, All, sub64,
}
use android_kernel_programmi.Load.Average.{◌>>=◌}
use android_kernel_programmi.Load.Backlog.{decay_load_missed, decay_load_missed_le}
use android_kernel_programmi.Load.Age.{Aged, sched_avg_update, sched_avg_update_lem, after_periods}
use android_kernel_programmi.Load.Power.{pow2-suc}

-- The fields of `struct rq` that the statistics of a cpu use; `load_weight` is `load.weight`.
pub record CpuLoad : Type 0 where
  pub load_weight : ℕ
  pub cpu_load : List ℕ
  pub last_load_update_tick : ℕ
  pub nr_load_updates : ℕ
  pub clock : ℕ
  pub aged : Aged

-- The entry `i` after a tick with load `this_load`, from the decayed entry.
unfoldable pub blend : ℕ → ℕ → ℕ → ℕ → ℕ
blend i scale this_load old_load =
    let new_load = if ltb old_load this_load then sub32 (add32 this_load scale) 1 else this_load in
    add32 (mul32 old_load (sub32 scale 1)) new_load / 2 ^ i

-- `for (i = 1, scale = 2; i < CPU_LOAD_IDX_MAX; i++, scale += scale)`, over the entries from `i`.
unfoldable pub load_loop : ℕ → ℕ → ℕ → ℕ → List ℕ → Option (List ℕ)
unfolding decay_load_missed blend
load_loop this_load missed i scale [] = some []
load_loop this_load missed i scale (x ∷ xs) = do
  old_load ← decay_load_missed x missed i
  rest ← load_loop this_load missed (i + 1) (add32 scale scale) xs
  some (blend i scale this_load old_load ∷ rest)

abbrev pub tail : List ℕ → List ℕ
tail [] = []
tail (x ∷ xs) = xs

-- `period` is `sched_avg_period()`. The array `cpu_load` has at least its first entry.
unfoldable pub update_cpu_load : ℕ → ℕ → CpuLoad → Option CpuLoad
unfolding load_loop
update_cpu_load period jiffies r =
    let r : CpuLoad = record r { nr_load_updates = add32 r.nr_load_updates 1 } in
    if jiffies == r.last_load_update_tick then some r else (do
      let pending = sub32 jiffies r.last_load_update_tick
      loads ← load_loop r.load_weight (sub32 pending 1) 1 2 (tail r.cpu_load)
      aged ← sched_avg_update period r.clock r.aged
      some (record r {
        last_load_update_tick = jiffies;
        cpu_load = r.load_weight ∷ loads;
        aged = aged;
      }))

compare_cases : (a b : ℕ) → (a < b) ⊎ ((a ≡ b) ⊎ (b < a))
compare_cases a b = omega arith

-- Entry `i` moves towards the load, and never past it.
blend_nearer :
    (i w x : ℕ)
    → 0 < i
    → i < 5
    → w < 2 ^ 25
    → x < 2 ^ 25
    → let y = blend i (2 ^ i) w x in
      (x < w → (x < y) × (y ≤ w)) × (x ≡ w → y ≡ w) × (w < x → (w ≤ y) × (y < x))
unfolding blend
blend_nearer zero w x h0 h5 hw hx = absurd (omega arith)
blend_nearer (suc zero) w x h0 h5 hw hx = ground arith
blend_nearer (suc (suc zero)) w x h0 h5 hw hx = ground arith
blend_nearer (suc (suc (suc zero))) w x h0 h5 hw hx = ground arith
blend_nearer (suc (suc (suc (suc zero)))) w x h0 h5 hw hx = ground arith
blend_nearer (suc (suc (suc (suc (suc i))))) w x h0 h5 hw hx = absurd (omega arith)

-- `n` ticks at the load `w`, without a missed one.
abbrev pub ticks_at : ℕ → ℕ → ℕ → ℕ → ℕ
ticks_at zero i w x = x
ticks_at (suc n) i w x = ticks_at n i w (blend i (2 ^ i) w x)

-- An entry of `cpu_load` settles: for an index from 1 to 4 and a load and an entry below 2^25, the
-- entry is the load after as many ticks at that load as they are apart, or more.
pub ticks_at_settles :
    (n i w x : ℕ)
    → 0 < i
    → i < 5
    → w < 2 ^ 25
    → x < 2 ^ 25
    → w ≤ x + n
    → x ≤ w + n
    → ticks_at n i w x ≡ w
ticks_at_settles zero i w x h0 h5 hw hx a b = omega arith
ticks_at_settles (suc n) i w x h0 h5 hw hx a b =
    let k = blend_nearer i w x h0 h5 hw hx in
    elim (compare_cases x w) [
      | inl l ↦
          let m = k.0 l in
          ticks_at_settles n i w _ h0 h5 hw (omega arith) (omega arith) (omega arith)
      | inr (inl e) ↦
          let m = k.1 e in
          ticks_at_settles n i w _ h0 h5 hw (omega arith) (omega arith) (omega arith)
      | inr (inr l) ↦
          let m = k.2 l in
          ticks_at_settles n i w _ h0 h5 hw (omega arith) (omega arith) (omega arith)
    ]

doubled : (i : ℕ) → i < 5 → add32 (2 ^ i) (2 ^ i) ≡ 2 ^ (i + 1)
doubled i h =
    let next : 2 ^ (i + 1) ≡ 2 ^ suc i = ap (λ n. 2 ^ n) (omega arith) in
    omega (
      arith,
      next,
      pow2-suc i,
      pow-le-pow_right {n = 2} (omega arith) {i = i} {j = 5} (omega arith),
    )

blend_le : (i m w x : ℕ) → 0 < i → i < 5 → m < 2 ^ 25 → w ≤ m → x ≤ m → blend i (2 ^ i) w x ≤ m
blend_le i m w x h0 h5 hm hw hx =
    let k = blend_nearer i w x h0 h5 (omega arith) (omega arith) in
    elim (compare_cases x w) [
      | inl l ↦ let n = k.0 l in omega arith
      | inr (inl e) ↦ let n = k.1 e in omega arith
      | inr (inr l) ↦ let n = k.2 l in omega arith
    ]

All-tail : (m : ℕ) (xs : List ℕ) → All (λ x. x ≤ m) xs → All (λ x. x ≤ m) (tail xs)
All-tail m [] a = tt
All-tail m (x ∷ xs) a = a.1

length-tail : (xs : List ℕ) → length (tail xs) ≡ length xs - 1
length-tail [] = omega arith
length-tail (x ∷ xs) = omega arith

load_loop-All :
    (m w missed i : ℕ) (xs : List ℕ)
    → m < 2 ^ 25
    → w ≤ m
    → All (λ x. x ≤ m) xs
    → 0 < i
    → i + length xs ≤ 5
    → (ys : List ℕ) × (load_loop w missed i (2 ^ i) xs ≡ some ys)
      × All (λ y. y ≤ m) ys
      × (length ys ≡ length xs)
unfolding load_loop
load_loop-All m w missed i [] hm hw a h0 h = ([], refl, tt, refl)
load_loop-All m w missed i (x ∷ xs) hm hw a h0 h =
    let (old, eo, lo) = decay_load_missed_le x missed i (omega (arith, a.0)) h0 (omega arith) in
    let (ys, ey, ly, ny) =
      load_loop-All m w missed (i + 1) xs hm hw a.1 (omega arith) (omega arith) in
    (
      blend i (2 ^ i) w old ∷ ys,
      rw (load_loop, eo, doubled i (omega arith), ey) refl,
      (blend_le i m w old h0 (omega arith) hm hw (omega (arith, a.0)), ly),
      omega (arith, ny),
    )

-- `update_cpu_load` on a new jiffy: with the load and the five entries at most m, below 2^25, a stamp
-- behind the clock by less than 2^63 ns and a period that is not 0, it returns, and the five entries
-- are at most m again, whatever ticks were missed.
pub update_cpu_load_le :
    (m period jiffies : ℕ) (r : CpuLoad)
    → m < 2 ^ 25
    → 0 < period
    → (r.aged.age_stamp < 2 ^ 64)
      × (0 < sub64 r.clock r.aged.age_stamp)
      × (sub64 r.clock r.aged.age_stamp < 2 ^ 63)
    → r.load_weight ≤ m
    → All (λ x. x ≤ m) r.cpu_load
    → length r.cpu_load ≡ 5
    → (t : CpuLoad) × (update_cpu_load period jiffies r ≡ some t)
      × All (λ x. x ≤ m) t.cpu_load
      × (length t.cpu_load ≡ 5)
unfolding update_cpu_load
update_cpu_load_le m period jiffies r hm hp ha hw a h =
    elim (Bool-cases (jiffies == r.last_load_update_tick)) [
      | inl e ↦ (
        record r { nr_load_updates = add32 r.nr_load_updates 1 },
        rw (update_cpu_load, e) refl,
        a,
        h,
      )
      | inr e ↦
          let missed = sub32 (sub32 jiffies r.last_load_update_tick) 1 in
          let (ys, ey, ly, ny) =
            load_loop-All m r.load_weight missed 1 (tail r.cpu_load) hm hw (All-tail m r.cpu_load a)
              (omega arith) (omega (arith, length-tail r.cpu_load)) in
          let aged = sched_avg_update_lem period r.clock r.aged hp ha.0 ha.1 ha.2 in
          let n = (sub64 r.clock r.aged.age_stamp - 1) / period in
          (
            record r {
              nr_load_updates = add32 r.nr_load_updates 1;
              last_load_update_tick = jiffies;
              cpu_load = r.load_weight ∷ ys;
              aged = after_periods n period r.aged;
            },
            rw (update_cpu_load, e, ey, aged) refl,
            (hw, ly),
            omega (arith, ny, length-tail r.cpu_load),
          )
    ]

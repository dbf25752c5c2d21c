-- ===== src/Load/Backlog.antt =====
-- The load of a cpu, `cpu_load[]` of Project2/goldfish/kernel/sched/core.c: `update_cpu_load` and the
-- decay over missed ticks.
use native.Mathlib.Nat.{div-le_self, mul-le-mul_left}
use android_kernel_programmi.Base.{
  ℕ, zero, suc, ◌+◌, ◌/◌, ◌%◌, ◌^◌, ◌<◌, ◌≤◌, ◌≡◌, refl, Bool, true, false, Option, none, some,
  List, [], ◌∷◌, mul32, leb, ◌==◌, if◌then◌else◌, Bool-cases, inl, inr, arith, get_elem?, length,
  All,
}
use android_kernel_programmi.Load.Average.{◌>>=◌}

abbrev pub degrade_zero_ticks : List ℕ
degrade_zero_ticks = 0 ∷ 8 ∷ 32 ∷ 64 ∷ 128 ∷ []

-- Rows with seven values end with the 0 that C fills in.
abbrev pub degrade_factor : List (List ℕ)
degrade_factor =
    (0 ∷ 0 ∷ 0 ∷ 0 ∷ 0 ∷ 0 ∷ 0 ∷ 0 ∷ [])
    ∷ (64 ∷ 32 ∷ 8 ∷ 0 ∷ 0 ∷ 0 ∷ 0 ∷ 0 ∷ [])
    ∷ (96 ∷ 72 ∷ 40 ∷ 12 ∷ 1 ∷ 0 ∷ 0 ∷ 0 ∷ [])
    ∷ (112 ∷ 98 ∷ 75 ∷ 43 ∷ 15 ∷ 1 ∷ 0 ∷ 0 ∷ [])
    ∷ (120 ∷ 112 ∷ 98 ∷ 76 ∷ 45 ∷ 16 ∷ 2 ∷ 0 ∷ [])
    ∷ []

abbrev pub degrade_shift : ℕ
degrade_shift = 7

-- `(load * degrade_factor[idx][j]) >> DEGRADE_SHIFT`; a read past the row has no result.
unfoldable pub degrade : List ℕ → ℕ → ℕ → Option ℕ
degrade row j load = get_elem? row j >>= (λ d. some (mul32 load d / 2 ^ degrade_shift))

-- The loop, on fuel, over the row of `idx`.
unfoldable pub degrade_loop : ℕ → List ℕ → ℕ → ℕ → ℕ → Option ℕ
unfolding degrade
degrade_loop zero row load missed j = none
degrade_loop (suc fuel) row load missed j = elim (missed == 0) [
  | true ↦ some load
  | false ↦
      (if missed % 2 == 1 then degrade row j load else some load)
      >>= (λ load. degrade_loop fuel row load (missed / 2) (j + 1))
]

-- Below 128 missed ticks there are seven rounds, and a test that ends the loop.
unfoldable pub decay_load_missed : ℕ → ℕ → ℕ → Option ℕ
unfolding degrade_loop
decay_load_missed load missed_updates idx =
    if missed_updates == 0
    then some load
    else get_elem? degrade_zero_ticks idx >>= (λ ticks.
      if leb ticks missed_updates
      then some 0
      else if idx == 1
      then some (load / 2 ^ missed_updates)
      else get_elem? degrade_factor idx >>= (λ row. degrade_loop 8 row load missed_updates 0))

-- A read of a row within its bounds.
get_elem?-All {κ} :
    (P : ℕ → Type κ) (xs : List ℕ) (j : ℕ)
    → j < length xs
    → All P xs
    → (d : ℕ) × (get_elem? xs j ≡ some d) × P d
get_elem?-All P [] j h a = absurd (omega arith)
get_elem?-All P (x ∷ xs) zero h a = (x, refl, a.0)
get_elem?-All P (x ∷ xs) (suc j) h a = get_elem?-All P xs j (omega arith) a.1

-- A result that is at most `n`.
abbrev AtMost : ℕ → Option ℕ → Type 0
AtMost n o = (m : ℕ) × (o ≡ some m) × (m ≤ n)

AtMost-bind :
    (n : ℕ) (o : Option ℕ) (f : ℕ → Option ℕ)
    → AtMost n o
    → ((m : ℕ) → m ≤ n → AtMost n (f m))
    → AtMost n (o >>= f)
AtMost-bind n o f (m, e, h) k = rw e (k m h)

AtMost-if : (n : ℕ) (b : Bool) (o : Option ℕ) → AtMost n o → AtMost n (if b then o else some n)
AtMost-if n true o h = h
AtMost-if n false o h = (n, refl, omega arith)

AtMost-weaker : (n m : ℕ) (o : Option ℕ) → m ≤ n → AtMost m o → AtMost n o
AtMost-weaker n m o h (k, e, l) = (k, e, omega arith)

degrade-AtMost :
    (row : List ℕ) (j load : ℕ)
    → All (λ d. d ≤ 128) row
    → j < length row
    → load < 2 ^ 25
    → AtMost load (degrade row j load)
unfolding degrade
degrade-AtMost row j load a h hl =
    let g = get_elem?-All (λ d. d ≤ 128) row j h a in
    (mul32 load g.0 / 2 ^ 7, rw (degrade, g.1) refl, omega (arith, mul-le-mul_left load g.2))

degrade_loop-AtMost :
    (k : ℕ) (row : List ℕ) (load missed j : ℕ)
    → All (λ d. d ≤ 128) row
    → missed < 2 ^ k
    → j + k ≤ length row
    → load < 2 ^ 25
    → AtMost load (degrade_loop (suc k) row load missed j)
unfolding degrade_loop
degrade_loop-AtMost zero row load missed j a h hj hl = (load, ground arith, omega arith)
degrade_loop-AtMost (suc k) row load missed j a h hj hl = elim (Bool-cases (missed == 0)) [
  | inl e ↦ (load, rw (degrade_loop, e) refl, omega arith)
  | inr e ↦
      rw (degrade_loop, e)
        (AtMost-bind load (if missed % 2 == 1 then degrade row j load else some load)
          (λ l. degrade_loop (suc k) row l (missed / 2) (j + 1))
          (AtMost-if load (missed % 2 == 1) _ (degrade-AtMost row j load a (omega arith) hl))
          (λ m hm. AtMost-weaker load m _ hm (
            degrade_loop-AtMost k row m (missed / 2) (j + 1) a (omega arith) (omega arith)
              (omega arith))))
]

AtMost-tests :
    (n : ℕ) (a b : Bool) (o : Option ℕ)
    → (b ≡ false → AtMost n o)
    → AtMost n (if a then some n else (if b then some 0 else o))
AtMost-tests n true b o h = (n, refl, omega arith)
AtMost-tests n false true o h = (0, refl, omega arith)
AtMost-tests n false false o h = h refl

decay_row :
    (load missed ticks : ℕ) (row : List ℕ)
    → load < 2 ^ 25
    → ticks ≤ 128
    → All (λ d. d ≤ 128) row
    → length row ≡ 8
    → AtMost load (
        if missed == 0
        then some load
        else (if leb ticks missed then some 0 else degrade_loop 8 row load missed 0))
decay_row load missed ticks row hl ht a e =
    AtMost-tests load (missed == 0) (leb ticks missed) _
      (λ b. degrade_loop-AtMost 7 row load missed 0 a (ground arith) (omega arith) hl)

-- A decayed load: for a load below 2^25 and an index from 1 to 4, the decay ends for any number of
-- missed ticks, within its tables, and the result is at most the load.
pub decay_load_missed_le :
    (load missed idx : ℕ)
    → load < 2 ^ 25
    → 0 < idx
    → idx < 5
    → (m : ℕ) × (decay_load_missed load missed idx ≡ some m) × (m ≤ load)
unfolding decay_load_missed
decay_load_missed_le load missed zero hl h0 h5 = absurd (omega arith)
decay_load_missed_le load missed (suc zero) hl h0 h5 =
    AtMost-tests load (missed == 0) (leb 8 missed) (some (load / 2 ^ missed))
      (λ _. (load / 2 ^ missed, refl, div-le_self load (2 ^ missed)))
decay_load_missed_le load missed (suc (suc zero)) hl h0 h5 =
    decay_row load missed 32 (96 ∷ 72 ∷ 40 ∷ 12 ∷ 1 ∷ 0 ∷ 0 ∷ 0 ∷ []) hl (omega arith) (omega arith)
      (omega arith)
decay_load_missed_le load missed (suc (suc (suc zero))) hl h0 h5 =
    decay_row load missed 64 (112 ∷ 98 ∷ 75 ∷ 43 ∷ 15 ∷ 1 ∷ 0 ∷ 0 ∷ []) hl (omega arith)
      (omega arith) (omega arith)
decay_load_missed_le load missed (suc (suc (suc (suc zero)))) hl h0 h5 =
    decay_row load missed 128 (120 ∷ 112 ∷ 98 ∷ 76 ∷ 45 ∷ 16 ∷ 2 ∷ 0 ∷ []) hl (omega arith)
      (omega arith) (omega arith)
decay_load_missed_le load missed (suc (suc (suc (suc (suc idx))))) hl h0 h5 = absurd (omega arith)

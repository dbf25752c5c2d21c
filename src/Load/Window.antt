-- ===== src/Load/Window.antt =====
-- The catch-up of `calc_global_load` over missed windows.
use native.Mathlib.Nat.{div-le_self, div-mul-le_self, lt-div-mul-add}
use android_kernel_programmi.Base.{
  ℕ, ◌+◌, ◌*◌, ◌/◌, ◌%◌, ◌^◌, ◌<◌, ◌≤◌, ◌≡◌, refl, Bool, true, false, not, Option, none, some,
  add32, sub32, mul32, time_before, if◌then◌else◌, arith,
}
use android_kernel_programmi.Load.Power.{fixed_1, calc_load_n, calc_load, fixed_power_int_fraction}
use android_kernel_programmi.Load.Average.{
  Load, Avenrun, average_n, scaled_tasks, calc_load_fold_idle, exp_1, exp_5, exp_15, catch_up,
  calc_global_nohz, calc_global_load, next_window, load_freq, ◌>>=◌,
}

calc_load_n_total :
    (load exp active n : ℕ)
    → exp ≤ fixed_1
    → n < 2 ^ 32
    → (m : ℕ) × (calc_load_n load exp active n ≡ some m)
unfolding calc_load_n
calc_load_n_total load exp active n he hn =
    let p = fixed_power_int_fraction exp n he hn in
    (calc_load load p.0 active, rw (calc_load_n, p.1) refl)

average_n_total :
    (a : Avenrun) (active n : ℕ) → n < 2 ^ 32 → (b : Avenrun) × (average_n a active n ≡ some b)
unfolding average_n
average_n_total a active n hn =
    let x = calc_load_n_total a.one exp_1 active n (omega arith) hn in
    let y = calc_load_n_total a.five exp_5 active n (omega arith) hn in
    let z = calc_load_n_total a.fifteen exp_15 active n (omega arith) hn in
    (record { one = x.0; five = y.0; fifteen = z.0 }, rw (average_n, x.1, y.1, z.1) refl)

-- `m` is what the windows before the present one take.
ahead :
    (j u m l : ℕ)
    → m ≤ sub32 (sub32 j u) 10
    → sub32 (sub32 j u) 10 < m + l
    → sub32 (sub32 j u) 10 < 2 ^ 31
    → l < 2 ^ 31
    → let w = sub32 (add32 (add32 u ((m + l) % 2 ^ 32)) 10) j in (0 < w) × (w ≤ l)
ahead j u m l a b c d = omega arith

-- The missed windows, as words: the new time is ahead of `j`, by one window at most.
windows :
    (j u l : ℕ)
    → 1 < l
    → l < 2 ^ 31
    → not (time_before j (add32 u 10)) ≡ true
    → let n = 1 + sub32 (sub32 j u) 10 / l in
      let w = sub32 (add32 (add32 u (mul32 n l)) 10) j in (n < 2 ^ 32) × (0 < w) × (w ≤ l)
windows j u l h1 h2 e =
    let d = sub32 (sub32 j u) 10 in
    let q = d / l in
    let near : d < 2 ^ 31 = ground arith in
    let low : q * l ≤ d = div-mul-le_self d l in
    let high : d < q * l + l = lt-div-mul-add (omega arith) in
    let count : q < 2 ^ 31 = omega (arith, div-le_self d l) in
    let product : mul32 (1 + q) l ≡ (q * l + l) % 2 ^ 32 = omega arith in
    let w = ahead j u (q * l) l low high near h2 in (omega arith, rw product w.0, rw product w.1)

-- The next window is ahead of `jiffies`, by `l` at most.
abbrev Ahead : ℕ → Load → Type 0
Ahead l s = let w = sub32 (add32 s.calc_load_update 10) s.jiffies in (0 < w) × (w ≤ l)

-- A run that returns such a state.
abbrev pub Catches : ℕ → Option Load → Type 0
Catches l none = ⊥
Catches l (some s) = Ahead l s

Catches-result : {l : ℕ} (o : Option Load) → Catches l o → (t : Load) × (o ≡ some t) × Ahead l t
Catches-result none h = absurd h
Catches-result (some t) h = (t, refl, h)

module _ (hz : ℕ) (h1 : 0 < hz) (h2 : hz ≤ 1024) where
  catch_up-Catches :
      (s : Load)
      → not (time_before s.jiffies (add32 s.calc_load_update 10)) ≡ true
      → Catches (load_freq hz) (catch_up hz s)
  unfolding catch_up
  catch_up-Catches s e =
      let w = windows s.jiffies s.calc_load_update (load_freq hz) (omega arith) (omega arith) e in
      let a = average_n_total s.avenrun (scaled_tasks s.calc_load_tasks) _ w.0 in
      rw (Catches, catch_up, a.1) (w.1, w.2)

  Catches-flip :
      (o : Option Load)
      → Catches (load_freq hz) o
      → Catches
          (load_freq hz)
          (o >>= (λ s. some (record s { calc_load_idx = add32 s.calc_load_idx 1 })))
  Catches-flip none h = h
  Catches-flip (some s) h = h

  Catches-if :
      (b : Bool) (s t : Option Load)
      → (b ≡ true → Catches (load_freq hz) s)
      → (b ≡ false → Catches (load_freq hz) t)
      → Catches (load_freq hz) (if b then s else t)
  Catches-if true s t f g = f refl
  Catches-if false s t f g = g refl

  -- A window that has just moved by one is at most one ahead.
  moved :
      (j u : ℕ)
      → time_before j (add32 u 10) ≡ false
      → not (time_before j (add32 (add32 u (load_freq hz)) 10)) ≡ false
      → let w = sub32 (add32 (add32 u (load_freq hz)) 10) j in (0 < w) × (w ≤ load_freq hz)
  moved j u a b = ground arith

  calc_global_nohz-Catches :
      (s : Load) (u : ℕ)
      → s.calc_load_update ≡ add32 u (load_freq hz)
      → time_before s.jiffies (add32 u 10) ≡ false
      → Catches (load_freq hz) (calc_global_nohz hz s)
  unfolding calc_global_nohz
  calc_global_nohz-Catches s u eu e = Catches-flip _ (
      Catches-if (not (time_before s.jiffies (add32 s.calc_load_update 10))) (catch_up hz s)
        (some s) (catch_up-Catches s) (λ f. rw eu (moved s.jiffies u e (rw (← eu) f))))

  fold_idle_time :
      (s : Load)
      → ((calc_load_fold_idle s).0.jiffies ≡ s.jiffies)
        × ((calc_load_fold_idle s).0.calc_load_update ≡ s.calc_load_update)
  unfolding calc_load_fold_idle
  fold_idle_time s = ground arith

  -- Where the window has been over for less than 2^31 jiffies, and HZ is from 1 to 1024,
  -- `calc_global_load` returns, and however many windows were missed, the next one is then ahead of
  -- `jiffies`, by one window of 5 HZ + 1 jiffies at most.
  pub calc_global_load_catches_up :
      (s : Load)
      → time_before s.jiffies (add32 s.calc_load_update 10) ≡ false
      → (t : Load) × (calc_global_load hz s ≡ some t)
        × (let w = sub32 (add32 t.calc_load_update 10) t.jiffies in (0 < w) × (w ≤ load_freq hz))
  unfolding calc_global_load next_window
  calc_global_load_catches_up s e =
      let f = fold_idle_time s in
      let c =
        calc_global_nohz-Catches (next_window hz s) s.calc_load_update (rw f.1 refl) (rw f.0 e) in
      let r = Catches-result _ c in (r.0, rw (calc_global_load, e) r.1, r.2)

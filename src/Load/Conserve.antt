-- ===== src/Load/Conserve.antt =====
-- What the samples of the cpus add up to, over any sequence of the load code's steps.
use android_kernel_programmi.Base.{
  ℕ, ◌+◌, ◌%◌, ◌^◌, ◌<◌, ◌≡◌, refl, ap, sym, subst, Bool, true, false, not, Option, none, some,
  List, add32, time_before, ◌==◌, if◌then◌else◌, update, update_self, update_ne, sum_of,
  sum_of_change, has, NoDup, Bool-cases, inl, inr, arith,
}
use android_kernel_programmi.Load.Average.{
  Load, LoadRq, Avenrun, put_load_rq, add_idle, calc_load_fold_active, calc_load_write_idx,
  calc_load_read_idx, calc_load_enter_idle, calc_load_exit_idle, calc_load_fold_idle,
  calc_global_nohz, calc_global_load, calc_load_account_active, catch_up, next_window, ◌>>=◌,
  load_freq,
}

-- The samples that the averages have not seen are in the two idle counters.
abbrev pub Conserved : List ℕ → Load → Type 0
Conserved cpus s =
    (s.calc_load_tasks + s.calc_load_idle 0 + s.calc_load_idle 1) % 2 ^ 32
    ≡ sum_of (λ c. (s.rqs c).calc_load_active) cpus % 2 ^ 32

fold_delta :
    (r : LoadRq)
    → add32 r.calc_load_active (calc_load_fold_active r).1
      ≡ (calc_load_fold_active r).0.calc_load_active % 2 ^ 32
unfolding calc_load_fold_active
fold_delta r = ground arith

-- A counter that is changed by a guarded addition, as a word.
guarded_add : (x d : ℕ) → (if not (d == 0) then add32 x d else x) % 2 ^ 32 ≡ add32 x d
guarded_add x d = ground arith

-- Writing a run queue with sample `a` at one of the cpus.
sampled-put :
    (cpus : List ℕ) (s : Load) (c : ℕ) (r : LoadRq)
    → NoDup cpus
    → has c cpus ≡ true
    → sum_of (λ q. ((put_load_rq s c r).rqs q).calc_load_active) cpus + (s.rqs c).calc_load_active
      ≡ sum_of (λ q. (s.rqs q).calc_load_active) cpus + r.calc_load_active
sampled-put cpus s c r d h =
    let e =
      sum_of_change (λ q. (s.rqs q).calc_load_active)
        (λ q. ((put_load_rq s c r).rqs q).calc_load_active) c cpus
        (λ q n. ap (λ x. x.calc_load_active) (sym (update_ne s.rqs c q r n))) d h in
    let here : (update s.rqs c r c).calc_load_active ≡ r.calc_load_active =
      ap (λ x. x.calc_load_active) (update_self s.rqs c r) in
    omega (arith, e, here)

Conserved-if :
    (cpus : List ℕ) (b : Bool) (s t : Load)
    → (b ≡ true → Conserved cpus s)
    → (b ≡ false → Conserved cpus t)
    → Conserved cpus (if b then s else t)
Conserved-if cpus true s t f g = f refl
Conserved-if cpus false s t f g = g refl

-- What a sample changes by is added to the three counters.
Conserved-sample :
    (cpus : List ℕ) (s : Load) (c : ℕ) (r : LoadRq) (total : ℕ)
    → NoDup cpus
    → has c cpus ≡ true
    → Conserved cpus s
    → (total + (s.rqs c).calc_load_active) % 2 ^ 32
      ≡ (s.calc_load_tasks + s.calc_load_idle 0 + s.calc_load_idle 1 + r.calc_load_active) % 2 ^ 32
    → total % 2 ^ 32 ≡ sum_of (λ q. ((put_load_rq s c r).rqs q).calc_load_active) cpus % 2 ^ 32
Conserved-sample cpus s c r total d h i e = omega (arith, i, e, sampled-put cpus s c r d h)

-- An addition to one of the idle counters.
idle_total : (f : ℕ → ℕ) (i v : ℕ) → i < 2 → update f i v 0 + update f i v 1 + f i ≡ f 0 + f 1 + v
idle_total f i v h = ground arith

write_idx_lt : (s : Load) → calc_load_write_idx s < 2
unfolding calc_load_write_idx
write_idx_lt s = omega arith

not_zero : (n : ℕ) → not (n == 0) ≡ false → n ≡ 0
not_zero n e = ground arith

rearmed :
    (b : Bool) (r : LoadRq) (u : ℕ)
    → (if b then record r { calc_load_update = u } else r).calc_load_active ≡ r.calc_load_active
rearmed true r u = refl
rearmed false r u = refl

-- Whatever a run returns is conserved.
abbrev pub Kept : List ℕ → Option Load → Type 0
Kept cpus none = Unit
Kept cpus (some s) = Conserved cpus s

module _ (cpus : List ℕ) (d : NoDup cpus) (hz : ℕ) where
  calc_load_account_active-Conserved :
      (s : Load) (c : ℕ)
      → has c cpus ≡ true
      → Conserved cpus s
      → Conserved cpus (calc_load_account_active hz s c)
  unfolding calc_load_account_active
  calc_load_account_active-Conserved s c h i =
      let f = calc_load_fold_active (s.rqs c) in
      let r' : LoadRq = record (f.0) {
        calc_load_update = add32 f.0.calc_load_update (load_freq hz);
      } in
      let tasks = if not (f.1 == 0) then add32 s.calc_load_tasks f.1 else s.calc_load_tasks in
      let t : Load = record s { calc_load_tasks = tasks } in
      Conserved-if cpus (time_before s.jiffies (s.rqs c).calc_load_update) s (put_load_rq t c r')
        (λ _. i)
        (λ _.
          Conserved-sample cpus s c r' (tasks + s.calc_load_idle 0 + s.calc_load_idle 1) d h i
            (omega (arith, fold_delta (s.rqs c), guarded_add s.calc_load_tasks f.1)))

  calc_load_enter_idle-Conserved :
      (s : Load) (c : ℕ)
      → has c cpus ≡ true
      → Conserved cpus s
      → Conserved cpus (calc_load_enter_idle s c)
  unfolding calc_load_enter_idle
  calc_load_enter_idle-Conserved s c h i =
      let f = calc_load_fold_active (s.rqs c) in
      let t = put_load_rq s c f.0 in
      let idx = calc_load_write_idx t in
      Conserved-if cpus (not (f.1 == 0)) (add_idle t idx f.1) t
        (λ _. Conserved-sample cpus s c f.0 _ d h i (
          omega (
            arith,
            fold_delta (s.rqs c),
            idle_total s.calc_load_idle idx (add32 (s.calc_load_idle idx) f.1) (write_idx_lt t),
          )))
        (λ e.
          Conserved-sample cpus s c f.0 _ d h i
            (omega (arith, fold_delta (s.rqs c), not_zero f.1 e)))

  calc_load_exit_idle-Conserved :
      (s : Load) (c : ℕ)
      → has c cpus ≡ true
      → Conserved cpus s
      → Conserved cpus (calc_load_exit_idle hz s c)
  unfolding calc_load_exit_idle
  calc_load_exit_idle-Conserved s c h i =
      let r : LoadRq = record (s.rqs c) { calc_load_update = s.calc_load_update } in
      let late = time_before s.jiffies (add32 r.calc_load_update 10) in
      let r' =
        if late
        then record r { calc_load_update = add32 r.calc_load_update (load_freq hz) }
        else r in
      Conserved-if cpus (time_before s.jiffies (s.rqs c).calc_load_update) s (put_load_rq s c r')
        (λ _. i)
        (λ _.
          Conserved-sample cpus s c r' _ d h i
            (omega (arith, rearmed late r (add32 r.calc_load_update (load_freq hz)))))

module _ (cpus : List ℕ) (hz : ℕ) where
  Kept-if :
      (b : Bool) (s t : Option Load) → Kept cpus s → Kept cpus t → Kept cpus (if b then s else t)
  Kept-if true s t f g = f
  Kept-if false s t f g = g

  Kept-then :
      (o : Option Load) (f : Load → Option Load)
      → Kept cpus o
      → ((s : Load) → Conserved cpus s → Kept cpus (f s))
      → Kept cpus (o >>= f)
  Kept-then none f h k = tt
  Kept-then (some s) f h k = k s h

  averages-Kept :
      (o : Option Avenrun) (s : Load) (u : ℕ)
      → Conserved cpus s
      → Kept cpus (o >>= (λ a. some (record s { avenrun = a; calc_load_update = u })))
  averages-Kept none s u i = tt
  averages-Kept (some a) s u i = i

  calc_global_nohz-Kept : (s : Load) → Conserved cpus s → Kept cpus (calc_global_nohz hz s)
  unfolding calc_global_nohz
  calc_global_nohz-Kept s i =
      Kept-then _ (λ s. some (record s { calc_load_idx = add32 s.calc_load_idx 1 }))
        (Kept-if _ (catch_up hz s) (some s) (averages-Kept _ s _ i) i) (λ s j. j)

  fold_idle-Conserved :
      (s : Load)
      → Conserved cpus s
      → let (t, delta) = calc_load_fold_idle s in
        (t.calc_load_tasks + t.calc_load_idle 0 + t.calc_load_idle 1 + delta) % 2 ^ 32
        ≡ sum_of (λ c. (t.rqs c).calc_load_active) cpus % 2 ^ 32
  unfolding calc_load_fold_idle calc_load_read_idx
  fold_idle-Conserved s i = elim (Bool-cases (s.calc_load_idle (s.calc_load_idx % 2) == 0)) [
    | inl e ↦ rw (calc_load_fold_idle, calc_load_read_idx, e) (omega (arith, i))
    | inr e ↦
        rw (calc_load_fold_idle, calc_load_read_idx, e)
          (omega (arith, i, idle_total s.calc_load_idle (s.calc_load_idx % 2) 0 (omega arith)))
  ]

  calc_global_load-Kept : (s : Load) → Conserved cpus s → Kept cpus (calc_global_load hz s)
  unfolding calc_global_load next_window
  calc_global_load-Kept s i =
      let (t, delta) = calc_load_fold_idle s in
      Kept-if (time_before s.jiffies (add32 s.calc_load_update 10)) (some s)
        (calc_global_nohz hz (next_window hz s)) i
        (calc_global_nohz-Kept (next_window hz s)
          (omega (arith, fold_idle-Conserved s i, guarded_add t.calc_load_tasks delta)))

-- A step of the load code on one of the cpus, or of the kernel around it.
pub data LoadStep (cpus : List ℕ) (hz : ℕ) (s t : Load) : Type 0 where
  -- the tick of a cpu
  account : (c : ℕ) → has c cpus ≡ true → t ≡ calc_load_account_active hz s c → LoadStep cpus hz s t
  -- a cpu stops its tick, or starts it again
  enter_idle : (c : ℕ) → has c cpus ≡ true → t ≡ calc_load_enter_idle s c → LoadStep cpus hz s t
  exit_idle : (c : ℕ) → has c cpus ≡ true → t ≡ calc_load_exit_idle hz s c → LoadStep cpus hz s t
  -- the time keeper's cpu
  global : calc_global_load hz s ≡ some t → LoadStep cpus hz s t
  -- tasks wake up, sleep and migrate: any counts, with the same samples
  count :
      (c n u : ℕ)
      → has c cpus ≡ true
      → t
        ≡ (let r = s.rqs c in put_load_rq s c (record r { nr_running = n; nr_uninterruptible = u }))
      → LoadStep cpus hz s t
  -- time passes
  jiffy : t ≡ record s { jiffies = add32 s.jiffies 1 } → LoadStep cpus hz s t

pub data LoadReach (cpus : List ℕ) (hz : ℕ) (s : Load) : Load → Type 0 where
  here : LoadReach cpus hz s s
  next : {t u : Load} → LoadReach cpus hz s t → LoadStep cpus hz t u → LoadReach cpus hz s u

module _ (cpus : List ℕ) (d : NoDup cpus) (hz : ℕ) where
  LoadStep-Conserved : (s t : Load) → LoadStep cpus hz s t → Conserved cpus s → Conserved cpus t
  LoadStep-Conserved s t (account c h e) i =
      rw e (calc_load_account_active-Conserved cpus d hz s c h i)
  LoadStep-Conserved s t (enter_idle c h e) i =
      rw e (calc_load_enter_idle-Conserved cpus d hz s c h i)
  LoadStep-Conserved s t (exit_idle c h e) i =
      rw e (calc_load_exit_idle-Conserved cpus d hz s c h i)
  LoadStep-Conserved s t (global e) i = subst (Kept cpus) e (calc_global_load-Kept cpus hz s i)
  LoadStep-Conserved s t (count c n u h e) i = rw e (
      Conserved-sample cpus s c (record (s.rqs c) { nr_running = n; nr_uninterruptible = u }) _ d h
        i refl)
  LoadStep-Conserved s t (jiffy e) i = rw e i

  -- From a state where the samples add up, as at boot where all are 0, in every state that the load
  -- code reaches over cpus without repetition, in any order of its steps and whatever the tasks do,
  -- `calc_load_tasks` and the two idle counters add up to the samples of the cpus, as words.
  pub LoadReach-Conserved :
      (s t : Load) → LoadReach cpus hz s t → Conserved cpus s → Conserved cpus t
  LoadReach-Conserved s _ here i = i
  LoadReach-Conserved s u (next {t} r e) i = LoadStep-Conserved t u e (LoadReach-Conserved s t r i)

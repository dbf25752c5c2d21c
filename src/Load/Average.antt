-- ===== src/Load/Average.antt =====
-- The global load average of Project2/goldfish/kernel/sched/core.c with CONFIG_NO_HZ: its state and
-- its steps. Each function is one step; `jiffies` is what the function reads.
use android_kernel_programmi.Base.{
  ℕ, ◌+◌, ◌*◌, ◌/◌, ◌%◌, ◌^◌, not, ◌&&◌, Option, none, some, add32, sub32, mul32, neg32,
  time_before, ltb, ◌==◌, if◌then◌else◌, update,
}
use android_kernel_programmi.Load.Power.{fixed_1, calc_load, calc_load_n}

-- The fields of `struct rq` that the load code uses.
pub record LoadRq : Type 0 where
  pub nr_running : ℕ
  pub nr_uninterruptible : ℕ
  pub calc_load_active : ℕ
  pub calc_load_update : ℕ

-- `avenrun[3]`: the averages over one, five and fifteen minutes.
pub record Avenrun : Type 0 where
  pub one : ℕ
  pub five : ℕ
  pub fifteen : ℕ

-- The global variables, with `calc_load_idle[i]` as a function of `i` and the cpus' run queues.
pub record Load : Type 0 where
  pub jiffies : ℕ
  pub calc_load_tasks : ℕ
  pub calc_load_update : ℕ
  pub avenrun : Avenrun
  pub calc_load_idle : ℕ → ℕ
  pub calc_load_idx : ℕ
  pub rqs : ℕ → LoadRq

abbrev pub exp_1 : ℕ
exp_1 = 1884

abbrev pub exp_5 : ℕ
exp_5 = 2014

abbrev pub exp_15 : ℕ
exp_15 = 2037

abbrev pub put_load_rq : Load → ℕ → LoadRq → Load
put_load_rq s c r = record s { rqs = update s.rqs c r }

-- The run queue with its new sample, and the change.
unfoldable pub calc_load_fold_active : LoadRq → LoadRq × ℕ
calc_load_fold_active r =
    let nr_active = add32 r.nr_running r.nr_uninterruptible in
    if not (nr_active == r.calc_load_active)
    then (record r { calc_load_active = nr_active }, sub32 nr_active r.calc_load_active)
    else (r, 0)

unfoldable pub calc_load_write_idx : Load → ℕ
calc_load_write_idx s =
    let idx = s.calc_load_idx in
    (if not (time_before s.jiffies s.calc_load_update) then idx + 1 else idx) % 2

unfoldable pub calc_load_read_idx : Load → ℕ
calc_load_read_idx s = s.calc_load_idx % 2

-- `atomic_long_add(delta, &calc_load_idle[idx])`
abbrev pub add_idle : Load → ℕ → ℕ → Load
add_idle s idx delta = record s {
  calc_load_idle = update s.calc_load_idle idx (add32 (s.calc_load_idle idx) delta);
}

unfoldable pub calc_load_enter_idle : Load → ℕ → Load
unfolding calc_load_fold_active calc_load_write_idx
calc_load_enter_idle s c =
    let (r, delta) = calc_load_fold_active (s.rqs c) in
    let s = put_load_rq s c r in
    if not (delta == 0) then add_idle s (calc_load_write_idx s) delta else s

-- `atomic_long_xchg(&calc_load_idle[idx], 0)` where it is not 0.
unfoldable pub calc_load_fold_idle : Load → Load × ℕ
unfolding calc_load_read_idx
calc_load_fold_idle s =
    let idx = calc_load_read_idx s in
    if not (s.calc_load_idle idx == 0)
    then (record s { calc_load_idle = update s.calc_load_idle idx 0 }, s.calc_load_idle idx)
    else (s, 0)

-- `active > 0 ? active * FIXED_1 : 0`, for a `long`.
unfoldable pub scaled_tasks : ℕ → ℕ
scaled_tasks active = if ltb 0 active && not (neg32 active) then mul32 active fixed_1 else 0

unfoldable pub average : Avenrun → ℕ → Avenrun
average a active = record {
  one = calc_load a.one exp_1 active;
  five = calc_load a.five exp_5 active;
  fifteen = calc_load a.fifteen exp_15 active;
}

infixl 5 ◌>>=◌
abbrev pub ◌>>=◌ {ℓ κ} : {A : Type ℓ} {B : Type κ} → Option A → (A → Option B) → Option B
none >>= f = none
some a >>= f = f a

unfoldable pub average_n : Avenrun → ℕ → ℕ → Option Avenrun
average_n a active n = do
  x ← calc_load_n a.one exp_1 active n
  y ← calc_load_n a.five exp_5 active n
  z ← calc_load_n a.fifteen exp_15 active n
  some (record { one = x; five = y; fifteen = z })

unfoldable pub get_avenrun : Avenrun → ℕ → ℕ → Avenrun
get_avenrun a offset shift =
    let load : ℕ → ℕ = λ x. mul32 (add32 x offset) (2 ^ shift) in
    record { one = load a.one; five = load a.five; fifteen = load a.fifteen }

module _ (hz : ℕ) where
  abbrev pub load_freq : ℕ
  load_freq = 5 * hz + 1

  unfoldable pub calc_load_exit_idle : Load → ℕ → Load
  calc_load_exit_idle s c =
      let r = s.rqs c in
      if time_before s.jiffies r.calc_load_update
      then s
      else let r = record r { calc_load_update = s.calc_load_update } in
        put_load_rq s c (
          if time_before s.jiffies (add32 r.calc_load_update 10)
          then record r { calc_load_update = add32 r.calc_load_update load_freq }
          else r)

  -- The number of missed windows, and what they make of the averages.
  unfoldable pub catch_up : Load → Option Load
  unfolding scaled_tasks average_n
  catch_up s =
      let delta = sub32 (sub32 s.jiffies s.calc_load_update) 10 in
      let n = 1 + delta / load_freq in
      let active = scaled_tasks s.calc_load_tasks in
      let updated = add32 s.calc_load_update (mul32 n load_freq) in
      average_n s.avenrun active n
      >>= (λ a. some (record s { avenrun = a; calc_load_update = updated }))

  unfoldable pub calc_global_nohz : Load → Option Load
  unfolding catch_up
  calc_global_nohz s =
      (if not (time_before s.jiffies (add32 s.calc_load_update 10)) then catch_up s else some s)
      >>= (λ s. some (record s { calc_load_idx = add32 s.calc_load_idx 1 }))

  -- One window: the idle samples are folded in, and the averages move on.
  unfoldable pub next_window : Load → Load
  unfolding calc_load_fold_idle scaled_tasks average
  next_window s =
      let (s, delta) = calc_load_fold_idle s in
      let tasks = if not (delta == 0) then add32 s.calc_load_tasks delta else s.calc_load_tasks in
      record s {
        calc_load_tasks = tasks;
        avenrun = average s.avenrun (scaled_tasks tasks);
        calc_load_update = add32 s.calc_load_update load_freq;
      }

  unfoldable pub calc_global_load : Load → Option Load
  unfolding next_window calc_global_nohz
  calc_global_load s =
      if time_before s.jiffies (add32 s.calc_load_update 10)
      then some s
      else calc_global_nohz (next_window s)

  unfoldable pub calc_load_account_active : Load → ℕ → Load
  unfolding calc_load_fold_active
  calc_load_account_active s c =
      if time_before s.jiffies (s.rqs c).calc_load_update
      then s
      else let (r, delta) = calc_load_fold_active (s.rqs c) in
        let tasks = if not (delta == 0) then add32 s.calc_load_tasks delta else s.calc_load_tasks in
        let s = record s { calc_load_tasks = tasks } in
        put_load_rq s c (record r { calc_load_update = add32 r.calc_load_update load_freq })

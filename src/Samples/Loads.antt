-- ===== src/Samples/Loads.antt =====
-- The theorems on the load averages at small states.
use android_kernel_programmi.Base.{
  ℕ, ◌-◌, ◌/◌, ◌^◌, ◌<◌, ◌≤◌, ◌≡◌, ◌↔◌, refl, some, List, [], ◌∷◌, add32, sub32, sub64, arith, All,
  length,
}
use android_kernel_programmi.Load.Power.{
  Ends, power_loop, power_loop-rounds, calc_load, calc_load_between,
}
use android_kernel_programmi.Load.Average.{
  Load, load_freq, calc_global_load, calc_load_account_active, calc_load_enter_idle,
}
use android_kernel_programmi.Load.Conserve.{Conserved, LoadReach, LoadStep, LoadReach-Conserved}
use android_kernel_programmi.Load.Window.{calc_global_load_catches_up}
use android_kernel_programmi.Load.Age.{Aged, sched_avg_update, after_periods, sched_avg_update_lem}
use android_kernel_programmi.Load.Cpu.{
  CpuLoad, update_cpu_load, update_cpu_load_le, ticks_at, ticks_at_settles,
}

abbrev two_cpus : List ℕ
two_cpus = 0 ∷ 1 ∷ []

-- Two cpus at boot, with three tasks that can run and one in uninterruptible sleep.
abbrev booted : Load
booted = record {
  jiffies = 5000;
  calc_load_tasks = 0;
  calc_load_update = 0;
  avenrun = record { one = 0; five = 0; fifteen = 0 };
  calc_load_idle = λ i. 0;
  calc_load_idx = 0;
  rqs = λ c. record {
    nr_running = 3;
    nr_uninterruptible = 1;
    calc_load_active = 0;
    calc_load_update = 0;
  };
}

-- The first cpu's tick, then the second goes idle.
abbrev sampled : Load
sampled = calc_load_enter_idle (calc_load_account_active 100 booted 0) 1

sampled-LoadReach : LoadReach two_cpus 100 booted sampled
sampled-LoadReach =
    LoadReach.next (LoadReach.next LoadReach.here (LoadStep.account 0 refl refl))
      (LoadStep.enter_idle 1 refl refl)

LoadReach-Conserved_example : Conserved two_cpus sampled
LoadReach-Conserved_example =
    LoadReach-Conserved two_cpus (refl, (refl, tt)) 100 booted sampled sampled-LoadReach refl

calc_global_load_catches_up_example :
    (t : Load) × (calc_global_load 100 booted ≡ some t)
    × (let w = sub32 (add32 t.calc_load_update 10) t.jiffies in (0 < w) × (w ≤ load_freq 100))
calc_global_load_catches_up_example =
    calc_global_load_catches_up 100 (omega arith) (omega arith) booted refl

power_loop-rounds_example : Ends (power_loop 3 11 2048 1884 5) ↔ (5 < 2 ^ 3)
power_loop-rounds_example = power_loop-rounds 3 11 2048 1884 5 (omega arith)

calc_load_between_example : (2048 ≤ calc_load 2048 1884 6144) × (calc_load 2048 1884 6144 ≤ 6144)
calc_load_between_example =
    calc_load_between 2048 6144 2048 1884 6144 (omega arith) (omega arith)
      (omega arith, omega arith) (omega arith, omega arith)

abbrev stale : Aged
stale = record { age_stamp = 100; rt_avg = 800 }

sched_avg_update_lem_example :
    sched_avg_update 500 1700 stale ≡ some (after_periods ((sub64 1700 100 - 1) / 500) 500 stale)
sched_avg_update_lem_example =
    sched_avg_update_lem 500 1700 stale (omega arith) (omega arith) (omega arith) (omega arith)

abbrev busy : CpuLoad
busy = record {
  load_weight = 2048;
  cpu_load = 1024 ∷ 512 ∷ 256 ∷ 128 ∷ 64 ∷ [];
  last_load_update_tick = 7;
  nr_load_updates = 7;
  clock = 1700;
  aged = stale;
}

update_cpu_load_le_example :
    (t : CpuLoad) × (update_cpu_load 500 12 busy ≡ some t)
    × All (λ x. x ≤ 2048) t.cpu_load
    × (length t.cpu_load ≡ 5)
update_cpu_load_le_example =
    update_cpu_load_le 2048 500 12 busy (omega arith) (omega arith)
      (omega arith, omega arith, omega arith) (omega arith)
      (omega arith, (omega arith, (omega arith, (omega arith, (omega arith, tt))))) refl

ticks_at_settles_example : ticks_at 10 3 1024 1015 ≡ 1024
ticks_at_settles_example =
    ticks_at_settles 10 3 1024 1015 (omega arith) (omega arith) (omega arith) (omega arith)
      (omega arith) (omega arith)

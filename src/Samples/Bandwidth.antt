-- ===== src/Samples/Bandwidth.antt =====
-- The theorems on real-time bandwidth at two cpus that lend each other runtime.
use android_kernel_programmi.Base.{ℕ, true, some, List, [], ◌∷◌, update, arith, refl, false, ◌≡◌}
use android_kernel_programmi.Rt.Balance.{RtBandwidth, RtShare, balance_runtime, disable_runtime}
use android_kernel_programmi.Rt.Lending.{Fair, takes_part}
use android_kernel_programmi.Rt.Hotplug.{disable_runtime-Fair}

abbrev domain : List ℕ
domain = 0 ∷ 1 ∷ []

abbrev bandwidth : RtBandwidth
bandwidth = record { rt_period = 1000000000; rt_runtime = 950000000 }

abbrev all_up : ℕ → RtShare
all_up i = record { rt_runtime = 950000000; rt_time = 0; rt_throttled = false }

all_up-Fair : Fair bandwidth domain all_up
all_up-Fair = record { shared = refl; small = omega arith; times = λ i. omega arith }

disable_runtime-Fair_example :
    (t : ℕ → RtShare) × (disable_runtime bandwidth domain all_up 1 ≡ some t)
    × Fair bandwidth domain t
    × (takes_part t 1 ≡ false)
disable_runtime-Fair_example =
    disable_runtime-Fair bandwidth domain (refl, (refl, tt)) (omega arith) 1 all_up refl all_up-Fair

-- Cpu 0 ran for 980 ms, borrows, and goes down.
abbrev short_of : ℕ → RtShare
short_of =
    update all_up 0 (let r = all_up 0 in record r { rt_time = 980000000; rt_throttled = true })

abbrev lent : ℕ → RtShare
lent = (balance_runtime true bandwidth domain short_of 0).0

test_lent : ((lent 0).rt_runtime ≡ 1000000000) × ((lent 1).rt_runtime ≡ 900000000)
unfolding balance_runtime
test_lent = (refl, refl)

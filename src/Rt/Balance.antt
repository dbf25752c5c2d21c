-- ===== src/Rt/Balance.antt =====
-- The real-time bandwidth that the cpus of a root domain lend each other, for one task group:
-- `do_balance_runtime`, `__disable_runtime` and `__enable_runtime` of
-- Project2/goldfish/kernel/sched/rt.c (CONFIG_SMP). `u64` and `s64` are words of 64 bits.
use android_kernel_programmi.Base.{
  ℕ, ◌-◌, ◌/◌, ◌%◌, ◌^◌, Bool, true, false, not, ◌&&◌, ◌||◌, Option, none, some, List, [], ◌∷◌,
  add64, sub64, neg64, ltb, ◌==◌, if◌then◌else◌, update, length,
}

abbrev pub runtime_inf : ℕ
runtime_inf = 2 ^ 64 - 1

-- `struct rt_bandwidth` of the group.
pub record RtBandwidth : Type 0 where
  pub rt_period : ℕ
  pub rt_runtime : ℕ

-- The fields of the group's `struct rt_rq` on a cpu.
pub record RtShare : Type 0 where
  pub rt_runtime : ℕ
  pub rt_time : ℕ
  pub rt_throttled : Bool

-- `x > 0` for an `s64`.
abbrev pub positive64 : ℕ → Bool
positive64 x = not (neg64 x) && not (x % 2 ^ 64 == 0)

abbrev pub put_runtime : (ℕ → RtShare) → ℕ → ℕ → ℕ → RtShare
put_runtime s i v = update s i (let r = s i in record r { rt_runtime = v })

-- A cpu takes `diff` from cpu `i`.
abbrev pub take_from : (ℕ → RtShare) → ℕ → ℕ → ℕ → ℕ → RtShare
take_from s c i diff =
    let s = put_runtime s i (sub64 (s i).rt_runtime diff) in
    put_runtime s c (add64 (s c).rt_runtime diff)

-- One round for the cpu `c` with neighbour `i`, and whether it borrowed.
unfoldable pub borrow_from : RtBandwidth → ℕ → ℕ → (ℕ → RtShare) → ℕ → (ℕ → RtShare) × Bool
borrow_from b weight c s i =
    if i == c || (s i).rt_runtime == runtime_inf
    then (s, false)
    else (let diff = sub64 (s i).rt_runtime (s i).rt_time in
        if positive64 diff
        then (let part = diff / weight in
            let own = (s c).rt_runtime in
            let part = if ltb b.rt_period (add64 own part) then sub64 b.rt_period own else part in
            (take_from s c i part, true))
        else (s, false))

unfoldable pub borrow_loop :
    RtBandwidth → ℕ → ℕ → List ℕ → (ℕ → RtShare) → Bool → (ℕ → RtShare) × Bool
unfolding borrow_from
borrow_loop b weight c [] s more = (s, more)
borrow_loop b weight c (i ∷ is) s more =
    let (s, took) = borrow_from b weight c s i in
    elim (took && (s c).rt_runtime == b.rt_period) [
      | true ↦ (s, true)
      | false ↦ borrow_loop b weight c is s (more || took)
    ]

-- `span` is `rd->span`, the cpus of the root domain.
unfoldable pub do_balance_runtime : RtBandwidth → List ℕ → (ℕ → RtShare) → ℕ → (ℕ → RtShare) × Bool
unfolding borrow_loop
do_balance_runtime b span s c = borrow_loop b (length span) c span s false

-- `share` is `sched_feat(RT_RUNTIME_SHARE)`.
unfoldable pub balance_runtime :
    Bool → RtBandwidth → List ℕ → (ℕ → RtShare) → ℕ → (ℕ → RtShare) × Bool
unfolding do_balance_runtime
balance_runtime share b span s c =
    if not share
    then (s, false)
    else if ltb (s c).rt_runtime (s c).rt_time
    then do_balance_runtime b span s c
    else (s, false)

-- One round of the reclaim: the runtime of `i`, and what is wanted after it.
unfoldable pub reclaim : ℕ → ℕ → ℕ × ℕ
reclaim runtime want =
    if positive64 want
    then (let diff = if neg64 runtime || ltb runtime want then runtime else want in
        (sub64 runtime diff, sub64 want diff))
    else (sub64 runtime want, sub64 want want)

unfoldable pub reclaim_loop : ℕ → List ℕ → (ℕ → RtShare) → ℕ → (ℕ → RtShare) × ℕ
unfolding reclaim
reclaim_loop c [] s want = (s, want)
reclaim_loop c (i ∷ is) s want = elim (i == c || (s i).rt_runtime == runtime_inf) [
  | true ↦ reclaim_loop c is s want
  | false ↦
      let (runtime, want) = reclaim (s i).rt_runtime want in
      let s = put_runtime s i runtime in
      elim (want == 0) [ true ↦ (s, want) | false ↦ reclaim_loop c is s want ]
]

-- The part of `__disable_runtime` for the group, where the scheduler runs; no result where `BUG_ON(want)` fires.
unfoldable pub disable_runtime : RtBandwidth → List ℕ → (ℕ → RtShare) → ℕ → Option (ℕ → RtShare)
unfolding reclaim_loop
disable_runtime b span s c =
    let own = (s c).rt_runtime in
    if own == runtime_inf || own == b.rt_runtime
    then some (put_runtime s c runtime_inf)
    else (let (s, want) = reclaim_loop c span s (sub64 b.rt_runtime own) in
        if want == 0 then some (put_runtime s c runtime_inf) else none)

unfoldable pub enable_runtime : RtBandwidth → (ℕ → RtShare) → ℕ → ℕ → RtShare
enable_runtime b s c =
    update s c (record { rt_runtime = b.rt_runtime; rt_time = 0; rt_throttled = false })

-- What a notification of cpu hotplug asks for; the other events give `NOTIFY_DONE`.
pub data HotplugAction : Type 0 where
  down_prepare down_prepare_frozen down_failed down_failed_frozen online online_frozen :
      HotplugAction
  other_action : HotplugAction

unfoldable pub update_runtime :
    RtBandwidth → List ℕ → (ℕ → RtShare) → HotplugAction → ℕ → Option (ℕ → RtShare)
unfolding disable_runtime enable_runtime
update_runtime b span s HotplugAction.down_prepare c = disable_runtime b span s c
update_runtime b span s HotplugAction.down_prepare_frozen c = disable_runtime b span s c
update_runtime b span s HotplugAction.down_failed c = some (enable_runtime b s c)
update_runtime b span s HotplugAction.down_failed_frozen c = some (enable_runtime b s c)
update_runtime b span s HotplugAction.online c = some (enable_runtime b s c)
update_runtime b span s HotplugAction.online_frozen c = some (enable_runtime b s c)
update_runtime b span s HotplugAction.other_action c = some s

-- ===== src/Rt/Hotplug.antt =====
-- Cpus that lend runtime, go down and come up, in any order.
use android_kernel_programmi.Base.{
  ℕ, ◌+◌, ◌-◌, ◌^◌, ◌≡◌, ◌<◌, refl, Bool, true, false, ◌||◌, some, List, sub64, ltb, ◌==◌, update,
  sum_of, has, NoDup, All-has, Bool-cases, inl, inr, arith,
}
use android_kernel_programmi.Rt.Balance.{
  RtBandwidth, RtShare, runtime_inf, put_runtime, reclaim_loop, balance_runtime, disable_runtime,
  HotplugAction, update_runtime,
}
use android_kernel_programmi.Rt.Lending.{takes_part, runtime_of, due_of, Fair}
use android_kernel_programmi.Rt.Reclaim.{
  rest_of, rest_due, Reclaimed, reclaim_loop-Serves, reclaim_loop-Returns, disabled-Fair,
  own_and_rest, own_and_rest_due,
}

module _ (b : RtBandwidth) (span : List ℕ) (d : NoDup span) (hb : b.rt_runtime < 2 ^ 63) where
  after_reclaim :
      (c : ℕ) (s t : ℕ → RtShare) (w g : ℕ)
      → Fair b span s
      → Reclaimed b c span s t w g
      → sum_of (due_of b s) span ≡ due_of b s c + sum_of (rest_due b c s) span
      → sum_of (rest_of c s) span + g ≡ sum_of (rest_due b c s) span + w
      → Fair b span (put_runtime t c runtime_inf)
        × (takes_part (put_runtime t c runtime_inf) c ≡ false)
  after_reclaim c s t w g f r dues e =
      disabled-Fair b c span t (omega (arith, r.rests, r.dues, e))
        (omega (arith, r.dues, dues, f.small)) (λ i. rw (r.times i) (f.times i))

  -- A cpu that goes down takes back what it lent, or gives back what it borrowed: where the cpus that
  -- take part have together what they are due, `disable_runtime` succeeds, that is `BUG_ON(want)`
  -- does not fire, the cpu no longer takes part, and those that do have what they are due. The
  -- runtime of the group is below 2^63, and the domain lists the cpu, and each cpu once.
  pub disable_runtime-Fair :
      (c : ℕ) (s : ℕ → RtShare)
      → has c span ≡ true
      → Fair b span s
      → (t : ℕ → RtShare) × (disable_runtime b span s c ≡ some t)
        × Fair b span t
        × (takes_part t c ≡ false)
  unfolding disable_runtime
  disable_runtime-Fair c s hc f =
      let own = (s c).rt_runtime in
      let sums = own_and_rest c span s d hc in
      let dues = own_and_rest_due b c span s d hc in
      elim (Bool-cases (own == runtime_inf || own == b.rt_runtime)) [
        | inl e ↦
            let fair =
              disabled-Fair b c span s (ground (arith, sums, dues, f.shared))
                (omega (arith, dues, f.small)) f.times in
            (put_runtime s c runtime_inf, rw (disable_runtime, e) refl, fair.0, fair.1)
        | inr e ↦
            let mine : runtime_of s c ≡ own = ground arith in
            let due : due_of b s c ≡ b.rt_runtime = ground arith in
            let all : own + sum_of (rest_of c s) span
                ≡ b.rt_runtime + sum_of (rest_due b c s) span =
              omega (arith, sums, dues, f.shared, mine, due) in
            let bound : own + sum_of (rest_of c s) span < 2 ^ 63 =
              omega (arith, all, dues, due, f.small) in
            elim (Bool-cases (ltb own b.rt_runtime)) [
              | inl q ↦
                  let w = b.rt_runtime - own in
                  let lack : sub64 b.rt_runtime own ≡ w = ground arith in
                  let served =
                    reclaim_loop-Serves b c span d span s w d (All-has span) (omega arith)
                      (ground arith) (omega arith) (ground arith) in
                  let t = (reclaim_loop c span s w).0 in
                  let fair = after_reclaim c s t w 0 f served.1 dues (ground arith) in
                  (
                    put_runtime t c runtime_inf,
                    rw (disable_runtime, e, lack, served.0) refl,
                    fair.0,
                    fair.1,
                  )
              | inr q ↦
                  let n = own - b.rt_runtime in
                  let much : sub64 b.rt_runtime own ≡ sub64 0 n = ground arith in
                  let returned =
                    reclaim_loop-Returns b c span d span s n (All-has span) (ground arith)
                      (ground arith) (ground arith) in
                  let t = (reclaim_loop c span s (sub64 0 n)).0 in
                  let fair = after_reclaim c s t 0 n f returned.1 dues (ground arith) in
                  (
                    put_runtime t c runtime_inf,
                    rw (disable_runtime, e, much, returned.0) refl,
                    fair.0,
                    fair.1,
                  )
            ]
      ]

-- The notifications after which a cpu takes part.
abbrev pub brings_up : HotplugAction → Bool
brings_up HotplugAction.down_failed = true
brings_up HotplugAction.down_failed_frozen = true
brings_up HotplugAction.online = true
brings_up HotplugAction.online_frozen = true
brings_up a = false

-- A step of a domain's bandwidth for a group.
pub data BandwidthStep (b : RtBandwidth) (span : List ℕ) (s t : ℕ → RtShare) : Type 0 where
  -- a cpu that takes part is short of runtime
  borrow :
      (share : Bool) (c : ℕ)
      → has c span ≡ true
      → takes_part s c ≡ true
      → t ≡ (balance_runtime share b span s c).0
      → BandwidthStep b span s t
  -- a notification; a cpu comes up only when it was down
  notify :
      (a : HotplugAction) (c : ℕ)
      → has c span ≡ true
      → (brings_up a ≡ true → takes_part s c ≡ false)
      → update_runtime b span s a c ≡ some t
      → BandwidthStep b span s t
  -- tasks run, or the period ends: any time below 2^63 ns
  charge :
      (c time : ℕ) (throttled : Bool)
      → time < 2 ^ 63
      → t ≡ update s c (let r = s c in record r { rt_time = time; rt_throttled = throttled })
      → BandwidthStep b span s t

pub data BandwidthReach (b : RtBandwidth) (span : List ℕ) (s : ℕ → RtShare)
    : (ℕ → RtShare) → Type 0 where
  here : BandwidthReach b span s s
  next :
      {t u : ℕ → RtShare}
      → BandwidthReach b span s t
      → BandwidthStep b span t u
      → BandwidthReach b span s u

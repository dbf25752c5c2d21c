-- ===== src/Rt/Start.antt =====
-- A queue as `init_rt_rq` and `init_tg_rt_entry` leave it.
use android_kernel_programmi.Sched.Policy.{max_rt_prio}
use android_kernel_programmi.Base.{
  ℕ, zero, suc, ◌≡◌, ◌<◌, ◌≤◌, refl, sym, ap, ◌∙◌, true, false, List, [], update, update_self,
  update_ne, ◌==◌, ltb, Bool-cases, inl, inr, arith, sum_of, length,
}
use android_kernel_programmi.Rt.State.{RtRq}
use android_kernel_programmi.Rt.Array.{init_array, init_rt_rq, init_tg_rt_rq}
use android_kernel_programmi.Rt.Bits.{queued, below}
use android_kernel_programmi.Rt.Level.{LevelOk}

cleared_below :
    (n : ℕ) (r : RtRq) (i : ℕ)
    → i < n
    → ((init_array n r).queue i ≡ []) × ((init_array n r).bitmap i ≡ false)
unfolding init_array
cleared_below zero r i h = absurd (omega arith)
cleared_below (suc n) r i h = elim (Bool-cases (n == i)) [
  | inl m ↦ rw m (refl, refl)
  | inr m ↦ rw m (cleared_below n r i (ground arith))
]

unchanged_above : (n : ℕ) (r : RtRq) (i : ℕ) → n ≤ i → (init_array n r).queue i ≡ r.queue i
unfolding init_array
unchanged_above zero r i h = refl
unchanged_above (suc n) r i h =
    let m : (n == i) ≡ false = ground arith in rw m (unchanged_above n r i (omega arith))

same_count : (n : ℕ) (r : RtRq) → (init_array n r).rt_nr_running ≡ r.rt_nr_running
unfolding init_array
same_count zero r = refl
same_count (suc n) r = same_count n r

no_entry :
    (q : ℕ → List ℕ) (n : ℕ)
    → ((i : ℕ) → i < n → q i ≡ [])
    → sum_of (λ i. length (q i)) (below n) ≡ 0
no_entry q zero h = refl
no_entry q (suc n) h =
    let e = ap length (h n (omega arith)) in
    omega (arith, e, no_entry q n (λ i l. h i (omega arith)))

-- A new queue is well formed, whatever its array held before: for a queue whose memory is zeroed, so
-- that its counter is 0, and where there is nothing beyond the last priority.
pub new_rt_rq-LevelOk :
    (r : RtRq) (group : ℕ)
    → r.rt_nr_running ≡ 0
    → ((i : ℕ) → max_rt_prio ≤ i → r.queue i ≡ [])
    → LevelOk (init_tg_rt_rq (init_rt_rq r) group)
unfolding init_tg_rt_rq init_rt_rq
new_rt_rq-LevelOk r group count beyond =
    let a = init_array max_rt_prio r in
    let empty : (i : ℕ) → a.queue i ≡ [] = λ i. elim (Bool-cases (ltb i max_rt_prio)) [
      | inl l ↦ (cleared_below max_rt_prio r i (ground arith)).0
      | inr l ↦
          let high : max_rt_prio ≤ i = ground arith in
          unchanged_above max_rt_prio r i high ∙ beyond i high
    ] in
    let bit : (i : ℕ) → i < max_rt_prio → update a.bitmap max_rt_prio true i ≡ false = λ i l.
      let n : (max_rt_prio == i) ≡ false = ground arith in
      update_ne a.bitmap max_rt_prio i true n ∙ (cleared_below max_rt_prio r i l).1 in
    let zero_sum : queued a.queue ≡ 0 = no_entry a.queue max_rt_prio (λ i l. empty i) in
    record {
      distinct = λ i. rw (empty i) tt;
      bits = λ i l. rw (empty i) (bit i l);
      delimiter = update_self a.bitmap max_rt_prio true;
      count = same_count max_rt_prio r ∙ (count ∙ sym zero_sum);
      few = omega (arith, zero_sum);
      high = record {
        least = bit;
        found = update_self a.bitmap max_rt_prio true;
        range = omega arith;
      };
    }

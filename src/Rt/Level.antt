-- ===== src/Rt/Level.antt =====
-- The invariant of one `rt_rq`, and that joining and leaving keep it.
use android_kernel_programmi.Sched.Policy.{max_rt_prio}
use android_kernel_programmi.Base.{
  ℕ, suc, ◌+◌, ◌^◌, ◌≡◌, ◌<◌, refl, sym, ◌∙◌, ap, Bool, true, false, not, List, [], ◌∷◌, ◌++◌,
  update, update_ne, update_any, sub32, ◌==◌, if◌then◌else◌, has, NoDup, remove, length,
  length-append, length-remove, NoDup-snoc, NoDup-remove, Bool-cases, inl, inr, arith,
}
use android_kernel_programmi.Rt.State.{RtRq, RtEnv}
use android_kernel_programmi.Rt.Array.{
  list_empty, inc_rt_prio, dec_rt_prio, inc_rt_group, dec_rt_group, inc_rt_tasks, dec_rt_tasks,
  join, leave,
}
use android_kernel_programmi.Rt.Bits.{
  queued, HighOk, HighOk-set, cleared, cleared_delimiter, cleared_bits, cleared-HighOk, has_filled,
  queued-update,
}

-- Each priority's list has no duplicate and its bit says whether it is empty; the counter is the
-- number of entries, and `highest_prio` the least priority with an entry, or MAX_RT_PRIO.
pub record LevelOk (r : RtRq) : Type 0 where
  pub distinct : (i : ℕ) → NoDup (r.queue i)
  pub bits : (i : ℕ) → i < max_rt_prio → r.bitmap i ≡ not (list_empty (r.queue i))
  pub delimiter : r.bitmap max_rt_prio ≡ true
  pub count : r.rt_nr_running ≡ queued r.queue
  pub few : queued r.queue < 2 ^ 32
  pub high : HighOk r.bitmap r.highest_prio

-- The list that an entry joins.
unfoldable pub joined : RtEnv → Bool → ℕ → List ℕ → List ℕ
joined env head e q = if head then env.list_ops.list_add e q else env.list_ops.list_add_tail e q

pub joined_lem :
    (env : RtEnv) (head : Bool) (e : ℕ) (q : List ℕ)
    → has e q ≡ false
    → NoDup q
    → NoDup (joined env head e q)
      × (list_empty (joined env head e q) ≡ false)
      × (length (joined env head e q) ≡ suc (length q))
unfolding joined
joined_lem env true e q h d = rw (env.list_ops.add_lem e q h) ((h, d), refl, refl)
joined_lem env false e q h d =
    rw (env.list_ops.add_tail_lem e q h)
      (NoDup-snoc e q d h, snoc_filled q, omega (arith, length-append q (e ∷ [])))
  where
    snoc_filled : (q : List ℕ) → list_empty (q ++ (e ∷ [])) ≡ false
    snoc_filled [] = refl
    snoc_filled (x ∷ xs) = refl

-- A new entry of priority `prio`, at either end: for an entry not yet in that list and fewer than
-- 2^32 - 1 entries.
pub join-LevelOk :
    (env : RtEnv) (r : RtRq) (e prio : ℕ) (boosted head : Bool)
    → prio < max_rt_prio
    → has e (r.queue prio) ≡ false
    → queued r.queue + 1 < 2 ^ 32
    → LevelOk r
    → LevelOk (join env r e prio boosted head)
unfolding join inc_rt_tasks inc_rt_prio inc_rt_group joined
join-LevelOk env r e prio boosted head hp he few k =
    let xs = joined env head e (r.queue prio) in
    let j = joined_lem env head e (r.queue prio) he (k.distinct prio) in
    let n = queued-update r.queue prio xs hp in
    let total : queued (update r.queue prio xs) ≡ queued r.queue + 1 = omega (arith, n, j.2) in
    record {
      distinct = update_any NoDup r.queue prio xs j.0 (λ i n. k.distinct i);
      bits = λ i h. elim (Bool-cases (prio == i)) [
        | inl m ↦ rw m (rw j.1 refl)
        | inr m ↦ rw m (k.bits i h)
      ];
      delimiter = update_ne r.bitmap prio max_rt_prio true (ground arith) ∙ k.delimiter;
      count = omega (arith, total, k.count, few);
      few = omega (arith, total, few);
      high = HighOk-set r.bitmap r.highest_prio prio hp k.high;
    }

-- An entry of priority `prio` leaves its list.
pub leave-LevelOk :
    (env : RtEnv) (r : RtRq) (e prio : ℕ) (boosted : Bool)
    → prio < max_rt_prio
    → has e (r.queue prio) ≡ true
    → LevelOk r
    → LevelOk (leave env r e prio prio boosted)
unfolding leave dec_rt_tasks dec_rt_prio dec_rt_group cleared
leave-LevelOk env r e prio boosted hp he k =
    let q = r.queue prio in
    let was : r.bitmap prio ≡ true = k.bits prio hp ∙ ap not (has_filled e q he) in
    let xs = env.list_ops.list_del_init e q in
    let gone : xs ≡ remove e q = env.list_ops.del_lem e q (k.distinct prio) he in
    let n = queued-update r.queue prio xs hp in
    let one : length xs + 1 ≡ length q = rw gone (sym (length-remove e q he)) in
    let total : queued (update r.queue prio xs) + 1 ≡ queued r.queue = omega (arith, n, one) in
    record {
      distinct =
          update_any NoDup r.queue prio xs (rw gone (NoDup-remove e q (k.distinct prio)))
            (λ i n. k.distinct i);
      bits = cleared_bits r.bitmap r.queue prio xs was k.bits;
      delimiter = cleared_delimiter r.bitmap r.queue prio xs hp k.delimiter;
      count = omega (arith, total, k.count, k.few);
      few = omega (arith, total, k.few);
      high =
          cleared-HighOk env r.bitmap r.queue r.highest_prio prio (sub32 r.rt_nr_running 1) xs hp
            was k.delimiter k.bits (omega (arith, total, k.count, k.few)) k.high;
    }

-- ===== src/Rt/Pick.antt =====
-- `pick_next_task_rt` on a state of the class.
use android_kernel_programmi.Sched.Policy.{max_rt_prio}
use android_kernel_programmi.Base.{
  ℕ, zero, suc, ◌+◌, ◌≡◌, ◌<◌, refl, sym, ap, ◌∙◌, Bool, true, false, not, none, some, List, [],
  ◌∷◌, has, length, Option-cases, Bool-cases, inl, inr, arith, leb, sum_of, ◌==◌,
}
use android_kernel_programmi.Rt.State.{RtRq, RtSys, RtEnv, put_rt_task}
use android_kernel_programmi.Rt.Array.{list_empty, rt_rq_throttled}
use android_kernel_programmi.Rt.Tick.{pick_next_rt_entity, pick_down, pick_next_task_rt, Picked}
use android_kernel_programmi.Rt.Bits.{below}
use android_kernel_programmi.Rt.Level.{LevelOk}
use android_kernel_programmi.Rt.Inv.{Tree, RtOk}

not-false : (b : Bool) → not b ≡ false → b ≡ true
not-false true h = refl
not-false false h = sym h

not-true : (b : Bool) → not b ≡ true → b ≡ false
not-true true h = sym h
not-true false h = refl

sum_zero : (f : ℕ → ℕ) (n : ℕ) → ((i : ℕ) → i < n → f i ≡ 0) → sum_of f (below n) ≡ 0
sum_zero f zero h = refl
sum_zero f (suc n) h = omega (arith, h n (omega arith), sum_zero f n (λ i l. h i (omega arith)))

-- A queue with an entry has a first priority.
pub highest_lt : (r : RtRq) → LevelOk r → 0 < r.rt_nr_running → r.highest_prio < max_rt_prio
highest_lt r k h = elim (Bool-cases (leb max_rt_prio r.highest_prio)) [
  | inr e ↦ ground arith
  | inl e ↦
      let none_at : (i : ℕ) → i < max_rt_prio → length (r.queue i) ≡ 0 =
        λ i l. is_nil (r.queue i) (empty_bit r k i l (k.high.least i (ground arith))) in
      absurd (omega (arith, k.count, sum_zero (λ i. length (r.queue i)) max_rt_prio none_at))
]
  where
    is_nil : (xs : List ℕ) → list_empty xs ≡ true → length xs ≡ 0
    is_nil [] e = refl
    is_nil (x ∷ xs) e = ground arith

    empty_bit :
        (r : RtRq)
        → LevelOk r
        → (i : ℕ) → i < max_rt_prio
        → r.bitmap i ≡ false
        → list_empty (r.queue i) ≡ true
    empty_bit r k i l b = not-false (list_empty (r.queue i)) (sym (k.bits i l) ∙ b)

-- The first bit that is set is that of `highest_prio`.
first_is_highest :
    (env : RtEnv) (r : RtRq) → LevelOk r → env.sched_find_first_bit r.bitmap ≡ r.highest_prio
first_is_highest env r k =
    let law = env.find_first_bit_lem r.bitmap max_rt_prio (omega arith) k.delimiter in
    first_unique r.bitmap (env.sched_find_first_bit r.bitmap) r.highest_prio law.0 k.high.found
      law.1 k.high.least
  where
    first_unique :
        (bits : ℕ → Bool) (a b : ℕ)
        → bits a ≡ true
        → bits b ≡ true
        → ((m : ℕ) → m < a → bits m ≡ false)
        → ((m : ℕ) → m < b → bits m ≡ false)
        → a ≡ b
    first_unique bits a b ha hb la lb = ground (arith, la b, lb a)

-- The first entry of the list of the first priority that has one.
pick_next_rt_entity_lem :
    (env : RtEnv) (r : RtRq)
    → LevelOk r
    → 0 < r.rt_nr_running
    → (e : ℕ) × (pick_next_rt_entity env r ≡ some e) × (has e (r.queue r.highest_prio) ≡ true)
unfolding pick_next_rt_entity
pick_next_rt_entity_lem env r k h =
    let lt = highest_lt r k h in
    let below_end : leb max_rt_prio r.highest_prio ≡ false = ground arith in
    let filled =
      not-true (list_empty (r.queue r.highest_prio))
        (sym (k.bits r.highest_prio lt) ∙ k.high.found) in
    let f = first_of (r.queue r.highest_prio) filled in
    (
      f.0,
      rw (pick_next_rt_entity, first_is_highest env r k, below_end, f.2) refl,
      rw f.2 (ground arith),
    )
  where
    first_of : (xs : List ℕ) → list_empty xs ≡ false → (e : ℕ) × (es : List ℕ) × (xs ≡ e ∷ es)
    first_of [] h = absurd (ground arith)
    first_of (x ∷ xs) h = (x, xs, refl)

-- Down through the groups from a queue that is not empty: `k` is how deep its entities are.
pick_down_lem :
    (env : RtEnv) (depth fuel k q : ℕ) (s : RtSys)
    → Tree depth s
    → RtOk s
    → ((e : ℕ) → (s.entities e).rt_rq ≡ q → length (s.entities e).parents ≡ k)
    → depth < fuel + k
    → 0 < (s.rt_rqs q).rt_nr_running
    → (p : ℕ) × (pick_down env fuel s q ≡ some p)
      × ((s.entities p).my_q ≡ none)
      × ((i : ℕ) × ((s.entities p).run_list ≡ some i))
unfolding pick_down
pick_down_lem env depth zero k q s t ok level h n =
    let r = s.rt_rqs q in
    let e = pick_next_rt_entity_lem env r (ok.levels q) n in
    let l = ok.links e.0 q r.highest_prio e.2 in absurd (omega (arith, t.deep e.0, level e.0 l.0))
pick_down_lem env depth (suc fuel) k q s t ok level h n =
    let r = s.rt_rqs q in
    let (e, pick, place) = pick_next_rt_entity_lem env r (ok.levels q) n in
    let l = ok.links e q r.highest_prio place in
    elim (Option-cases (s.entities e).my_q) [
      | inl none_q ↦ (e, rw (pick_down, pick, none_q) refl, none_q, (r.highest_prio, l.1))
      | inr (g, some_q) ↦
          let inner : (c : ℕ) → (s.entities c).rt_rq ≡ g → length (s.entities c).parents ≡ k + 1 =
            λ c at. ap length (t.owner c e g some_q at) ∙ deeper e k (level e l.0) in
          let rest =
            pick_down_lem env depth fuel (k + 1) g s t ok inner (omega arith)
              (ok.filled e g r.highest_prio l.1 some_q) in
          (rest.0, rw (pick_down, pick, some_q) rest.1, rest.2, rest.3)
    ]
  where
    deeper :
        (e k : ℕ) → length (s.entities e).parents ≡ k → suc (length (s.entities e).parents) ≡ k + 1
    deeper e k h = omega arith

-- A pick of the real-time class does not crash: in a well-formed state with groups nested `depth`
-- deep at most, where the cpu's queue has an entity and is not throttled, `pick_next_task_rt` gives a
-- task that is on a queue, within `depth` + 1 levels and without a BUG, and starts its time.
pub pick_next_task_rt_picks :
    (env : RtEnv) (depth : ℕ) (s : RtSys)
    → Tree depth s
    → RtOk s
    → 0 < (s.rt_rqs 0).rt_nr_running
    → rt_rq_throttled (s.rt_rqs 0) ≡ false
    → (p : ℕ) × (pick_next_task_rt env depth s
        ≡ Picked.picked p
            (put_rt_task s p (let t = s.tasks p in record t { exec_start = s.clock_task })))
      × ((s.entities p).my_q ≡ none)
      × ((i : ℕ) × ((s.entities p).run_list ≡ some i))
unfolding pick_next_task_rt
pick_next_task_rt_picks env depth s t ok n h =
    let r =
      pick_down_lem env depth (depth + 1) 0 0 s t ok (λ e at. ap length (t.top e at)) (omega arith)
        n in
    let busy : ((s.rt_rqs 0).rt_nr_running == 0) ≡ false = ground arith in
    (r.0, rw (pick_next_task_rt, busy, h, r.1) refl, r.2, r.3)

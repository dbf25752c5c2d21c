-- ===== src/Samples/Group.antt =====
-- A cpu with HZ 100 whose one group of real-time tasks has three members, none of them queued.
use android_kernel_programmi.Base.{
  ℕ, zero, suc, ◌+◌, ◌≡◌, ◌<◌, ◌≤◌, refl, sym, ap, ◌∙◌, Bool, true, false, none, some, [], ◌∷◌,
  ◌==◌, ltb, has, Bool-cases, inl, inr, arith, if◌then◌else◌, subst, ==_iff,
}
use android_kernel_programmi.Base.Int.{pos}
use android_kernel_programmi.Samples.Kernel.{lists}
use android_kernel_programmi.Rt.State.{RtEntity, RtRq, RtSys, RtEnv}
use android_kernel_programmi.Rt.Queue.{chain_of}
use android_kernel_programmi.Rt.Level.{LevelOk}
use android_kernel_programmi.Rt.Inv.{Tree}
use android_kernel_programmi.Rt.Hooks.{ClassOk}

-- The first bit that is set, of `n` from `i` on.
pub first_bit : (ℕ → Bool) → ℕ → ℕ → ℕ
first_bit bits i zero = i
first_bit bits i (suc n) = let rest = first_bit bits (i + 1) n in if bits i then i else rest

pub first_bit_found :
    (bits : ℕ → Bool) (i n k : ℕ)
    → i ≤ k
    → k ≤ i + n
    → bits k ≡ true
    → (bits (first_bit bits i n) ≡ true)
      × ((m : ℕ) → i ≤ m → m < first_bit bits i n → bits m ≡ false)
unfolding first_bit
first_bit_found bits i zero k l u h =
    let e : k ≡ i = omega arith in (ap bits (sym e) ∙ h, λ m p q. absurd (omega arith))
first_bit_found bits i (suc n) k l u h = elim (Bool-cases (bits i)) [
  | inl b ↦ rw (first_bit, b) (b, λ m p q. absurd (omega arith))
  | inr b ↦
      let ne : i < k = ground arith in
      let r = first_bit_found bits (i + 1) n k (omega arith) (omega arith) h in
      rw (first_bit, b)
        (
          r.0,
          λ m p q. elim (Bool-cases (m == i)) [
            | inl e ↦ ground arith
            | inr e ↦ r.1 m (ground arith) q
          ],
        )
]

-- HZ is 100, and no task has a limit.
abbrev pub config : RtEnv
config = record {
  list_ops = lists;
  sched_find_first_bit = λ bits. first_bit bits 0 100;
  find_first_bit_lem = λ bits n l h.
      let r = first_bit_found bits 0 100 n (omega arith) (omega arith) h in
      (r.0, λ m p. r.1 m (omega arith) p);
  hz = 100;
  rt_bandwidth_enabled = true;
  rttime_soft = λ p. none;
  rttime_hard = λ p. 0;
}

abbrev group_entity : RtEntity
group_entity = record {
  run_list = none;
  timeout = 0;
  time_slice = 0;
  parents = [];
  rt_rq = 0;
  my_q = some 1;
}

abbrev inner_entity : RtEntity
inner_entity = record {
  run_list = none;
  timeout = 0;
  time_slice = 1;
  parents = 100 ∷ [];
  rt_rq = 1;
  my_q = none;
}

abbrev outer_entity : RtEntity
outer_entity = record {
  run_list = none;
  timeout = 0;
  time_slice = 1;
  parents = [];
  rt_rq = 7;
  my_q = none;
}

abbrev empty_rq : ℕ → RtRq
empty_rq group = record {
  queue = λ i. [];
  bitmap = λ i. i == 100;
  rt_nr_running = 0;
  highest_prio = 100;
  rt_nr_boosted = 0;
  rt_throttled = false;
  rt_time = 0;
  rt_runtime = 950000000;
  tg = group;
}

-- Tasks 0 to 2, all of policy SCHED_RR, are in group 1, whose entity is 100. None is queued.
abbrev pub nothing_queued : RtSys
nothing_queued = record {
  tasks = λ p. record {
    prio = 50;
    normal_prio = 50;
    policy = 2;
    is_rt = true;
    on_rq = true;
    need_resched = false;
    exec_start = 0;
    sum_exec_runtime = 0;
    exec_max = 0;
    sched_exp = 0;
  };
  entities = λ x. if x == 100 then group_entity else if ltb x 3 then inner_entity else outer_entity;
  rt_rqs = λ q. empty_rq q;
  groups = λ g. record {
    rt_period = 1000000000;
    rt_runtime = 950000000;
    rt_se = if g == 1 then some 100 else none;
    rt_rq = g;
  };
  curr = 0;
  idle = 9;
  nr_running = 0;
  clock_task = 1000000;
  skip_clock_update = pos 0;
}

empty_rq-LevelOk : (g : ℕ) → LevelOk (empty_rq g)
empty_rq-LevelOk g = record {
  distinct = λ i. tt;
  bits = λ i h. ground arith;
  delimiter = refl;
  count = refl;
  few = omega arith;
  high = record { least = λ i h. ground arith; found = refl; range = omega arith };
}

nothing_queued-Tree : Tree 1 nothing_queued
nothing_queued-Tree = record {
  owner = λ e g q m h. elim (Bool-cases (g == 100)) [
    | inl p ↦ elim (Bool-cases (e == 100)) [
      | inl r ↦ absurd (ground arith)
      | inr r ↦ elim (Bool-cases (ltb e 3)) [
        | inl l ↦ rw (p, r, l) (ap (λ z. z ∷ []) (sym ((==_iff g 100).0 p)))
        | inr l ↦ absurd (ground arith)
      ]
    ]
    | inr p ↦ elim (Bool-cases (ltb g 3)) [
      | inl l ↦ absurd (ground arith)
      | inr l ↦ absurd (ground arith)
    ]
  ];
  nested = λ e g gs h. elim (Bool-cases (g == 100)) [
    | inl p ↦ elim (Bool-cases (e == 100)) [ inl r ↦ absurd (ground arith) | inr r ↦ ground arith ]
    | inr p ↦ ground arith
  ];
  top = λ e h. ground arith;
  deep = λ e. ground arith;
}

pub nothing_queued-ClassOk : ClassOk 1 nothing_queued
nothing_queued-ClassOk = record {
  ok = record {
    levels = λ q. empty_rq-LevelOk q;
    links = λ e q i h. absurd (ground arith);
    placed = λ e i h. absurd (ground arith);
    prios = λ e i h. absurd (ground arith);
    filled = λ e q i h m. absurd (ground arith);
    known = λ e i h. absurd (ground arith);
  };
  tree = nothing_queued-Tree;
  groups = λ g e h x hx.
      let e100 : e ≡ 100 = ground arith in
      let at : has x (chain_of nothing_queued 100) ≡ true =
        subst (λ y. has x (chain_of nothing_queued y) ≡ true) e100 hx in
      (λ m. omega arith, ground arith);
}

-- ===== src/Rt/Bits.antt =====
-- The bitmap of a priority array and its first bit, and the number of entries of its lists.
use android_kernel_programmi.Sched.Policy.{max_rt_prio}
use android_kernel_programmi.Base.{
  ℕ, zero, suc, ◌+◌, ◌≡◌, ◌<◌, ◌≤◌, refl, sym, ◌∙◌, ap, Bool, true, false, not, List, [], ◌∷◌,
  update, update_self, update_ne, ltb, ◌==◌, if◌then◌else◌, sum_of, sum_of_change, has, NoDup,
  length, Bool-cases, inl, inr, arith, ==_iff, sum_of-remove,
}
use android_kernel_programmi.Rt.State.{RtEnv}
use android_kernel_programmi.Rt.Array.{list_empty}

-- The numbers below `n`, from the highest.
abbrev pub below : ℕ → List ℕ
below zero = []
below (suc n) = n ∷ below n

pub has-below : (i n : ℕ) → i < n → has i (below n) ≡ true
has-below i zero h = absurd (omega arith)
has-below i (suc n) h = ground (arith, has-below i n)

below_out : (i n : ℕ) → n ≤ i → has i (below n) ≡ false
below_out i zero h = refl
below_out i (suc n) h = ground (arith, below_out i n)

NoDup-below : (n : ℕ) → NoDup (below n)
NoDup-below zero = tt
NoDup-below (suc n) = (below_out n n (omega arith), NoDup-below n)

abbrev pub queued : (ℕ → List ℕ) → ℕ
queued q = sum_of (λ i. length (q i)) (below max_rt_prio)

-- `high` is the first bit that is set, of those up to the delimiter.
pub record HighOk (bits : ℕ → Bool) (high : ℕ) : Type 0 where
  pub least : (i : ℕ) → i < high → bits i ≡ false
  pub found : bits high ≡ true
  pub range : high ≤ max_rt_prio

pub HighOk-set :
    (bits : ℕ → Bool) (high prio : ℕ)
    → prio < max_rt_prio
    → HighOk bits high
    → HighOk (update bits prio true) (if ltb prio high then prio else high)
HighOk-set bits high prio hp k = elim (Bool-cases (ltb prio high)) [
  | inl e ↦ rw e (record {
    least = λ i h. ground (arith, k.least i);
    found = update_self bits prio true;
    range = omega arith;
  })
  | inr e ↦ rw e (record {
    least = λ i h. ground (arith, k.least i);
    found = ground (arith, k.found);
    range = k.range;
  })
]

-- Where bits of other priorities than `high` are cleared.
HighOk-clear :
    (bits : ℕ → Bool) (high prio : ℕ) (clear : Bool)
    → (prio == high) ≡ false
    → HighOk bits high
    → HighOk (if clear then update bits prio false else bits) high
HighOk-clear bits high prio true n k = record {
  least = λ i h. ground (arith, k.least i);
  found = update_ne bits prio high false n ∙ k.found;
  range = k.range;
}
HighOk-clear bits high prio false n k = k

pub HighOk-find :
    (env : RtEnv) (bits : ℕ → Bool)
    → bits max_rt_prio ≡ true
    → HighOk bits (env.sched_find_first_bit bits)
HighOk-find env bits d =
    let f = env.find_first_bit_lem bits max_rt_prio (omega arith) d in
    record { least = f.1; found = f.0; range = first_le bits (env.sched_find_first_bit bits) d f.1 }
  where
    first_le :
        (bits : ℕ → Bool) (n : ℕ)
        → bits max_rt_prio ≡ true
        → ((m : ℕ) → m < n → bits m ≡ false)
        → n ≤ max_rt_prio
    first_le bits n d l = ground (arith, l max_rt_prio)

-- The entries after a change of one list.
pub queued-update :
    (q : ℕ → List ℕ) (i : ℕ) (xs : List ℕ)
    → i < max_rt_prio
    → queued (update q i xs) + length (q i) ≡ queued q + length xs
queued-update q i xs h =
    let here : length (update q i xs i) ≡ length xs = ap length (update_self q i xs) in
    omega (
      arith,
      here,
      sum_of_change (λ j. length (q j)) (λ j. length (update q i xs j)) i (below max_rt_prio)
          (λ j n. ap length (sym (update_ne q i j xs n))) (NoDup-below max_rt_prio)
          (has-below i max_rt_prio h),
    )

pub has_filled : (e : ℕ) (q : List ℕ) → has e q ≡ true → list_empty q ≡ false
has_filled e [] h = ground arith
has_filled e (x ∷ xs) h = refl

-- The bitmap after a list changed and, if it is empty now, its bit was cleared.
unfoldable pub cleared : (ℕ → Bool) → (ℕ → List ℕ) → ℕ → List ℕ → ℕ → Bool
cleared bits queue prio xs =
    if list_empty (update queue prio xs prio) then update bits prio false else bits

pub cleared_delimiter :
    (bits : ℕ → Bool) (queue : ℕ → List ℕ) (prio : ℕ) (xs : List ℕ)
    → prio < max_rt_prio
    → bits max_rt_prio ≡ true
    → cleared bits queue prio xs max_rt_prio ≡ true
unfolding cleared
cleared_delimiter bits queue prio xs hp d =
    elim (Bool-cases (list_empty (update queue prio xs prio))) [
      | inl e ↦ rw e (update_ne bits prio max_rt_prio false (ground arith) ∙ d)
      | inr e ↦ rw e d
    ]

pub none_left :
    (queue : ℕ → List ℕ) (i : ℕ) → i < max_rt_prio → queued queue ≡ 0 → list_empty (queue i) ≡ true
none_left queue i h z = is_nil (queue i) (
    omega (
      arith,
      z,
      sum_of-remove (λ j. length (queue j)) i (below max_rt_prio) (has-below i max_rt_prio h),
    ))
  where
    is_nil : (xs : List ℕ) → length xs ≡ 0 → list_empty xs ≡ true
    is_nil [] e = refl
    is_nil (x ∷ xs) e = absurd (omega arith)

pub cleared_bits :
    (bits : ℕ → Bool) (queue : ℕ → List ℕ) (prio : ℕ) (xs : List ℕ)
    → bits prio ≡ true
    → ((i : ℕ) → i < max_rt_prio → bits i ≡ not (list_empty (queue i)))
    → (i : ℕ) → i < max_rt_prio
    → cleared bits queue prio xs i ≡ not (list_empty (update queue prio xs i))
unfolding cleared
cleared_bits bits queue prio xs was k i h =
    let here : list_empty (update queue prio xs prio) ≡ list_empty xs =
      ap list_empty (update_self queue prio xs) in
    elim (Bool-cases (list_empty xs)) [
      | inl e ↦
          rw (here, e)
            (elim (Bool-cases (prio == i)) [ inl m ↦ rw (m, e) refl | inr m ↦ rw m (k i h) ])
      | inr e ↦
          rw (here, e)
            (elim (Bool-cases (prio == i)) [
              | inl m ↦ rw (m, e) (ap bits (sym ((==_iff prio i).0 m)) ∙ was)
              | inr m ↦ rw m (k i h)
            ])
    ]

pub cleared-HighOk :
    (env : RtEnv) (bits : ℕ → Bool) (queue : ℕ → List ℕ) (high prio nr : ℕ) (xs : List ℕ)
    → prio < max_rt_prio
    → bits prio ≡ true
    → bits max_rt_prio ≡ true
    → ((i : ℕ) → i < max_rt_prio → bits i ≡ not (list_empty (queue i)))
    → nr ≡ queued (update queue prio xs)
    → HighOk bits high
    → HighOk (cleared bits queue prio xs) (
        if not (nr == 0)
        then (if prio == high then env.sched_find_first_bit (cleared bits queue prio xs) else high)
        else max_rt_prio)
unfolding cleared
cleared-HighOk env bits queue high prio nr xs hp was delim k count hi =
    let delim' = cleared_delimiter bits queue prio xs hp delim in
    elim (Bool-cases (nr == 0)) [
      | inl z ↦ rw z (record {
        least = λ i h.
            cleared_bits bits queue prio xs was k i h
            ∙ ap not (none_left (update queue prio xs) i h (sym count ∙ (==_iff nr 0).0 z));
        found = delim';
        range = omega arith;
      })
      | inr z ↦ elim (Bool-cases (prio == high)) [
        | inl m ↦ rw (z, m) (HighOk-find env (cleared bits queue prio xs) delim')
        | inr m ↦
            rw (z, m) (HighOk-clear bits high prio (list_empty (update queue prio xs prio)) m hi)
      ]
    ]

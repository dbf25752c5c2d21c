-- ===== src/Rt/Capacity.antt =====
-- A queue holds no more entities than there are numbers for them.
use android_kernel_programmi.Sched.Policy.{max_rt_prio}
use android_kernel_programmi.Base.{
  ℕ, zero, suc, ◌≡◌, ◌<◌, ◌≤◌, refl, sym, ap, ◌∙◌, Bool, true, false, ◌||◌, none, some, List, [],
  ◌∷◌, ◌++◌, has, has-append, has-remove_ne, has-remove_self, NoDup, NoDup-remove, remove, length,
  length-append, length-remove, sum_of, Bool-cases, inl, inr, arith, ◌==◌, ==_iff,
}
use android_kernel_programmi.Rt.State.{RtSys}
use android_kernel_programmi.Rt.Bits.{queued, below}
use android_kernel_programmi.Rt.Inv.{RtOk, entity_max}

-- Distinct numbers below `n` are `n` at most.
pigeonhole : (n : ℕ) (xs : List ℕ) → NoDup xs → ((x : ℕ) → has x xs ≡ true → x < n) → length xs ≤ n
pigeonhole zero [] d h = omega arith
pigeonhole zero (x ∷ xs) d h = let l = h x (ground arith) in absurd (omega arith)
pigeonhole (suc n) xs d h = elim (Bool-cases (has n xs)) [
  | inl m ↦
      let less = pigeonhole n (remove n xs) (NoDup-remove n xs d) (λ x k. removed x k) in
      omega (arith, length-remove n xs m, less)
  | inr m ↦ let less = pigeonhole n xs d (λ x k. other x k m) in omega arith
]
  where
    other : (x : ℕ) → has x xs ≡ true → has n xs ≡ false → x < n
    other x k m = elim (Bool-cases (n == x)) [
      | inl e ↦ let same = ap (λ y. has y xs) ((==_iff n x).0 e) in absurd (ground arith)
      | inr e ↦ let l = h x k in ground arith
    ]

    removed : (x : ℕ) → has x (remove n xs) ≡ true → x < n
    removed x k = elim (Bool-cases (n == x)) [
      | inl e ↦
          let gone = has-remove_self n xs d in
          let same = ap (λ y. has y (remove n xs)) ((==_iff n x).0 e) in absurd (ground arith)
      | inr e ↦ let l = h x (sym (has-remove_ne n x xs e) ∙ k) in ground arith
    ]

NoDup-append :
    (xs ys : List ℕ)
    → NoDup xs
    → NoDup ys
    → ((x : ℕ) → has x xs ≡ true → has x ys ≡ false)
    → NoDup (xs ++ ys)
NoDup-append [] ys d e h = e
NoDup-append (x ∷ xs) ys d e h = (
  has-append x xs ys ∙ both (has x xs) (has x ys) d.0 (h x (ground arith)),
  NoDup-append xs ys d.1 e (λ y k. h y (ground arith)),
)
  where
    both : (a b : Bool) → a ≡ false → b ≡ false → (a || b) ≡ false
    both a b p q = rw (p, q) refl

-- All entries of the priorities below `n`.
flat : (ℕ → List ℕ) → ℕ → List ℕ
flat queue zero = []
flat queue (suc n) = queue n ++ flat queue n

length-flat :
    (queue : ℕ → List ℕ) (n : ℕ) → length (flat queue n) ≡ sum_of (λ i. length (queue i)) (below n)
unfolding flat
length-flat queue zero = refl
length-flat queue (suc n) =
    omega (arith, length-append (queue n) (flat queue n), length-flat queue n)

has-flat :
    (queue : ℕ → List ℕ) (n x : ℕ)
    → has x (flat queue n) ≡ true
    → (i : ℕ) × (i < n) × (has x (queue i) ≡ true)
unfolding flat
has-flat queue zero x h = absurd (ground arith)
has-flat queue (suc n) x h = elim (Bool-cases (has x (queue n))) [
  | inl m ↦ (n, omega arith, m)
  | inr m ↦
      let later : has x (flat queue n) ≡ true =
        rest (has x (queue n)) (has x (flat queue n)) m
          (sym (has-append x (queue n) (flat queue n)) ∙ h) in
      let r = has-flat queue n x later in (r.0, omega (arith, r.1), r.2)
]
  where
    rest : (a b : Bool) → a ≡ false → (a || b) ≡ true → b ≡ true
    rest a b p q = ground arith

some_number : {i j : ℕ} → some i ≡ some j → i ≡ j
some_number {i} e = ap (λ o. elim o [ none ↦ i | some x ↦ x ]) e

module _ (s : RtSys) (ok : RtOk s) (q : ℕ) where
  NoDup-flat : (n : ℕ) → NoDup (flat (s.rt_rqs q).queue n)
  unfolding flat
  NoDup-flat zero = tt
  NoDup-flat (suc n) =
      NoDup-append ((s.rt_rqs q).queue n) (flat (s.rt_rqs q).queue n) ((ok.levels q).distinct n)
        (NoDup-flat n) (λ x h. apart_below x h)
    where
      apart_below :
          (x : ℕ) → has x ((s.rt_rqs q).queue n) ≡ true → has x (flat (s.rt_rqs q).queue n) ≡ false
      apart_below x h = elim (Bool-cases (has x (flat (s.rt_rqs q).queue n))) [
        | inr m ↦ m
        | inl m ↦
            let (i, l, k) = has-flat (s.rt_rqs q).queue n x m in
            let same : i ≡ n = some_number (sym (ok.links x q i k).1 ∙ (ok.links x q n h).1) in
            absurd (omega arith)
      ]

  pub queued_le : queued (s.rt_rqs q).queue ≤ entity_max
  queued_le =
      let bounded =
        pigeonhole entity_max (flat (s.rt_rqs q).queue max_rt_prio) (NoDup-flat max_rt_prio)
          (λ x h. known x h) in
      omega (arith, bounded, length-flat (s.rt_rqs q).queue max_rt_prio)
    where
      known : (x : ℕ) → has x (flat (s.rt_rqs q).queue max_rt_prio) ≡ true → x < entity_max
      known x h =
          let (i, l, k) = has-flat (s.rt_rqs q).queue max_rt_prio x h in
          ok.known x i (ok.links x q i k).1

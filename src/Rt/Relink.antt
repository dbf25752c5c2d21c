-- ===== src/Rt/Relink.antt =====
-- One entity's link and its queue change: what the invariant asks of that.
use android_kernel_programmi.Sched.Policy.{max_rt_prio}
use android_kernel_programmi.Base.{
  ℕ, suc, ◌≡◌, ◌<◌, refl, sym, ap, ◌∙◌, subst, true, false, Option, some, List, ◌∷◌, has, length,
  Option-cases, Bool-cases, inl, inr, arith, ◌==◌, ==_iff, update_any,
}
use android_kernel_programmi.Rt.State.{RtEntity, RtRq, RtSys, put_rt_entity, put_rt_rq}
use android_kernel_programmi.Rt.Queue.{rt_se_prio}
use android_kernel_programmi.Rt.Level.{LevelOk}
use android_kernel_programmi.Rt.Inv.{Tree, RtOk, entity_max}

-- The state after entity `e` got the link `o` and its queue became `r`.
abbrev pub relink : RtSys → ℕ → Option ℕ → RtRq → RtSys
relink s e o r =
    put_rt_rq (put_rt_entity s e (let t = s.entities e in record t { run_list = o }))
      (s.entities e).rt_rq r

abbrev pub queue_at : RtSys → ℕ → RtRq
queue_at s e = s.rt_rqs (s.entities e).rt_rq

pub record Relinks (s : RtSys) (e : ℕ) (o : Option ℕ) (r : RtRq) : Type 0 where
  pub level : LevelOk r
  pub others : (x i : ℕ) → (e == x) ≡ false → has x (r.queue i) ≡ has x ((queue_at s e).queue i)
  pub linked : (i : ℕ) → has e (r.queue i) ≡ true → o ≡ some i
  pub placed : (i : ℕ) → o ≡ some i → has e (r.queue i) ≡ true
  pub prio : (i : ℕ) → o ≡ some i → (rt_se_prio s e ≡ i) × (i < max_rt_prio)
  pub filled :
      (i q : ℕ) → o ≡ some i → (s.entities e).my_q ≡ some q → 0 < (s.rt_rqs q).rt_nr_running
  pub known : (i : ℕ) → o ≡ some i → e < entity_max
  -- a queued owner of the queue sees no change
  pub calm :
      (g i : ℕ)
      → (s.entities g).run_list ≡ some i
      → (s.entities g).my_q ≡ some (s.entities e).rt_rq
      → (r.highest_prio ≡ (queue_at s e).highest_prio) × (0 < r.rt_nr_running)

-- No entity owns the queue that it is on.
pub not_own :
    (depth : ℕ) (s : RtSys) (e q : ℕ)
    → Tree depth s
    → (s.entities e).my_q ≡ some q
    → ((s.entities e).rt_rq == q) ≡ false
not_own depth s e q t h = elim (Bool-cases ((s.entities e).rt_rq == q)) [
  | inr n ↦ n
  | inl y ↦
      absurd
        (longer (s.entities e).parents e (t.owner e e q h ((==_iff (s.entities e).rt_rq q).0 y)))
]
  where
    longer : (xs : List ℕ) (x : ℕ) → xs ≡ x ∷ xs → ⊥
    longer xs x h = let n : length xs ≡ suc (length xs) = ap length h in omega arith

-- A field that the link does not touch.
pub same_field {ℓ} :
    {A : Type ℓ} (f : RtEntity → A) (s : RtSys) (e : ℕ) (o : Option ℕ) (r : RtRq)
    → f (let t = s.entities e in record t { run_list = o }) ≡ f (s.entities e)
    → (x : ℕ) → f ((relink s e o r).entities x) ≡ f (s.entities x)
same_field f s e o r h x = elim (Bool-cases (e == x)) [
  | inl m ↦ rw m (h ∙ ap (λ y. f (s.entities y)) ((==_iff e x).0 m))
  | inr m ↦ rw m refl
]

pub relink-Tree :
    (depth : ℕ) (s : RtSys) (e : ℕ) (o : Option ℕ) (r : RtRq)
    → Tree depth s
    → Tree depth (relink s e o r)
relink-Tree depth s e o r t =
    let up = same_field (λ y. y.parents) s e o r refl in
    let own = same_field (λ y. y.my_q) s e o r refl in
    let at = same_field (λ y. y.rt_rq) s e o r refl in
    record {
      owner = λ x g q a b.
          up x ∙ (t.owner x g q (sym (own g) ∙ a) (sym (at x) ∙ b) ∙ ap (λ l. g ∷ l) (sym (up g)));
      nested = λ x g gs a. t.nested x g gs (sym (up x) ∙ a) ∙ sym (up g);
      top = λ x a. up x ∙ t.top x (sym (at x) ∙ a);
      deep = λ x. rw (up x) (t.deep x);
    }

-- The priority of an entity, where its group's queue keeps its first priority.
same_prio :
    (s : RtSys) (e : ℕ) (o : Option ℕ) (r : RtRq) (x : ℕ)
    → ((s.entities x).my_q ≡ some (s.entities e).rt_rq
        → r.highest_prio ≡ (queue_at s e).highest_prio)
    → rt_se_prio (relink s e o r) x ≡ rt_se_prio s x
unfolding rt_se_prio
same_prio s e o r x h =
    let own = same_field (λ y. y.my_q) s e o r refl x in
    elim (Option-cases (s.entities x).my_q) [
      | inl n ↦ rw (rt_se_prio, own, n) refl
      | inr (q, m) ↦
          rw (rt_se_prio, own, m)
            (elim (Bool-cases ((s.entities e).rt_rq == q)) [
              | inr k ↦ rw k refl
              | inl k ↦
                  let here = (==_iff (s.entities e).rt_rq q).0 k in
                  rw k (h (m ∙ ap some (sym here)) ∙ ap (λ y. (s.rt_rqs y).highest_prio) here)
            ])
    ]

module _ (depth : ℕ) (s : RtSys) (e : ℕ) (o : Option ℕ) (r : RtRq) (t : Tree depth s) (ok : RtOk s)
    (w : Relinks s e o r) where
  abbrev after : RtSys
  after = relink s e o r

  links_after :
      (x q i : ℕ)
      → has x ((after.rt_rqs q).queue i) ≡ true
      → ((after.entities x).rt_rq ≡ q) × ((after.entities x).run_list ≡ some i)
  links_after x q i h =
      let at = same_field (λ y. y.rt_rq) s e o r refl x in
      elim (Bool-cases ((s.entities e).rt_rq == q)) [
        | inl k ↦
            let here = (==_iff (s.entities e).rt_rq q).0 k in
            let h' : has x (r.queue i) ≡ true = rw k at h in
            elim (Bool-cases (e == x)) [
              | inl m ↦
                  let is_x = (==_iff e x).0 m in
                  (
                    at ∙ (ap (λ y. (s.entities y).rt_rq) (sym is_x) ∙ here),
                    rw m (w.linked i (subst (λ y. has y (r.queue i) ≡ true) (sym is_x) h')),
                  )
              | inr m ↦
                  let l = ok.links x (s.entities e).rt_rq i (sym (w.others x i m) ∙ h') in
                  (at ∙ (l.0 ∙ here), rw m l.1)
            ]
        | inr k ↦
            let l = ok.links x q i (rw k at h) in
            (
              at ∙ l.0,
              elim (Bool-cases (e == x)) [
                | inl m ↦
                    let eq : (s.entities e).rt_rq ≡ q =
                      ap (λ y. (s.entities y).rt_rq) ((==_iff e x).0 m) ∙ l.0 in
                    absurd (ground arith)
                | inr m ↦ rw m l.1
              ],
            )
      ]

  placed_after :
      (x i : ℕ)
      → (after.entities x).run_list ≡ some i
      → has x ((after.rt_rqs (after.entities x).rt_rq).queue i) ≡ true
  placed_after x i h =
      let at = same_field (λ y. y.rt_rq) s e o r refl x in
      rw at (elim (Bool-cases (e == x)) [
        | inl m ↦
            let is_x = (==_iff e x).0 m in
            let link : o ≡ some i = rw m at h in
            let there : ((s.entities e).rt_rq == (s.entities x).rt_rq) ≡ true =
              (==_iff _ _).1 (ap (λ y. (s.entities y).rt_rq) is_x) in
            rw there (subst (λ y. has y (r.queue i) ≡ true) is_x (w.placed i link))
        | inr m ↦
            let p = ok.placed x i (rw m at h) in
            elim (Bool-cases ((s.entities e).rt_rq == (s.entities x).rt_rq)) [
              | inl k ↦
                  let here = (==_iff (s.entities e).rt_rq (s.entities x).rt_rq).0 k in
                  rw k
                    (w.others x i m ∙ subst (λ y. has x ((s.rt_rqs y).queue i) ≡ true) (sym here) p)
              | inr k ↦ rw k p
            ]
      ])

  prios_after :
      (x i : ℕ)
      → (after.entities x).run_list ≡ some i
      → (rt_se_prio after x ≡ i) × (i < max_rt_prio)
  prios_after x i h = elim (Bool-cases (e == x)) [
    | inl m ↦
        let is_x = (==_iff e x).0 m in
        let link : o ≡ some i = rw m at h in
        let p = w.prio i link in
        (
          same_prio s e o r x (λ q. absurd (own_e (ap (λ y. (s.entities y).my_q) is_x ∙ q)))
              ∙ (ap (rt_se_prio s) (sym is_x) ∙ p.0),
          p.1,
        )
    | inr m ↦
        let link : (s.entities x).run_list ≡ some i = rw m at h in
        let p = ok.prios x i link in (same_prio s e o r x (λ q. (w.calm x i link q).0) ∙ p.0, p.1)
  ]
    where
      own_e : (s.entities e).my_q ≡ some (s.entities e).rt_rq → ⊥
      own_e h = let n = not_own depth s e (s.entities e).rt_rq t h in ground arith

  filled_after :
      (x q i : ℕ)
      → (after.entities x).run_list ≡ some i
      → (after.entities x).my_q ≡ some q
      → 0 < (after.rt_rqs q).rt_nr_running
  filled_after x q i h g =
      let own = sym (same_field (λ y. y.my_q) s e o r refl x) ∙ g in
      elim (Bool-cases ((s.entities e).rt_rq == q)) [
        | inl k ↦
            let here = (==_iff (s.entities e).rt_rq q).0 k in
            rw k (elim (Bool-cases (e == x)) [
              | inl m ↦
                  let n =
                    not_own depth s e q t
                      (ap (λ y. (s.entities y).my_q) ((==_iff e x).0 m) ∙ own) in
                  absurd (ground arith)
              | inr m ↦ (w.calm x i (rw m at h) (own ∙ ap some (sym here))).1
            ])
        | inr k ↦ rw k (elim (Bool-cases (e == x)) [
          | inl m ↦
              w.filled i q (rw m at h) (ap (λ y. (s.entities y).my_q) ((==_iff e x).0 m) ∙ own)
          | inr m ↦ ok.filled x q i (rw m at h) own
        ])
      ]

  known_after : (x i : ℕ) → (after.entities x).run_list ≡ some i → x < entity_max
  known_after x i h = elim (Bool-cases (e == x)) [
    | inl m ↦ subst (λ y. y < entity_max) ((==_iff e x).0 m) (w.known i (rw m at h))
    | inr m ↦ ok.known x i (rw m at h)
  ]

  pub relink-RtOk : RtOk (relink s e o r)
  relink-RtOk = record {
    levels = update_any LevelOk s.rt_rqs (s.entities e).rt_rq r w.level (λ q n. ok.levels q);
    links = links_after;
    placed = placed_after;
    prios = prios_after;
    filled = filled_after;
    known = known_after;
  }

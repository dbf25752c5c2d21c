-- ===== src/Rt/Elsewhere.antt =====
-- Queues and entities that taking a group's entity off the queues and putting it on again leaves alone.
use android_kernel_programmi.Base.{
  ℕ, ◌≡◌, refl, ap, ◌∙◌, Bool, true, false, Option, some, none, List, [], ◌∷◌, has, length,
  Option-cases, Bool-cases, inl, inr, arith, ◌==◌, ==_iff,
}
use android_kernel_programmi.Rt.State.{RtSys, RtEnv, RtEntity}
use android_kernel_programmi.Rt.Array.{join, leave}
use android_kernel_programmi.Rt.Queue.{
  chain_of, rt_se_prio, rt_se_boosted, is_idle_group, queue_entity, unqueue_entity, unqueue_linked,
  unqueue_stack, queue_chain,
}
use android_kernel_programmi.Rt.Inv.{Tree}
use android_kernel_programmi.Rt.Relink.{same_field, queue_at}
use android_kernel_programmi.Rt.Rotate.{shallower}

-- The group's own queue is not among those that its entity and the groups around it are on.
pub owner_elsewhere :
    (depth : ℕ) (s : RtSys) (t : Tree depth s) (e q x : ℕ)
    → (s.entities e).my_q ≡ some q
    → has x (chain_of s e) ≡ true
    → ((s.entities x).rt_rq == q) ≡ false
owner_elsewhere depth s t e q x m h = elim (Bool-cases ((s.entities x).rt_rq == q)) [
  | inr n ↦ n
  | inl k ↦
      let deeper = ap length (t.owner x e q m ((==_iff _ _).0 k)) in
      elim (Bool-cases (e == x)) [
        | inl i ↦
            let same = ap (λ y. length (s.entities y).parents) ((==_iff e x).0 i) in
            absurd (omega (arith, same, deeper))
        | inr i ↦
            let inside : has x (s.entities e).parents ≡ true = ground arith in
            absurd
              (omega (arith, deeper, shallower depth s t (s.entities e).parents e x refl inside))
      ]
]

-- No group is inside itself.
pub not_inside :
    (depth : ℕ) (s : RtSys) (t : Tree depth s) (e : ℕ) → has e (s.entities e).parents ≡ false
not_inside depth s t e = elim (Bool-cases (has e (s.entities e).parents)) [
  | inr n ↦ n
  | inl h ↦ absurd (omega (arith, shallower depth s t (s.entities e).parents e e refl h))
]

-- The fields of an entity but its `run_list`.
abbrev pub Fixed {ℓ} : {A : Type ℓ} → (RtEntity → A) → Type ℓ
Fixed f = (y : RtEntity) (o : Option ℕ) → f (record y { run_list = o }) ≡ f y

module _ (env : RtEnv) where
  unqueue_field {ℓ} :
      {A : Type ℓ} (f : RtEntity → A) (s : RtSys) (e : ℕ)
      → Fixed f
      → (x : ℕ) → f ((unqueue_linked env s e).entities x) ≡ f (s.entities x)
  unfolding unqueue_linked unqueue_entity
  unqueue_field f s e h x = elim (Option-cases (s.entities e).run_list) [
    | inl n ↦ rw (unqueue_linked, n) refl
    | inr (i, m) ↦
        let r = leave env (queue_at s e) e i (rt_se_prio s e) (rt_se_boosted s e) in
        rw (unqueue_linked, m) (same_field f s e none r (h (s.entities e) none) x)
  ]

  pub unqueue_stack_field {ℓ} :
      {A : Type ℓ} (f : RtEntity → A) (es : List ℕ) (s : RtSys)
      → Fixed f
      → (x : ℕ) → f ((unqueue_stack env s es).entities x) ≡ f (s.entities x)
  unfolding unqueue_stack
  unqueue_stack_field f [] s h x = refl
  unqueue_stack_field f (e ∷ es) s h x =
      unqueue_field f (unqueue_stack env s es) e h x ∙ unqueue_stack_field f es s h x

  pub unqueue_stack_else :
      (es : List ℕ) (s : RtSys) (q : ℕ)
      → ((x : ℕ) → has x es ≡ true → ((s.entities x).rt_rq == q) ≡ false)
      → (unqueue_stack env s es).rt_rqs q ≡ s.rt_rqs q
  unfolding unqueue_stack unqueue_linked unqueue_entity
  unqueue_stack_else [] s q h = refl
  unqueue_stack_else (e ∷ es) s q h =
      let u = unqueue_stack env s es in
      let away : ((u.entities e).rt_rq == q) ≡ false =
        ap (λ y. y == q) (unqueue_stack_field (λ y. y.rt_rq) es s (λ y o. refl) e)
        ∙ h e (ground arith) in
      let step : (unqueue_linked env u e).rt_rqs q ≡ u.rt_rqs q =
        elim (Option-cases (u.entities e).run_list) [
          | inl n ↦ rw (unqueue_linked, n) refl
          | inr (i, m) ↦ rw (unqueue_linked, m, away) refl
        ] in
      step ∙ unqueue_stack_else es s q (λ x m. h x (ground arith))

  pub queue_field {ℓ} :
      {A : Type ℓ} (f : RtEntity → A) (s : RtSys) (e : ℕ) (head : Bool)
      → Fixed f
      → (x : ℕ) → f ((queue_entity env s e head).entities x) ≡ f (s.entities x)
  unfolding queue_entity
  queue_field f s e head h x = elim (Bool-cases (is_idle_group s e)) [
    | inl n ↦ rw (queue_entity, n) refl
    | inr n ↦
        let prio = rt_se_prio s e in
        let r = join env (queue_at s e) e prio (rt_se_boosted s e) head in
        rw (queue_entity, n) (same_field f s e (some prio) r (h (s.entities e) (some prio)) x)
  ]

  pub queue_else :
      (s : RtSys) (e q : ℕ) (head : Bool)
      → ((s.entities e).rt_rq == q) ≡ false
      → (queue_entity env s e head).rt_rqs q ≡ s.rt_rqs q
  unfolding queue_entity
  queue_else s e q head h = elim (Bool-cases (is_idle_group s e)) [
    | inl n ↦ rw (queue_entity, n) refl
    | inr n ↦ rw (queue_entity, n, h) refl
  ]

  queue_others :
      (s : RtSys) (e x : ℕ) (head : Bool)
      → (e == x) ≡ false
      → (queue_entity env s e head).entities x ≡ s.entities x
  unfolding queue_entity
  queue_others s e x head h = elim (Bool-cases (is_idle_group s e)) [
    | inl n ↦ rw (queue_entity, n) refl
    | inr n ↦ rw (queue_entity, n, h) refl
  ]

  pub queue_chain_else :
      (es : List ℕ) (s : RtSys) (q : ℕ) (head : Bool)
      → ((x : ℕ) → has x es ≡ true → ((s.entities x).rt_rq == q) ≡ false)
      → (queue_chain env s es head).rt_rqs q ≡ s.rt_rqs q
  unfolding queue_chain
  queue_chain_else [] s q head h = refl
  queue_chain_else (e ∷ es) s q head h =
      let u = queue_entity env s e head in
      let away : (x : ℕ) → has x es ≡ true → ((u.entities x).rt_rq == q) ≡ false = λ x m.
        ap (λ y. y == q) (queue_field (λ y. y.rt_rq) s e head (λ y o. refl) x)
        ∙ h x (ground arith) in
      queue_chain_else es u q head away ∙ queue_else s e q head (h e (ground arith))

  pub queue_chain_others :
      (es : List ℕ) (s : RtSys) (x : ℕ) (head : Bool)
      → has x es ≡ false
      → (queue_chain env s es head).entities x ≡ s.entities x
  unfolding queue_chain
  queue_chain_others [] s x head h = refl
  queue_chain_others (e ∷ es) s x head h =
      let u = queue_entity env s e head in
      queue_chain_others es u x head (ground arith) ∙ queue_others s e x head (ground arith)

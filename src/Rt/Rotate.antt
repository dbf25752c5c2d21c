-- ===== src/Rt/Rotate.antt =====
-- What a requeue does to the list of the task: `requeue_task_rt`, `yield_task_rt` and the end of a
-- slice.
use android_kernel_programmi.Sched.Policy.{rr}
use android_kernel_programmi.Base.{
  ℕ, ◌≡◌, ◌<◌, ◌⊎◌, refl, sym, ap, ◌∙◌, Bool, true, false, some, List, [], ◌∷◌, ◌++◌, has, remove,
  length, Option-cases, Bool-cases, inl, inr, arith, ◌==◌, ==_iff, ==_self, if◌then◌else◌,
  update_self, sub32,
}
use android_kernel_programmi.Rt.State.{RtSys, RtEnv, RtEntity, put_rt_entity}
use android_kernel_programmi.Rt.Queue.{
  chain_of, move, rt_se_prio, requeue_rt_entity, requeue_chain, requeue_task_rt,
}
use android_kernel_programmi.Rt.Inv.{Tree, RtOk}
use android_kernel_programmi.Rt.Relink.{same_field, queue_at}
use android_kernel_programmi.Rt.Class.{resched}
use android_kernel_programmi.Rt.Tick.{rr_timeslice, rotate, has_company, task_tick_end}
use android_kernel_programmi.Rt.Alike.{Alike-Kept, entity_Alike}
use android_kernel_programmi.Rt.Requeue.{move-queue, move_else}

-- The entity's queue is the cpu's own or that of a group.
abbrev pub Owned : RtSys → ℕ → Type 0
Owned s e =
    ((s.entities e).rt_rq ≡ 0) ⊎ ((g : ℕ) × ((s.entities g).my_q ≡ some (s.entities e).rt_rq))

module _ (depth : ℕ) (s : RtSys) (t : Tree depth s) where
  -- A group is less deep than what is in it.
  pub shallower :
      (gs : List ℕ) (e x : ℕ)
      → (s.entities e).parents ≡ gs
      → has x gs ≡ true
      → length (s.entities x).parents < length gs
  shallower [] e x h m = absurd (ground arith)
  shallower (g ∷ gs) e x h m =
      let up = t.nested e g gs h in
      elim (Bool-cases (g == x)) [
        | inl k ↦
            let same = ap (λ y. length (s.entities y).parents) ((==_iff g x).0 k) in
            let long = ap length up in omega (arith, same, long)
        | inr k ↦
            let inner : has x gs ≡ true = ground arith in
            omega (arith, shallower gs g x (sym up) inner)
      ]

  same_depth :
      (e x : ℕ)
      → Owned s e
      → (s.entities x).rt_rq ≡ (s.entities e).rt_rq
      → (s.entities x).parents ≡ (s.entities e).parents
  same_depth e x (inl z) h = t.top x (h ∙ z) ∙ sym (t.top e z)
  same_depth e x (inr (g, m)) h = t.owner x g _ m h ∙ sym (t.owner e g _ m refl)

  parents_elsewhere :
      (e x : ℕ)
      → Owned s e
      → has x (s.entities e).parents ≡ true
      → ((s.entities x).rt_rq == (s.entities e).rt_rq) ≡ false
  parents_elsewhere e x o m = elim (Bool-cases ((s.entities x).rt_rq == (s.entities e).rt_rq)) [
    | inr n ↦ n
    | inl k ↦
        let same = ap length (same_depth e x o ((==_iff _ _).0 k)) in
        absurd (omega (arith, same, shallower (s.entities e).parents e x refl m))
  ]

module _ (env : RtEnv) (head : Bool) where
  requeue_field {ℓ} :
      {A : Type ℓ} (f : RtEntity → A) (s : RtSys) (e : ℕ)
      → ((i : ℕ) → f (let t = s.entities e in record t { run_list = some i }) ≡ f (s.entities e))
      → (x : ℕ) → f ((requeue_rt_entity env s e head).entities x) ≡ f (s.entities x)
  unfolding requeue_rt_entity
  requeue_field f s e h x = elim (Option-cases (s.entities e).run_list) [
    | inl n ↦ rw (requeue_rt_entity, n) refl
    | inr (i, m) ↦
        rw (requeue_rt_entity, m)
          (same_field f s e (some (rt_se_prio s e))
            (move env (queue_at s e) e i (rt_se_prio s e) head) (h (rt_se_prio s e)) x)
  ]

  requeue_else :
      (s : RtSys) (e q : ℕ)
      → ((s.entities e).rt_rq == q) ≡ false
      → (requeue_rt_entity env s e head).rt_rqs q ≡ s.rt_rqs q
  unfolding requeue_rt_entity
  requeue_else s e q h = elim (Option-cases (s.entities e).run_list) [
    | inl n ↦ rw (requeue_rt_entity, n) refl
    | inr (i, m) ↦ rw (requeue_rt_entity, m, h) refl
  ]

  requeue_chain_else :
      (es : List ℕ) (s : RtSys) (q : ℕ)
      → ((x : ℕ) → has x es ≡ true → ((s.entities x).rt_rq == q) ≡ false)
      → (requeue_chain env s es head).rt_rqs q ≡ s.rt_rqs q
  unfolding requeue_chain
  requeue_chain_else [] s q h = refl
  requeue_chain_else (e ∷ es) s q h =
      let u = requeue_rt_entity env s e head in
      let away : (x : ℕ) → has x es ≡ true → ((u.entities x).rt_rq == q) ≡ false = λ x m.
        ap (λ y. y == q) (requeue_field (λ y. y.rt_rq) s e (λ i. refl) x) ∙ h x (ground arith) in
      requeue_chain_else es u q away ∙ requeue_else s e q (h e (ground arith))

  requeue_chain_field {ℓ} :
      {A : Type ℓ} (f : RtEntity → A)
      → ((t : RtEntity) (i : ℕ) → f (record t { run_list = some i }) ≡ f t)
      → (es : List ℕ) (s : RtSys) (x : ℕ)
      → f ((requeue_chain env s es head).entities x) ≡ f (s.entities x)
  unfolding requeue_chain
  requeue_chain_field f h [] s x = refl
  requeue_chain_field f h (e ∷ es) s x =
      requeue_chain_field f h es (requeue_rt_entity env s e head) x
      ∙ requeue_field f s e (h (s.entities e)) x

  -- A queued task is moved to the front or to the end of the list of its priority, and the others keep
  -- their order; no other list of its queue changes. This holds in a well-formed state for a task in
  -- the cpu's own queue or in that of a group.
  pub requeue_task_rt_lem :
      (depth : ℕ) (s : RtSys) (p i : ℕ)
      → Tree depth s
      → RtOk s
      → Owned s p
      → (s.entities p).run_list ≡ some i
      → let old = (queue_at s p).queue in
        let new = (queue_at (requeue_task_rt env s p head) p).queue in
        (new i ≡ (if head then p ∷ remove p (old i) else remove p (old i) ++ (p ∷ [])))
        × ((j : ℕ) → (i == j) ≡ false → new j ≡ old j)
  unfolding requeue_task_rt requeue_chain requeue_rt_entity
  requeue_task_rt_lem depth s p i t ok o h =
      let q = (s.entities p).rt_rq in
      let u = requeue_rt_entity env s p head in
      let v = requeue_task_rt env s p head in
      let (same_prio, first) = ok.prios p i h in
      let k = ok.levels q in
      let on = ok.placed p i h in
      let away : (x : ℕ)
          → has x (s.entities p).parents ≡ true
          → ((u.entities x).rt_rq == q) ≡ false =
        λ x m.
          ap (λ y. y == q) (requeue_field (λ y. y.rt_rq) s p (λ j. refl) x)
          ∙ parents_elsewhere depth s t p x o m in
      let here : (v.entities p).rt_rq ≡ q =
        requeue_chain_field (λ y. y.rt_rq) (λ y j. refl) (chain_of s p) s p in
      let moved : u.rt_rqs q ≡ move env (s.rt_rqs q) p i i head =
        rw (requeue_rt_entity, h, same_prio, ==_self q) refl in
      let all : queue_at v p ≡ move env (s.rt_rqs q) p i i head =
        ap (λ y. v.rt_rqs y) here ∙ (requeue_chain_else (s.entities p).parents u q away ∙ moved) in
      (
        ap (λ y. y.queue i) all ∙ move-queue env (s.rt_rqs q) p i head k first on,
        λ j n. ap (λ y. y.queue j) all ∙ move_else env (s.rt_rqs q) p i head k first on j n,
      )

requeue_time_slice :
    (env : RtEnv) (s : RtSys) (p : ℕ)
    → ((requeue_task_rt env s p false).entities p).time_slice ≡ (s.entities p).time_slice
unfolding requeue_task_rt
requeue_time_slice env s p =
    requeue_chain_field env false (λ y. y.time_slice) (λ y j. refl) (chain_of s p) s p

-- The slice of a SCHED_RR task ends: where the accounting of a tick has left the state well formed,
-- the task queued in the cpu's own queue or in that of a group, not alone on its list, and with one
-- tick of its slice left, the rest of the tick puts it at the end of the list, behind the others in
-- their order, changes no other list of the queue, gives it a full slice and has it rescheduled.
pub task_tick_end_rotates :
    (env : RtEnv) (depth : ℕ) (s : RtSys) (p i : ℕ)
    → Tree depth s
    → RtOk s
    → Owned s p
    → (s.tasks p).policy ≡ rr
    → (s.entities p).time_slice ≡ 1
    → (s.entities p).run_list ≡ some i
    → 1 < length ((queue_at s p).queue i)
    → let u = task_tick_end env s p in
      let old = (queue_at s p).queue in
      let new = (queue_at u p).queue in
      (new i ≡ remove p (old i) ++ (p ∷ []))
      × ((j : ℕ) → (i == j) ≡ false → new j ≡ old j)
      × ((u.entities p).time_slice ≡ rr_timeslice env)
      × ((u.tasks p).need_resched ≡ true)
unfolding task_tick_end rotate has_company
task_tick_end_rotates env depth s p i t ok o policy slice linked company =
    let e : RtEntity = let x = s.entities p in record x { time_slice = rr_timeslice env } in
    let s3 = put_rt_entity s p e in
    let (ok3, (t3, kin)) =
      Alike-Kept s s3 (entity_Alike s p e (refl, refl, refl, refl)) depth ok t in
    let v = requeue_task_rt env s3 p false in
    let at : s3.entities p ≡ e = update_self s.entities p e in
    let linked3 : (s3.entities p).run_list ≡ some i = ap (λ y. y.run_list) at ∙ linked in
    let queue3 : queue_at s3 p ≡ queue_at s p = ap (λ y. s.rt_rqs y.rt_rq) at in
    let owned3 : Owned s3 p = elim o [
      | inl z ↦ inl (ap (λ y. y.rt_rq) at ∙ z)
      | inr (g, m) ↦ inr (g, kin.my_q g ∙ (m ∙ ap some (sym (kin.rt_rq p))))
    ] in
    let busy : has_company s3 p ≡ true = rw (has_company, linked3, queue3) (ground arith) in
    let ends : (sub32 (s.entities p).time_slice 1 == 0) ≡ true = rw slice refl in
    let is_rr : ((s.tasks p).policy == rr) ≡ true = rw policy refl in
    let stops : task_tick_end env s p ≡ resched v p =
      rw (task_tick_end, is_rr, ends, rotate, busy) refl in
    let r = requeue_task_rt_lem env false depth s3 p i t3 ok3 owned3 linked3 in
    rw stops (
      r.0 ∙ ap (λ y. remove p (y.queue i) ++ (p ∷ [])) queue3,
      λ j n. r.1 j n ∙ ap (λ y. y.queue j) queue3,
      requeue_time_slice env s3 p ∙ ap (λ y. y.time_slice) at,
      rw (==_self p) refl,
    )

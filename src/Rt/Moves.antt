-- ===== src/Rt/Moves.antt =====
-- `__enqueue_rt_entity` and `__dequeue_rt_entity` on a state of the class.
use android_kernel_programmi.Sched.Policy.{max_rt_prio}
use android_kernel_programmi.Base.{
  ℕ, ◌+◌, ◌^◌, ◌≡◌, ◌<◌, sym, ap, ◌∙◌, subst, Bool, true, false, ◌||◌, none, some, has,
  Option-cases, Bool-cases, inl, inr, arith, ◌==◌, ==_iff,
}
use android_kernel_programmi.Rt.State.{RtSys, RtEnv}
use android_kernel_programmi.Rt.Array.{join, leave, rt_rq_throttled}
use android_kernel_programmi.Rt.Queue.{
  rt_se_prio, rt_se_boosted, is_idle_group, queue_entity, unqueue_entity,
}
use android_kernel_programmi.Rt.Bits.{queued}
use android_kernel_programmi.Rt.Level.{join-LevelOk, leave-LevelOk}
use android_kernel_programmi.Rt.Members.{
  join_others, join_self, join_else, leave_others, leave_self, leave_else,
}
use android_kernel_programmi.Rt.Inv.{Tree, RtOk, entity_max}
use android_kernel_programmi.Rt.Relink.{relink, relink-RtOk, queue_at}
use android_kernel_programmi.Rt.Pick.{highest_lt}

none-some : {i : ℕ} → none ≡ some i → ⊥
none-some h = ground arith

clash : {b : Bool} → b ≡ true → b ≡ false → ⊥
clash {b} h k = ground arith

some_inj : {i j : ℕ} → some i ≡ some j → i ≡ j
some_inj {i} h = ap (λ o. elim o [ none ↦ i | some x ↦ x ]) h

-- No entity that owns the queue of `e` is queued.
abbrev pub OwnerOff : RtSys → ℕ → Type 0
OwnerOff s e =
    (g i : ℕ)
    → (s.entities g).run_list ≡ some i
    → (s.entities g).my_q ≡ some (s.entities e).rt_rq
    → ⊥

-- A task of the class has a real-time priority, and its number is in range, as a group's.
abbrev pub RealTime : RtSys → ℕ → Type 0
RealTime s e = ((s.entities e).my_q ≡ none → (s.tasks e).prio < max_rt_prio) × (e < entity_max)

module _ (env : RtEnv) (depth : ℕ) (s : RtSys) (e : ℕ) (t : Tree depth s) (ok : RtOk s)
    (off : OwnerOff s e) where
  -- An entity that is on no list.
  pub not_queued : (s.entities e).run_list ≡ none → (q i : ℕ) → has e ((s.rt_rqs q).queue i) ≡ false
  not_queued u q i = elim (Bool-cases (has e ((s.rt_rqs q).queue i))) [
    | inl h ↦ absurd (none-some (sym u ∙ (ok.links e q i h).1))
    | inr h ↦ h
  ]

  -- A group that is queued has an entity, so a priority of its own.
  pub busy_prio :
      is_idle_group s e ≡ false
      → RealTime s e
      → (rt_se_prio s e < max_rt_prio)
        × ((q : ℕ) → (s.entities e).my_q ≡ some q → 0 < (s.rt_rqs q).rt_nr_running)
  unfolding is_idle_group rt_se_prio
  busy_prio b rt = elim (Option-cases (s.entities e).my_q) [
    | inl n ↦ (rw (rt_se_prio, n) (rt.0 n), λ q h. absurd (none-some (sym n ∙ h)))
    | inr (q, m) ↦
        let some_queued : 0 < (s.rt_rqs q).rt_nr_running =
          full (rt_rq_throttled (s.rt_rqs q)) (s.rt_rqs q).rt_nr_running
            (rw (is_idle_group, m) at b) in
        (
          rw (rt_se_prio, m) (highest_lt (s.rt_rqs q) (ok.levels q) some_queued),
          λ q' h. subst (λ y. 0 < (s.rt_rqs y).rt_nr_running) (some_inj (sym m ∙ h)) some_queued,
        )
  ]
    where
      full : (b : Bool) (n : ℕ) → (b || n == 0) ≡ false → 0 < n
      full b n h = ground arith

  pub queue_entity-RtOk :
      (head : Bool)
      → (s.entities e).run_list ≡ none
      → RealTime s e
      → queued (queue_at s e).queue + 1 < 2 ^ 32
      → RtOk (queue_entity env s e head)
  unfolding queue_entity
  queue_entity-RtOk head u rt room = elim (Bool-cases (is_idle_group s e)) [
    | inl b ↦ rw (queue_entity, b) ok
    | inr b ↦
        let prio = rt_se_prio s e in
        let out = not_queued u (s.entities e).rt_rq prio in
        let p = busy_prio b rt in
        let boosted = rt_se_boosted s e in
        rw (queue_entity, b)
          (relink-RtOk depth s e (some prio) (join env (queue_at s e) e prio boosted head) t ok
            (record {
              level =
                  join-LevelOk env (queue_at s e) e prio boosted head p.0 out room
                    (ok.levels (s.entities e).rt_rq);
              others = λ x i n. join_others env (queue_at s e) e prio boosted head out x i n;
              linked = λ i h. elim (Bool-cases (prio == i)) [
                | inl m ↦ ap some ((==_iff prio i).0 m)
                | inr m ↦ absurd (
                    clash
                      (ap (has e) (sym (join_else env (queue_at s e) e prio boosted head i m)) ∙ h)
                      (not_queued u (s.entities e).rt_rq i))
              ];
              placed = λ i h.
                  subst (λ j. has e ((join env (queue_at s e) e prio boosted head).queue j) ≡ true)
                    (some_inj h) (join_self env (queue_at s e) e prio boosted head out);
              prio = λ i h. (some_inj h, subst (λ j. j < max_rt_prio) (some_inj h) p.0);
              filled = λ i q h m. p.1 q m;
              known = λ i h. rt.1;
              calm = λ g i l m. absurd (off g i l m);
            }))
  ]

  pub unqueue_entity-RtOk :
      (i : ℕ) → (s.entities e).run_list ≡ some i → RtOk (unqueue_entity env s e i)
  unfolding unqueue_entity
  unqueue_entity-RtOk i u =
      let p = ok.prios e i u in
      let r = queue_at s e in
      let boosted = rt_se_boosted s e in
      let d = (ok.levels (s.entities e).rt_rq).distinct i in
      let on = ok.placed e i u in
      subst (λ j. RtOk (relink s e none (leave env r e i j boosted))) (sym p.0)
        (relink-RtOk depth s e none (leave env r e i i boosted) t ok (record {
          level = leave-LevelOk env r e i boosted p.1 on (ok.levels (s.entities e).rt_rq);
          others = λ x j n. leave_others env r e i boosted d on x j n;
          linked = λ j h. elim (Bool-cases (i == j)) [
            | inl m ↦ absurd (
                clash
                  (subst (λ y. has e ((leave env r e i i boosted).queue y) ≡ true)
                    (sym ((==_iff i j).0 m)) h)
                  (leave_self env r e i boosted d on))
            | inr m ↦
                absurd (other_place j m (ap (has e) (sym (leave_else env r e i boosted j m)) ∙ h))
          ];
          placed = λ j h. absurd (none-some h);
          prio = λ j h. absurd (none-some h);
          filled = λ j q h m. absurd (none-some h);
          known = λ j h. absurd (none-some h);
          calm = λ g j l m. absurd (off g j l m);
        }))
    where
      other_place : (j : ℕ) → (i == j) ≡ false → has e ((queue_at s e).queue j) ≡ true → ⊥
      other_place j n h =
          let same = some_inj (sym u ∙ (ok.links e (s.entities e).rt_rq j h).1) in ground arith

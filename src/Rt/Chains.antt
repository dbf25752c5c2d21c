-- ===== src/Rt/Chains.antt =====
-- The chain of an entity: off the queues from the outside, and on again from the inside.
use android_kernel_programmi.Base.{
  ℕ, suc, ◌+◌, ◌^◌, ◌≡◌, ◌<◌, ◌≤◌, refl, sym, ◌∙◌, subst, Bool, false, Option, none, some,
  Option-cases, Bool-cases, inl, inr, arith, ◌==◌, ==_self, update_any,
}
use android_kernel_programmi.Rt.State.{RtRq, RtSys, RtEnv}
use android_kernel_programmi.Rt.Array.{join, leave}
use android_kernel_programmi.Rt.Queue.{
  rt_se_prio, rt_se_boosted, is_idle_group, queue_entity, unqueue_entity, unqueue_linked,
}
use android_kernel_programmi.Rt.Bits.{queued}
use android_kernel_programmi.Rt.Members.{queued-join, queued-leave}
use android_kernel_programmi.Rt.Inv.{Tree, RtOk}
use android_kernel_programmi.Rt.Relink.{relink, relink-Tree, queue_at, same_field}
use android_kernel_programmi.Rt.Moves.{
  OwnerOff, RealTime, queue_entity-RtOk, unqueue_entity-RtOk, not_queued, busy_prio,
}

-- The groups and tasks that two states share.
pub record Kin (s u : RtSys) : Type 0 where
  pub parents : (x : ℕ) → (u.entities x).parents ≡ (s.entities x).parents
  pub my_q : (x : ℕ) → (u.entities x).my_q ≡ (s.entities x).my_q
  pub rt_rq : (x : ℕ) → (u.entities x).rt_rq ≡ (s.entities x).rt_rq
  pub prio : (x : ℕ) → (u.tasks x).prio ≡ (s.tasks x).prio
  pub groups : (g : ℕ) → u.groups g ≡ s.groups g

pub Kin-refl : (s : RtSys) → Kin s s
Kin-refl s = record {
  parents = λ x. refl;
  my_q = λ x. refl;
  rt_rq = λ x. refl;
  prio = λ x. refl;
  groups = λ g. refl;
}

pub Kin-trans : (s t u : RtSys) → Kin s t → Kin t u → Kin s u
Kin-trans s t u a b = record {
  parents = λ x. b.parents x ∙ a.parents x;
  my_q = λ x. b.my_q x ∙ a.my_q x;
  rt_rq = λ x. b.rt_rq x ∙ a.rt_rq x;
  prio = λ x. b.prio x ∙ a.prio x;
  groups = λ g. b.groups g ∙ a.groups g;
}

pub relink-Kin : (s : RtSys) (e : ℕ) (o : Option ℕ) (r : RtRq) → Kin s (relink s e o r)
relink-Kin s e o r = record {
  parents = same_field (λ y. y.parents) s e o r refl;
  my_q = same_field (λ y. y.my_q) s e o r refl;
  rt_rq = same_field (λ y. y.rt_rq) s e o r refl;
  prio = λ x. refl;
  groups = λ g. refl;
}

-- `k` more entities fit on each queue.
abbrev pub Room : ℕ → RtSys → Type 0
Room k s = (q : ℕ) → queued (s.rt_rqs q).queue + k < 2 ^ 32

-- What a step on entity `e` leaves: from room for `k` more to room for `j` more.
pub record Stepped (depth k j : ℕ) (s u : RtSys) (e : ℕ) : Type 0 where
  pub ok : RtOk u
  pub tree : Tree depth u
  pub kin : Kin s u
  pub others : (x : ℕ) → (e == x) ≡ false → (u.entities x).run_list ≡ (s.entities x).run_list
  pub room : Room k s → Room j u

pub stay :
    (depth k j : ℕ) (s : RtSys) (e : ℕ) → j ≤ k → Tree depth s → RtOk s → Stepped depth k j s s e
stay depth k j s e h t ok = record {
  ok = ok;
  tree = t;
  kin = Kin-refl s;
  others = λ x n. refl;
  room = λ r q. omega (arith, r q);
}

module _ (env : RtEnv) (depth : ℕ) (s : RtSys) (e : ℕ) (t : Tree depth s) (ok : RtOk s)
    (off : OwnerOff s e) where
  pub unqueue_linked-Stepped :
      (k : ℕ)
      → Stepped depth k k s (unqueue_linked env s e) e
        × (((unqueue_linked env s e).entities e).run_list ≡ none)
  unfolding unqueue_linked unqueue_entity
  unqueue_linked-Stepped k = elim (Option-cases (s.entities e).run_list) [
    | inl n ↦ rw (unqueue_linked, n) (stay depth k k s e (omega arith) t ok, n)
    | inr (i, m) ↦
        let p = ok.prios e i m in
        let r = leave env (queue_at s e) e i (rt_se_prio s e) (rt_se_boosted s e) in
        let less : queued r.queue + 1 ≡ queued (queue_at s e).queue =
          subst
            (λ j.
              queued (leave env (queue_at s e) e i j (rt_se_boosted s e)).queue + 1
              ≡ queued (queue_at s e).queue)
            (sym p.0)
            (queued-leave env (queue_at s e) e i (rt_se_boosted s e) p.1
              ((ok.levels (s.entities e).rt_rq).distinct i) (ok.placed e i m)) in
        rw (unqueue_linked, m)
          (
            record {
              ok = unqueue_entity-RtOk env depth s e t ok off i m;
              tree = relink-Tree depth s e none r t;
              kin = relink-Kin s e none r;
              others = λ x n. rw n refl;
              room = λ h.
                  update_any (λ y. queued y.queue + k < 2 ^ 32) s.rt_rqs (s.entities e).rt_rq r
                    (omega (arith, less, h (s.entities e).rt_rq)) (λ q n. h q);
            },
            rw (==_self e) refl,
          )
  ]

  pub queue_entity-Stepped :
      (k : ℕ) (head : Bool)
      → (s.entities e).run_list ≡ none
      → RealTime s e
      → Room (suc k) s
      → Stepped depth (suc k) k s (queue_entity env s e head) e
  unfolding queue_entity
  queue_entity-Stepped k head u rt room = elim (Bool-cases (is_idle_group s e)) [
    | inl b ↦ rw (queue_entity, b) (stay depth (suc k) k s e (omega arith) t ok)
    | inr b ↦
        let prio = rt_se_prio s e in
        let r = join env (queue_at s e) e prio (rt_se_boosted s e) head in
        let out = not_queued env depth s e t ok off u (s.entities e).rt_rq prio in
        let p = busy_prio env depth s e t ok off b rt in
        let more = queued-join env (queue_at s e) e prio (rt_se_boosted s e) p.0 head out in
        let fits : queued (queue_at s e).queue + 1 < 2 ^ 32 =
          omega (arith, room (s.entities e).rt_rq) in
        let done : RtOk (queue_entity env s e head) =
          queue_entity-RtOk env depth s e t ok off head u rt fits in
        rw (queue_entity, b)
          (record {
            ok = rw (queue_entity, b) at done;
            tree = relink-Tree depth s e (some prio) r t;
            kin = relink-Kin s e (some prio) r;
            others = λ x n. rw n refl;
            room = λ h.
                update_any (λ y. queued y.queue + k < 2 ^ 32) s.rt_rqs (s.entities e).rt_rq r
                  (omega (arith, more, h (s.entities e).rt_rq)) (λ q n. omega (arith, h q));
          })
  ]

-- ===== src/Rt/Hooks.antt =====
-- The hooks of `rt_sched_class` on a state of the class.
use android_kernel_programmi.Base.{
  ℕ, ◌^◌, ◌≡◌, ◌<◌, refl, sym, ap, ◌∙◌, Bool, true, false, not, ◌||◌, some, List, [], ◌∷◌,
  Option-cases, inl, inr, if◌then◌else◌, ltb, leb, ◌==◌, add64,
}
use android_kernel_programmi.Rt.State.{RtTask, RtRq, RtSys, RtEnv, put_rt_task, put_rt_rq}
use android_kernel_programmi.Rt.Array.{rt_rq_throttled}
use android_kernel_programmi.Rt.Balance.{runtime_inf}
use android_kernel_programmi.Rt.Queue.{chain_of, on_rt_rq, dequeue_rt_entity, enqueue_rt_entity}
use android_kernel_programmi.Rt.Class.{
  resched, dequeue_throttled, sched_rt_rq_dequeue, sched_rt_rq_enqueue, overrun,
  sched_rt_runtime_exceeded, charge, update_curr_rt, delta_exec,
}
use android_kernel_programmi.Rt.Inv.{Tree, RtOk}
use android_kernel_programmi.Rt.Chains.{Kin-refl}
use android_kernel_programmi.Rt.Stacks.{
  Kept, Kept_trans, ChainOk, Kin-ChainOk, dequeue_rt_entity-RtOk, enqueue_rt_entity-RtOk,
}
use android_kernel_programmi.Rt.Alike.{Alike, Alike-Kept, SameQueue, task_Alike, rt_rq_Alike}

-- The state of the class between two hooks: the groups' own entities have proper chains too.
pub record ClassOk (depth : ℕ) (s : RtSys) : Type 0 where
  pub ok : RtOk s
  pub tree : Tree depth s
  pub groups : (g e : ℕ) → (s.groups g).rt_se ≡ some e → ChainOk s e

pub Kept-ClassOk : (depth : ℕ) (s u : RtSys) → ClassOk depth s → Kept depth s u → ClassOk depth u
Kept-ClassOk depth s u c k = record {
  ok = k.0;
  tree = k.1.0;
  groups = λ g e h.
      Kin-ChainOk s u e k.1.1 (c.groups g e (ap (λ y. y.rt_se) (sym (k.1.1.groups g)) ∙ h));
}

module _ (env : RtEnv) (depth : ℕ) (small : depth < 2 ^ 30) where
  pub same : (s : RtSys) → ClassOk depth s → Kept depth s s
  same s c = (c.ok, (c.tree, Kin-refl s))

  pub alike : (s u : RtSys) → Alike s u → ClassOk depth s → Kept depth s u
  alike s u a c = Alike-Kept s u a depth c.ok c.tree

  -- A step after which a second one follows.
  pub after :
      (s t u : RtSys)
      → ClassOk depth s
      → Kept depth s t
      → (ClassOk depth t → Kept depth t u)
      → Kept depth s u
  after s t u c k f = Kept_trans depth s t u k (f (Kept-ClassOk depth s t c k))

  pub Kept-if :
      (s : RtSys) (b : Bool) (t u : RtSys)
      → (b ≡ true → Kept depth s t)
      → (b ≡ false → Kept depth s u)
      → Kept depth s (if b then t else u)
  Kept-if s true t u f g = f refl
  Kept-if s false t u f g = g refl

  pub resched-Kept : (s : RtSys) (p : ℕ) → ClassOk depth s → Kept depth s (resched s p)
  resched-Kept s p c = alike s (resched s p) (task_Alike s p _ refl) c

  sched_rt_rq_dequeue-Kept :
      (s : RtSys) (q : ℕ) → ClassOk depth s → Kept depth s (sched_rt_rq_dequeue env s q)
  unfolding sched_rt_rq_dequeue
  sched_rt_rq_dequeue-Kept s q c = elim (Option-cases (s.groups (s.rt_rqs q).tg).rt_se) [
    | inl n ↦ rw (sched_rt_rq_dequeue, n) (same s c)
    | inr (e, m) ↦
        rw (sched_rt_rq_dequeue, m)
          (Kept-if s (on_rt_rq s e) (dequeue_rt_entity env s e) s
            (λ b. dequeue_rt_entity-RtOk env depth s e small c.tree c.ok (c.groups _ e m))
            (λ b. same s c))
  ]

  -- The end of sched_rt_rq_enqueue.
  woken-Kept :
      (s t : RtSys) (b : Bool) (q : ℕ)
      → ClassOk depth s
      → Kept depth s t
      → Kept depth s (
          if b
          then (if ltb (t.rt_rqs q).highest_prio (t.tasks t.curr).prio then resched t t.curr else t)
          else s)
  woken-Kept s t b q c k =
      Kept-if s b
        (if ltb (t.rt_rqs q).highest_prio (t.tasks t.curr).prio then resched t t.curr else t) s
        (λ h.
          Kept-if s (ltb (t.rt_rqs q).highest_prio (t.tasks t.curr).prio) (resched t t.curr) t
            (λ h. after s t (resched t t.curr) c k (resched-Kept t t.curr)) (λ h. k))
        (λ h. same s c)

  pub sched_rt_rq_enqueue-Kept :
      (s : RtSys) (q : ℕ) → ClassOk depth s → Kept depth s (sched_rt_rq_enqueue env s q)
  unfolding sched_rt_rq_enqueue
  sched_rt_rq_enqueue-Kept s q c = elim (Option-cases (s.groups (s.rt_rqs q).tg).rt_se) [
    | inl n ↦
        rw (sched_rt_rq_enqueue, n)
          (woken-Kept s s (not ((s.rt_rqs q).rt_nr_running == 0)) q c (same s c))
    | inr (e, m) ↦
        let t = if not (on_rt_rq s e) then enqueue_rt_entity env s e false else s in
        let k =
          Kept-if s (not (on_rt_rq s e)) (enqueue_rt_entity env s e false) s
            (λ b. enqueue_rt_entity-RtOk env depth s e small c.tree c.ok (c.groups _ e m) false)
            (λ b. same s c) in
        rw (sched_rt_rq_enqueue, m) (woken-Kept s t (not ((s.rt_rqs q).rt_nr_running == 0)) q c k)
  ]

  -- The same for a step that also gives a flag.
  Kept-if_flag :
      (s : RtSys) (b : Bool) (t u : RtSys × Bool)
      → Kept depth s t.0
      → Kept depth s u.0
      → Kept depth s (if b then t else u).0
  Kept-if_flag s true t u f g = f
  Kept-if_flag s false t u f g = g

  overrun-Kept : (s : RtSys) (q : ℕ) → ClassOk depth s → Kept depth s (overrun s q)
  unfolding overrun
  overrun-Kept s q c =
      let r = s.rt_rqs q in
      let throttled : RtRq = record r { rt_throttled = true } in
      let reset : RtRq = record r { rt_time = 0 } in
      let same_r : SameQueue r throttled = record {
        queue = refl;
        bitmap = refl;
        count = refl;
        high = refl;
      } in
      let same_q : SameQueue r reset = record {
        queue = refl;
        bitmap = refl;
        count = refl;
        high = refl;
      } in
      Kept-if s (not ((s.groups r.tg).rt_runtime == 0)) (put_rt_rq s q throttled)
        (put_rt_rq s q reset)
        (λ b. alike s (put_rt_rq s q throttled) (rt_rq_Alike s q throttled same_r) c)
        (λ b. alike s (put_rt_rq s q reset) (rt_rq_Alike s q reset same_q) c)

  dequeue_throttled-Kept :
      (s : RtSys) (q : ℕ) → ClassOk depth s → Kept depth s (dequeue_throttled env s q).0
  unfolding dequeue_throttled
  dequeue_throttled-Kept s q c =
      Kept-if_flag s (rt_rq_throttled (s.rt_rqs q)) (sched_rt_rq_dequeue env s q, true) (s, false)
        (sched_rt_rq_dequeue-Kept s q c) (same s c)

  sched_rt_runtime_exceeded-Kept :
      (s : RtSys) (q : ℕ) → ClassOk depth s → Kept depth s (sched_rt_runtime_exceeded env s q).0
  unfolding sched_rt_runtime_exceeded
  sched_rt_runtime_exceeded-Kept s q c =
      let r = s.rt_rqs q in
      let over =
        after s (overrun s q) (dequeue_throttled env (overrun s q) q).0 c (overrun-Kept s q c)
          (dequeue_throttled-Kept (overrun s q) q) in
      Kept-if_flag s r.rt_throttled (s, rt_rq_throttled r) _ (same s c)
        (Kept-if_flag s (leb (s.groups r.tg).rt_period r.rt_runtime || r.rt_runtime == runtime_inf)
          (s, false) _ (same s c)
          (Kept-if_flag s (ltb r.rt_runtime r.rt_time) (dequeue_throttled env (overrun s q) q)
            (s, false) over (same s c)))

  charge-Kept :
      (delta : ℕ) (es : List ℕ) (s : RtSys) → ClassOk depth s → Kept depth s (charge env delta s es)
  unfolding charge
  charge-Kept delta [] s c = same s c
  charge-Kept delta (e ∷ es) s c =
      let q = (s.entities e).rt_rq in
      let r : RtRq = record (s.rt_rqs q) { rt_time = add64 (s.rt_rqs q).rt_time delta } in
      let same_r : SameQueue (s.rt_rqs q) r = record {
        queue = refl;
        bitmap = refl;
        count = refl;
        high = refl;
      } in
      let s1 = put_rt_rq s q r in
      let s2 = (sched_rt_runtime_exceeded env s1 q).0 in
      let exceeded = (sched_rt_runtime_exceeded env s1 q).1 in
      let u =
        if not ((s.rt_rqs q).rt_runtime == runtime_inf)
        then (if exceeded then resched s2 s2.curr else s2)
        else s in
      let k1 = alike s s1 (rt_rq_Alike s q r same_r) c in
      let k2 = after s s1 s2 c k1 (sched_rt_runtime_exceeded-Kept s1 q) in
      let k =
        Kept-if s (not ((s.rt_rqs q).rt_runtime == runtime_inf))
          (if exceeded then resched s2 s2.curr else s2) s
          (λ b.
            Kept-if s exceeded (resched s2 s2.curr) s2
              (λ h. after s s2 (resched s2 s2.curr) c k2 (resched-Kept s2 s2.curr)) (λ h. k2))
          (λ b. same s c) in
      after s u (charge env delta u es) c k (charge-Kept delta es u)

  -- The accounting of run time keeps the class well formed: charging the running task and its groups,
  -- with any group that becomes throttled taken off its queue. Groups are nested fewer than 2^30 deep.
  pub update_curr_rt-Kept : (s : RtSys) → ClassOk depth s → Kept depth s (update_curr_rt env s)
  unfolding update_curr_rt
  update_curr_rt-Kept s c =
      let curr = s.tasks s.curr in
      let delta = delta_exec s in
      let t : RtTask = record curr {
        exec_max = if ltb curr.exec_max delta then delta else curr.exec_max;
        sum_exec_runtime = add64 curr.sum_exec_runtime delta;
        exec_start = s.clock_task;
      } in
      let s1 = put_rt_task s s.curr t in
      let k1 = alike s s1 (task_Alike s s.curr t refl) c in
      let u = charge env delta s1 (chain_of s1 s.curr) in
      let k2 = after s s1 u c k1 (charge-Kept delta (chain_of s1 s.curr) s1) in
      Kept-if s (not curr.is_rt) s (if not env.rt_bandwidth_enabled then s1 else u) (λ b. same s c)
        (λ b. Kept-if s (not env.rt_bandwidth_enabled) s1 u (λ h. k1) (λ h. k2))

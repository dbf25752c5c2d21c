-- ===== src/Rt/Alike.antt =====
-- Steps that leave the queues as they are: times, slices, and marks.
use android_kernel_programmi.Base.{
  ℕ, ◌≡◌, refl, sym, ap, ◌∙◌, subst, ◌∷◌, Option-cases, inl, inr, update, ◌==◌, ==_iff, Bool-cases,
}
use android_kernel_programmi.Base.Int.{ℤ}
use android_kernel_programmi.Rt.State.{
  RtEntity, RtTask, RtRq, RtSys, put_rt_task, put_rt_entity, put_rt_rq,
}
use android_kernel_programmi.Rt.Queue.{rt_se_prio}
use android_kernel_programmi.Rt.Level.{LevelOk}
use android_kernel_programmi.Rt.Inv.{Tree, RtOk}
use android_kernel_programmi.Rt.Chains.{Kin}
use android_kernel_programmi.Rt.Stacks.{Kept}

-- A field of a table's entries that a write leaves.
unchanged {ℓ κ} :
    {A : Type ℓ} {B : Type κ} (f : A → B) (table : ℕ → A) (p : ℕ) (v : A)
    → f v ≡ f (table p)
    → (x : ℕ) → f (update table p v x) ≡ f (table x)
unchanged f table p v h x = elim (Bool-cases (p == x)) [
  | inl m ↦ rw m (h ∙ ap (λ y. f (table y)) ((==_iff p x).0 m))
  | inr m ↦ rw m refl
]

pub record SameQueue (r t : RtRq) : Type 0 where
  pub queue : t.queue ≡ r.queue
  pub bitmap : t.bitmap ≡ r.bitmap
  pub count : t.rt_nr_running ≡ r.rt_nr_running
  pub high : t.highest_prio ≡ r.highest_prio

SameQueue-LevelOk : (r t : RtRq) → SameQueue r t → LevelOk r → LevelOk t
SameQueue-LevelOk r t e k = record {
  distinct = λ i. rw e.queue (k.distinct i);
  bits = λ i h. rw (e.queue, e.bitmap) (k.bits i h);
  delimiter = rw e.bitmap k.delimiter;
  count = rw (e.queue, e.count) k.count;
  few = rw e.queue k.few;
  high = rw (e.bitmap, e.high) k.high;
}

pub record Alike (s u : RtSys) : Type 0 where
  pub kin : Kin s u
  pub run_list : (x : ℕ) → (u.entities x).run_list ≡ (s.entities x).run_list
  pub queues : (q : ℕ) → SameQueue (s.rt_rqs q) (u.rt_rqs q)

module _ (s u : RtSys) (a : Alike s u) where
  same_prio : (x : ℕ) → rt_se_prio u x ≡ rt_se_prio s x
  unfolding rt_se_prio
  same_prio x = elim (Option-cases (s.entities x).my_q) [
    | inl n ↦ rw (rt_se_prio, a.kin.my_q x, n) (a.kin.prio x)
    | inr (q, m) ↦ rw (rt_se_prio, a.kin.my_q x, m) (a.queues q).high
  ]

  pub Alike-Kept : (depth : ℕ) → RtOk s → Tree depth s → Kept depth s u
  Alike-Kept depth ok t = (
    record {
      levels = λ q. SameQueue-LevelOk (s.rt_rqs q) (u.rt_rqs q) (a.queues q) (ok.levels q);
      links = λ x q i h.
          let l = ok.links x q i (rw (a.queues q).queue at h) in
          (a.kin.rt_rq x ∙ l.0, a.run_list x ∙ l.1);
      placed = λ x i h.
          rw (a.kin.rt_rq x, (a.queues (s.entities x).rt_rq).queue)
            (ok.placed x i (sym (a.run_list x) ∙ h));
      prios = λ x i h. let p = ok.prios x i (sym (a.run_list x) ∙ h) in (same_prio x ∙ p.0, p.1);
      filled = λ x q i h m.
          rw (a.queues q).count (ok.filled x q i (sym (a.run_list x) ∙ h) (sym (a.kin.my_q x) ∙ m));
      known = λ x i h. ok.known x i (sym (a.run_list x) ∙ h);
    },
    (
      record {
        owner = λ x g q m h.
            a.kin.parents x
            ∙ (t.owner x g q (sym (a.kin.my_q g) ∙ m) (sym (a.kin.rt_rq x) ∙ h)
                ∙ ap (λ l. g ∷ l) (sym (a.kin.parents g)));
        nested = λ x g gs h. t.nested x g gs (sym (a.kin.parents x) ∙ h) ∙ sym (a.kin.parents g);
        top = λ x h. a.kin.parents x ∙ t.top x (sym (a.kin.rt_rq x) ∙ h);
        deep = λ x. rw (a.kin.parents x) (t.deep x);
      },
      a.kin,
    ),
  )

same_queue : (r : RtRq) → SameQueue r r
same_queue r = record { queue = refl; bitmap = refl; count = refl; high = refl }

-- A task changes, but for its priority.
pub task_Alike :
    (s : RtSys) (p : ℕ) (t : RtTask) → t.prio ≡ (s.tasks p).prio → Alike s (put_rt_task s p t)
task_Alike s p t h = record {
  kin = record {
    parents = λ x. refl;
    my_q = λ x. refl;
    rt_rq = λ x. refl;
    prio = λ x. unchanged (λ (y : RtTask). y.prio) s.tasks p t h x;
    groups = λ g. refl;
  };
  run_list = λ x. refl;
  queues = λ q. same_queue (s.rt_rqs q);
}

-- An entity changes, but for its place.
pub entity_Alike :
    (s : RtSys) (p : ℕ) (e : RtEntity)
    → (e.parents ≡ (s.entities p).parents)
      × (e.my_q ≡ (s.entities p).my_q)
      × (e.rt_rq ≡ (s.entities p).rt_rq)
      × (e.run_list ≡ (s.entities p).run_list)
    → Alike s (put_rt_entity s p e)
entity_Alike s p e (a, b, c, d) = record {
  kin = record {
    parents = λ x. unchanged (λ (y : RtEntity). y.parents) s.entities p e a x;
    my_q = λ x. unchanged (λ (y : RtEntity). y.my_q) s.entities p e b x;
    rt_rq = λ x. unchanged (λ (y : RtEntity). y.rt_rq) s.entities p e c x;
    prio = λ x. refl;
    groups = λ g. refl;
  };
  run_list = λ x. unchanged (λ (y : RtEntity). y.run_list) s.entities p e d x;
  queues = λ q. same_queue (s.rt_rqs q);
}

-- A queue changes, but for its entities.
pub rt_rq_Alike :
    (s : RtSys) (q : ℕ) (r : RtRq) → SameQueue (s.rt_rqs q) r → Alike s (put_rt_rq s q r)
rt_rq_Alike s q r h = record {
  kin = record {
    parents = λ x. refl;
    my_q = λ x. refl;
    rt_rq = λ x. refl;
    prio = λ x. refl;
    groups = λ g. refl;
  };
  run_list = λ x. refl;
  queues = λ y. elim (Bool-cases (q == y)) [
    | inl m ↦ rw m (subst (λ z. SameQueue (s.rt_rqs z) r) ((==_iff q y).0 m) h)
    | inr m ↦ rw m (same_queue (s.rt_rqs y))
  ];
}

-- The cpu's counter of tasks, and its mark for the clock.
pub count_Alike : (s : RtSys) (n : ℕ) → Alike s (record s { nr_running = n })
count_Alike s n = record {
  kin = record {
    parents = λ x. refl;
    my_q = λ x. refl;
    rt_rq = λ x. refl;
    prio = λ x. refl;
    groups = λ g. refl;
  };
  run_list = λ x. refl;
  queues = λ q. same_queue (s.rt_rqs q);
}

pub skip_Alike : (s : RtSys) (z : ℤ) → Alike s (record s { skip_clock_update = z })
skip_Alike s z = record {
  kin = record {
    parents = λ x. refl;
    my_q = λ x. refl;
    rt_rq = λ x. refl;
    prio = λ x. refl;
    groups = λ g. refl;
  };
  run_list = λ x. refl;
  queues = λ q. same_queue (s.rt_rqs q);
}

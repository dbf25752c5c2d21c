-- ===== src/Rt/Requeue.antt =====
-- `requeue_rt_entity` and `requeue_task_rt` on a state of the class.
use android_kernel_programmi.Sched.Policy.{max_rt_prio}
use android_kernel_programmi.Base.{
  ℕ, suc, ◌+◌, ◌≡◌, ◌<◌, refl, sym, ap, ◌∙◌, subst, Bool, true, false, not, none, some, List, [],
  ◌∷◌, ◌++◌, has, has-remove_ne, has-remove_self, NoDup, NoDup-remove, remove, length,
  length-remove, Option-cases, Bool-cases, inl, inr, arith, ◌==◌, ==_iff, ==_self, if◌then◌else◌,
  update, update_self, update_ne, update_any,
}
use android_kernel_programmi.Rt.State.{RtRq, RtSys, RtEnv}
use android_kernel_programmi.Rt.Array.{list_empty}
use android_kernel_programmi.Rt.Queue.{
  chain_of, move, requeue_rt_entity, requeue_chain, requeue_task_rt,
}
use android_kernel_programmi.Rt.Bits.{queued, queued-update, none_left, has_filled}
use android_kernel_programmi.Rt.Level.{LevelOk, joined, joined_lem}
use android_kernel_programmi.Rt.Members.{has-added, put_others}
use android_kernel_programmi.Rt.Inv.{Tree, RtOk}
use android_kernel_programmi.Rt.Relink.{relink, relink-RtOk, relink-Tree, queue_at}
use android_kernel_programmi.Rt.Chains.{Kin-refl, relink-Kin}
use android_kernel_programmi.Rt.Stacks.{Kept, Kept_trans}

module _ (env : RtEnv) (r : RtRq) (e i : ℕ) (head : Bool) (k : LevelOk r) (hi : i < max_rt_prio)
    (on : has e (r.queue i) ≡ true) where
  rest : List ℕ
  rest = env.list_ops.list_del_init e (r.queue i)

  moved : List ℕ
  moved =
      if head
      then env.list_ops.list_add e (update r.queue i rest i)
      else env.list_ops.list_add_tail e (update r.queue i rest i)

  rest_eq : update r.queue i rest i ≡ remove e (r.queue i)
  unfolding rest
  rest_eq = update_self r.queue i rest ∙ env.list_ops.del_lem e (r.queue i) (k.distinct i) on

  out_of_rest : has e (update r.queue i rest i) ≡ false
  out_of_rest = rw rest_eq (has-remove_self e (r.queue i) (k.distinct i))

  queue_else : (j : ℕ) → (i == j) ≡ false → update (update r.queue i rest) i moved j ≡ r.queue j
  queue_else j n = update_ne (update r.queue i rest) i j moved n ∙ update_ne r.queue i j rest n

  moved_lem :
      NoDup moved
      × (list_empty moved ≡ false)
      × (length moved ≡ suc (length (update r.queue i rest i)))
  unfolding moved joined
  moved_lem =
      joined_lem env head e (update r.queue i rest i) out_of_rest
        (rw rest_eq (NoDup-remove e (r.queue i) (k.distinct i)))

  move-LevelOk : LevelOk (move env r e i i head)
  unfolding move rest moved
  move-LevelOk =
      let d = moved_lem in
      let first = queued-update r.queue i rest hi in
      let second = queued-update (update r.queue i rest) i moved hi in
      let same_length : length (update r.queue i rest i) ≡ length rest =
        ap length (update_self r.queue i rest) in
      let one : length (update r.queue i rest i) + 1 ≡ length (r.queue i) =
        ap (λ xs. length xs + 1) rest_eq ∙ sym (length-remove e (r.queue i) on) in
      let total : queued (update (update r.queue i rest) i moved) ≡ queued r.queue =
        omega (arith, first, second, same_length, one, d.2) in
      let bit : r.bitmap i ≡ true = k.bits i hi ∙ ap not (has_filled e (r.queue i) on) in
      record {
        distinct =
            update_any NoDup (update r.queue i rest) i moved d.0
              (λ j n. subst NoDup (sym (update_ne r.queue i j rest n)) (k.distinct j));
        bits = λ j h. elim (Bool-cases (i == j)) [
          | inl m ↦ rw m (ap r.bitmap (sym ((==_iff i j).0 m)) ∙ (bit ∙ ap not (sym d.1)))
          | inr m ↦ rw m (k.bits j h)
        ];
        delimiter = k.delimiter;
        count = k.count ∙ sym total;
        few = rw total k.few;
        high = k.high;
      }

  move_others :
      (x j : ℕ) → (e == x) ≡ false → has x ((move env r e i i head).queue j) ≡ has x (r.queue j)
  unfolding move rest moved
  move_others x j n =
      put_others (update r.queue i rest) i e x j moved n
        (has-added env head e x (update r.queue i rest i) out_of_rest ∙ rw n refl)
      ∙ put_others r.queue i e x j rest n (
          ap (has x) (env.list_ops.del_lem e (r.queue i) (k.distinct i) on)
          ∙ has-remove_ne e x (r.queue i) n)

  move_self : has e ((move env r e i i head).queue i) ≡ true
  unfolding move rest moved
  move_self =
      ap (has e) (update_self (update r.queue i rest) i moved)
      ∙ (has-added env head e e (update r.queue i rest i) out_of_rest ∙ rw (==_self e) refl)

  pub move_else : (j : ℕ) → (i == j) ≡ false → (move env r e i i head).queue j ≡ r.queue j
  unfolding move rest moved
  move_else j n = queue_else j n

  pub move-queue :
      (move env r e i i head).queue i
      ≡ (if head then e ∷ remove e (r.queue i) else remove e (r.queue i) ++ (e ∷ []))
  unfolding move rest moved
  move-queue = update_self (update r.queue i rest) i moved ∙ (elim (Bool-cases head) [
    | inl h ↦
        rw (h, env.list_ops.add_lem e (update r.queue i rest i) out_of_rest)
          (ap (λ xs. e ∷ xs) rest_eq)
    | inr h ↦
        rw (h, env.list_ops.add_tail_lem e (update r.queue i rest i) out_of_rest)
          (ap (λ xs. xs ++ (e ∷ [])) rest_eq)
  ])

  move_filled : 0 < r.rt_nr_running
  move_filled = elim (Bool-cases (r.rt_nr_running == 0)) [
    | inr n ↦ ground arith
    | inl z ↦ absurd (
        clash (none_left r.queue i hi (sym k.count ∙ (==_iff r.rt_nr_running 0).0 z))
          (has_filled e (r.queue i) on))
  ]
    where
      clash : {b : Bool} → b ≡ true → b ≡ false → ⊥
      clash {b} h k = ground arith

some_inj : {i j : ℕ} → some i ≡ some j → i ≡ j
some_inj {i} h = ap (λ o. elim o [ none ↦ i | some x ↦ x ]) h

module _ (env : RtEnv) (depth : ℕ) where
  requeue_linked-Kept :
      (s : RtSys) (e i : ℕ) (head : Bool)
      → Tree depth s
      → RtOk s
      → (s.entities e).run_list ≡ some i
      → Kept depth s (relink s e (some i) (move env (queue_at s e) e i i head))
  unfolding move
  requeue_linked-Kept s e i head t ok u =
      let r = queue_at s e in
      let k = ok.levels (s.entities e).rt_rq in
      let p = ok.prios e i u in
      let on = ok.placed e i u in
      let n = move env r e i i head in
      (
        relink-RtOk depth s e (some i) n t ok (record {
          level = move-LevelOk env r e i head k p.1 on;
          others = move_others env r e i head k p.1 on;
          linked = λ j h. elim (Bool-cases (i == j)) [
            | inl m ↦ ap some ((==_iff i j).0 m)
            | inr m ↦
                sym u
                ∙ (ok.links e (s.entities e).rt_rq j
                    (ap (has e) (sym (move_else env r e i head k p.1 on j m)) ∙ h)).1
          ];
          placed = λ j h.
              subst (λ y. has e (n.queue y) ≡ true) (some_inj h)
                (move_self env r e i head k p.1 on);
          prio = λ j h. ok.prios e j (u ∙ h);
          filled = λ j q h m. ok.filled e q i u m;
          known = λ j h. ok.known e i u;
          calm = λ g j l m. (refl, move_filled env r e i head k p.1 on);
        }),
        (relink-Tree depth s e (some i) n t, relink-Kin s e (some i) n),
      )

  requeue_rt_entity-Kept :
      (s : RtSys) (e : ℕ) (head : Bool)
      → Tree depth s
      → RtOk s
      → Kept depth s (requeue_rt_entity env s e head)
  unfolding requeue_rt_entity
  requeue_rt_entity-Kept s e head t ok = elim (Option-cases (s.entities e).run_list) [
    | inl n ↦ rw (requeue_rt_entity, n) (ok, (t, Kin-refl s))
    | inr (i, m) ↦
        rw (requeue_rt_entity, m)
          (subst (λ j. Kept depth s (relink s e (some j) (move env (queue_at s e) e i j head)))
            (sym (ok.prios e i m).0) (requeue_linked-Kept s e i head t ok m))
  ]

  requeue_chain-Kept :
      (es : List ℕ) (s : RtSys) (head : Bool)
      → Tree depth s
      → RtOk s
      → Kept depth s (requeue_chain env s es head)
  unfolding requeue_chain
  requeue_chain-Kept [] s head t ok = (ok, (t, Kin-refl s))
  requeue_chain-Kept (e ∷ es) s head t ok =
      let u = requeue_rt_entity env s e head in
      let k = requeue_rt_entity-Kept s e head t ok in
      Kept_trans depth s u (requeue_chain env u es head) k (requeue_chain-Kept es u head k.1.0 k.0)

  pub requeue_task_rt-Kept :
      (s : RtSys) (p : ℕ) (head : Bool)
      → Tree depth s
      → RtOk s
      → Kept depth s (requeue_task_rt env s p head)
  unfolding requeue_task_rt
  requeue_task_rt-Kept s p head t ok = requeue_chain-Kept (chain_of s p) s head t ok

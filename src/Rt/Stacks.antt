-- ===== src/Rt/Stacks.antt =====
-- `enqueue_rt_entity` and `dequeue_rt_entity` on a state of the class.
use android_kernel_programmi.Sched.Policy.{max_rt_prio}
use android_kernel_programmi.Base.{
  ℕ, suc, ◌+◌, ◌^◌, ◌≡◌, ◌<◌, ◌≤◌, refl, sym, ap, ◌∙◌, subst, Bool, true, false, none, some, List,
  [], ◌∷◌, has, length, Bool-cases, inl, inr, arith, ◌==◌, ==_iff, if◌then◌else◌,
}
use android_kernel_programmi.Rt.State.{RtSys, RtEnv}
use android_kernel_programmi.Rt.Queue.{
  chain_of, queue_entity, unqueue_linked, unqueue_stack, dequeue_rt_stack, queue_chain,
  enqueue_rt_entity, queue_groups, dequeue_rt_entity, is_filled_group,
}
use android_kernel_programmi.Rt.Inv.{Tree, RtOk, entity_max}
use android_kernel_programmi.Rt.Capacity.{queued_le}
use android_kernel_programmi.Rt.Moves.{OwnerOff, RealTime}
use android_kernel_programmi.Rt.Chains.{
  Kin, Kin-refl, Kin-trans, Room, Stepped, stay, unqueue_linked-Stepped, queue_entity-Stepped,
}

-- A list of entities in which each is followed by its parents.
abbrev pub Ladder : RtSys → List ℕ → Type 0
Ladder s [] = Unit
Ladder s (e ∷ es) = (es ≡ (s.entities e).parents) × Ladder s es

pub chain_of-Ladder : (depth : ℕ) (s : RtSys) (e : ℕ) → Tree depth s → Ladder s (chain_of s e)
chain_of-Ladder depth s e t = go (s.entities e).parents e refl
  where
    go : (xs : List ℕ) (x : ℕ) → xs ≡ (s.entities x).parents → Ladder s (x ∷ xs)
    go [] x h = (h, tt)
    go (y ∷ ys) x h = (h, go ys y (t.nested x y ys (sym h)))

Kin-Ladder : (s u : RtSys) (es : List ℕ) → Kin s u → Ladder s es → Ladder u es
Kin-Ladder s u [] k l = tt
Kin-Ladder s u (e ∷ es) k l = (l.0 ∙ sym (k.parents e), Kin-Ladder s u es k l.1)

-- An entity of a ladder has fewer parents than the ladder has entities, so it is not its own parent.
shorter :
    (s : RtSys) (xs : List ℕ) (x : ℕ)
    → Ladder s xs
    → has x xs ≡ true
    → length (s.entities x).parents < length xs
shorter s [] x l h = absurd (ground arith)
shorter s (y ∷ ys) x l h = elim (Bool-cases (y == x)) [
  | inl m ↦
      let same : length ys ≡ length (s.entities x).parents =
        ap length l.0 ∙ ap (λ z. length (s.entities z).parents) ((==_iff y x).0 m) in
      omega arith
  | inr m ↦ let r = shorter s ys x l.1 (rw m at h) in omega arith
]

not_in : (s : RtSys) (e : ℕ) (es : List ℕ) → Ladder s (e ∷ es) → has e es ≡ false
not_in s e es l = elim (Bool-cases (has e es)) [
  | inl h ↦ let r = shorter s es e l.1 h in let same = ap length l.0 in absurd (omega arith)
  | inr h ↦ h
]

-- None of the entities is queued.
abbrev pub AllOff : RtSys → List ℕ → Type 0
AllOff s es = (x : ℕ) → has x es ≡ true → (s.entities x).run_list ≡ none

-- Then the owner of the queue of an entity below them is not.
off_from :
    (depth : ℕ) (s : RtSys) (e : ℕ) (es : List ℕ)
    → Tree depth s
    → Ladder s (e ∷ es)
    → AllOff s es
    → OwnerOff s e
off_from depth s e es t l a g i h m =
    let up = t.owner e g (s.entities e).rt_rq m refl in
    let on : has g es ≡ true = subst (λ xs. has g xs ≡ true) (sym (l.0 ∙ up)) (ground arith) in
    none_is_not_some (sym (a g on) ∙ h)
  where
    none_is_not_some : {i : ℕ} → none ≡ some i → ⊥
    none_is_not_some h = ground arith

Kin-RealTime : (s u : RtSys) (x : ℕ) → Kin s u → RealTime s x → RealTime u x
Kin-RealTime s u x k (p, n) =
    (λ m. subst (λ y. y < max_rt_prio) (sym (k.prio x)) (p (sym (k.my_q x) ∙ m)), n)

apart : (e x : ℕ) (es : List ℕ) → has e es ≡ false → has x es ≡ true → (e == x) ≡ false
apart e x es out h = elim (Bool-cases (e == x)) [
  | inl m ↦ let same = ap (λ y. has y es) ((==_iff e x).0 m) in absurd (ground arith)
  | inr m ↦ m
]

group_RealTime :
    (s : RtSys) (e : ℕ)
    → is_filled_group s e ≡ true
    → (s.entities e).my_q ≡ none
    → (s.tasks e).prio < max_rt_prio
unfolding is_filled_group
group_RealTime s e b n = absurd (false_true (rw (is_filled_group, n) at b))
  where
    false_true : false ≡ true → ⊥
    false_true h = ground arith

pub record Stacked (depth : ℕ) (s u : RtSys) (es : List ℕ) : Type 0 where
  pub ok : RtOk u
  pub tree : Tree depth u
  pub kin : Kin s u
  pub room : (k : ℕ) → Room k s → Room k u

module _ (env : RtEnv) (depth : ℕ) where
  unqueue_stack-Stacked :
      (es : List ℕ) (s : RtSys)
      → Ladder s es
      → Tree depth s
      → RtOk s
      → Stacked depth s (unqueue_stack env s es) es × AllOff (unqueue_stack env s es) es
  unfolding unqueue_stack
  unqueue_stack-Stacked [] s l t ok = (
    record { ok = ok; tree = t; kin = Kin-refl s; room = λ k r. r },
    λ x h. absurd (ground arith),
  )
  unqueue_stack-Stacked (e ∷ es) s l t ok =
      let (w, a) = unqueue_stack-Stacked es s l.1 t ok in
      let u = unqueue_stack env s es in
      let off = off_from depth u e es w.tree (Kin-Ladder s u (e ∷ es) w.kin l) a in
      let step : (k : ℕ) → Stepped depth k k u (unqueue_linked env u e) e =
        λ k. (unqueue_linked-Stepped env depth u e w.tree w.ok off k).0 in
      let gone = (unqueue_linked-Stepped env depth u e w.tree w.ok off 0).1 in
      (
        record {
          ok = (step 0).ok;
          tree = (step 0).tree;
          kin = Kin-trans s u (unqueue_linked env u e) w.kin (step 0).kin;
          room = λ k r. (step k).room (w.room k r);
        },
        λ x h. elim (Bool-cases (e == x)) [
          | inl m ↦
              subst (λ y. ((unqueue_linked env u e).entities y).run_list ≡ none) ((==_iff e x).0 m)
                gone
          | inr m ↦ (step 0).others x m ∙ a x (rw m at h)
        ],
      )

  queue_chain-Stacked :
      (head : Bool) (es : List ℕ) (s : RtSys)
      → Ladder s es
      → Tree depth s
      → RtOk s
      → AllOff s es
      → ((x : ℕ) → has x es ≡ true → RealTime s x)
      → Room (length es) s
      → RtOk (queue_chain env s es head)
        × Tree depth (queue_chain env s es head)
        × Kin s (queue_chain env s es head)
  unfolding queue_chain
  queue_chain-Stacked head [] s l t ok a rt room = (ok, t, Kin-refl s)
  queue_chain-Stacked head (e ∷ es) s l t ok a rt room =
      let off = off_from depth s e es t l (λ x h. a x (ground arith)) in
      let w =
        queue_entity-Stepped env depth s e t ok off (length es) head (a e (ground arith))
          (rt e (ground arith)) room in
      let u = queue_entity env s e head in
      let out = not_in s e es l in
      let (r, t', k) =
        queue_chain-Stacked head es u (Kin-Ladder s u es w.kin l.1) w.tree w.ok
          (λ x h. w.others x (apart e x es out h) ∙ a x (ground arith))
          (λ x h. Kin-RealTime s u x w.kin (rt x (ground arith))) (w.room room) in
      (r, t', Kin-trans s u (queue_chain env u es head) w.kin k)

  -- The groups of a chain that are not empty.
  queue_groups-Stacked :
      (es : List ℕ) (s : RtSys)
      → Ladder s es
      → Tree depth s
      → RtOk s
      → AllOff s es
      → ((x : ℕ) → has x es ≡ true → x < entity_max)
      → Room (length es) s
      → RtOk (queue_groups env s es)
        × Tree depth (queue_groups env s es)
        × Kin s (queue_groups env s es)
  unfolding queue_groups
  queue_groups-Stacked [] s l t ok a rt room = (ok, t, Kin-refl s)
  queue_groups-Stacked (e ∷ es) s l t ok a rt room =
      let off = off_from depth s e es t l (λ x h. a x (ground arith)) in
      let u = if is_filled_group s e then queue_entity env s e false else s in
      let w : Stepped depth (suc (length es)) (length es) s u e =
        elim (Bool-cases (is_filled_group s e)) [
          | inl b ↦ rw b (
              queue_entity-Stepped env depth s e t ok off (length es) false (a e (ground arith))
                (group_RealTime s e b, rt e (ground arith)) room)
          | inr b ↦ rw b (stay depth (suc (length es)) (length es) s e (omega arith) t ok)
        ] in
      let out = not_in s e es l in
      let (r, t', k) =
        queue_groups-Stacked es u (Kin-Ladder s u es w.kin l.1) w.tree w.ok
          (λ x h. w.others x (apart e x es out h) ∙ a x (ground arith)) (λ x h. rt x (ground arith))
          (w.room room) in
      (r, t', Kin-trans s u (queue_groups env u es) w.kin k)

-- What a step of the class keeps.
abbrev pub Kept : ℕ → RtSys → RtSys → Type 0
Kept depth s u = RtOk u × (Tree depth u × Kin s u)

pub Kept_trans : (depth : ℕ) (s t u : RtSys) → Kept depth s t → Kept depth t u → Kept depth s u
Kept_trans depth s t u a b = (b.0, (b.1.0, Kin-trans s t u a.1.1 b.1.1))

-- The entities of a chain have numbers in range, and its tasks real-time priorities.
abbrev pub ChainOk : RtSys → ℕ → Type 0
ChainOk s e = (x : ℕ) → has x (chain_of s e) ≡ true → RealTime s x

module _ (env : RtEnv) (depth : ℕ) (s : RtSys) (e : ℕ) (small : depth < 2 ^ 30) (t : Tree depth s)
    (ok : RtOk s) (c : ChainOk s e) where
  fits : (es : List ℕ) → length es ≤ depth + 1 → Room (length es) s
  fits es h q = omega (arith, queued_le s ok q)

  pub dequeue_rt_entity-RtOk : Kept depth s (dequeue_rt_entity env s e)
  unfolding dequeue_rt_entity dequeue_rt_stack
  dequeue_rt_entity-RtOk =
      let l = chain_of-Ladder depth s e t in
      let (w, a) = unqueue_stack-Stacked env depth (chain_of s e) s l t ok in
      let u = unqueue_stack env s (chain_of s e) in
      let (r, t', k) =
        queue_groups-Stacked env depth (chain_of s e) u (Kin-Ladder s u (chain_of s e) w.kin l)
          w.tree w.ok a (λ x h. (c x h).1)
          (w.room (suc (length (s.entities e).parents))
            (fits (chain_of s e) (omega (arith, t.deep e)))) in
      (r, (t', Kin-trans s u (dequeue_rt_entity env s e) w.kin k))

  pub enqueue_rt_entity-RtOk : (head : Bool) → Kept depth s (enqueue_rt_entity env s e head)
  unfolding enqueue_rt_entity dequeue_rt_stack
  enqueue_rt_entity-RtOk head =
      let l = chain_of-Ladder depth s e t in
      let (w, a) = unqueue_stack-Stacked env depth (chain_of s e) s l t ok in
      let u = unqueue_stack env s (chain_of s e) in
      let (r, t', k) =
        queue_chain-Stacked env depth head (chain_of s e) u (Kin-Ladder s u (chain_of s e) w.kin l)
          w.tree w.ok a (λ x h. Kin-RealTime s u x w.kin (c x h))
          (w.room (suc (length (s.entities e).parents))
            (fits (chain_of s e) (omega (arith, t.deep e)))) in
      (r, (t', Kin-trans s u (enqueue_rt_entity env s e head) w.kin k))

pub Kin-ChainOk : (s u : RtSys) (e : ℕ) → Kin s u → ChainOk s e → ChainOk u e
Kin-ChainOk s u e k c x h = Kin-RealTime s u x k (c x (rw (k.parents e) at h))

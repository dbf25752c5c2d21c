-- ===== src/Rt/Members.antt =====
-- Who is on which list of an `rt_rq` after an entity joined, left or moved.
use android_kernel_programmi.Sched.Policy.{max_rt_prio}
use android_kernel_programmi.Base.{
  ℕ, ◌+◌, ◌≡◌, ◌<◌, refl, sym, ap, ◌∙◌, Bool, true, false, ◌||◌, List, [], ◌∷◌, has, has-append,
  has-remove_ne, has-remove_self, NoDup, length, length-append, length-remove, Bool-cases, inl, inr,
  arith, ◌==◌, ==_iff, ==_self, update, update_self, update_ne, if◌then◌else◌,
}
use android_kernel_programmi.Rt.State.{RtRq, RtEnv}
use android_kernel_programmi.Rt.Bits.{queued, queued-update}
use android_kernel_programmi.Rt.Array.{
  join, leave, inc_rt_tasks, inc_rt_prio, inc_rt_group, dec_rt_tasks, dec_rt_prio, dec_rt_group,
}

-- The list that `list_add` or `list_add_tail` gives.
pub has-added :
    (env : RtEnv) (head : Bool) (e x : ℕ) (q : List ℕ)
    → has e q ≡ false
    → has x (if head then env.list_ops.list_add e q else env.list_ops.list_add_tail e q)
      ≡ (e == x || has x q)
has-added env true e x q h = rw (env.list_ops.add_lem e q h) refl
has-added env false e x q h =
    rw (env.list_ops.add_tail_lem e q h) (ground (arith, has-append x q (e ∷ [])))

pub length-added :
    (env : RtEnv) (head : Bool) (e : ℕ) (q : List ℕ)
    → has e q ≡ false
    → length (if head then env.list_ops.list_add e q else env.list_ops.list_add_tail e q)
      ≡ length q + 1
length-added env true e q h = rw (env.list_ops.add_lem e q h) (omega arith)
length-added env false e q h = rw (env.list_ops.add_tail_lem e q h) (length-append q (e ∷ []))

-- A list that is put at `prio`, with the same members but for `e`.
pub put_others :
    (queue : ℕ → List ℕ) (prio e x i : ℕ) (xs : List ℕ)
    → (e == x) ≡ false
    → has x xs ≡ has x (queue prio)
    → has x (update queue prio xs i) ≡ has x (queue i)
put_others queue prio e x i xs n h = elim (Bool-cases (prio == i)) [
  | inl m ↦ rw m (h ∙ ap (λ j. has x (queue j)) ((==_iff prio i).0 m))
  | inr m ↦ rw m refl
]

module _ (env : RtEnv) (r : RtRq) (e prio : ℕ) (boosted : Bool) where
  pub join_others :
      (head : Bool)
      → has e (r.queue prio) ≡ false
      → (x i : ℕ) → (e == x) ≡ false
      → has x ((join env r e prio boosted head).queue i) ≡ has x (r.queue i)
  unfolding join inc_rt_tasks inc_rt_prio inc_rt_group
  join_others head h x i n =
      put_others r.queue prio e x i _ n (has-added env head e x (r.queue prio) h ∙ rw n refl)

  pub join_self :
      (head : Bool)
      → has e (r.queue prio) ≡ false
      → has e ((join env r e prio boosted head).queue prio) ≡ true
  unfolding join inc_rt_tasks inc_rt_prio inc_rt_group
  join_self head h =
      ap (has e) (update_self r.queue prio _)
      ∙ (has-added env head e e (r.queue prio) h ∙ rw (==_self e) refl)

  pub join_else :
      (head : Bool) (i : ℕ)
      → (prio == i) ≡ false
      → (join env r e prio boosted head).queue i ≡ r.queue i
  unfolding join inc_rt_tasks inc_rt_prio inc_rt_group
  join_else head i n = update_ne r.queue prio i _ n

  pub leave_others :
      NoDup (r.queue prio)
      → has e (r.queue prio) ≡ true
      → (x i : ℕ) → (e == x) ≡ false
      → has x ((leave env r e prio prio boosted).queue i) ≡ has x (r.queue i)
  unfolding leave dec_rt_tasks dec_rt_prio dec_rt_group
  leave_others d h x i n =
      put_others r.queue prio e x i _ n (
        ap (has x) (env.list_ops.del_lem e (r.queue prio) d h) ∙ has-remove_ne e x (r.queue prio) n)

  pub leave_self :
      NoDup (r.queue prio)
      → has e (r.queue prio) ≡ true
      → has e ((leave env r e prio prio boosted).queue prio) ≡ false
  unfolding leave dec_rt_tasks dec_rt_prio dec_rt_group
  leave_self d h =
      ap (has e) (update_self r.queue prio _ ∙ env.list_ops.del_lem e (r.queue prio) d h)
      ∙ has-remove_self e (r.queue prio) d

  pub leave_else :
      (i : ℕ) → (prio == i) ≡ false → (leave env r e prio prio boosted).queue i ≡ r.queue i
  unfolding leave dec_rt_tasks dec_rt_prio dec_rt_group
  leave_else i n = update_ne r.queue prio i _ n

module _ (env : RtEnv) (r : RtRq) (e prio : ℕ) (boosted : Bool) (hp : prio < max_rt_prio) where
  pub queued-join :
      (head : Bool)
      → has e (r.queue prio) ≡ false
      → queued (join env r e prio boosted head).queue ≡ queued r.queue + 1
  unfolding join inc_rt_tasks inc_rt_prio inc_rt_group
  queued-join head h = omega (
    arith,
    queued-update r.queue prio
        (if head
          then env.list_ops.list_add e (r.queue prio)
          else env.list_ops.list_add_tail e (r.queue prio))
        hp,
    length-added env head e (r.queue prio) h,
  )

  pub queued-leave :
      NoDup (r.queue prio)
      → has e (r.queue prio) ≡ true
      → queued (leave env r e prio prio boosted).queue + 1 ≡ queued r.queue
  unfolding leave dec_rt_tasks dec_rt_prio dec_rt_group
  queued-leave d h =
      let gone : length (env.list_ops.list_del_init e (r.queue prio)) + 1 ≡ length (r.queue prio) =
        ap (λ xs. length xs + 1) (env.list_ops.del_lem e (r.queue prio) d h)
        ∙ sym (length-remove e (r.queue prio) h) in
      omega
        (arith, queued-update r.queue prio (env.list_ops.list_del_init e (r.queue prio)) hp, gone)

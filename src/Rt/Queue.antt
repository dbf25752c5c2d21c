-- ===== src/Rt/Queue.antt =====
-- The hierarchy of queues of Project2/goldfish/kernel/sched/rt.c: groups within groups.
use android_kernel_programmi.Base.{
  ℕ, Bool, true, false, none, some, List, [], ◌∷◌, ◌==◌, not, ◌||◌, if◌then◌else◌,
}
use android_kernel_programmi.Rt.State.{RtRq, RtSys, RtEnv, put_rt_entity, put_rt_rq}
use android_kernel_programmi.Rt.Array.{rt_rq_throttled, join, leave, set_queue}

-- `rt_se_prio` and `rt_se_boosted`; `group_rt_rq(rt_se)` is `my_q`.
unfoldable pub rt_se_prio : RtSys → ℕ → ℕ
rt_se_prio s e = elim (s.entities e).my_q [
  | none ↦ (s.tasks e).prio
  | some q ↦ (s.rt_rqs q).highest_prio
]

unfoldable pub rt_se_boosted : RtSys → ℕ → Bool
rt_se_boosted s e = elim (s.entities e).my_q [
  | none ↦ not ((s.tasks e).prio == (s.tasks e).normal_prio)
  | some q ↦ not ((s.rt_rqs q).rt_nr_boosted == 0)
]

unfoldable pub on_rt_rq : RtSys → ℕ → Bool
on_rt_rq s e = elim (s.entities e).run_list [ none ↦ false | some i ↦ true ]

-- `for_each_sched_rt_entity`: the entity and the groups that it is in, from the inside.
abbrev pub chain_of : RtSys → ℕ → List ℕ
chain_of s e = e ∷ (s.entities e).parents

-- Whether the group of an entity is throttled or empty, so that it is not to be queued.
unfoldable pub is_idle_group : RtSys → ℕ → Bool
unfolding rt_rq_throttled
is_idle_group s e = elim (s.entities e).my_q [
  | none ↦ false
  | some q ↦ rt_rq_throttled (s.rt_rqs q) || (s.rt_rqs q).rt_nr_running == 0
]

-- `__enqueue_rt_entity`
unfoldable pub queue_entity : RtEnv → RtSys → ℕ → Bool → RtSys
unfolding is_idle_group rt_se_prio rt_se_boosted join
queue_entity env s e head =
    if is_idle_group s e
    then s
    else let q = (s.entities e).rt_rq in
      let prio = rt_se_prio s e in
      let r = join env (s.rt_rqs q) e prio (rt_se_boosted s e) head in
      put_rt_rq (put_rt_entity s e (let t = s.entities e in record t { run_list = some prio })) q r

-- `__dequeue_rt_entity`, of an entity that the list of priority `linked` links.
unfoldable pub unqueue_entity : RtEnv → RtSys → ℕ → ℕ → RtSys
unfolding rt_se_prio rt_se_boosted leave
unqueue_entity env s e linked =
    let q = (s.entities e).rt_rq in
    let r = leave env (s.rt_rqs q) e linked (rt_se_prio s e) (rt_se_boosted s e) in
    put_rt_rq (put_rt_entity s e (let t = s.entities e in record t { run_list = none })) q r

-- `if (on_rt_rq(rt_se)) __dequeue_rt_entity(rt_se)`
unfoldable pub unqueue_linked : RtEnv → RtSys → ℕ → RtSys
unfolding unqueue_entity
unqueue_linked env s e = elim (s.entities e).run_list [
  | none ↦ s
  | some linked ↦ unqueue_entity env s e linked
]

-- The second loop of `dequeue_rt_stack`: `back` links the chain from the outside, so the entities
-- after `e` come first.
unfoldable pub unqueue_stack : RtEnv → RtSys → List ℕ → RtSys
unfolding unqueue_linked
unqueue_stack env s [] = s
unqueue_stack env s (e ∷ es) = unqueue_linked env (unqueue_stack env s es) e

unfoldable pub dequeue_rt_stack : RtEnv → RtSys → ℕ → RtSys
unfolding unqueue_stack
dequeue_rt_stack env s e = unqueue_stack env s (chain_of s e)

unfoldable pub queue_chain : RtEnv → RtSys → List ℕ → Bool → RtSys
unfolding queue_entity
queue_chain env s [] head = s
queue_chain env s (e ∷ es) head = queue_chain env (queue_entity env s e head) es head

unfoldable pub enqueue_rt_entity : RtEnv → RtSys → ℕ → Bool → RtSys
unfolding dequeue_rt_stack queue_chain
enqueue_rt_entity env s e head = queue_chain env (dequeue_rt_stack env s e) (chain_of s e) head

-- `rt_rq && rt_rq->rt_nr_running`
unfoldable pub is_filled_group : RtSys → ℕ → Bool
is_filled_group s e = elim (s.entities e).my_q [
  | none ↦ false
  | some q ↦ not ((s.rt_rqs q).rt_nr_running == 0)
]

unfoldable pub queue_groups : RtEnv → RtSys → List ℕ → RtSys
unfolding is_filled_group queue_entity
queue_groups env s [] = s
queue_groups env s (e ∷ es) =
    queue_groups env (if is_filled_group s e then queue_entity env s e false else s) es

unfoldable pub dequeue_rt_entity : RtEnv → RtSys → ℕ → RtSys
unfolding dequeue_rt_stack queue_groups
dequeue_rt_entity env s e = queue_groups env (dequeue_rt_stack env s e) (chain_of s e)

-- `list_move` and `list_move_tail`: off the list that links the entity, and on to that of `prio`.
unfoldable pub move : RtEnv → RtRq → ℕ → ℕ → ℕ → Bool → RtRq
move env r e linked prio head =
    let r = set_queue r linked (env.list_ops.list_del_init e (r.queue linked)) in
    let queue = r.queue prio in
    set_queue r prio
      (if head then env.list_ops.list_add e queue else env.list_ops.list_add_tail e queue)

unfoldable pub requeue_rt_entity : RtEnv → RtSys → ℕ → Bool → RtSys
unfolding move rt_se_prio
requeue_rt_entity env s e head = elim (s.entities e).run_list [
  | none ↦ s
  | some linked ↦
      let q = (s.entities e).rt_rq in
      let prio = rt_se_prio s e in
      let t = put_rt_entity s e (let t = s.entities e in record t { run_list = some prio }) in
      put_rt_rq t q (move env (s.rt_rqs q) e linked prio head)
]

unfoldable pub requeue_chain : RtEnv → RtSys → List ℕ → Bool → RtSys
unfolding requeue_rt_entity
requeue_chain env s [] head = s
requeue_chain env s (e ∷ es) head = requeue_chain env (requeue_rt_entity env s e head) es head

unfoldable pub requeue_task_rt : RtEnv → RtSys → ℕ → Bool → RtSys
unfolding requeue_chain
requeue_task_rt env s p head = requeue_chain env s (chain_of s p) head

-- ===== src/Sched/Prio.antt =====
-- Policies and priorities: the helpers of sched.h and of core.c around lines 697 and 995.
use android_kernel_programmi.Sched.Policy.{max_rt_prio}
use android_kernel_programmi.Base.{
  ℕ, ◌-◌, Bool, List, [], ◌∷◌, ◌==◌, ◌||◌, ltb, if◌then◌else◌, get_or, sub32,
}
use android_kernel_programmi.Kernel.State.{SchedClass, Task}
use android_kernel_programmi.Sched.Policy

unfoldable pub rt_policy : ℕ → Bool
rt_policy policy = policy == Policy.fifo || policy == Policy.rr

unfoldable pub rt_prio : ℕ → Bool
rt_prio prio = ltb prio max_rt_prio

-- MAX_RT_PRIO - 1 - rt_priority, which the checks of the callers keep from wrapping.
unfoldable pub normal_prio : Task → ℕ
unfolding rt_policy
normal_prio t = if rt_policy t.policy then sub32 99 t.rt_priority else t.static_prio

-- effective_prio also stores the normal priority.
unfoldable pub effective_prio : Task → ℕ × Task
unfolding normal_prio rt_prio
effective_prio t =
    let n = normal_prio t in
    let t' = record t { normal_prio = n } in (if rt_prio t.prio then t.prio else n, t')

abbrev prio_to_weight : List ℕ
prio_to_weight =
    88761 ∷ 71755 ∷ 56483 ∷ 46273 ∷ 36291 ∷ 29154 ∷ 23254 ∷ 18705 ∷ 14949 ∷ 11916 ∷ 9548 ∷ 7620
    ∷ 6100 ∷ 4904 ∷ 3906 ∷ 3121 ∷ 2501 ∷ 1991 ∷ 1586 ∷ 1277 ∷ 1024 ∷ 820 ∷ 655 ∷ 526 ∷ 423 ∷ 335
    ∷ 272 ∷ 215 ∷ 172 ∷ 137 ∷ 110 ∷ 87 ∷ 70 ∷ 56 ∷ 45 ∷ 36 ∷ 29 ∷ 23 ∷ 18 ∷ 15 ∷ []

-- The weight of the fair class; its inverse is not kept. scale_load is the identity on a 32-bit target; WEIGHT_IDLEPRIO is 3.
unfoldable pub set_load_weight : Task → Task
set_load_weight t = record t {
  load_weight =
      if t.policy == Policy.idle then 3 else get_or prio_to_weight (t.static_prio - max_rt_prio) 0;
}

-- The class that __setscheduler and rt_mutex_setprio choose.
unfoldable pub class_for : ℕ → ℕ → SchedClass
unfolding rt_prio
class_for policy prio =
    if policy == Policy.wrr
    then SchedClass.wrr
    else if rt_prio prio
    then SchedClass.rt
    else SchedClass.fair

-- ===== src/Sched/Queue.antt =====
-- Clocks, and enqueueing and dequeueing through the class of a task.
use android_kernel_programmi.Base.{false}
use android_kernel_programmi.Base.{
  ℕ, Bool, List, [], ◌∷◌, ◌==◌, ◌&&◌, ◌||◌, not, if◌then◌else◌, add32, sub32, add64, sub64, bit_and,
}
use android_kernel_programmi.Base.Int.{gt_nat}
use android_kernel_programmi.Kernel.State.{SchedClass, Sys, Task, put_task, put_rq}
use android_kernel_programmi.Kernel.Env.{Env, ClassOps}
use android_kernel_programmi.Wrr.Class.{wrr_ops}

abbrev pub class_ops : Env → SchedClass → ClassOps
class_ops env SchedClass.stop = env.stop_ops
class_ops env SchedClass.rt = env.rt_ops
class_ops env SchedClass.wrr = wrr_ops env
class_ops env SchedClass.fair = env.fair_ops
class_ops env SchedClass.idle = env.idle_ops

abbrev pub ops_of : Env → Sys → ℕ → ClassOps
ops_of env s p = class_ops env (s.tasks p).sched_class

-- cpu_online: the mask as the list of its cpus.
abbrev pub online_in : ℕ → List ℕ → Bool
online_in c [] = false
online_in c (d ∷ ds) = d == c || online_in c ds

unfoldable pub cpu_online : Env → ℕ → Bool
cpu_online env c = online_in c env.online

-- Distinct objects, so compared by address.
abbrev pub rank_of : SchedClass → ℕ
rank_of SchedClass.stop = 0
rank_of SchedClass.rt = 1
rank_of SchedClass.wrr = 2
rank_of SchedClass.fair = 3
rank_of SchedClass.idle = 4

abbrev pub class_eq : SchedClass → SchedClass → Bool
class_eq a b = rank_of a == rank_of b

-- for_each_class: from the stop class along `next`.
abbrev pub class_list : List SchedClass
class_list =
    SchedClass.stop ∷ SchedClass.rt ∷ SchedClass.wrr ∷ SchedClass.fair ∷ SchedClass.idle ∷ []

-- With no interrupt-time accounting, update_rq_clock_task adds the whole delta.
unfoldable pub update_rq_clock : Sys → ℕ → Sys
update_rq_clock s c =
    let r = s.rqs c in
    let delta = sub64 (s.now c) r.clock in
    if gt_nat r.skip_clock_update 0
    then s
    else put_rq s c
        (record r { clock = add64 r.clock delta; clock_task = add64 r.clock_task delta })

-- TASK_UNINTERRUPTIBLE is 2 and PF_FROZEN 0x10000.
unfoldable pub task_contributes_to_load : Task → Bool
task_contributes_to_load t = not (bit_and t.state 2 == 0) && (bit_and t.flags 0x10000 == 0)

module _ (env : Env) where
  unfoldable pub enqueue_task : Sys → ℕ → ℕ → ℕ → Sys
  enqueue_task s c p flags = (ops_of env s p).enqueue_task (update_rq_clock s c) c p flags

  unfoldable pub dequeue_task : Sys → ℕ → ℕ → ℕ → Sys
  dequeue_task s c p flags = (ops_of env s p).dequeue_task (update_rq_clock s c) c p flags

  unfoldable pub activate_task : Sys → ℕ → ℕ → ℕ → Sys
  activate_task s c p flags =
      let r = s.rqs c in
      let s1 =
        if task_contributes_to_load (s.tasks p)
        then put_rq s c (record r { nr_uninterruptible = sub32 r.nr_uninterruptible 1 })
        else s in
      enqueue_task s1 c p flags

  unfoldable pub deactivate_task : Sys → ℕ → ℕ → ℕ → Sys
  deactivate_task s c p flags =
      let r = s.rqs c in
      let s1 =
        if task_contributes_to_load (s.tasks p)
        then put_rq s c (record r { nr_uninterruptible = add32 r.nr_uninterruptible 1 })
        else s in
      dequeue_task s1 c p flags

-- set_task_rq, which __set_task_cpu also calls, sets the group queues of the other classes.
unfoldable pub set_task_cpu : Sys → ℕ → ℕ → Sys
set_task_cpu s p new_cpu =
    let t = s.tasks p in
    put_task s p (record t {
      nr_migrations = if t.cpu == new_cpu then t.nr_migrations else add64 t.nr_migrations 1;
      cpu = new_cpu;
    })

-- ===== src/Lib.antt =====
-- A verification library for the kernel projects: the weighted round robin (wrr) scheduling class
-- with the parts of the scheduler core that drive it, the real-time class, the ptree system call, and
-- the encryption server.
--
-- The parts and their files:
--
-- * Project2/goldfish/kernel/sched/wrr.c is Wrr/Class.antt, one definition per function under its C
--   name, with Wrr/Group.antt (the test of a task group's path) and Wrr/Ring.antt (run_list.next
--   and run_list.prev read on a queue). pull_wrr_task, which calls core.c, is in Sched/Move.antt.
-- * Project2/goldfish/kernel/sched/core.c is under Sched/: Prio and Queue (priorities, clock,
--   enqueue and dequeue), Preempt, Setscheduler and Syscalls, Fork, Wake, Schedule, Move. Fork also
--   holds sched_fork and wake_up_new_task of Project2/tergra/kernel/sched.c (suffix _tegra).
-- * Project2/goldfish/kernel/sched/rt.c is under Rt/, in two models. The class on one cpu with nested
--   groups (CONFIG_RT_GROUP_SCHED) is State, Array (one priority array), Queue (the hierarchy), Class
--   (the accounting, throttling and hooks) and Tick (the tick, the choice of a task, the period
--   timer); Bits, Level, Start, Inv and the rest up to Entry are about these. The lending of runtime between
--   cpus (CONFIG_SMP) for one group, with cpu hotplug, is Balance; Lending, Reclaim and Hotplug are
--   about it.
-- * The load averages of core.c are in Load/: the global average with its idle folding and catch-up
--   (Power, Average, Conserve, Window) and the load of one cpu (Backlog, Age, Cpu), over records of
--   the fields that this code alone uses.
-- * The structures of Project2/goldfish/kernel/sched/sched.h and include/linux/sched.h are in
--   Kernel/State.antt, as records with the fields that the modelled code uses.
-- * Project1/submit/Prom1/ptree.c and the printing of Prom2/jni/test_for_ptree.c are in Ptree/. A
--   call of ptree that writes past the end of the module's buffer has no result.
-- * Project1/submit/Prom4/server.c is Server/: Cipher (the encryption), Thread (the loop of one
--   thread), Pool (all threads, interleaved). main changes num_thread without the mutex,
--   so what ++ and -- read of it is any value.
--
-- The state of the scheduler is the record Sys: tasks and run queues by number. A function of the
-- kernel takes a Sys and gives the new one, and its result where it has one. Run queues are named by
-- their cpu; a queue of tasks is the list of its entries in order. A function pointer of struct
-- sched_class is a field of ClassOps, and class_ops finds the hooks of a class, those of wrr.c or
-- those of the environment. Locks are held as in the code: each function is one step. Where
-- __sched_setscheduler reads the task before it has the lock, what each read of a pass sees is an
-- argument (Seen), one per pass; after the last, the task does not change before the lock is taken.
-- Each pass finds the same state under the lock.
--
-- Kernel/Env.antt is what that model takes from elsewhere, as a parameter: list.h with its laws on
-- lists of distinct entries, the paths of groups, HZ (from 100 to 1024), the online cpus, the other
-- classes, rtmutex.c and idle_balance. The real-time class is there as a parameter too, since Rt/ is
-- over another state. The other classes are assumed to leave the wrr queues, and the class, cpu,
-- group, entity and on_rq of the tasks, as they are (Frame); the hooks for dequeueing and for the
-- running task leave that task's cpu.
--
-- The real-time class has a state of its own, RtSys. The chain of parent pointers that
-- for_each_sched_rt_entity walks is a list, the field parents; run_list is the priority whose list
-- links the entity. Rt/State.antt has the parameters of the class, RtEnv: list.h,
-- sched_find_first_bit, HZ, the resource limits. Groups are nested fewer than 2^30 deep, and tasks
-- and groups have numbers below 2^31, so that no counter wraps round.
--
-- Numbers: int, unsigned int and long are 32 bits wide, u64 is 64; sums and differences of counters
-- wrap round (add32 and so on). A queue may be as long as memory allows: its counters are its length
-- and weight modulo 2^32, and the theorems on turns ask for fewer than 2^32 queued tasks. Loops over
-- lists are structural, and the number of timer ticks is an argument. The loops of the load averages
-- run on fuel and give an Option: 32 rounds for the 32 bits of n in fixed_power_int, 8 for fewer than
-- 128 missed ticks, one per period of the age in sched_avg_update. The way down in
-- pick_next_task_rt has one unit per level, and one more than the depth of the groups is enough.
--
-- The invariant SysOk (Wrr/Inv.antt) says that each queue has no duplicate, that its counters are
-- right, and that no task is on two queues. Good (Sched/Inv/Good.antt) adds that the queues hold
-- exactly the runnable tasks of the class and that queued tasks have the weight of their group. The
-- files under Wrr/ and Sched/Inv/ take the operations one by one through these invariants. Off
-- and Held are Good while one task is off its queue between two steps of a function.
--
-- Not modelled: printk, statistics, perf events, scheduling domains, hotplug, wait
-- queues, affinity calls and cgroup files of core.c; the push and pull of rt.c between cpus, its
-- priority map and allocation of groups; the tegra kernel's sched_rt.c and kthread.c; the tegra sched_wrr.c, which repeats wrr.c; the sockets of the
-- server, its client, and the test programs that only read and print numbers.
--
-- Samples/ holds an environment, a state and inputs, and the theorems at these.
pub mod Base
pub mod Kernel
pub mod Wrr
pub mod Sched
pub mod Rt
pub mod Load
pub mod Ptree
pub mod Server
pub mod Samples

-- ===== src/Samples/Inputs.antt =====
-- A caller of the scheduling system calls, a small process tree, and runs of the server.
use android_kernel_programmi.Base.{some}
use android_kernel_programmi.Base.{arith, ℕ, refl, true, false, none, [], ◌∷◌}
use android_kernel_programmi.Base.Int.{pos}
use android_kernel_programmi.Sched.Setscheduler.{Caller}
use android_kernel_programmi.Sched.Syscalls.{User}
use android_kernel_programmi.Ptree.Defs.{Info, Proc, Procs, Prinfo, Globals}
use android_kernel_programmi.Server.Thread.{bytes, serve, accept}
use android_kernel_programmi.Server.Pool.{Pool, PoolOk, Step, Reach}

-- A caller without CAP_SYS_NICE that owns every task.
abbrev pub owner : Caller
owner = record {
  capable = false;
  cred = record { user_ns = 0; euid = 7; uid = 7 };
  cred_of = λ p. record { user_ns = 0; euid = 7; uid = 7 };
  rlim_rtprio = λ p. 0;
  rlim_nice = λ p. 0;
  security = λ p. none;
  rt_bandwidth_enabled = true;
  rt_runtime_zero = λ g. false;
  is_autogroup = λ g. false;
}

-- A caller that owns no task but its own.
abbrev pub stranger : Caller
stranger = let k = owner in record k { cred_of = λ p. record { user_ns = 0; euid = 8; uid = 8 } }

-- Process ids are task numbers; every address holds a priority of 0.
abbrev pub memory : User
memory = record {
  find_task = λ pid. some pid;
  current = 1;
  copy_in = λ a. some (pos 0);
  copy_out_ok = λ a. true;
  security_get = λ p. none;
}

abbrev info : ℕ → Info
info n = record { pid = n; state = 0; uid = 0; comm = 105 ∷ []; before_children = 99 }

-- 1 has the children 2 and 4, and 2 the child 3.
abbrev pub family : Proc
family = Proc.proc (info 1) (
    Procs.cons (Proc.proc (info 2) (Procs.cons (Proc.proc (info 3) Procs.nil) Procs.nil))
      (Procs.cons (Proc.proc (info 4) Procs.nil) Procs.nil))

abbrev pub blank : ℕ → Prinfo
blank j = record {
  parent_pid = 0;
  pid = 0;
  first_child_pid = 0;
  next_sibling_pid = 0;
  state = 0;
  uid = 0;
  comm = [];
  level = 0;
}

abbrev pub fresh : Globals
fresh = record { buf_tmp = blank; nr_tmp = 5; overrun = false }

abbrev pub no_clients : Pool
no_clients = record { counters = record { num_thread = 0; num_working_thread = 0 }; blocked = [] }

pub no_clients-PoolOk : PoolOk no_clients
no_clients-PoolOk = ground arith

-- One client connects and is answered.
abbrev pub one_waiting : Pool
one_waiting = record { counters = accept no_clients.counters 0; blocked = true ∷ [] }

abbrev pub one_served : Pool
one_served =
    let (c, b, o) = serve one_waiting.counters true (bytes (97 ∷ [])) in
    record { counters = c; blocked = b ∷ [] }

abbrev pub first_answer : Reach no_clients one_served
first_answer =
    Reach.next (Reach.next Reach.here (Step.connect 0 refl))
      (Step.answer [] [] true (bytes (97 ∷ [])) refl refl)

-- Two clients are served and one waits.
abbrev pub full_house : Pool
full_house = record {
  counters = record { num_thread = 3; num_working_thread = 2 };
  blocked = false ∷ true ∷ false ∷ [];
}

pub full_house-PoolOk : PoolOk full_house
full_house-PoolOk = ground arith

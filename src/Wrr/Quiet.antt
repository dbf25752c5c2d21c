-- ===== src/Wrr/Quiet.antt =====
-- The steps of the class that touch no queue and no weight.
use android_kernel_programmi.Base.{ℕ, ◌≡◌, arith, sym, refl, ap}
use android_kernel_programmi.Kernel.State.{Sys}
use android_kernel_programmi.Wrr.Class.{
  update_curr_wrr, inc_nr_running, dec_nr_running, resched_task,
}
use android_kernel_programmi.Wrr.Inv.{SysOk}
use android_kernel_programmi.Wrr.Lift.{quiet-SysOk}

-- Steps on other fields.
pub update_curr_wrr-quiet : (s : Sys) (c d : ℕ) → ((update_curr_wrr s c).rqs d).wrr ≡ (s.rqs d).wrr
unfolding update_curr_wrr
update_curr_wrr-quiet s c d = ground arith

pub update_curr_wrr-entity :
    (s : Sys) (c q : ℕ) → ((update_curr_wrr s c).tasks q).wrr ≡ (s.tasks q).wrr
unfolding update_curr_wrr
update_curr_wrr-entity s c q = ground arith

pub update_curr_wrr-SysOk : (s : Sys) (c : ℕ) → SysOk s → SysOk (update_curr_wrr s c)
update_curr_wrr-SysOk s c ok =
    quiet-SysOk s (update_curr_wrr s c) (update_curr_wrr-quiet s c)
      (λ q. ap (λ e. e.weight) (sym (update_curr_wrr-entity s c q))) ok

pub inc_nr_running-SysOk : (s : Sys) (c : ℕ) → SysOk s → SysOk (inc_nr_running s c)
unfolding inc_nr_running
inc_nr_running-SysOk s c ok = quiet-SysOk s (inc_nr_running s c) (λ d. ground arith) (λ q. refl) ok

pub dec_nr_running-SysOk : (s : Sys) (c : ℕ) → SysOk s → SysOk (dec_nr_running s c)
unfolding dec_nr_running
dec_nr_running-SysOk s c ok = quiet-SysOk s (dec_nr_running s c) (λ d. ground arith) (λ q. refl) ok

pub resched_task-SysOk : (s : Sys) (p : ℕ) → SysOk s → SysOk (resched_task s p)
unfolding resched_task
resched_task-SysOk s p ok = quiet-SysOk s (resched_task s p) (λ d. refl) (λ q. ground arith) ok

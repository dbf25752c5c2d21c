-- ===== src/Sched/Errors.antt =====
-- What the system calls return.
use android_kernel_programmi.Base.{ℕ}

-- The error codes; a security hook may return any other.
pub data Errno : Type 0 where
  eperm esrch efault einval : Errno
  hook : ℕ → Errno

-- 0 or a value, or the negated error code.
pub data Ret : Type 0 where
  done : ℕ → Ret
  fail : Errno → Ret

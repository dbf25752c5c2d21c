-- ===== src/Ptree/Defs.antt =====
-- The tree of processes, the buffers and the functions of ptree.c and test_for_ptree.c.
use android_kernel_programmi.Base.{
  ℕ, zero, suc, ◌+◌, Bool, false, Option, none, some, if◌then◌else◌, List, [], ◌∷◌, ◌||◌, leb,
  update,
}

-- MAX_NUM_PROC
abbrev pub max_num_proc : ℕ
max_num_proc = 10000

-- What the module reads of a `struct task_struct`. `before_children` is the number read as the
-- `pid` of the structure that list_entry computes from the list head `children`.
pub record Info : Type 0 where
  pub pid : ℕ
  pub state : ℕ
  pub uid : ℕ
  pub comm : List ℕ
  pub before_children : ℕ

-- A process with its list of children, in the order of the kernel's list.
mutual
  pub data Proc : Type 0 where
    proc : Info → Procs → Proc

  pub data Procs : Type 0 where
    nil : Procs
    cons : Proc → Procs → Procs

pub record Prinfo : Type 0 where
  pub parent_pid : ℕ
  pub pid : ℕ
  pub first_child_pid : ℕ
  pub next_sibling_pid : ℕ
  pub state : ℕ
  pub uid : ℕ
  pub comm : List ℕ
  pub level : ℕ

-- The globals `buf_tmp`, of MAX_NUM_PROC entries, and `nr_tmp`. `overrun` says that DFS has written
-- past the end of `buf_tmp`: what the memory then holds is undefined, and so is the rest of the run.
pub record Globals : Type 0 where
  pub buf_tmp : ℕ → Prinfo
  pub nr_tmp : ℕ
  pub overrun : Bool

abbrev pub pid_of : Proc → ℕ
pid_of (proc i kids) = i.pid

-- The `pid` of the first child, 0 without children.
abbrev pub first_child : Procs → ℕ
first_child nil = 0
first_child (cons p ps) = pid_of p

-- What `sibling.next` leads to: the next child, or the list head inside the parent.
abbrev pub sibling_after : Info → Procs → ℕ
sibling_after parent nil = parent.before_children
sibling_after parent (cons p ps) = pid_of p

-- The part of DFS before the recursive calls. `sibling` is 0 where the sibling list is empty.
unfoldable pub record_process : Info → Procs → ℕ → ℕ → Globals → Globals
record_process i kids sibling level g =
    let entry = record (g.buf_tmp g.nr_tmp) {
      level = level;
      pid = i.pid;
      state = i.state;
      uid = i.uid;
      comm = i.comm;
      first_child_pid = first_child kids;
      next_sibling_pid = sibling;
    } in
    record {
      buf_tmp = if leb max_num_proc g.nr_tmp then g.buf_tmp else update g.buf_tmp g.nr_tmp entry;
      nr_tmp = g.nr_tmp + 1;
      overrun = g.overrun || leb max_num_proc g.nr_tmp;
    }

-- DFS, and its loop over the children.
unfoldable mutual
  unfolding record_process

  pub dfs : Proc → ℕ → ℕ → Globals → Globals
  dfs (proc i kids) sibling level g =
      dfs_children i kids (level + 1) (record_process i kids sibling level g)

  pub dfs_children : Info → Procs → ℕ → Globals → Globals
  dfs_children parent nil level g = g
  dfs_children parent (cons p ps) level g =
      dfs_children parent ps level (dfs p (sibling_after parent ps) level g)

-- The copying loop of ptree, from index `i` for `n` entries.
unfoldable pub copy_out : (ℕ → Prinfo) → ℕ → ℕ → (ℕ → Prinfo) → ℕ → Prinfo
copy_out from zero i buf = buf
copy_out from (suc n) i buf = copy_out from n (i + 1) (update buf i (from i))

-- The system call on the tree under init_task: the new globals, `*nr` and the caller's buffer, which
-- has room for as many entries; no result where DFS writes past the end of `buf_tmp`. init_task has no
-- siblings, so its list is empty.
unfoldable pub ptree : Proc → Globals → (ℕ → Prinfo) → Option (Globals × ℕ × (ℕ → Prinfo))
unfolding dfs copy_out
ptree init g buf =
    let g1 = dfs init 0 0 (record g { nr_tmp = 0; overrun = false }) in
    if g1.overrun then none else some (g1, g1.nr_tmp, copy_out g1.buf_tmp g1.nr_tmp 0 buf)

-- A line that test_for_ptree.c prints: its indentation, and the fields in the order printed.
pub record Line : Type 0 where
  pub tabs : ℕ
  pub comm : List ℕ
  pub numbers : List ℕ

unfoldable pub print_line : Prinfo → Line
print_line p = record {
  tabs = p.level;
  comm = p.comm;
  numbers = p.pid ∷ p.state ∷ p.parent_pid ∷ p.first_child_pid ∷ p.next_sibling_pid ∷ p.uid ∷ [];
}

-- The printing loop of its main.
unfoldable pub print_from : (ℕ → Prinfo) → ℕ → ℕ → List Line
unfolding print_line
print_from buf zero i = []
print_from buf (suc n) i = print_line (buf i) ∷ print_from buf n (i + 1)

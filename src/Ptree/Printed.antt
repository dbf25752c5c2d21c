-- ===== src/Ptree/Printed.antt =====
-- What test_for_ptree.c prints of the result of the system call.
use android_kernel_programmi.Base.{
  ℕ, refl, ◌+◌, ◌≡◌, ◌≤◌, ◌∙◌, ap, List, [], ◌∷◌, map, length, get_or, arith,
}
use android_kernel_programmi.Ptree.Defs.{
  max_num_proc, Prinfo, Globals, Proc, Line, print_line, print_from,
}
use android_kernel_programmi.Ptree.Preorder.{
  Visit, Reads, preorder, processes, Returns, ptree_preorder,
}

-- The indentation, name and process id of a line, and those that a process asks for.
abbrev pub shown : Line → ℕ × List ℕ × ℕ
shown l = (l.tabs, l.comm, get_or l.numbers 0 0)

abbrev pub due : Visit → ℕ × List ℕ × ℕ
due v = (v.1, v.0.comm, v.0.pid)

printed-Reads :
    (buf : ℕ → Prinfo) (i : ℕ) (l : List Visit)
    → Reads buf i l
    → map shown (print_from buf (length l) i) ≡ map due l
unfolding print_from print_line
printed-Reads buf i [] r = refl
printed-Reads buf i (v ∷ vs) r = ground (arith, r.0, printed-Reads buf (i + 1) vs r.1)

-- The test program prints one line per process, of at most MAX_NUM_PROC: its name and process id
-- behind as many tabs as the process is deep in the tree, parents before children.
pub ptree_printed :
    (init : Proc) (g : Globals) (buf : ℕ → Prinfo)
    → processes init ≤ max_num_proc
    → Returns init g buf λ n out. map shown (print_from out n 0) ≡ map due (preorder init 0)
ptree_printed init g buf fits =
    let (r, e, (n, reads)) = ptree_preorder init g buf fits in
    (r, e, ap (λ k. map shown (print_from r.2 k 0)) n ∙ printed-Reads r.2 0 (preorder init 0) reads)

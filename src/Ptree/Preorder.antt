-- ===== src/Ptree/Preorder.antt =====
-- ptree lists the processes in preorder with their depths.
use android_kernel_programmi.Base.{
  Bool, true, Option, none, some, Bool-cases, inl, inr, zero, suc, refl, update, ◌&&◌, ap, leb, ltb,
  subst, sym, ◌||◌, false, if◌then◌else◌, length-append, ◌<◌, ◌∙◌, arith, length, ◌≡◌, ◌≤◌, ℕ, ◌+◌,
  List, [], ◌∷◌, ◌++◌,
}
use android_kernel_programmi.Ptree.Defs.{
  max_num_proc, sibling_after, dfs_children, ptree, Globals, Prinfo, copy_out, dfs, record_process,
  Info, Proc, proc, Procs, nil, cons,
}

-- A process and its depth.
abbrev pub Visit : Type 0
Visit = Info × ℕ

unfoldable mutual
  pub preorder : Proc → ℕ → List Visit
  preorder (proc i kids) level = (i, level) ∷ preorder_children kids (level + 1)

  pub preorder_children : Procs → ℕ → List Visit
  preorder_children nil level = []
  preorder_children (cons p ps) level = preorder p level ++ preorder_children ps level

-- The entry shows the process at its depth.
pub record Shows (e : Prinfo) (v : Visit) : Type 0 where
  pub pid : e.pid ≡ v.0.pid
  pub state : e.state ≡ v.0.state
  pub uid : e.uid ≡ v.0.uid
  pub comm : e.comm ≡ v.0.comm
  pub level : e.level ≡ v.1

-- From index `n` on the buffer shows the visits in order.
abbrev pub Reads : (ℕ → Prinfo) → ℕ → List Visit → Type 0
Reads buf n [] = Unit
Reads buf n (v ∷ vs) = Shows (buf n) v × Reads buf (n + 1) vs

Reads-frame :
    (f g : ℕ → Prinfo) (n : ℕ) (l : List Visit)
    → ((j : ℕ) → n ≤ j → j < n + length l → f j ≡ g j)
    → Reads f n l
    → Reads g n l
Reads-frame f g n [] same r = tt
Reads-frame f g n (v ∷ vs) same r = (
  subst (λ e. Shows e v) (same n (omega arith) (omega arith)) r.0,
  Reads-frame f g (n + 1) vs (λ j a b. same j (omega arith) (omega arith)) r.1,
)

Reads-append :
    (f : ℕ → Prinfo) (n : ℕ) (l m : List Visit)
    → Reads f n l
    → Reads f (n + length l) m
    → Reads f n (l ++ m)
Reads-append f n [] m r q = let e : n + 0 ≡ n = omega arith in rw e at q
Reads-append f n (v ∷ vs) m r q =
    let e : n + suc (length vs) ≡ n + 1 + length vs = omega arith in
    (r.0, Reads-append f (n + 1) vs m r.1 (rw e at q))

-- What a traversal from `g` to `h` that visits `l` has done.
record Done (g h : Globals) (l : List Visit) : Type 0 where
  count : h.nr_tmp ≡ g.nr_tmp + length l
  before : (j : ℕ) → j < g.nr_tmp → h.buf_tmp j ≡ g.buf_tmp j
  shown : h.nr_tmp ≤ max_num_proc → Reads h.buf_tmp g.nr_tmp l
  parents : (j : ℕ) → (h.buf_tmp j).parent_pid ≡ (g.buf_tmp j).parent_pid
  past_end : h.overrun ≡ (g.overrun || (ltb 0 (length l) && ltb max_num_proc (g.nr_tmp + length l)))

Done-append : (g h k : Globals) (l m : List Visit) → Done g h l → Done h k m → Done g k (l ++ m)
Done-append g h k l m a b = record {
  count = omega (arith, a.count, b.count, length-append l m);
  before = λ j lt. b.before j (omega (arith, a.count)) ∙ a.before j lt;
  shown = λ fits.
      Reads-append k.buf_tmp g.nr_tmp l m
        (Reads-frame h.buf_tmp k.buf_tmp g.nr_tmp l
          (λ j lo hi. sym (b.before j (omega (arith, a.count))))
          (a.shown (omega (arith, b.count, fits))))
        (subst (λ n. Reads k.buf_tmp n m) a.count (b.shown fits));
  parents = λ j. b.parents j ∙ a.parents j;
  past_end = ground (arith, a.past_end, b.past_end, a.count, length-append l m);
}

Done-nil : (g : Globals) → Done g g []
Done-nil g = record {
  count = omega arith;
  before = λ j lt. refl;
  shown = λ fits. tt;
  parents = λ j. refl;
  past_end = ground arith;
}

record_process-Done :
    (i : Info) (kids : Procs) (sibling level : ℕ) (g : Globals)
    → Done g (record_process i kids sibling level g) ((i, level) ∷ [])
unfolding record_process
record_process-Done i kids sibling level g = record {
  count = omega arith;
  before = λ j lt. ground arith;
  shown = λ fits. (
    record {
      pid = ground arith;
      state = ground arith;
      uid = ground arith;
      comm = ground arith;
      level = ground arith;
    },
    tt,
  );
  parents = λ j. ground arith;
  past_end = ground arith;
}

-- Whether there is no result.
abbrev pub is_none {ℓ} : {A : Type ℓ} → Option A → Bool
is_none none = true
is_none (some a) = false

mutual
  unfolding dfs preorder

  dfs-Done :
      (p : Proc) (sibling level : ℕ) (g : Globals)
      → Done g (dfs p sibling level g) (preorder p level)
  dfs-Done (proc i kids) sibling level g =
      Done-append g (record_process i kids sibling level g)
        (dfs_children i kids (level + 1) (record_process i kids sibling level g)) ((i, level) ∷ [])
        (preorder_children kids (level + 1)) (record_process-Done i kids sibling level g)
        (dfs_children-Done i kids (level + 1) (record_process i kids sibling level g))

  dfs_children-Done :
      (parent : Info) (ps : Procs) (level : ℕ) (g : Globals)
      → Done g (dfs_children parent ps level g) (preorder_children ps level)
  dfs_children-Done parent nil level g = Done-nil g
  dfs_children-Done parent (cons p ps) level g =
      let h = dfs p (sibling_after parent ps) level g in
      Done-append g h (dfs_children parent ps level h) (preorder p level)
        (preorder_children ps level) (dfs-Done p (sibling_after parent ps) level g)
        (dfs_children-Done parent ps level h)

copy_out_lem :
    (from : ℕ → Prinfo) (n i : ℕ) (buf : ℕ → Prinfo) (j : ℕ)
    → copy_out from n i buf j ≡ (if leb i j && ltb j (i + n) then from j else buf j)
unfolding copy_out
copy_out_lem from zero i buf j = ground arith
copy_out_lem from (suc n) i buf j =
    ground (arith, copy_out_lem from n (i + 1) (update buf i (from i)) j)

-- The number of processes.
abbrev pub processes : Proc → ℕ
processes init = length (preorder init 0)

-- The system call succeeds, and what it returns has the property.
abbrev pub Returns : Proc → Globals → (ℕ → Prinfo) → (ℕ → (ℕ → Prinfo) → Type 0) → Type 0
Returns init g buf P = (r : Globals × ℕ × (ℕ → Prinfo)) × (ptree init g buf ≡ some r) × P r.1 r.2

module _ (init : Proc) (g : Globals) (buf : ℕ → Prinfo) where
  abbrev after : Globals
  after = dfs init 0 0 (record g { nr_tmp = 0; overrun = false })

  start-Done : Done (record g { nr_tmp = 0; overrun = false }) after (preorder init 0)
  start-Done = dfs-Done init 0 0 (record g { nr_tmp = 0; overrun = false })

  after_overrun : after.overrun ≡ ltb max_num_proc (processes init)
  after_overrun = ground (arith, start-Done.past_end)

  -- DFS writes past the end of the module's buffer exactly when there are more than MAX_NUM_PROC
  -- processes, whatever the buffers held before.
  pub ptree_overrun : is_none (ptree init g buf) ≡ ltb max_num_proc (processes init)
  unfolding ptree
  ptree_overrun = elim (Bool-cases after.overrun) [
    | inl e ↦ rw (ptree, e) (sym e ∙ after_overrun)
    | inr e ↦ rw (ptree, e) (sym e ∙ after_overrun)
  ]

  module _ (fits : processes init ≤ max_num_proc) where
    abbrev copy : ℕ → Prinfo
    copy = copy_out after.buf_tmp after.nr_tmp 0 buf

    result_eq : ptree init g buf ≡ some (after, after.nr_tmp, copy)
    unfolding ptree
    result_eq =
        let e : after.overrun ≡ false = ground (arith, after_overrun, fits) in rw (ptree, e) refl

    copied : (j : ℕ) → j < processes init → copy j ≡ after.buf_tmp j
    copied j h = copy_out_lem after.buf_tmp after.nr_tmp 0 buf j ∙ ground (arith, start-Done.count)

    -- With at most MAX_NUM_PROC processes the system call succeeds, returns their number, and fills
    -- the caller's buffer with their process ids, states, users, names and depths, parents before
    -- children and each child's whole family before the next child.
    pub ptree_preorder :
        Returns init g buf λ n out. (n ≡ processes init) × Reads out 0 (preorder init 0)
    ptree_preorder =
        let d = start-Done in
        let count : after.nr_tmp ≡ processes init = omega (arith, d.count) in
        (
          (after, after.nr_tmp, copy),
          result_eq,
          (
            count,
            Reads-frame after.buf_tmp copy 0 (preorder init 0)
                (λ j lo hi. sym (copied j (omega arith))) (d.shown (omega (arith, count, fits))),
          ),
        )

    -- The parent's process id is never written: with at most MAX_NUM_PROC processes, each entry
    -- that the caller gets shows the value that the module's buffer held before the call.
    pub ptree_parent_pid :
        Returns init g buf
          λ n out. (j : ℕ) → j < processes init → (out j).parent_pid ≡ (g.buf_tmp j).parent_pid
    ptree_parent_pid = (
      (after, after.nr_tmp, copy),
      result_eq,
      λ j h. ap (λ e. e.parent_pid) (copied j h) ∙ start-Done.parents j,
    )

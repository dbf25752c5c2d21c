-- ===== src/Wrr/Round.antt =====
-- A wrr queue under timer ticks, against the abstract turns of Wrr/Spec.antt.
use android_kernel_programmi.Base.{
  ◌⊎◌, fun_ext, ◌∙◌, sym, ℕ, zero, suc, ◌≡◌, ◌<◌, ◌^◌, ◌-◌, refl, ap, List, [], ◌∷◌, ◌++◌, arith,
  ◌==◌, if◌then◌else◌, length, length-append, has-append, has, true, false, Bool-cases, inl, inr,
  none, some,
}
use mathlib.Core.List.{append-nil}
use android_kernel_programmi.Kernel.State.{Sys, weights, queue_of}
use android_kernel_programmi.Kernel.Env.{Env}
use android_kernel_programmi.Wrr.Class.{task_tick_wrr, pick_next_task_wrr}
use android_kernel_programmi.Wrr.Inv.{SysOk}
use android_kernel_programmi.Wrr.Hooks.{task_tick_wrr-SysOk}
use android_kernel_programmi.Wrr.Tick.{
  weights-task_tick_wrr, slice_of, full_slice, full_slice_bounds, slice_of-task_tick_wrr_ne,
  slice_of-task_tick_wrr_self, queue-task_tick_wrr,
}
use android_kernel_programmi.Wrr.Spec
use android_kernel_programmi.Wrr.Spec.{Turns, refreshed, total_slices, shares, AllOpen, served}

-- The turns that a queue stands for, by the slices of its tasks.
abbrev pub turns : (ℕ → ℕ) → List ℕ → Turns
turns f [] = []
turns f (p ∷ q) = (p, f p) ∷ turns f q

abbrev pub turns_of : Sys → ℕ → Turns
turns_of s c = turns (slice_of s) (queue_of s c)

-- A well-formed queue of fewer than 2^32 tasks, each with a slice left that is a word.
pub record Turning (s : Sys) (c : ℕ) : Type 0 where
  pub ok : SysOk s
  pub short : length (queue_of s c) < 2 ^ 32
  pub slices : (p : ℕ) → has p (queue_of s c) ≡ true → (0 < slice_of s p) × (slice_of s p < 2 ^ 32)

turns-append : (f : ℕ → ℕ) (q r : List ℕ) → turns f (q ++ r) ≡ turns f q ++ turns f r
turns-append f [] r = refl
turns-append f (p ∷ q) r = ap (λ t. (p, f p) ∷ t) (turns-append f q r)

turns_frame :
    (f g : ℕ → ℕ) (p : ℕ) (q : List ℕ)
    → ((x : ℕ) → (p == x) ≡ false → f x ≡ g x)
    → has p q ≡ false
    → turns f q ≡ turns g q
turns_frame f g p [] same h = refl
turns_frame f g p (x ∷ q) same h = ground (arith, same x, turns_frame f g p q same)

-- The timer tick that hits the task in front.
unfoldable pub tick_front : Env → Sys → ℕ → Sys
tick_front env s c = elim (pick_next_task_wrr s c) [ none ↦ s | some p ↦ task_tick_wrr env s c p 0 ]

unfoldable pub tick_fronts : Env → ℕ → Sys → ℕ → Sys
tick_fronts env zero s c = s
tick_fronts env (suc n) s c = tick_fronts env n (tick_front env s c) c

-- Who is served at each of the ticks.
unfoldable pub served_by : Env → ℕ → Sys → ℕ → List ℕ
served_by env zero s c = []
served_by env (suc n) s c =
    let rest = served_by env n (tick_front env s c) c in
    elim (pick_next_task_wrr s c) [ none ↦ rest | some p ↦ p ∷ rest ]

module _ (env : Env) (s : Sys) (c p : ℕ) (q : List ℕ) (v : Turning s c)
    (front : queue_of s c ≡ p ∷ q) where
  abbrev ticked : Sys
  ticked = task_tick_wrr env s c p 0

  on_queue : has p (queue_of s c) ≡ true
  on_queue = ground (arith, front)

  bounds : (0 < slice_of s p) × (slice_of s p < 2 ^ 32)
  bounds = v.slices p on_queue

  absent : has p q ≡ false
  absent = ground (arith, front, (v.ok.queues c).no_dup)

  queue-ticked : queue_of ticked c ≡ (if slice_of s p == 1 then q ++ (p ∷ []) else p ∷ q)
  queue-ticked =
      ground (arith, front, queue-task_tick_wrr env s c p 0 v.ok on_queue bounds.0 bounds.1)

  slice_of-ticked :
      slice_of ticked p
      ≡ (if slice_of s p == 1 then full_slice env (weights s p) else slice_of s p - 1)
  slice_of-ticked = slice_of-task_tick_wrr_self env s c p 0 bounds.0 bounds.1

  turns-ticked : turns (slice_of ticked) q ≡ turns (slice_of s) q
  turns-ticked =
      turns_frame (slice_of ticked) (slice_of s) p q (slice_of-task_tick_wrr_ne env s c p 0) absent

  -- One tick of the code is one tick of the turns.
  turns_of-ticked : turns_of ticked c ≡ Spec.tick (λ x. full_slice env (weights s x)) (turns_of s c)
  unfolding Spec.tick
  turns_of-ticked =
      rw (front, queue-ticked)
        (ground (arith, slice_of-ticked, turns-ticked, turns-append (slice_of ticked) q (p ∷ [])))

  has-ticked : (x : ℕ) → has x (queue_of ticked c) ≡ has x (queue_of s c)
  has-ticked x = ground (arith, front, queue-ticked, has-append x q (p ∷ []))

  ticked-Turning : Turning ticked c
  ticked-Turning = record {
    ok = task_tick_wrr-SysOk env s c p v.ok on_queue 0;
    short = ground (arith, front, queue-ticked, v.short, length-append q (p ∷ []));
    slices = λ x h. elim (Bool-cases (p == x)) [
      | inl e ↦ ground (arith, slice_of-ticked, bounds, full_slice_bounds env (weights s p))
      | inr e ↦ ground (arith, slice_of-task_tick_wrr_ne env s c p 0 x e, has-ticked x, v.slices x)
    ];
  }

  pick-front : pick_next_task_wrr s c ≡ some p
  unfolding pick_next_task_wrr
  pick-front = ground (arith, front, v.short, (v.ok.queues c).count)

List-cases : (l : List ℕ) → (l ≡ []) ⊎ ((p : ℕ) × (q : List ℕ) × (l ≡ p ∷ q))
List-cases [] = inl refl
List-cases (p ∷ q) = inr (p, q, refl)

module _ (env : Env) (c : ℕ) where
  abbrev pub earned : Sys → ℕ → ℕ
  earned s p = full_slice env (weights s p)

  pick_none : (s : Sys) → SysOk s → queue_of s c ≡ [] → pick_next_task_wrr s c ≡ none
  unfolding pick_next_task_wrr
  pick_none s ok e = ground (arith, e, (ok.queues c).count)

  tick_front-none : (s : Sys) → pick_next_task_wrr s c ≡ none → tick_front env s c ≡ s
  unfolding tick_front
  tick_front-none s e = ground (arith, e)

  tick_front-some :
      (s : Sys) (p : ℕ)
      → pick_next_task_wrr s c ≡ some p
      → tick_front env s c ≡ task_tick_wrr env s c p 0
  unfolding tick_front
  tick_front-some s p e = ground (arith, e)

  -- What a tick keeps, whether or not a task is queued.
  record Kept (s : Sys) : Type 0 where
    turning : Turning (tick_front env s c) c
    earns : earned (tick_front env s c) ≡ earned s
    step : turns_of (tick_front env s c) c ≡ Spec.tick (earned s) (turns_of s c)
    serves :
        (rest : List ℕ)
        → (elim (pick_next_task_wrr s c) [ none ↦ rest | some p ↦ p ∷ rest ])
          ≡ served (earned s) (turns_of s c) ++ rest

  tick_front-Kept : (s : Sys) → Turning s c → Kept s
  unfolding Spec.tick
  tick_front-Kept s v = elim (List-cases (queue_of s c)) [
    | inl e ↦
        let none_picked = pick_none s v.ok e in
        record {
          turning = rw (tick_front-none s none_picked) v;
          earns = rw (tick_front-none s none_picked) refl;
          step = rw (tick_front-none s none_picked, e) refl;
          serves = λ rest. rw (none_picked, e) refl;
        }
    | inr (p, q, e) ↦
        let picked = pick-front env s c p q v e in
        record {
          turning = rw (tick_front-some s p picked) (ticked-Turning env s c p q v e);
          earns =
              rw (tick_front-some s p picked)
                (fun_ext λ x. ap (full_slice env) (weights-task_tick_wrr env s c p 0 x));
          step = rw (tick_front-some s p picked) (turns_of-ticked env s c p q v e);
          serves = λ rest. rw (picked, e) refl;
        }
  ]

  -- Any number of timer ticks on a well-formed wrr queue of fewer than 2^32 tasks that each have a
  -- slice left does to the tasks and their slices what the abstract turns do, serves the same task
  -- at each tick, and leaves such a queue.
  pub tick_fronts_refines :
      (n : ℕ) (s : Sys)
      → Turning s c
      → (turns_of (tick_fronts env n s c) c ≡ Spec.ticks (earned s) n (turns_of s c))
        × (served_by env n s c ≡ Spec.trace (earned s) n (turns_of s c))
        × Turning (tick_fronts env n s c) c
  unfolding tick_fronts served_by Spec.ticks Spec.trace
  tick_fronts_refines zero s v = (refl, refl, v)
  tick_fronts_refines (suc n) s v =
      let k = tick_front-Kept s v in
      let (a, b, w) = tick_fronts_refines n (tick_front env s c) k.turning in
      (
        a ∙ (rw (k.earns, k.step) refl),
        k.serves _
            ∙ ap (λ l. served (earned s) (turns_of s c) ++ l) (b ∙ (rw (k.earns, k.step) refl)),
        w,
      )

turns_open : (f : ℕ → ℕ) (q : List ℕ) → ((p : ℕ) → has p q ≡ true → 0 < f p) → AllOpen (turns f q)
turns_open f [] h = tt
turns_open f (p ∷ q) h = (h p (ground arith), turns_open f q (λ x m. h x (ground arith)))

-- Round robin, for a well-formed queue of fewer than 2^32 tasks that each have a slice left: as
-- many ticks as the slices of the queued tasks add up to serve each of the tasks for exactly its
-- slice, in queue order, and leave the queue in its old order with full slices.
pub round_robin :
    (env : Env) (c : ℕ) (s : Sys)
    → Turning s c
    → let n = total_slices (turns_of s c) in
      (served_by env n s c ≡ shares (turns_of s c))
      × (turns_of (tick_fronts env n s c) c ≡ refreshed (earned env c s) (turns_of s c))
round_robin env c s v =
    let q = turns_of s c in
    let n = total_slices q in
    let h = turns_open (slice_of s) (queue_of s c) (λ p m. (v.slices p m).0) in
    let (a, b, w) = tick_fronts_refines env c n s v in
    (
      b
          ∙ ap (Spec.trace (earned env c s) n) (sym (append-nil q))
          ∙ Spec.trace-shares (earned env c s) q [] h,
      a
          ∙ ap (Spec.ticks (earned env c s) n) (sym (append-nil q))
          ∙ Spec.ticks-shares (earned env c s) q [] h,
    )

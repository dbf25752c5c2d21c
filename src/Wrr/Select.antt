-- ===== src/Wrr/Select.antt =====
-- The cpu that select_task_rq_wrr chooses.
use mathlib.Core.Path.{subst}
use android_kernel_programmi.Base.{
  sym, ℕ, ◌≡◌, ◌⊎◌, inl, inr, refl, Bool, true, false, List, [], ◌∷◌, ◌==◌, ◌&&◌, has, arith,
  lt_int, Bool-cases,
}
use android_kernel_programmi.Kernel.State.{Sys}
use android_kernel_programmi.Kernel.Env.{Env}
use android_kernel_programmi.Wrr.Class.{least_loaded, select_task_rq_wrr}

abbrev pub load : Sys → ℕ → ℕ
load s c = (s.rqs c).wrr.total_weight

lt_int_trans : (a b c : ℕ) → lt_int a b ≡ false → lt_int b c ≡ false → lt_int a c ≡ false
lt_int_trans a b c h k = ground (arith, h, k)

lt_int_asym : (a b : ℕ) → lt_int a b ≡ true → lt_int b a ≡ false
lt_int_asym a b h = ground (arith, h)

lt_int_irrefl : (a : ℕ) → lt_int a a ≡ false
lt_int_irrefl a = ground arith

module _ (env : Env) (s : Sys) (allowed : ℕ → Bool) where
  abbrev chosen : ℕ → List ℕ → ℕ
  chosen c cpus = least_loaded env s allowed c (load s c) cpus

  abbrev better : ℕ → ℕ → Bool
  better c d = allowed d && lt_int (load s d) (load s c)

  abbrev IsCandidate : List ℕ → ℕ → ℕ → Type 0
  IsCandidate cpus c r = (r ≡ c) ⊎ ((has r cpus ≡ true) × (allowed r ≡ true))

  chosen_start : (cpus : List ℕ) (c : ℕ) → lt_int (load s c) (load s (chosen c cpus)) ≡ false
  unfolding least_loaded
  chosen_start [] c = lt_int_irrefl (load s c)
  chosen_start (d ∷ cpus) c = elim (Bool-cases (better c d)) [
    | inl e ↦ rw e (
        lt_int_trans (load s c) (load s d) (load s (chosen d cpus)) (ground (arith, e))
          (chosen_start cpus d))
    | inr e ↦ rw e (chosen_start cpus c)
  ]

  chosen_least :
      (cpus : List ℕ) (c x : ℕ)
      → has x cpus ≡ true
      → allowed x ≡ true
      → lt_int (load s x) (load s (chosen c cpus)) ≡ false
  unfolding least_loaded
  chosen_least [] c x m a = ground (arith, m)
  chosen_least (d ∷ cpus) c x m a = elim (Bool-cases (better c d)) [
    | inl e ↦ rw e (elim (Bool-cases (d == x)) [
      | inl f ↦ ground (arith, f, chosen_start cpus d)
      | inr f ↦ chosen_least cpus d x (ground (arith, f, m)) a
    ])
    | inr e ↦ rw e (elim (Bool-cases (d == x)) [
      | inl f ↦
          lt_int_trans (load s x) (load s c) (load s (chosen c cpus)) (ground (arith, e, f, a))
            (chosen_start cpus c)
      | inr f ↦ chosen_least cpus c x (ground (arith, f, m)) a
    ])
  ]

  IsCandidate-taken :
      (cpus : List ℕ) (c d r : ℕ)
      → allowed d ≡ true
      → IsCandidate cpus d r
      → IsCandidate (d ∷ cpus) c r
  IsCandidate-taken cpus c d r h (inl e) = inr (ground (arith, e), ground (arith, e, h))
  IsCandidate-taken cpus c d r h (inr (m, a)) = inr (ground (arith, m), a)

  IsCandidate-kept : (cpus : List ℕ) (c d r : ℕ) → IsCandidate cpus c r → IsCandidate (d ∷ cpus) c r
  IsCandidate-kept cpus c d r (inl e) = inl e
  IsCandidate-kept cpus c d r (inr (m, a)) = inr (ground (arith, m), a)

  chosen_taken : (cpus : List ℕ) (c d : ℕ) → better c d ≡ true → chosen c (d ∷ cpus) ≡ chosen d cpus
  unfolding least_loaded
  chosen_taken cpus c d e = rw e refl

  chosen_kept : (cpus : List ℕ) (c d : ℕ) → better c d ≡ false → chosen c (d ∷ cpus) ≡ chosen c cpus
  unfolding least_loaded
  chosen_kept cpus c d e = rw e refl

  chosen_allowed : (cpus : List ℕ) (c : ℕ) → IsCandidate cpus c (chosen c cpus)
  unfolding least_loaded
  chosen_allowed [] c = inl refl
  chosen_allowed (d ∷ cpus) c = elim (Bool-cases (better c d)) [
    | inl e ↦
        subst (IsCandidate (d ∷ cpus) c) (sym (chosen_taken cpus c d e))
          (IsCandidate-taken cpus c d (chosen d cpus) (ground (arith, e)) (chosen_allowed cpus d))
    | inr e ↦
        subst (IsCandidate (d ∷ cpus) c) (sym (chosen_kept cpus c d e))
          (IsCandidate-kept cpus c d (chosen c cpus) (chosen_allowed cpus c))
  ]

-- The cpu chosen for a task that may run on more than one: its own or an allowed online one, and
-- no allowed online cpu has a smaller total weight, nor has the task's own, as `int`s.
pub select_task_rq_wrr_least :
    (env : Env) (s : Sys) (p sd_flag flags : ℕ)
    → ((s.tasks p).wrr.nr_cpus_allowed == 1) ≡ false
    → let t = s.tasks p in
      let r = select_task_rq_wrr env s p sd_flag flags in
      ((r ≡ t.cpu) ⊎ ((has r env.online ≡ true) × (t.cpus_allowed r ≡ true)))
      × (lt_int (load s t.cpu) (load s r) ≡ false)
      × ((c : ℕ)
          → has c env.online ≡ true
          → t.cpus_allowed c ≡ true
          → lt_int (load s c) (load s r) ≡ false)
unfolding select_task_rq_wrr
select_task_rq_wrr_least env s p sd_flag flags h =
    let t = s.tasks p in
    rw h (
      chosen_allowed env s t.cpus_allowed env.online t.cpu,
      chosen_start env s t.cpus_allowed env.online t.cpu,
      λ c m a. chosen_least env s t.cpus_allowed env.online t.cpu c m a,
    )

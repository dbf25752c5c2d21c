-- ===== src/Rt/Inv.antt =====
-- The invariant of the real-time class: what links the entities and the queues of all groups.
use android_kernel_programmi.Sched.Policy.{max_rt_prio}
use android_kernel_programmi.Base.{ℕ, ◌^◌, ◌≡◌, ◌<◌, ◌≤◌, true, some, List, [], ◌∷◌, has, length}
use android_kernel_programmi.Rt.State.{RtSys}
use android_kernel_programmi.Rt.Queue.{rt_se_prio}
use android_kernel_programmi.Rt.Level.{LevelOk}

-- Tasks and groups have numbers below this.
abbrev pub entity_max : ℕ
entity_max = 2 ^ 31

-- The groups form a tree: the entities of a queue are the children of the entity that owns it, and
-- those of the cpu's own queue have no parent; groups are nested `depth` deep at most. A task of the
-- class has a real-time priority.
pub record Tree (depth : ℕ) (s : RtSys) : Type 0 where
  pub owner :
      (e g q : ℕ)
      → (s.entities g).my_q ≡ some q
      → (s.entities e).rt_rq ≡ q
      → (s.entities e).parents ≡ g ∷ (s.entities g).parents
  pub nested :
      (e g : ℕ) (gs : List ℕ) → (s.entities e).parents ≡ g ∷ gs → gs ≡ (s.entities g).parents
  pub top : (e : ℕ) → (s.entities e).rt_rq ≡ 0 → (s.entities e).parents ≡ []
  pub deep : (e : ℕ) → length (s.entities e).parents ≤ depth

-- Each `rt_rq` is well formed, an entity is on the list that its `run_list` says and on no other, at
-- its own priority, and the group of a queued entity is not empty.
pub record RtOk (s : RtSys) : Type 0 where
  pub levels : (q : ℕ) → LevelOk (s.rt_rqs q)
  pub links :
      (e q i : ℕ)
      → has e ((s.rt_rqs q).queue i) ≡ true
      → ((s.entities e).rt_rq ≡ q) × ((s.entities e).run_list ≡ some i)
  pub placed :
      (e i : ℕ)
      → (s.entities e).run_list ≡ some i
      → has e ((s.rt_rqs (s.entities e).rt_rq).queue i) ≡ true
  pub prios :
      (e i : ℕ) → (s.entities e).run_list ≡ some i → (rt_se_prio s e ≡ i) × (i < max_rt_prio)
  pub filled :
      (e q i : ℕ)
      → (s.entities e).run_list ≡ some i
      → (s.entities e).my_q ≡ some q
      → 0 < (s.rt_rqs q).rt_nr_running
  pub known : (e i : ℕ) → (s.entities e).run_list ≡ some i → e < entity_max

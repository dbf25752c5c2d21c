-- ===== src/Server/Pool.antt =====
-- Any interleaving of the server's threads: a step relation over the shared counters and the
-- `block` flags of the live threads. Each critical section is one step; `seen` is what a step reads of
-- `num_thread`.
use android_kernel_programmi.Base.{
  ℕ, ◌+◌, ◌≡◌, ◌≤◌, Bool, true, List, [], ◌∷◌, ◌++◌, arith, if◌then◌else◌,
}
use android_kernel_programmi.Server.Thread.{
  num_threads_aval, Counters, Received, serve, finish, accept,
}

pub record Pool : Type 0 where
  pub counters : Counters
  pub blocked : List Bool

-- The threads that are being served.
abbrev pub serving : List Bool → ℕ
serving [] = 0
serving (b ∷ bs) = (if b then 0 else 1) + serving bs

pub data Step (p q : Pool) : Type 0 where
  -- main accepts a connection, whose thread starts blocked
  connect :
      (seen : ℕ)
      → q ≡ record { counters = accept p.counters seen; blocked = true ∷ p.blocked }
      → Step p q
  -- a thread answers a message
  answer :
      (before after : List Bool) (b : Bool) (m : Received)
      → p.blocked ≡ before ++ (b ∷ after)
      → q ≡ (
          let (c, b', o) = serve p.counters b m in
          record { counters = c; blocked = before ++ (b' ∷ after) })
      → Step p q
  -- a thread ends: its client quit, or recv or send failed
  quit :
      (before after : List Bool) (b : Bool) (seen : ℕ)
      → p.blocked ≡ before ++ (b ∷ after)
      → q ≡ record { counters = finish p.counters seen b; blocked = before ++ after }
      → Step p q

pub data Reach (p : Pool) : Pool → Type 0 where
  here : Reach p p
  next : {q r : Pool} → Reach p q → Step q r → Reach p r

-- `num_working_thread` counts the threads that are served, of which there are two at most.
pub record PoolOk (p : Pool) : Type 0 where
  pub working : p.counters.num_working_thread ≡ serving p.blocked
  pub limit : serving p.blocked ≤ num_threads_aval

pub serving-append : (xs ys : List Bool) → serving (xs ++ ys) ≡ serving xs + serving ys
serving-append [] ys = omega arith
serving-append (x ∷ xs) ys = omega (arith, serving-append xs ys)

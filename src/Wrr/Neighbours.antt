-- ===== src/Wrr/Neighbours.antt =====
-- The test `run_list.prev != run_list.next` of task_tick_wrr, read on the queue.
use android_kernel_programmi.Base.{
  ℕ, ◌≡◌, true, false, List, [], ◌∷◌, has, NoDup, length, leb, arith,
}
use android_kernel_programmi.Wrr.Ring.{entry, node_eq, next_of, prev_from, has_neighbours}

-- Behind an entry `x` that is not further on, the two neighbours differ.
neighbours_differ :
    (x p : ℕ) (q : List ℕ)
    → has x q ≡ false
    → NoDup q
    → has p q ≡ true
    → node_eq (prev_from (entry x) p q) (next_of p q) ≡ false
unfolding prev_from next_of
neighbours_differ x p [] hx d hp = cc
neighbours_differ x p (y ∷ []) hx d hp = ground arith
neighbours_differ x p (y ∷ z ∷ r) hx d hp = ground (arith, neighbours_differ y p (z ∷ r) d.0 d.1)

-- On a queue without duplicates, a queued task has two different neighbours exactly when the queue
-- holds another task.
pub has_neighbours-eq-leb :
    (p : ℕ) (q : List ℕ) → NoDup q → has p q ≡ true → has_neighbours p q ≡ leb 2 (length q)
unfolding has_neighbours
has_neighbours-eq-leb p [] d h = ground arith
has_neighbours-eq-leb p (x ∷ []) d h = ground arith
has_neighbours-eq-leb p (x ∷ y ∷ r) d h = ground (arith, neighbours_differ x p (y ∷ r) d.0 d.1)

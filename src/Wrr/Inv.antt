-- ===== src/Wrr/Inv.antt =====
-- The well-formedness of the wrr queues, and lemmas on one queue.
use android_kernel_programmi.Base.{
  ℕ, ◌%◌, ◌^◌, ◌≡◌, true, false, [], ◌∷◌, ◌++◌, has, NoDup, remove, sum_of, length, length-append,
  length-remove, sum_of-append, sum_of-remove, NoDup-snoc, NoDup-remove, has-remove_self, arith,
  add32, sub32, sum_of_frame, ◌==◌,
}
use android_kernel_programmi.Kernel.State.{Sys, WrrRq, weights, queue_of}

-- A queue holds each task once, and its counters are its length and its total weight, as words.
pub record QueueOk (f : ℕ → ℕ) (w : WrrRq) : Type 0 where
  pub no_dup : NoDup w.queue
  pub count : w.wrr_nr_running ≡ length w.queue % 2 ^ 32
  pub total : w.total_weight ≡ sum_of f w.queue % 2 ^ 32

-- Every cpu's queue is well formed, and no task is on two of them.
pub record SysOk (s : Sys) : Type 0 where
  pub queues : (c : ℕ) → QueueOk (weights s) (s.rqs c).wrr
  pub apart : (c d p : ℕ) → has p (queue_of s c) ≡ true → has p (queue_of s d) ≡ true → c ≡ d

-- `p` is on no queue.
abbrev pub Unqueued : Sys → ℕ → Type 0
Unqueued s p = (c : ℕ) → has p (queue_of s c) ≡ false

module _ (f : ℕ → ℕ) (w : WrrRq) (p : ℕ) where
  abbrev pub added_front : WrrRq
  added_front = record {
    queue = p ∷ w.queue;
    wrr_nr_running = add32 w.wrr_nr_running 1;
    total_weight = add32 w.total_weight (f p);
  }

  abbrev pub added_back : WrrRq
  added_back = record {
    queue = w.queue ++ (p ∷ []);
    wrr_nr_running = add32 w.wrr_nr_running 1;
    total_weight = add32 w.total_weight (f p);
  }

  abbrev pub taken : WrrRq
  taken = record {
    queue = remove p w.queue;
    wrr_nr_running = sub32 w.wrr_nr_running 1;
    total_weight = sub32 w.total_weight (f p);
  }

  pub added_front-QueueOk : QueueOk f w → has p w.queue ≡ false → QueueOk f added_front
  added_front-QueueOk ok h = record {
    no_dup = (h, ok.no_dup);
    count = omega (arith, ok.count);
    total = omega (arith, ok.total);
  }

  pub added_back-QueueOk : QueueOk f w → has p w.queue ≡ false → QueueOk f added_back
  added_back-QueueOk ok h = record {
    no_dup = NoDup-snoc p w.queue ok.no_dup h;
    count = omega (arith, ok.count, length-append w.queue (p ∷ []));
    total = omega (arith, ok.total, sum_of-append f w.queue (p ∷ []));
  }

  pub taken-QueueOk : QueueOk f w → has p w.queue ≡ true → QueueOk f taken
  taken-QueueOk ok h = record {
    no_dup = NoDup-remove p w.queue ok.no_dup;
    count = omega (arith, ok.count, length-remove p w.queue h);
    total = omega (arith, ok.total, sum_of-remove f p w.queue h);
  }

-- Weights may change away from the queue.
pub frame-QueueOk :
    (f g : ℕ → ℕ) (w : WrrRq) (p : ℕ)
    → ((q : ℕ) → (p == q) ≡ false → f q ≡ g q)
    → has p w.queue ≡ false
    → QueueOk f w
    → QueueOk g w
frame-QueueOk f g w p same h ok = record {
  no_dup = ok.no_dup;
  count = ok.count;
  total = omega (arith, ok.total, sum_of_frame f g p w.queue same h);
}

-- A rotation keeps what the counters count.
pub moved-QueueOk :
    (f : ℕ → ℕ) (w : WrrRq) (p : ℕ)
    → QueueOk f w
    → has p w.queue ≡ true
    → QueueOk f (record w { queue = remove p w.queue ++ (p ∷ []) })
moved-QueueOk f w p ok h = record {
  no_dup =
      NoDup-snoc p (remove p w.queue) (NoDup-remove p w.queue ok.no_dup)
        (has-remove_self p w.queue ok.no_dup);
  count =
      omega (arith, ok.count, length-remove p w.queue h, length-append (remove p w.queue) (p ∷ []));
  total =
      omega
        (arith, ok.total, sum_of-remove f p w.queue h, sum_of-append f (remove p w.queue) (p ∷ []));
}

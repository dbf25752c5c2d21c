-- ===== src/Wrr/Ring.antt =====
-- The neighbours of an entry in the circular list of a queue, for `run_list.prev` and
-- `run_list.next`: either the list head or another entry.
use android_kernel_programmi.Base.{ℕ, Bool, true, false, not, List, [], ◌∷◌, ◌==◌, if◌then◌else◌}

pub data Node : Type 0 where
  head : Node
  entry : ℕ → Node

abbrev pub node_eq : Node → Node → Bool
node_eq head head = true
node_eq (entry p) (entry q) = p == q
node_eq _ _ = false

abbrev first_of_list : List ℕ → Node
first_of_list [] = head
first_of_list (x ∷ xs) = entry x

-- An entry that is on no list points to itself.
unfoldable pub next_of : ℕ → List ℕ → Node
next_of p [] = entry p
next_of p (x ∷ xs) = if x == p then first_of_list xs else next_of p xs

unfoldable pub prev_from : Node → ℕ → List ℕ → Node
prev_from before p [] = entry p
prev_from before p (x ∷ xs) = if x == p then before else prev_from (entry x) p xs

-- `run_list.prev != run_list.next`
unfoldable pub has_neighbours : ℕ → List ℕ → Bool
unfolding next_of prev_from
has_neighbours p q = not (node_eq (prev_from head p q) (next_of p q))

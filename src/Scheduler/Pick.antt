-- ===== src/Scheduler/Pick.antt =====
-- The choice of the next thread in `sched_next_process_core` of
-- kernel/src/arch/x86_64/scheduler/scheduler.c.
pub mod Rotation
pub mod Laws
pub mod Turns
pub mod Chosen
use creeper_os_v.Prelude.{
  ℕ, zero, suc, ◌+◌, ◌*◌, Bool, true, false, if◌then◌else◌, ◌==◌, Option, none, some, List, [], ◌∷◌,
  length,
}

-- current->shed_list_node.next, which is NULL where the thread is last, or not in the list.
unfoldable pub next_nodes : (current : ℕ) → List ℕ → List ℕ
next_nodes current [] = []
next_nodes current (t ∷ ts) = if t == current then ts else next_nodes current ts

-- next_node = scheduler_threads.first, where it is NULL.
abbrev pub or_first : (first next_node : List ℕ) → List ℕ
or_first first [] = first
or_first first (t ∷ ts) = t ∷ ts

-- The loop. `node` stands for `next_node` and what follows it; `none` is a loop that goes on.
unfoldable pub pick_loop :
    (rounds : ℕ) (runnable : ℕ → Bool) (current : ℕ) (threads node : List ℕ) → Option ℕ
pick_loop zero runnable current threads node = none
pick_loop (suc rounds) runnable current threads node = elim (or_first threads node) [
  | [] ↦ some current
  | cand ∷ rest ↦
      let later = pick_loop rounds runnable current threads rest in
      if runnable cand then some cand else if cand == current then some current else later
]

-- Enough rounds for every node behind the current one, and for all nodes after that.
unfoldable pub pick : (runnable : ℕ → Bool) (current : ℕ) (threads : List ℕ) → Option ℕ
unfolding pick_loop next_nodes
pick runnable current threads =
    pick_loop (2 * length threads + 2) runnable current threads (next_nodes current threads)

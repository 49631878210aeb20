-- ===== src/Task/Queues/Tests.antt =====
-- An executor with two short queues.
use hootux.Task.{LocalExecutor}
use hootux.Task.Queues.Order.{Interleaves, drain, drain-Interleaves}
use hootux.Task.Queues.Fair.{drain_fair}
use hootux.Prelude.{ℕ, ◌+◌, ◌*◌, ◌≤◌, ◌≡◌, refl, false, some, [], ◌∷◌, get_elem?, arith}

abbrev two_queues : LocalExecutor
two_queues = record {
  arbiter_local = false;
  local_queue = 1 ∷ 2 ∷ [];
  stealable_queue = 3 ∷ 4 ∷ 5 ∷ [];
  local_task_cache = [];
}

drain-Interleaves_example : Interleaves (1 ∷ 2 ∷ []) (3 ∷ 4 ∷ 5 ∷ []) (drain 5 two_queues)
drain-Interleaves_example = drain-Interleaves 5 two_queues (omega arith)

drain_fair_example : (k : ℕ) × (k ≤ 0 + (1 + 2 * 1)) × (get_elem? (drain 5 two_queues) k ≡ some 4)
drain_fair_example = drain_fair 5 two_queues false 1 4 (omega arith) refl

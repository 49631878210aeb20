-- ===== src/Task/Queues/Load.antt =====
-- kernel/src/task/kernel_scheduler.rs: taking a task leaves the queues one shorter.
use hootux.Task.{LocalExecutor, has}
use hootux.Task.Queues.{next_tid, fetch_from_cache, find_task, fetch_kernel_task}
use hootux.Task.Queues.Order.{Choice, empty, local, stealable, view, next_tid-Choice}
use hootux.Prelude.{
  ℕ, ◌+◌, ◌≡◌, refl, inl, inr, Bool, true, false, Bool-cases, Option, none, some, List, length,
  arith,
}

-- the ids in the queues of an executor
unfoldable pub load : LocalExecutor → ℕ
load e = length e.local_queue + length e.stealable_queue

Choice-length :
    {l s : List ℕ} {r : Option (ℕ × Bool) × List ℕ × List ℕ} (t : ℕ × Bool)
    → Choice l s r
    → r.0 ≡ some t
    → length r.1 + length r.2 + 1 ≡ length l + length s
Choice-length t empty e = absurd (cc)
Choice-length t local e = omega arith
Choice-length t stealable e = omega arith

next_tid-load :
    (e : LocalExecutor) (t : ℕ × Bool) → (next_tid e).0 ≡ some t → load (next_tid e).1 + 1 ≡ load e
unfolding load view
next_tid-load e t h = Choice-length t (next_tid-Choice e) h

fetch_from_cache-load :
    (g : List ℕ) (e : LocalExecutor) (tid : ℕ) → load (fetch_from_cache g e tid).1 ≡ load e
unfolding load fetch_from_cache
fetch_from_cache-load g e tid = elim (Bool-cases (has tid e.local_task_cache)) [
  | inl c ↦ rw (c) refl
  | inr c ↦ rw (c) (elim (Bool-cases (has tid g)) [ inl k ↦ rw (k) refl | inr k ↦ rw (k) refl ])
]

-- the queues are as `next_tid` leaves them
find_task-load :
    (g : List ℕ) (id : ℕ) (r : Option (ℕ × Bool) × LocalExecutor)
    → (find_task g r).0 ≡ some id
    → (t : ℕ × Bool) × (r.0 ≡ some t) × (load (find_task g r).1 ≡ load r.1)
unfolding find_task
find_task-load g id (none, e) h = absurd (cc)
find_task-load g id (some (tid, true), e) h = ((tid, true), refl, fetch_from_cache-load g e tid)
find_task-load g id (some (tid, false), e) h = ((tid, false), refl, refl)

pub fetch_kernel_task-load :
    (g : List ℕ) (e : LocalExecutor) (id : ℕ)
    → (fetch_kernel_task g e).0 ≡ some id
    → load (fetch_kernel_task g e).1 + 1 ≡ load e
unfolding fetch_kernel_task
fetch_kernel_task-load g e id h =
    let (t, q, same) = find_task-load g id (next_tid e) h in
    omega (arith, same, next_tid-load e t q)

-- ===== src/Task/Queues.antt =====
-- kernel/src/task/kernel_scheduler.rs: the queues of a `LocalExecutor`, and taking tasks from them.
pub mod Order
pub mod Fair
pub mod Load
mod Tests
use hootux.Task.{LocalExecutor, work_queue_size, has}
use hootux.Prelude.{
  ℕ, Bool, true, false, Option, none, some, List, [], ◌∷◌, ◌++◌, ltb, leb, if◌then◌else◌, length,
}

-- `ArrayQueue::push`, whose error every caller expects never to get
unfoldable pub push : List ℕ → ℕ → Option (List ℕ)
push queue id = if ltb (length queue) work_queue_size then some (queue ++ id ∷ []) else none

-- The head of one queue, or else of the other: the id, with whether it is local, and the local and the
-- stealable queue.
pub local_first : List ℕ → List ℕ → Option (ℕ × Bool) × List ℕ × List ℕ
local_first (t ∷ local) stealable = (some (t, true), local, stealable)
local_first [] (t ∷ stealable) = (some (t, false), [], stealable)
local_first [] [] = (none, [], [])

pub stealable_first : List ℕ → List ℕ → Option (ℕ × Bool) × List ℕ × List ℕ
stealable_first local (t ∷ stealable) = (some (t, false), local, stealable)
stealable_first (t ∷ local) [] = (some (t, true), local, [])
stealable_first [] [] = (none, [], [])

-- the executor with what is left of its queues
pub put :
    LocalExecutor → Bool → Option (ℕ × Bool) × List ℕ × List ℕ → Option (ℕ × Bool) × LocalExecutor
put e arbiter (tid, local, stealable) =
    (tid, record e { arbiter_local = arbiter; local_queue = local; stealable_queue = stealable })

-- the choice of the next id in `fetch_kernel_task`
pub next_tid : LocalExecutor → Option (ℕ × Bool) × LocalExecutor
unfolding put local_first stealable_first
next_tid e =
    if leb (length e.stealable_queue) (length e.local_queue)
    then put e false (local_first e.local_queue e.stealable_queue)
    else if e.arbiter_local
    then put e false (local_first e.local_queue e.stealable_queue)
    else put e true (stealable_first e.local_queue e.stealable_queue)

-- `LocalExecutor::fetch_from_cache`, with `global` the list of all tasks
pub fetch_from_cache : List ℕ → LocalExecutor → ℕ → Option ℕ × LocalExecutor
fetch_from_cache global e tid =
    if has tid e.local_task_cache
    then (some tid, e)
    else if has tid global
    then (some tid, record e { local_task_cache = tid ∷ e.local_task_cache })
    else (none, e)

-- the task of an id that was taken from a queue
pub find_task : List ℕ → Option (ℕ × Bool) × LocalExecutor → Option ℕ × LocalExecutor
unfolding fetch_from_cache
find_task global (none, e) = (none, e)
find_task global (some (tid, true), e) = fetch_from_cache global e tid
find_task global (some (tid, false), e) = (if has tid global then some tid else none, e)

-- `LocalExecutor::fetch_kernel_task`
pub fetch_kernel_task : List ℕ → LocalExecutor → Option ℕ × LocalExecutor
unfolding find_task next_tid
fetch_kernel_task global e = find_task global (next_tid e)

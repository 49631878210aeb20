-- ===== src/Task/Steal.antt =====
-- kernel/src/task/kernel_scheduler.rs: giving tasks to an executor, and taking work from another one.
-- `none` is a panic. Every task in the list of all tasks is in `tasks`.
pub mod Rotation
pub mod Drops
mod Tests
use hootux.Task.{KernelWaker, Task, LocalExecutor, System, has, is_valid}
use hootux.Task.Queues.{push}
use hootux.Prelude.Maps.{lookup, insert, nat_key}
use hootux.Prelude.{
  ℕ, zero, suc, ◌+◌, ◌%◌, ◌^◌, Bool, true, false, Option, none, some, List, [], ◌∷◌, ◌++◌,
  if◌then◌else◌, length, ◌>>=◌, add64,
}

-- what a CPU does with an id that it took: there is no such task, it may not run it now, or it takes it
pub data Verdict : Type 0 where
  missing : Verdict
  passed : Verdict
  taken : Verdict

pub judge : ℕ → Option Task → Verdict
judge cpu none = missing
judge cpu (some task) = if task.locked then passed else if is_valid cpu task then taken else passed

pub verdict : ℕ → System → ℕ → Verdict
unfolding judge
verdict cpu s tid = if has tid s.global_task_list then judge cpu (lookup tid s.tasks) else missing

-- the loop of `LocalExecutor::steal`, for so many rounds: the task, and the queue
pub steal_loop : ℕ → ℕ → System → List ℕ → Option (Option ℕ × List ℕ)
unfolding verdict
steal_loop zero cpu s queue = some (none, queue)
steal_loop (suc n) cpu s [] = some (none, [])
steal_loop (suc n) cpu s (tid ∷ queue) = elim (verdict cpu s tid) [
  | missing ↦ some (none, queue)
  | passed ↦ push queue tid >>= λ q. steal_loop n cpu s q
  | taken ↦ some (some tid, queue)
]

-- `LocalExecutor::steal`
pub steal : ℕ → System → LocalExecutor → Option (Option ℕ × LocalExecutor)
unfolding steal_loop
steal cpu s e = do
  r ← steal_loop (length e.stealable_queue) cpu s e.stealable_queue
  some (r.0, record e { stealable_queue = r.1 })

-- the loop of `steal_work` over the advertised work, for so many rounds: the task, and the queue
pub advertised_loop : ℕ → ℕ → System → List ℕ → Option ℕ × List ℕ
unfolding verdict
advertised_loop zero cpu s queue = (none, queue)
advertised_loop (suc n) cpu s [] = (none, [])
advertised_loop (suc n) cpu s (tid ∷ queue) = elim (verdict cpu s tid) [
  | missing ↦ advertised_loop n cpu s queue
  | passed ↦ advertised_loop n cpu s queue
  | taken ↦ (some tid, queue)
]

-- the CPU that `steal_work` steals from
pub victim : ℕ → System → ℕ
victim num_cpus s = s.arbiter % 2 ^ 32 % num_cpus

-- `steal_work` where no advertised task was taken
pub steal_other : ℕ → ℕ → System → Option (Option ℕ × System)
unfolding steal victim
steal_other num_cpus cpu s = do
  e ← lookup (victim num_cpus s) s.executors
  r ← steal cpu s e
  some (
    r.0,
    record s {
      arbiter = add64 s.arbiter 1;
      executors = insert (victim num_cpus s) r.1 s.executors;
    },
  )

pub after_advertised : ℕ → ℕ → System → Option ℕ → Option (Option ℕ × System)
unfolding steal_other
after_advertised num_cpus cpu s (some tid) = some (some tid, s)
after_advertised num_cpus cpu s none = steal_other num_cpus cpu s

-- `LocalExecutor::steal_work`
pub steal_work : ℕ → ℕ → System → Option (Option ℕ × System)
unfolding advertised_loop after_advertised
steal_work num_cpus cpu s =
    let r = advertised_loop (length s.advertised_work) cpu s s.advertised_work in
    after_advertised num_cpus cpu (record s { advertised_work = r.1 }) r.0

-- an id put on a queue of the executor of a CPU
pub push_local : System → ℕ → ℕ → Option System
push_local s cpu id = do
  e ← lookup cpu s.executors
  q ← push e.local_queue id
  some (record s { executors = insert cpu (record e { local_queue = q }) s.executors })

pub push_stealable : System → ℕ → ℕ → Option System
push_stealable s cpu id = do
  e ← lookup cpu s.executors
  q ← push e.stealable_queue id
  some (record s { executors = insert cpu (record e { stealable_queue = q }) s.executors })

-- `LocalExecutor::spawn`, and `Task::run`, on the executor of `cpu`
pub spawn : System → ℕ → Task → Option System
unfolding push_stealable
spawn s cpu task =
    push_stealable
      (record s {
        tasks = insert task.context.id task s.tasks;
        global_task_list = task.context.id ∷ s.global_task_list;
      })
      cpu task.context.id

-- `wake` of a waker on the CPU `cpu`; `readable` says whether the lock of the executors could be read.
pub wake : System → ℕ → Bool → KernelWaker → Option System
unfolding push_local push_stealable
wake s cpu readable waker =
    let target = if waker.is_owned then waker.owner else cpu in
    if readable
    then (if waker.local then push_local s target waker.id else push_stealable s target waker.id)
    else some s

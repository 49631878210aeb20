-- ===== src/Task.antt =====
-- kernel/src/task/kernel_scheduler.rs: tasks, wakers and the state of the executors.
-- An `Arc` of a task is its id, which no two tasks share; the task behind it is in `tasks` for as long as
-- any `Arc` may be held. `num_cpus` is the number of CPUs. A task is `locked` while another CPU runs it.
pub mod Affinity
pub mod Queues
pub mod Run
pub mod Steal
pub mod Idle
pub mod Sleep
use hootux.Mp.Bitmap.{CpuBMap, new as new_map, set_bit, clear_bit, get}
use hootux.Mp.Bitmap.Scan.{count, find_first_zero}
use hootux.Prelude.Maps.{lookup, insert, nat_key}
use hootux.Prelude.{
  ℕ, ◌+◌, ◌-◌, ◌%◌, ◌^◌, Bool, true, false, Option, none, some, List, [], ◌∷◌, ◌++◌, ltb, ◌==◌,
  if◌then◌else◌, length, ◌>>=◌,
}

-- `TaskResult`
pub data TaskResult : Type 0 where
  exited_normally : TaskResult
  stopped_externally : TaskResult
  error : TaskResult
  panicked : TaskResult

-- `KernelWaker`
pub record KernelWaker : Type 0 where
  pub id : ℕ
  pub local : Bool
  pub is_owned : Bool
  pub owner : ℕ

-- `TaskContext`, as far as the scheduler reads it
pub record TaskContext : Type 0 where
  pub id : ℕ
  pub affinity : CpuBMap
  pub exited : Bool
  pub reload_waker : Bool

-- `Task` behind its lock, without its future
pub record Task : Type 0 where
  pub context : TaskContext
  pub waker : Option KernelWaker
  pub locked : Bool

-- `LocalExecutor`
pub record LocalExecutor : Type 0 where
  pub arbiter_local : Bool
  pub local_queue : List ℕ
  pub stealable_queue : List ℕ
  pub local_task_cache : List ℕ

-- `GlobalExecutorState`, `SYS_EXECUTOR` and every task; `arbiter` is the static of `steal_work`.
pub record System : Type 0 where
  pub tasks : List (ℕ × Task)
  pub global_task_list : List ℕ
  pub advertised_work : List ℕ
  pub executors : List (ℕ × LocalExecutor)
  pub arbiter : ℕ

-- `WORK_QUEUE_SIZE`
abbrev pub work_queue_size : ℕ
work_queue_size = 256

-- `LocalExecutor::new`
pub new_executor : LocalExecutor
new_executor = record {
  arbiter_local = false;
  local_queue = [];
  stealable_queue = [];
  local_task_cache = [];
}

-- `Task::new`
pub new_task : ℕ → Task
new_task id = record {
  context = record { id = id; affinity = new_map; exited = false; reload_waker = false };
  waker = none;
  locked = false;
}

-- whether a list of ids has an id
unfoldable pub has : ℕ → List ℕ → Bool
has id [] = false
has id (i ∷ ids) = if id == i then true else has id ids

-- `remove` of the list of tasks
unfoldable pub remove : ℕ → List ℕ → List ℕ
remove id [] = []
remove id (i ∷ ids) = let rest = remove id ids in if id == i then rest else i ∷ rest

-- `TaskContext::set_affinity`
pub set_affinity : TaskContext → ℕ → Bool → TaskContext
set_affinity context cpu enabled = record context {
  affinity = (if enabled then clear_bit context.affinity cpu else set_bit context.affinity cpu);
  reload_waker = true;
}

-- `Task::is_valid` on the CPU `cpu`
pub is_valid : ℕ → Task → Bool
is_valid cpu task = if get task.context.affinity cpu then false else true

-- the number of CPUs that `reload` takes a task to be allowed on
pub allowed_cpus : ℕ → CpuBMap → ℕ
allowed_cpus num_cpus affinity =
    let allowed : ℕ = elim (count affinity) [
      | none ↦ num_cpus
      | some e ↦ (num_cpus + 2 ^ 32 - e) % 2 ^ 32
    ] in
    if allowed == 0 then num_cpus else allowed

-- `KernelWaker::reload`; the `unwrap` panics where every CPU is in the set.
pub reload : ℕ → KernelWaker → TaskContext → Option (KernelWaker × TaskContext)
unfolding allowed_cpus
reload num_cpus waker context =
    if allowed_cpus num_cpus context.affinity == 1
    then (do
      owner ← find_first_zero num_cpus context.affinity
      some (
        record waker { local = true; is_owned = true; owner = owner },
        record context { reload_waker = false },
      ))
    else some
        (record waker { local = false; is_owned = false }, record context { reload_waker = false })

-- `KernelWaker::new`
pub new_waker : ℕ → TaskContext → Option (KernelWaker × TaskContext)
unfolding reload
new_waker num_cpus context =
    reload num_cpus (record { id = context.id; local = false; is_owned = false; owner = 0 }) context

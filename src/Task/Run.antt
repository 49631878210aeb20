-- ===== src/Task/Run.antt =====
-- kernel/src/task/kernel_scheduler.rs: running tasks. `future` is what one poll of a task's future does: its
-- result where it is ready, and the state it leaves, in which it may have spawned and woken tasks. Running
-- a task is one step of its CPU, `cpu`. `none` is a panic.
pub mod Ends
mod Tests
use hootux.Task.{
  TaskResult, error, KernelWaker, TaskContext, Task, LocalExecutor, System, remove, is_valid,
  reload, new_waker,
}
use hootux.Task.Queues.{fetch_kernel_task}
use hootux.Prelude.Maps.{lookup, insert, nat_key}
use hootux.Prelude.{
  ℕ, zero, suc, Bool, true, false, Option, none, some, List, [], ◌∷◌, ◌++◌, if◌then◌else◌, ◌>>=◌,
}

-- what a poll of a task's future does
abbrev pub Future : Type 0
Future = ℕ → System → Option TaskResult × System

-- a task that is known to be there
pub with_task : System → ℕ → Task → System
with_task s id task = record s { tasks = insert id task s.tasks }

-- the task gets a waker, if it has none
pub set_waker : ℕ → Task → Option Task
set_waker num_cpus task = elim task.waker [
  | some _ ↦ some task
  | none ↦ (do
    made ← new_waker num_cpus task.context
    some (record task { waker = some made.0; context = made.1 }))
]

-- the task, as it is after the poll, has exited
pub exit_task : System → ℕ → Option Task → System
unfolding with_task
exit_task s id none = s
exit_task s id (some task) =
    with_task s id (record task { context = record task.context { exited = true } })

pub mark_exited : ℕ → Option TaskResult × System → Option TaskResult × System
unfolding exit_task
mark_exited id (none, s) = (none, s)
mark_exited id (some r, s) = (some r, exit_task s id (lookup id s.tasks))

-- `Task::poll`
pub poll : Future → System → ℕ → Task → Option TaskResult × System
unfolding mark_exited
poll future s id task =
    if task.context.exited then (some error, s) else mark_exited id (future id s)

-- the waker is made anew where the task asked for that
pub refresh : ℕ → Task → Option Task
refresh num_cpus task =
    if task.context.reload_waker
    then (do
      waker ← task.waker
      made ← reload num_cpus waker task.context
      some (record task { waker = some made.0; context = made.1 }))
    else some task

pub refresh_task : ℕ → System → ℕ → Option Task → Option System
unfolding with_task refresh
refresh_task num_cpus s id none = some s
refresh_task num_cpus s id (some task) = refresh num_cpus task >>= λ t. some (with_task s id t)

-- `run_task` after the poll
pub finish : ℕ → ℕ → Option TaskResult × System → Option System
unfolding refresh_task
finish num_cpus id (some r, s) = some (record s { global_task_list = remove id s.global_task_list })
finish num_cpus id (none, s) = refresh_task num_cpus s id (lookup id s.tasks)

-- `LocalExecutor::run_task` of a task that is not locked
pub run_unlocked : ℕ → ℕ → Future → System → ℕ → Task → Option System
unfolding set_waker with_task poll finish
run_unlocked num_cpus cpu future s id task =
    if is_valid cpu task
    then (do t ← set_waker num_cpus task; finish num_cpus id (poll future (with_task s id t) id t))
    else some (record s { advertised_work = s.advertised_work ++ task.context.id ∷ [] })

pub run_found : ℕ → ℕ → Future → System → ℕ → Option Task → Option System
unfolding run_unlocked
run_found num_cpus cpu future s id none = some s
run_found num_cpus cpu future s id (some task) =
    if task.locked then some s else run_unlocked num_cpus cpu future s id task

-- `LocalExecutor::run_task`
pub run_task : ℕ → ℕ → Future → System → ℕ → Option System
unfolding run_found
run_task num_cpus cpu future s id = run_found num_cpus cpu future s id (lookup id s.tasks)

-- the end of a loop
pub data Loop : Type 0 where
  returns : System → Loop
  panics : Loop
  out_of_fuel : Loop

-- `fetch_kernel_task` of the executor of `cpu`, where there is one
pub fetch_from : ℕ → System → Option LocalExecutor → Option ℕ × System
fetch_from cpu s none = (none, s)
fetch_from cpu s (some e) =
    let fetched = fetch_kernel_task s.global_task_list e in
    (fetched.0, record s { executors = insert cpu fetched.1 s.executors })

pub fetch_on : ℕ → System → Option ℕ × System
unfolding fetch_from
fetch_on cpu s = fetch_from cpu s (lookup cpu s.executors)

-- `LocalExecutor::run_kernel`, for so many rounds
pub run_kernel : ℕ → ℕ → ℕ → Future → System → Loop
unfolding fetch_on run_task
run_kernel zero num_cpus cpu future s = out_of_fuel
run_kernel (suc fuel) num_cpus cpu future s = elim (fetch_on cpu s).0 [
  | none ↦ returns (fetch_on cpu s).1
  | some id ↦ elim (run_task num_cpus cpu future (fetch_on cpu s).1 id) [
    | none ↦ panics
    | some t ↦ run_kernel fuel num_cpus cpu future t
  ]
]

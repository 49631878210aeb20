-- ===== src/Task/Run/Tests.antt =====
-- One CPU with one task that is ready at once.
use hootux.Task.{exited_normally, System, new_task, new_executor}
use hootux.Task.Run.{Future, Loop, out_of_fuel, run_kernel}
use hootux.Task.Run.Ends.{Quiet, queued, run_kernel_ends}
use hootux.Task.Queues.Load.{load}
use hootux.Prelude.Maps.{lookup, nat_key}
use hootux.Prelude.{ℕ, ◌<◌, ◌+◌, ◌≡◌, ◌≢◌, refl, some, [], ◌∷◌, arith}

abbrev at_once : Future
at_once id s = (some exited_normally, s)

at_once-Quiet : Quiet at_once
unfolding Quiet
at_once-Quiet id s = refl

abbrev one_task : System
one_task = record {
  tasks = (7, new_task 7) ∷ [];
  global_task_list = 7 ∷ [];
  advertised_work = [];
  executors = (0, record new_executor { stealable_queue = 7 ∷ [] }) ∷ [];
  arbiter = 0;
}

one_task_few : queued 0 one_task < 2
unfolding queued load lookup new_executor
one_task_few = omega arith

run_kernel_ends_example :
    (r : Loop) × (r ≢ out_of_fuel) × ((more : ℕ) → run_kernel (2 + more) 1 0 at_once one_task ≡ r)
run_kernel_ends_example = run_kernel_ends 1 0 at_once at_once-Quiet 2 one_task one_task_few

-- ===== src/Task/Steal/Tests.antt =====
-- Taking work from a queue of three tasks, of which the CPU may run the last.
use hootux.Task.{LocalExecutor, System, new_task, new_executor, has}
use hootux.Task.Steal.{passed, taken, judge, verdict, steal, steal_work}
use hootux.Task.Steal.Rotation.{stolen, steal_lem}
use hootux.Task.Steal.Drops.{steal_work_drops}
use hootux.Prelude.Maps.{lookup, nat_key}
use hootux.Prelude.{
  ℕ, zero, suc, ◌≡◌, ◌≢◌, refl, true, none, some, [], ◌∷◌, sym, ap, ◌∙◌, get_elem?, eq_of_some,
  arith,
}

-- task 1 runs on another CPU, task 2 is free
abbrev two_tasks : System
two_tasks = record {
  tasks = (1, record (new_task 1) { locked = true }) ∷ (2, new_task 2) ∷ [];
  global_task_list = 1 ∷ 2 ∷ [];
  advertised_work = 1 ∷ [];
  executors = (0, record new_executor { stealable_queue = 1 ∷ 2 ∷ 3 ∷ [] }) ∷ [];
  arbiter = 0;
}

abbrev victim_executor : LocalExecutor
victim_executor = record new_executor { stealable_queue = 1 ∷ 2 ∷ 3 ∷ [] }

verdict_test : verdict 0 two_tasks 1 ≡ passed
unfolding verdict judge has lookup
verdict_test = refl

steal_lem_example :
    steal 0 two_tasks victim_executor
    ≡ some (
      (stolen 0 two_tasks [] victim_executor.stealable_queue).0,
      record victim_executor {
        stealable_queue = (stolen 0 two_tasks [] victim_executor.stealable_queue).1;
      },
    )
steal_lem_example = steal_lem 0 two_tasks victim_executor (omega arith)

-- task 1 is passed over, and task 3 is gone
stolen_test : stolen 0 two_tasks [] (1 ∷ 3 ∷ []) ≡ (none, 1 ∷ [])
unfolding stolen verdict judge has lookup
stolen_test = refl

not_taken :
    (i tid : ℕ) → get_elem? two_tasks.advertised_work i ≡ some tid → verdict 0 two_tasks tid ≢ taken
not_taken zero tid e t =
    absurd (cc (sym (ap (verdict 0 two_tasks) (sym (eq_of_some e)) ∙ verdict_test) ∙ t))
not_taken (suc i) tid e t = absurd (cc)

steal_work_drops_example :
    steal_work 1 0 two_tasks ≡ steal_work 1 0 (record two_tasks { advertised_work = [] })
steal_work_drops_example = steal_work_drops 1 0 two_tasks not_taken

-- ===== src/Task/Affinity.antt =====
-- kernel/src/task/kernel_scheduler.rs: on which CPUs a task may run.
mod Tests
use hootux.Task.{Task, TaskContext, set_affinity, is_valid}
use hootux.Mp.Bitmap.{set_bit, clear_bit, get}
use hootux.Mp.Bitmap.Laws.{get-set_bit, get-clear_bit}
use hootux.Prelude.{
  ℕ, ◌≡◌, refl, ap, ◌∙◌, inl, inr, Bool, true, false, Bool-cases, ◌==◌, if◌then◌else◌, arith,
}

-- Allowing or forbidding a task one CPU decides for that CPU whether the task may run there, and for no
-- other.
pub is_valid-set_affinity :
    (task : Task) (cpu c : ℕ) (enabled : Bool)
    → is_valid c (record task { context = set_affinity task.context cpu enabled })
      ≡ (if c == cpu then enabled else is_valid c task)
unfolding is_valid set_affinity
is_valid-set_affinity task cpu c true =
    ap (λ b. if b then false else true) (get-clear_bit task.context.affinity cpu c) ∙ ground arith
is_valid-set_affinity task cpu c false =
    ap (λ b. if b then false else true) (get-set_bit task.context.affinity cpu c) ∙ ground arith

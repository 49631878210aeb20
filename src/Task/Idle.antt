-- ===== src/Task/Idle.antt =====
-- kernel/src/task/kernel_scheduler.rs: `IdleWorkList`, work for when nothing else is to be done. `now` is the
-- system time, `cpus_working` the number of CPUs that work. `none` is a panic.
pub mod Panics
mod Tests
use hootux.Prelude.{
  ℕ, zero, suc, ◌+◌, Bool, true, false, ◌&&◌, Option, none, some, List, [], ◌∷◌, ◌++◌, ltb, leb,
  if◌then◌else◌, length, take, drop,
}

-- `IdleTask`
pub record IdleTask : Type 0 where
  pub id : ℕ
  pub active_minimum : ℕ
  pub stand_down_until : ℕ

-- `IdleWorkList`
pub record IdleWorkList : Type 0 where
  pub arbiter : ℕ
  pub idle_jobs : List IdleTask

-- `AbsoluteTime::is_future` of the stand-down time: whether the time has passed
pub is_future : ℕ → IdleTask → Bool
is_future now t = ltb t.stand_down_until now

-- the filter and the test of `search`
pub eligible : ℕ → ℕ → IdleTask → Bool
unfolding is_future
eligible now cpus_working t = is_future now t && leb t.active_minimum cpus_working

-- `enumerate`, from `i` on
pub enumerate : ℕ → List IdleTask → List (ℕ × IdleTask)
enumerate i [] = []
enumerate i (t ∷ l) = (i, t) ∷ enumerate (i + 1) l

-- the next arbiter
pub next_arbiter : ℕ → ℕ → ℕ → ℕ
next_arbiter start len i = if leb len (start + i + 1) then start + i + 1 else 0

-- the loop of `search`: the new arbiter and the task
pub first_eligible : ℕ → ℕ → ℕ → ℕ → List (ℕ × IdleTask) → Option (ℕ × IdleTask)
unfolding eligible next_arbiter
first_eligible now cpus_working start len [] = none
first_eligible now cpus_working start len ((i, t) ∷ l) =
    let rest = first_eligible now cpus_working start len l in
    if eligible now cpus_working t then some (next_arbiter start len i, t) else rest

-- `IdleWorkList::search`; the slices panic where the arbiter is past the end.
pub search : ℕ → ℕ → IdleWorkList → Option (Option IdleTask × IdleWorkList)
unfolding first_eligible enumerate
search now cpus_working w =
    if leb w.arbiter (length w.idle_jobs)
    then elim (first_eligible now cpus_working w.arbiter (length w.idle_jobs)
        (enumerate 0 (drop w.arbiter w.idle_jobs) ++ enumerate 0 (take w.arbiter w.idle_jobs))) [
          | none ↦ some (none, w)
          | some (next, t) ↦ some (some t, record w { arbiter = next })
        ]
    else none

-- `IdleWorkList::push`
pub push : IdleWorkList → IdleTask → IdleWorkList
push w t = record w { idle_jobs = w.idle_jobs ++ t ∷ [] }

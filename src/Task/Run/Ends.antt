-- ===== src/Task/Run/Ends.antt =====
-- kernel/src/task/kernel_scheduler.rs: `run_kernel` ends.
use hootux.Task.{TaskResult, Task, LocalExecutor, System, is_valid}
use hootux.Task.Queues.{fetch_kernel_task}
use hootux.Task.Queues.Load.{load, fetch_kernel_task-load}
use hootux.Task.Run.{
  Future, with_task, exit_task, refresh_task, run_found, fetch_from, set_waker, mark_exited, poll,
  refresh, finish, run_unlocked, run_task, Loop, returns, panics, out_of_fuel, fetch_on, run_kernel,
}
use hootux.Prelude.Maps.{lookup, nat_key, lookup-insert}
use hootux.Prelude.{
  ℕ, zero, suc, ◌+◌, ◌<◌, ◌≤◌, ◌≡◌, ◌≢◌, refl, sym, ap, ◌∙◌, inl, inr, Bool, Bool-cases,
  Option-cases, Option, none, some, eq_of_some, >>=-eq-some, [], ◌∷◌, ◌++◌, if◌then◌else◌, ◌>>=◌,
  arith,
}

-- No poll of a future pushes to a queue.
unfoldable pub Quiet : Future → Type 0
Quiet future = (id : ℕ) (s : System) → (future id s).1.executors ≡ s.executors

-- the ids in the queues of the executor of a CPU
unfoldable pub queued : ℕ → System → ℕ
queued cpu s = elim (lookup cpu s.executors) [ none ↦ 0 | some e ↦ load e ]

at_least :
    (P : ℕ → Type 0) (fuel : ℕ) → ((m : ℕ) → fuel ≤ m → P (suc m)) → (n : ℕ) → suc fuel ≤ n → P n
at_least P fuel go zero h = absurd (omega arith)
at_least P fuel go (suc n) h = go n (omega arith)

queued_same : (cpu : ℕ) (s t : System) → s.executors ≡ t.executors → queued cpu s ≡ queued cpu t
unfolding queued
queued_same cpu s t e =
    ap (λ x. elim (lookup {V = LocalExecutor} cpu x) as (λ _. ℕ) [ none ↦ 0 | some e ↦ load e ]) e

queued_here :
    (cpu : ℕ) (s : System) (e : LocalExecutor)
    → lookup cpu s.executors ≡ some e
    → queued cpu s ≡ load e
unfolding queued
queued_here cpu s e l = ap (λ x. elim x as (λ _. ℕ) [ none ↦ 0 | some e ↦ load e ]) l

fetch_from-queued :
    (cpu : ℕ) (s : System) (id : ℕ) (o : Option LocalExecutor)
    → lookup cpu s.executors ≡ o
    → (fetch_from cpu s o).0 ≡ some id
    → queued cpu (fetch_from cpu s o).1 + 1 ≡ queued cpu s
unfolding fetch_from
fetch_from-queued cpu s id none l h = absurd (cc)
fetch_from-queued cpu s id (some e) l h = omega (
  arith,
  queued_here cpu s e l,
  queued_here cpu (fetch_from cpu s (some e)).1 (fetch_kernel_task s.global_task_list e).1
      (lookup-insert cpu cpu (fetch_kernel_task s.global_task_list e).1 s.executors ∙ ground arith),
  fetch_kernel_task-load s.global_task_list e id h,
)

fetch_on-queued :
    (cpu : ℕ) (s : System) (id : ℕ)
    → (fetch_on cpu s).0 ≡ some id
    → queued cpu (fetch_on cpu s).1 + 1 ≡ queued cpu s
unfolding fetch_on
fetch_on-queued cpu s id h = fetch_from-queued cpu s id (lookup cpu s.executors) refl h

module _ (num_cpus cpu : ℕ) (future : Future) (quiet : Quiet future) where
  exit_task-executors :
      (s : System) (id : ℕ) (o : Option Task) → (exit_task s id o).executors ≡ s.executors
  unfolding exit_task with_task
  exit_task-executors s id none = refl
  exit_task-executors s id (some task) = refl

  mark_exited-executors :
      (id : ℕ) (r : Option TaskResult × System) → (mark_exited id r).1.executors ≡ r.1.executors
  unfolding mark_exited
  mark_exited-executors id (none, s) = refl
  mark_exited-executors id (some r, s) = exit_task-executors s id (lookup id s.tasks)

  poll-executors :
      (s : System) (id : ℕ) (task : Task) → (poll future s id task).1.executors ≡ s.executors
  unfolding poll Quiet
  poll-executors s id task = elim (Bool-cases task.context.exited) [
    | inl e ↦ rw (e)
    | inr e ↦ rw (e) (mark_exited-executors id (future id s) ∙ quiet id s)
  ]

  refresh_task-executors :
      (s : System) (id : ℕ) (o : Option Task) (t : System)
      → refresh_task num_cpus s id o ≡ some t
      → t.executors ≡ s.executors
  unfolding refresh_task with_task
  refresh_task-executors s id none t h = ap (λ x. x.executors) (sym (eq_of_some h))
  refresh_task-executors s id (some task) t h =
      let (u, _, e) = >>=-eq-some (refresh num_cpus task) _ h in
      ap (λ x. x.executors) (sym (eq_of_some e))

  finish-executors :
      (id : ℕ) (r : Option TaskResult × System) (t : System)
      → finish num_cpus id r ≡ some t
      → t.executors ≡ r.1.executors
  unfolding finish
  finish-executors id (some r, s) t h = ap (λ x. x.executors) (sym (eq_of_some h))
  finish-executors id (none, s) t h = refresh_task-executors s id (lookup id s.tasks) t h

  run_unlocked-executors :
      (s : System) (id : ℕ) (task : Task) (t : System)
      → run_unlocked num_cpus cpu future s id task ≡ some t
      → t.executors ≡ s.executors
  unfolding run_unlocked with_task
  run_unlocked-executors s id task t h = elim (Bool-cases (is_valid cpu task)) [
    | inl v ↦
        let (u, _, e) = >>=-eq-some (set_waker num_cpus task) _ (sym (chosen v) ∙ h) in
        finish-executors id (poll future (with_task s id u) id u) t e
        ∙ poll-executors (with_task s id u) id u
    | inr v ↦ ap (λ x. x.executors) (sym (eq_of_some (sym (chosen v) ∙ h)))
  ]
    where
      chosen :
          {b : Bool}
          → is_valid cpu task ≡ b
          → run_unlocked num_cpus cpu future s id task ≡ (
              if b
              then (set_waker num_cpus task >>= λ u.
                  finish num_cpus id (poll future (with_task s id u) id u))
              else some (record s { advertised_work = s.advertised_work ++ task.context.id ∷ [] }))
      chosen v =
          ap
            (λ b.
              if b
              then (set_waker num_cpus task >>= λ u.
                  finish num_cpus id (poll future (with_task s id u) id u))
              else some (record s { advertised_work = s.advertised_work ++ task.context.id ∷ [] }))
            v

  run_found-executors :
      (s : System) (id : ℕ) (o : Option Task) (t : System)
      → run_found num_cpus cpu future s id o ≡ some t
      → t.executors ≡ s.executors
  unfolding run_found
  run_found-executors s id none t h = ap (λ x. x.executors) (sym (eq_of_some h))
  run_found-executors s id (some task) t h = elim (Bool-cases task.locked) [
    | inl v ↦ ap (λ x. x.executors) (sym (eq_of_some (sym (chosen v) ∙ h)))
    | inr v ↦ run_unlocked-executors s id task t (sym (chosen v) ∙ h)
  ]
    where
      chosen :
          {b : Bool}
          → task.locked ≡ b
          → run_found num_cpus cpu future s id (some task)
            ≡ (if b then some s else run_unlocked num_cpus cpu future s id task)
      chosen v = ap (λ b. if b then some s else run_unlocked num_cpus cpu future s id task) v

  run_task-executors :
      (s : System) (id : ℕ) (t : System)
      → run_task num_cpus cpu future s id ≡ some t
      → t.executors ≡ s.executors
  unfolding run_task
  run_task-executors s id t h = run_found-executors s id (lookup id s.tasks) t h

  -- the rounds that are left, and what they come to
  End : ℕ → System → Type 0
  End fuel s =
      (r : Loop) × (r ≢ out_of_fuel) × ((n : ℕ) → fuel ≤ n → run_kernel n num_cpus cpu future s ≡ r)

  round :
      (fuel : ℕ) (s : System) (id : ℕ)
      → (fetch_on cpu s).0 ≡ some id
      → ((t : System) → t.executors ≡ (fetch_on cpu s).1.executors → End fuel t)
      → End (suc fuel) s
  unfolding End run_kernel
  round fuel s id e go = elim (Option-cases (run_task num_cpus cpu future (fetch_on cpu s).1 id)) [
    | inl f ↦ (
      panics,
      cc,
      at_least (λ n. run_kernel n num_cpus cpu future s ≡ panics) fuel
          (λ m k. rw (run_kernel, e, f) refl),
    )
    | inr (t, f) ↦
        let (r, ends, all) = go t (run_task-executors (fetch_on cpu s).1 id t f) in
        (
          r,
          ends,
          at_least (λ n. run_kernel n num_cpus cpu future s ≡ r) fuel
              (λ m k. rw (run_kernel, e, f) (all m k)),
        )
  ]

  ends_by : (fuel : ℕ) (s : System) → queued cpu s < fuel → End fuel s
  unfolding End run_kernel
  ends_by zero s h = absurd (omega arith)
  ends_by (suc fuel) s h = elim (Option-cases (fetch_on cpu s).0) [
    | inl e ↦ (
      returns (fetch_on cpu s).1,
      cc,
      at_least (λ n. run_kernel n num_cpus cpu future s ≡ returns (fetch_on cpu s).1) fuel
          (λ m k. rw (run_kernel, e) refl),
    )
    | inr (id, e) ↦ round fuel s id e (λ t same.
        ends_by fuel t
          (omega (arith, fetch_on-queued cpu s id e, queued_same cpu t (fetch_on cpu s).1 same)))
  ]

  -- Where no poll of a future pushes to a queue, `run_kernel` ends: as many rounds as there are ids in the two
  -- queues, and one more, are enough for it to return or to panic, and further rounds change nothing.
  pub run_kernel_ends :
      (fuel : ℕ) (s : System)
      → queued cpu s < fuel
      → (r : Loop) × (r ≢ out_of_fuel)
        × ((more : ℕ) → run_kernel (fuel + more) num_cpus cpu future s ≡ r)
  unfolding End
  run_kernel_ends fuel s h =
      let (r, ends, all) = ends_by fuel s h in (r, ends, λ more. all (fuel + more) (omega arith))

-- ===== src/Util/ReentrantMutex/Tests.antt =====
-- A `ReentrantMutex` under concrete schedules.
use hootux.Util.ReentrantMutex.{
  new, idle, Choice, acquire, release, start, run, step, advance, update, after_load, try_control,
  unlock,
}
use hootux.Util.ReentrantMutex.Exclusion.{mutual_exclusion, run_released}
use hootux.Util.ReentrantMutex.Alone.{
  run-try_lock_inner, lock_steps, lock_mutex, lock_owner, lock_guards,
}
use hootux.Prelude.{
  ℕ, ◌≤◌, ◌≡◌, refl, inl, inr, true, false, some, List, [], ◌∷◌, ◌++◌, replicate, arith, Bool-cases,
  ◌==◌,
}

-- CPU 1 locks while CPU 2 tries to.
abbrev contended : List (ℕ × Choice)
contended =
    (1, acquire false)
    ∷ (2, acquire false)
    ∷ (1, acquire false)
    ∷ (1, acquire false)
    ∷ (1, acquire false)
    ∷ (1, acquire false)
    ∷ (2, acquire false)
    ∷ (2, acquire false)
    ∷ (2, acquire false)
    ∷ []

abbrev done : List (ℕ × Choice)
done = (1, release) ∷ (1, release) ∷ []

contended_test :
    (run start contended).mutex ≡ record { control = false; owner = some 1; lock_count = 1 }
unfolding run step advance update after_load try_control unlock start new
contended_test = refl

-- `try_lock_pedantic` refuses the CPU that owns the mutex.
pedantic_test :
    (run start
      (contended ++ ((1, acquire true) ∷ (1, acquire true) ∷ (1, acquire true) ∷ []))).mutex
    ≡ record { control = false; owner = some 1; lock_count = 1 }
unfolding run step advance update after_load try_control unlock start new
pedantic_test = refl

mutual_exclusion_example : ◌≡◌ {A = ℕ} 1 1
unfolding run step advance update after_load try_control unlock start new
mutual_exclusion_example = mutual_exclusion contended 1 1 (omega arith) (omega arith) (omega arith)

-- CPU 1 locks and unlocks, alone.
abbrev lock_unlock : List (ℕ × Choice)
lock_unlock = replicate 5 (1, acquire false) ++ done

released :
    (i : ℕ)
    → (((run start lock_unlock).cpus i).pc ≡ idle) × (((run start lock_unlock).cpus i).guards ≡ 0)
unfolding run step advance update after_load try_control unlock start new
released i = elim (Bool-cases (i == 1)) [
  | inl e ↦ rw (e) (refl, refl)
  | inr e ↦ rw (e) (refl, refl)
]

run_released_example : (run start lock_unlock).mutex ≡ new
run_released_example = run_released lock_unlock (omega arith) released

run-try_lock_inner_example :
    ((run start (replicate (lock_steps 1 start.mutex.owner) (1, acquire false))).mutex
      ≡ lock_mutex start.mutex (lock_owner 1 start.mutex.owner))
    × ((run start (replicate (lock_steps 1 start.mutex.owner) (1, acquire false))).cpus 1 ≡ record {
      pc = idle;
      guards = lock_guards (start.cpus 1).guards (lock_owner 1 start.mutex.owner);
    })
    × (lock_steps 1 start.mutex.owner ≤ 5)
unfolding start new
run-try_lock_inner_example = run-try_lock_inner start 1 refl refl

-- ===== src/Util/ReentrantMutex/Alone.antt =====
-- kernel/src/util/mutex.rs: one whole call of `try_lock_inner` that no other CPU interrupts.
use hootux.Util.ReentrantMutex.Steps.{update_self}
use hootux.Util.ReentrantMutex.{
  ReentrantMutex, idle, counting, releasing, Local, System, Choice, acquire, advance, step, run,
  after_load, try_control,
}
use hootux.Prelude.{
  ℕ, zero, suc, ◌+◌, ◌≡◌, refl, sym, ap, ◌∙◌, inl, inr, true, false, Bool-cases, Option, none, some,
  replicate, arith, ◌==◌, ==→eq, ◌≤◌, if◌then◌else◌, add64,
}

-- the steps of one CPU alone
alone : ℕ → ℕ → Choice → ReentrantMutex → Local → ReentrantMutex × Local
alone zero i choice m l = (m, l)
alone (suc n) i choice m l =
    alone n i choice (advance m i l.pc l.guards choice).0 (advance m i l.pc l.guards choice).1

run-alone :
    (n : ℕ) (s : System) (i : ℕ) (choice : Choice) (m : ReentrantMutex) (l : Local)
    → s.mutex ≡ m
    → s.cpus i ≡ l
    → ((run s (replicate n (i, choice))).mutex ≡ (alone n i choice m l).0)
      × ((run s (replicate n (i, choice))).cpus i ≡ (alone n i choice m l).1)
unfolding run alone step
run-alone zero s i choice m l em el = (em, el)
run-alone (suc n) s i choice m l em el =
    run-alone n (step s i choice) i choice (advance m i l.pc l.guards choice).0
      (advance m i l.pc l.guards choice).1
      (ap (λ x. (advance x i (s.cpus i).pc (s.cpus i).guards choice).0) em
        ∙ ap (λ x. (advance m i x.pc x.guards choice).0) el)
      (update_self s.cpus i (advance s.mutex i (s.cpus i).pc (s.cpus i).guards choice).1 i refl
        ∙ ap (λ x. (advance x i (s.cpus i).pc (s.cpus i).guards choice).1) em
        ∙ ap (λ x. (advance m i x.pc x.guards choice).1) el)

-- A lock in one piece: the owner that it leaves, where it takes the lock.
pub lock_owner : ℕ → Option ℕ → Option ℕ
lock_owner i none = some i
lock_owner i (some o) = if o == i then some i else none

-- the mutex and the guards of the CPU after a lock in one piece
pub lock_mutex : ReentrantMutex → Option ℕ → ReentrantMutex
lock_mutex m none = m
lock_mutex m (some o) = record m { owner = some o; lock_count = add64 m.lock_count 1 }

pub lock_guards : ℕ → Option ℕ → ℕ
lock_guards g none = g
lock_guards g (some o) = g + 1

-- the steps of a call: one less without the store of the owner, and one less again without the count
pub lock_steps : ℕ → Option ℕ → ℕ
lock_steps i none = 5
lock_steps i (some o) = if o == i then 4 else 3

lock_steps_few : (i : ℕ) (o : Option ℕ) → lock_steps i o ≤ 5
unfolding lock_steps
lock_steps_few i none = omega arith
lock_steps_few i (some o) = ground arith

abbrev free : ℕ → ℕ → ReentrantMutex
free o n = record { control = false; owner = some o; lock_count = n }

steps_own : (i o : ℕ) → (o == i) ≡ true → lock_steps i (some o) ≡ 4
unfolding lock_steps
steps_own i o e = rw (e)

steps_other : (i o : ℕ) → (o == i) ≡ false → lock_steps i (some o) ≡ 3
unfolding lock_steps
steps_other i o e = rw (e)

owner_own : (i o : ℕ) → (o == i) ≡ true → lock_owner i (some o) ≡ some o
unfolding lock_owner
owner_own i o e = ap (λ b. if b then some i else none) e ∙ ap some (sym (==→eq o i e))

owner_other : (i o : ℕ) → (o == i) ≡ false → lock_owner i (some o) ≡ none
unfolding lock_owner
owner_other i o e = rw (e)

load_own : (i o : ℕ) → (o == i) ≡ true → after_load false i (some o) ≡ counting
unfolding after_load
load_own i o e = rw (e)

load_other : (i o : ℕ) → (o == i) ≡ false → after_load false i (some o) ≡ releasing
unfolding after_load
load_other i o e = rw (e)

alone_own :
    (i g o n : ℕ)
    → after_load false i (some o) ≡ counting
    → alone 4 i (acquire false) (free o n) (record { pc = idle; guards = g }) ≡ (
      record { control = false; owner = some o; lock_count = add64 n 1 },
      record { pc = idle; guards = g + 1 },
    )
unfolding alone advance try_control
alone_own i g o n e =
    ap
      (λ x.
        alone 2 i (acquire false) (record { control = true; owner = some o; lock_count = n })
          (record { pc = x; guards = g }))
      e

alone_other :
    (i g o n : ℕ)
    → after_load false i (some o) ≡ releasing
    → alone 3 i (acquire false) (free o n) (record { pc = idle; guards = g })
      ≡ (free o n, record { pc = idle; guards = g })
unfolding alone advance try_control
alone_other i g o n e =
    ap
      (λ x.
        alone 1 i (acquire false) (record { control = true; owner = some o; lock_count = n })
          (record { pc = x; guards = g }))
      e

alone_lock :
    (i g : ℕ) (o : Option ℕ) (n : ℕ)
    → alone
        (lock_steps i o)
        i
        (acquire false)
        (record { control = false; owner = o; lock_count = n })
        (record { pc = idle; guards = g })
      ≡ (
        lock_mutex (record { control = false; owner = o; lock_count = n }) (lock_owner i o),
        record { pc = idle; guards = lock_guards g (lock_owner i o) },
      )
unfolding alone advance try_control after_load lock_mutex lock_owner lock_steps lock_guards
alone_lock i g none n = refl
alone_lock i g (some o) n = elim (Bool-cases (o == i)) [
  | inl e ↦
      ap (λ k. alone k i (acquire false) (free o n) (record { pc = idle; guards = g }))
        (steps_own i o e)
      ∙ alone_own i g o n (load_own i o e)
      ∙ ap (λ w. (lock_mutex (free o n) w, record { pc = idle; guards = lock_guards g w }))
          (sym (owner_own i o e))
  | inr e ↦
      ap (λ k. alone k i (acquire false) (free o n) (record { pc = idle; guards = g }))
        (steps_other i o e)
      ∙ alone_other i g o n (load_other i o e)
      ∙ ap (λ w. (lock_mutex (free o n) w, record { pc = idle; guards = lock_guards g w }))
          (sym (owner_other i o e))
]

-- Where CPU `i` is in no operation and the control bit is free, `try_lock_inner` without another
-- CPU's step takes the lock, and one guard, if the mutex has no owner or is its own, and otherwise
-- changes nothing; it takes at most five steps.
pub run-try_lock_inner :
    (s : System) (i : ℕ)
    → (s.cpus i).pc ≡ idle
    → s.mutex.control ≡ false
    → ((run s (replicate (lock_steps i s.mutex.owner) (i, acquire false))).mutex
        ≡ lock_mutex s.mutex (lock_owner i s.mutex.owner))
      × ((run s (replicate (lock_steps i s.mutex.owner) (i, acquire false))).cpus i ≡ record {
        pc = idle;
        guards = lock_guards (s.cpus i).guards (lock_owner i s.mutex.owner);
      })
      × (lock_steps i s.mutex.owner ≤ 5)
run-try_lock_inner s i e c = (
  ran.0 ∙ ap (λ x. x.0) whole ∙ ap (λ x. lock_mutex x (lock_owner i s.mutex.owner)) (sym me),
  ran.1 ∙ ap (λ x. x.1) whole,
  lock_steps_few i s.mutex.owner,
)
  where
    me :
        s.mutex ≡ record { control = false; owner = s.mutex.owner; lock_count = s.mutex.lock_count }
    me = ap (λ x. record s.mutex { control = x }) c

    le : s.cpus i ≡ record { pc = idle; guards = (s.cpus i).guards }
    le = ap (λ x. record { pc = x; guards = (s.cpus i).guards }) e

    whole :
        alone
          (lock_steps i s.mutex.owner)
          i
          (acquire false)
          (record { control = false; owner = s.mutex.owner; lock_count = s.mutex.lock_count })
          (record { pc = idle; guards = (s.cpus i).guards })
        ≡ (
          lock_mutex
              (record { control = false; owner = s.mutex.owner; lock_count = s.mutex.lock_count })
              (lock_owner i s.mutex.owner),
          record { pc = idle; guards = lock_guards (s.cpus i).guards (lock_owner i s.mutex.owner) },
        )
    whole = alone_lock i (s.cpus i).guards s.mutex.owner s.mutex.lock_count

    ran :
        ((run s (replicate (lock_steps i s.mutex.owner) (i, acquire false))).mutex
          ≡ (alone
              (lock_steps i s.mutex.owner)
              i
              (acquire false)
              (record { control = false; owner = s.mutex.owner; lock_count = s.mutex.lock_count })
              (record { pc = idle; guards = (s.cpus i).guards })).0)
        × ((run s (replicate (lock_steps i s.mutex.owner) (i, acquire false))).cpus i
            ≡ (alone
                (lock_steps i s.mutex.owner)
                i
                (acquire false)
                (record { control = false; owner = s.mutex.owner; lock_count = s.mutex.lock_count })
                (record { pc = idle; guards = (s.cpus i).guards })).1)
    ran = run-alone (lock_steps i s.mutex.owner) s i (acquire false) _ _ me le

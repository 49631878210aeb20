-- ===== src/Util/ReentrantMutex.antt =====
-- kernel/src/util/mutex.rs: `ReentrantMutex`, one atomic operation at a time.
-- Each operation is atomic and sequentially consistent, whatever ordering it names.
-- A schedule names the CPU that takes the next step; CPUs are numbers, and each has one flow of control.
pub mod Invariant
pub mod Locking
pub mod Moves
pub mod Steps
pub mod Exclusion
pub mod Alone
mod Tests
use hootux.Prelude.{
  ℕ, ◌+◌, ◌-◌, Bool, true, false, Option, none, some, List, [], ◌∷◌, ◌==◌, if◌then◌else◌, add64,
  sub64,
}

-- `ReentrantMutex`, without the data that it guards
pub record ReentrantMutex : Type 0 where
  pub control : Bool
  pub owner : Option ℕ
  pub lock_count : ℕ

-- `ReentrantMutex::new`
pub new : ReentrantMutex
new = record { control = false; owner = none; lock_count = 0 }

-- Where a CPU stands. `loading` took the control bit, for `try_lock_inner`, or for
-- `try_lock_pedantic` where it is `true`; `storing` saw no owner; `counting` is about to add to the
-- count, `releasing` to give the control bit back; `clearing` is `unlock` that has seen a count of 1.
pub data Pc : Type 0 where
  idle : Pc
  loading : Bool → Pc
  storing : Pc
  counting : Pc
  releasing : Pc
  clearing : Pc

-- What a CPU that is idle does: try to lock, or drop a guard.
pub data Choice : Type 0 where
  acquire : Bool → Choice
  release : Choice

-- A CPU, with the number of its `ReentrantMutexGuard`s
pub record Local : Type 0 where
  pub pc : Pc
  pub guards : ℕ

-- The `match` on the owner in `try_lock_inner`, and in `try_lock_pedantic`.
pub after_load : Bool → ℕ → Option ℕ → Pc
after_load pedantic i none = storing
after_load pedantic i (some o) =
    if o == i then (if pedantic then releasing else counting) else releasing

-- The `compare_exchange_weak` of `try_control`; the call that loses it returns, or starts again.
pub try_control : ReentrantMutex → ℕ → Bool → ReentrantMutex × Local
try_control m guards pedantic =
    if m.control
    then (m, record { pc = idle; guards = guards })
    else (record m { control = true }, record { pc = loading pedantic; guards = guards })

-- The `fetch_sub` of `unlock`, which `drop` of a guard calls
pub unlock : ReentrantMutex → ℕ → ReentrantMutex × Local
unlock m guards = if guards == 0 then (m, record { pc = idle; guards = guards }) else (
  record m { lock_count = sub64 m.lock_count 1 },
  record { pc = (if m.lock_count == 1 then clearing else idle); guards = guards - 1 },
)

-- One atomic operation of CPU `i`
pub advance : ReentrantMutex → ℕ → Pc → ℕ → Choice → ReentrantMutex × Local
advance m i idle guards (acquire pedantic) = try_control m guards pedantic
advance m i idle guards release = unlock m guards
advance m i (loading pedantic) guards choice =
    (m, record { pc = after_load pedantic i m.owner; guards = guards })
advance m i storing guards choice =
    (record m { owner = some i }, record { pc = counting; guards = guards })
advance m i counting guards choice =
    (record m { lock_count = add64 m.lock_count 1 }, record { pc = releasing; guards = guards + 1 })
advance m i releasing guards choice =
    (record m { control = false }, record { pc = idle; guards = guards })
advance m i clearing guards choice =
    (record m { owner = none }, record { pc = idle; guards = guards })

pub record System : Type 0 where
  pub mutex : ReentrantMutex
  pub cpus : ℕ → Local

pub update : (ℕ → Local) → ℕ → Local → ℕ → Local
update cpus i l j = if j == i then l else cpus j

pub step : System → ℕ → Choice → System
step s i choice =
    let moved = advance s.mutex i (s.cpus i).pc (s.cpus i).guards choice in
    record { mutex = moved.0; cpus = update s.cpus i moved.1 }

pub start : System
start = record { mutex = new; cpus = λ i. record { pc = idle; guards = 0 } }

-- the steps of a schedule, in order
pub run : System → List (ℕ × Choice) → System
run s [] = s
run s ((i, choice) ∷ rest) = run (step s i choice) rest

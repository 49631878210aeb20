-- ===== src/Irq.antt =====
-- kernel/src/interrupts/vector_tables.rs (`HandleRegistry`) and the functions of
-- kernel/src/interrupts.rs that reserve, set and free its vectors.
-- The registry's 256 entries are a list; a handler has the task whose waker is registered, if any is. `none`
-- outside an operation's result is a panic.
pub mod Search
pub mod Grant
pub mod Longest
pub mod Refuse
pub mod Exact
pub mod Cycle
pub mod Single
mod Tests
use hootux.Prelude.{
  ℕ, zero, suc, ◌+◌, ◌%◌, max, Bool, true, false, Option, none, some, List, [], ◌∷◌, ◌++◌, ltb, leb,
  ◌==◌, if◌then◌else◌, get_elem?, set, drop, replicate, length, Result, ok, err, ◌>>=◌,
}

-- `InterruptHandle`: the task whose waker is registered, the queue, and the message that the handler pushes on
-- it.
pub record InterruptHandle : Type 0 where
  pub waker : Option ℕ
  pub queue : ℕ
  pub vector : ℕ

-- `InterruptHandleContainer`; a function or a closure is the number of its code.
pub data InterruptHandleContainer : Type 0 where
  empty : InterruptHandleContainer
  reserved : InterruptHandleContainer
  special_handle : ℕ → InterruptHandleContainer
  generic : InterruptHandle → InterruptHandleContainer
  high_perf_cascading : List ℕ → InterruptHandleContainer
  high_perf : ℕ → ℕ → ℕ → InterruptHandleContainer

-- `InterruptHandleContainer::callable`
pub callable : InterruptHandleContainer → Option InterruptHandleContainer
callable empty = none
callable reserved = none
callable (special_handle h) = some (special_handle h)
callable (generic h) = some (generic h)
callable (high_perf_cascading v) = some (high_perf_cascading v)
callable (high_perf v vec arg) = some (high_perf v vec arg)

-- What a handler does: run code with its arguments, try to push a message, which a full queue discards, wake a
-- task, end the interrupt.
pub data Action : Type 0 where
  run : ℕ → List ℕ → Action
  push : ℕ → ℕ → Action
  wake : ℕ → Action
  eoi : Action

run_all : List ℕ → List Action
run_all [] = []
run_all (h ∷ handlers) = run h [] ∷ run_all handlers

wake_registered : Option ℕ → List Action
wake_registered none = []
wake_registered (some task) = wake task ∷ []

-- `InterruptHandleContainer::call`, with `InterruptHandle::call`
pub call : InterruptHandleContainer → List Action
unfolding run_all wake_registered
call empty = []
call reserved = []
call (special_handle h) = run h [] ∷ []
call (generic h) = push h.queue h.vector ∷ (wake_registered h.waker ++ eoi ∷ [])
call (high_perf_cascading v) = run_all v
call (high_perf v vec arg) = run v (vec ∷ arg ∷ []) ∷ []

abbrev pub vector_count : ℕ
vector_count = 256

-- The array of the registry, without its lock.
abbrev pub Vectors : Type 0
Vectors = List InterruptHandleContainer

pub record HandleRegistry : Type 0 where
  pub lock : Bool
  pub arr : Vectors

-- `HandleRegistry::new`
pub new : HandleRegistry
new = record { lock = false; arr = replicate vector_count empty }

pub is_empty : InterruptHandleContainer → Bool
is_empty empty = true
is_empty _ = false

-- `HandleRegistry::reserve`
pub reserve : Vectors → ℕ → Option (Result (Unit {0}) (Unit {0}) × Vectors)
reserve r vector = do
  c ← get_elem? r vector
  some (if is_empty c then (ok tt, set r vector reserved) else (err tt, r))

-- May `HandleRegistry::set` overwrite the entry?
pub is_settable : InterruptHandleContainer → Bool
is_settable (special_handle _) = false
is_settable (generic _) = false
is_settable _ = true

-- `HandleRegistry::set`
pub set_handle :
    Vectors → ℕ → InterruptHandleContainer → Option (Result (Unit {0}) (Unit {0}) × Vectors)
set_handle r vector handle = do
  c ← get_elem? r vector
  some (if is_settable c then (ok tt, set r vector handle) else (err tt, r))

-- `HandleRegistry::free_irq`
pub free_irq : Vectors → ℕ → Option (Result (Unit {0}) (Unit {0}) × Vectors)
free_irq r vector = do
  c ← get_elem? r vector
  some (if is_empty c then (err tt, set r vector empty) else (ok tt, set r vector empty))

-- `HandleRegistry::unset`
pub unset : Vectors → ℕ → Vectors
unset r vector = set r vector empty

-- `HandleRegistry::get_free`, which counts in a `u8`
pub get_free : Vectors → ℕ → ℕ
get_free [] count = count
get_free (c ∷ r) count = get_free r (if is_empty c then (count + 1) % 256 else count)

-- May `alloc_irq_special` take the entry?
pub is_takeable : InterruptHandleContainer → Bool
is_takeable empty = true
is_takeable reserved = true
is_takeable _ = false

-- `alloc_irq_special`
pub alloc_irq_special : Vectors → ℕ → ℕ → Option (Result (Unit {0}) (Unit {0}) × Vectors)
alloc_irq_special r irq handle = do
  c ← get_elem? r irq
  some (if is_takeable c then (ok tt, set r irq (special_handle handle)) else (err tt, r))

-- The variables of the loop of `reserve_contiguous`; `found` is a `u8`.
pub record Scan : Type 0 where
  pub best : ℕ
  pub found_start : Option ℕ
  pub found : ℕ

abbrev pub scan_init : Scan
scan_init = record { best = 0; found_start = none; found = 0 }

-- An empty entry at `i`; the flag is the `break`.
pub scan_empty : ℕ → ℕ → Option ℕ → Scan → Scan × Bool
scan_empty req i none s = (record s { found_start = some i; found = 1 }, false)
scan_empty req i (some v) s =
    let found = (s.found + 1) % 256 in (record s { found = found }, found == req)

pub scan_step : ℕ → InterruptHandleContainer → ℕ → Scan → Scan × Bool
scan_step req c i s =
    if is_empty c
    then scan_empty req i s.found_start s
    else (record { best = max s.found s.best; found_start = none; found = 0 }, false)

pub scan : ℕ → Vectors → ℕ → Scan → Scan
scan req [] i s = s
scan req (c ∷ r) i s = elim (scan_step req c i s).1 [
  | true ↦ (scan_step req c i s).0
  | false ↦ scan req r (i + 1) (scan_step req c i s).0
]

-- The last loop of `reserve_contiguous`: `n` entries from `v` on become `reserved`.
pub reserve_all : Vectors → ℕ → ℕ → Vectors
reserve_all r v zero = r
reserve_all r v (suc n) = reserve_all (set r v reserved) (v + 1) n

-- `reserve_contiguous` after its loop; the slice panics past the end of the array.
pub claim : Vectors → ℕ → ℕ → Option ℕ → Option (Result ℕ ℕ × Vectors)
claim r req best none = some (err best, r)
claim r req best (some v) =
    if leb (v + req) (length r) then some (ok (v % 256), reserve_all r v req) else none

-- `HandleRegistry::reserve_contiguous`
pub reserve_contiguous : Vectors → ℕ → ℕ → Option (Result ℕ ℕ × Vectors)
reserve_contiguous r start req =
    let s = scan req (drop (max start 32) r) (max start 32) scan_init in
    if ltb s.found req
    then some (err (max s.best s.found), r)
    else claim r req (max s.best s.found) s.found_start

-- A call that returns, one that panics, and one that spins for ever.
pub data Call (A : Type 0) : Type 0 where
  returns : A → Call A
  panics : Call A
  spins : Call A

-- `interrupts::PUB_VEC_START`
abbrev pub pub_vec_start : ℕ
pub_vec_start = 0x21

-- The end of `reserve_irq`: `?` leaves the function, with the registry locked, on an error.
pub leave_irq : Option (Result ℕ ℕ × Vectors) → Call (Result ℕ ℕ × HandleRegistry)
leave_irq none = panics
leave_irq (some (err n, arr)) = returns (err n, record { lock = true; arr = arr })
leave_irq (some (ok v, arr)) = returns (ok v, record { lock = false; arr = arr })

-- `interrupts::reserve_irq`; on one CPU, `HandleRegistry::lock` of a locked registry never returns.
pub reserve_irq : HandleRegistry → ℕ → ℕ → Call (Result ℕ ℕ × HandleRegistry)
reserve_irq r req_priority count =
    if count == 0
    then panics
    else if r.lock
    then spins
    else leave_irq (reserve_contiguous r.arr (max req_priority pub_vec_start) count)

pub ok_of : Result ℕ ℕ × Vectors → Option ℕ × Vectors
ok_of (ok v, r) = (some v, r)
ok_of (err n, r) = (none, r)

-- `interrupts::alloc_interrupt`
pub alloc_interrupt : Vectors → Option (Option ℕ × Vectors)
alloc_interrupt r = reserve_contiguous r 32 1 >>= λ x. some (ok_of x)

-- `interrupts::alloc_irq`
pub alloc_irq : Vectors → ℕ → ℕ → ℕ → Option (Result (Unit {0}) (Unit {0}) × Vectors)
alloc_irq r irq queue message =
    set_handle r irq (generic (record { waker = none; queue = queue; vector = message }))

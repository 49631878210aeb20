-- ===== src/Irq/Tests.antt =====
-- A registry with the exceptions and vector 255 in use.
use hootux.Prelude.{
  ℕ, ◌+◌, ◌<◌, ◌≤◌, ◌≡◌, refl, true, false, none, some, [], ◌∷◌, ◌++◌, Result, ok, err, arith,
  replicate, get_elem?,
}
use hootux.Irq.{
  InterruptHandleContainer, empty, reserved, special_handle, generic, high_perf, Vectors,
  HandleRegistry, is_empty, is_settable, scan_empty, scan_step, scan, reserve_all, claim,
  reserve_contiguous, returns, leave_irq, reserve_irq, reserve, alloc_irq, free_irq, set_handle,
  call, push, eoi, new, get_free,
}
use hootux.Irq.Search.{AllEmpty}
use hootux.Irq.Longest.{Window}
use hootux.Irq.Grant.{Granted, reserve_contiguous_lem}
use hootux.Irq.Exact.{reserve_contiguous_err}
use hootux.Irq.Cycle.{irq_cycle}

abbrev taken : InterruptHandleContainer
taken = special_handle 7

-- 32 exceptions, a gap of 3, one handler, a gap of 219, and vector 255.
abbrev busy : Vectors
busy = replicate 32 taken ++ replicate 3 empty ++ taken ∷ (replicate 219 empty ++ taken ∷ [])

-- All vectors from 36 on are in use.
abbrev crowded : Vectors
crowded = replicate 32 taken ++ replicate 3 empty ++ replicate 221 taken

search_gap :
    reserve_contiguous crowded 0 3
    ≡ some (ok 32, replicate 32 taken ++ replicate 3 reserved ++ replicate 221 taken)
unfolding reserve_contiguous scan scan_step scan_empty is_empty claim reserve_all
search_gap = refl

refused : reserve_contiguous crowded 0 4 ≡ some (err 3, crowded)
unfolding reserve_contiguous scan scan_step scan_empty is_empty
refused = refl

-- `get_free` of an empty registry counts 256 in a `u8`.
get_free-new : get_free (new.arr) 0 ≡ 0
unfolding get_free new is_empty
get_free-new = refl

-- `set` overwrites a handler of the high performance kind.
set_over_high_perf : set_handle (high_perf 1 2 3 ∷ []) 0 taken ≡ some (ok tt, taken ∷ [])
unfolding set_handle is_settable
set_over_high_perf = refl

reserve_contiguous_lem_example :
    (out : Result ℕ ℕ × Vectors) × (reserve_contiguous busy 33 5 ≡ some out) × Granted busy 33 5 out
reserve_contiguous_lem_example = reserve_contiguous_lem busy 33 5 refl (omega arith)

reserve_contiguous_err_example :
    (3 < 4)
    × Window crowded 32 256 3
    × ((a n : ℕ) → 32 ≤ a → a + n ≤ 256 → AllEmpty crowded a n → n ≤ 3)
reserve_contiguous_err_example =
    reserve_contiguous_err crowded 0 4 refl (omega arith) (omega arith) refused

abbrev full_registry : HandleRegistry
full_registry = record { lock = false; arr = crowded }

refusal : reserve_irq full_registry 0 4 ≡ returns (err 2, record { lock = true; arr = crowded })
unfolding reserve_irq leave_irq reserve_contiguous scan scan_step scan_empty is_empty
refusal = refl

-- a handler whose waker was never registered wakes nobody
call_unregistered :
    call (generic (record { waker = none; queue = 5; vector = 6 })) ≡ push 5 6 ∷ eoi ∷ []
unfolding call
call_unregistered = refl

irq_cycle_example :
    (r1 : Vectors) × (r2 : Vectors) × (reserve busy 33 ≡ some (ok tt, r1))
    × (reserve r1 33 ≡ some (err tt, r1))
    × (alloc_irq r1 33 5 6 ≡ some (ok tt, r2))
    × (alloc_irq r2 33 5 6 ≡ some (err tt, r2))
    × (get_elem? r2 33 ≡ some (generic (record { waker = none; queue = 5; vector = 6 })))
    × (free_irq r2 33 ≡ some (ok tt, busy))
irq_cycle_example = irq_cycle busy 33 5 6 refl

-- ===== src/Mem/Dma/Guard/Tests.antt =====
-- kernel/src/mem/dma.rs: `DmaGuard`, run.
use hootux.Mem.Dma.Guard.{
  bare, claimed, gone, given, leaked, kept, dropped, System, new, query_owned, drop_guard, unwrap,
  lend, claim, claimed_unwrap, drop_borrow, claims, tries, drops, finishes, Reachable, start, step,
}
use hootux.Mem.Dma.Guard.Safety.{borrow_alone, bare_ready, claimed_unwrap_lem}
use hootux.Prelude.{◌≡◌, ◌≢◌, true, false, some, refl, arith}

abbrev lent : System
lent = record { owner = claimed; lock = true; flag = true; borrows = 1; inner = kept }

lent-Reachable : Reachable lent
unfolding claim new lend
lent-Reachable = step {s = new} start (claims refl)

-- the guard is dropped while the buffer is borrowed
abbrev orphan : System
orphan = record { owner = gone; lock = false; flag = true; borrows = 1; inner = leaked }

orphan-Reachable : Reachable orphan
unfolding drop_guard query_owned
orphan-Reachable = step lent-Reachable (drops (λ e. absurd (cc e)))

borrow_alone_example :
    (orphan.borrows ≡ 1) × (orphan.owner ≢ bare) × (orphan.inner ≢ dropped) × (orphan.inner ≢ given)
borrow_alone_example = borrow_alone orphan orphan-Reachable (omega arith)

-- the guard after a borrow that has come and gone
abbrev back : System
back = record { owner = bare; lock = true; flag = false; borrows = 0; inner = kept }

back-Reachable : Reachable back
unfolding claimed_unwrap drop_borrow query_owned
back-Reachable = step (step lent-Reachable (finishes (omega arith))) (tries refl)

bare_ready_example :
    (claim back ≡ (lend back, true))
    × (unwrap back ≡ some (record back { owner = gone; lock = false; inner = given }))
bare_ready_example = bare_ready back back-Reachable refl

claimed_unwrap_lem_example : claimed_unwrap lent ≡ (lent, false)
claimed_unwrap_lem_example = claimed_unwrap_lem lent lent-Reachable refl

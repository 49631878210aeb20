-- ===== src/Mem/Dma/Guard/Safety.antt =====
-- kernel/src/mem/dma.rs: a buffer is never used by its owner and by a borrow.
use hootux.Mem.Dma.Guard.{
  bare, claimed, gone, kept, dropped, given, leaked, System, new, query_owned, drop_guard, unwrap,
  lend, claim, claimed_unwrap, drop_borrow, ◌⟶◌, claims, unwraps, drops, tries, finishes, Reachable,
  start, step,
}
use hootux.Prelude.{◌<◌, ◌≤◌, ◌≡◌, ◌≢◌, true, false, some, if◌then◌else◌, arith, ltb}

record Inv (s : System) : Type 0 where
  one : s.borrows ≤ 1
  bare_free : s.owner ≡ bare → s.borrows ≡ 0
  bare_open : s.owner ≡ bare → query_owned s ≡ false
  present : s.owner ≢ gone → s.inner ≡ kept
  claimed_lock : s.owner ≡ claimed → s.lock ≡ true
  claimed_set : s.owner ≡ claimed → 0 < s.borrows → s.flag ≡ true
  claimed_clear : s.owner ≡ claimed → s.flag ≡ true → s.borrows ≡ 1
  gone_leaked : s.owner ≡ gone → 0 < s.borrows → s.inner ≡ leaked

new-Inv : Inv new
unfolding new query_owned
new-Inv = ground arith

claim-Inv : (s : System) → s.owner ≡ bare → Inv s → Inv (claim s).0
unfolding claim drop_guard lend query_owned
claim-Inv s b i = ground arith

unwrap-Inv : (s t : System) → s.owner ≡ bare → unwrap s ≡ some t → Inv s → Inv t
unfolding unwrap query_owned
unwrap-Inv s t b e i = ground arith

drop_guard-Inv : (s : System) → s.owner ≢ gone → Inv s → Inv (drop_guard s)
unfolding drop_guard query_owned
drop_guard-Inv s b i = ground arith

claimed_unwrap-Inv : (s : System) → s.owner ≡ claimed → Inv s → Inv (claimed_unwrap s).0
unfolding claimed_unwrap query_owned
claimed_unwrap-Inv s b i = ground arith

drop_borrow-Inv : (s : System) → 0 < s.borrows → Inv s → Inv (drop_borrow s)
unfolding drop_borrow query_owned
drop_borrow-Inv s b i = ground arith

step-Inv : {s t : System} → s ⟶ t → Inv s → Inv t
step-Inv {s} (claims b) i = claim-Inv s b i
step-Inv {s} {t} (unwraps b e) i = unwrap-Inv s t b e i
step-Inv {s} (drops b) i = drop_guard-Inv s b i
step-Inv {s} (tries b) i = claimed_unwrap-Inv s b i
step-Inv {s} (finishes b) i = drop_borrow-Inv s b i

Reachable-Inv : {s : System} → Reachable s → Inv s
Reachable-Inv start = new-Inv
Reachable-Inv (step r e) = step-Inv e (Reachable-Inv r)

-- while a borrow of the buffer lives it is the only one, the owner has no guard to use the buffer by, and the
-- buffer has been neither dropped nor given out by `unwrap`
pub borrow_alone :
    (s : System)
    → Reachable s
    → 0 < s.borrows
    → (s.borrows ≡ 1) × (s.owner ≢ bare) × (s.inner ≢ dropped) × (s.inner ≢ given)
borrow_alone s r h = alone (Reachable-Inv r)
  where
    alone : Inv s → (s.borrows ≡ 1) × (s.owner ≢ bare) × (s.inner ≢ dropped) × (s.inner ≢ given)
    alone i = ground arith

-- a guard that the owner has outside a `DmaClaimed` can always be claimed, and always be unwrapped without
-- the panic
pub bare_ready :
    (s : System)
    → Reachable s
    → s.owner ≡ bare
    → (claim s ≡ (lend s, true))
      × (unwrap s ≡ some (record s { owner = gone; lock = false; inner = given }))
unfolding claim unwrap query_owned
bare_ready s r b = ready (Reachable-Inv r)
  where
    ready :
        Inv s
        → (claim s ≡ (lend s, true))
          × (unwrap s ≡ some (record s { owner = gone; lock = false; inner = given }))
    ready i = ground arith

-- `DmaClaimed::unwrap` gives the guard back exactly when the borrow is gone; before that it changes nothing
pub claimed_unwrap_lem :
    (s : System)
    → Reachable s
    → s.owner ≡ claimed
    → claimed_unwrap s ≡ (if ltb 0 s.borrows then (s, false) else (record s { owner = bare }, true))
unfolding claimed_unwrap query_owned
claimed_unwrap_lem s r b = back (Reachable-Inv r)
  where
    back :
        Inv s
        → claimed_unwrap s
          ≡ (if ltb 0 s.borrows then (s, false) else (record s { owner = bare }, true))
    back i = ground arith

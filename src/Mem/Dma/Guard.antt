-- ===== src/Mem/Dma/Guard.antt =====
-- kernel/src/mem/dma.rs: `DmaGuard`, which keeps the buffer of a DMA operation, `DmaClaimed`, in which it is
-- wrapped while the buffer is borrowed, and the `BorrowedDmaGuard` that the operation has. The flag behind
-- the `Arc` of the guard and its borrows is `flag`; each operation reads or writes it once, so a step is an
-- operation of the owner's thread or the drop of a borrow on another.
mod Safety
mod Tests
use hootux.Prelude.{
  ℕ, ◌+◌, ◌-◌, ◌<◌, ◌≡◌, ◌≢◌, Bool, true, false, ◌&&◌, Option, none, some, if◌then◌else◌,
}

-- who has the guard: the owner, as it is or in a `DmaClaimed`, or nobody any more
pub data Owner : Type 0 where
  bare claimed gone : Owner

-- what became of `inner`
pub data Inner : Type 0 where
  kept dropped given leaked : Inner

-- `lock` says whether `DmaGuard.lock` is `Some`.
pub record System : Type 0 where
  pub owner : Owner
  pub lock : Bool
  pub flag : Bool
  pub borrows : ℕ
  pub inner : Inner

-- `DmaGuard::new`
unfoldable pub new : System
new = record { owner = bare; lock = false; flag = false; borrows = 0; inner = kept }

-- `DmaGuard::query_owned`
unfoldable pub query_owned : System → Bool
query_owned s = s.lock && s.flag

-- `DmaGuard::drop`, also of a guard in a `DmaClaimed`
unfoldable pub drop_guard : System → System
unfolding query_owned
drop_guard s = record s {
  owner = gone;
  lock = false;
  inner = if query_owned s then leaked else dropped;
}

-- `DmaGuard::unwrap`; `none` is the panic.
unfoldable pub unwrap : System → Option System
unfolding query_owned
unwrap s =
    if query_owned s then none else some (record s { owner = gone; lock = false; inner = given })

-- the guard in a `DmaClaimed` beside a new borrow
unfoldable pub lend : System → System
lend s = record s { owner = claimed; lock = true; flag = true; borrows = s.borrows + 1 }

-- `DmaGuard::claim`, and whether it returns `Some`; where it does not, it drops the guard.
unfoldable pub claim : System → System × Bool
unfolding drop_guard lend
claim s =
    if s.lock then (if s.flag then (drop_guard s, false) else (lend s, true)) else (lend s, true)

-- `DmaClaimed::unwrap`, and whether it returns `Ok`
unfoldable pub claimed_unwrap : System → System × Bool
unfolding query_owned
claimed_unwrap s = if query_owned s then (s, false) else (record s { owner = bare }, true)

-- `BorrowedDmaGuard::drop`
unfoldable pub drop_borrow : System → System
drop_borrow s = record s { flag = false; borrows = s.borrows - 1 }

infix 40 ◌⟶◌
pub data ◌⟶◌ : System → System → Type 0 where
  claims : {s : System} → s.owner ≡ bare → s ⟶ (claim s).0
  unwraps : {s t : System} → s.owner ≡ bare → unwrap s ≡ some t → s ⟶ t
  drops : {s : System} → s.owner ≢ gone → s ⟶ drop_guard s
  tries : {s : System} → s.owner ≡ claimed → s ⟶ (claimed_unwrap s).0
  finishes : {s : System} → 0 < s.borrows → s ⟶ drop_borrow s

pub data Reachable : System → Type 0 where
  start : Reachable new
  step : {s t : System} → Reachable s → s ⟶ t → Reachable t

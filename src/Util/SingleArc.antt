-- ===== src/Util/SingleArc.antt =====
-- kernel/src/util/single_arc.rs: `SingleArc` and `Weak`, over a heap of the blocks that they share.
-- A block is its address, and the data in it a number; a block that was freed is not on the heap any more,
-- and `none` is an access to it, or a panic. One operation at a time.
pub mod Handles
pub mod Blocks
pub mod Counts
mod Tests
use hootux.Prelude.{
  ℕ, zero, suc, ◌+◌, ◌-◌, Bool, true, false, Option, none, some, List, [], ◌∷◌, ◌++◌, ◌==◌,
  if◌then◌else◌, length, get_elem?, set, Result, ok, err, ◌>>=◌, add64, sub64,
}

-- `SingleArcInner`
pub record SingleArcInner : Type 0 where
  pub weak_count : ℕ
  pub data_box : Option ℕ

abbrev pub Heap : Type 0
Heap = List (Option SingleArcInner)

-- the pointer of a `SingleArc`, and that of a `Weak`
abbrev pub SingleArc : Type 0
SingleArc = ℕ

abbrev pub Weak : Type 0
Weak = Option ℕ

-- the block at an address
pub block_of : Option (Option SingleArcInner) → Option SingleArcInner
block_of none = none
block_of (some o) = o

pub block : Heap → ℕ → Option SingleArcInner
unfolding block_of
block h a = block_of (get_elem? h a)

-- `SingleArc::new`
pub new : Heap → ℕ → SingleArc × Heap
new h d = (length h, h ++ some (record { weak_count = 0; data_box = some d }) ∷ [])

-- `SingleArc::downgrade`
pub downgrade : Heap → SingleArc → Option (Weak × Heap)
downgrade h a = do
  inner ← block h a
  some (some a, set h a (some (record inner { weak_count = add64 inner.weak_count 1 })))

-- `Drop` of a `SingleArc`
pub drop_strong : Heap → SingleArc → Option Heap
drop_strong h a = do
  inner ← block h a
  some (
      if inner.weak_count == 0
      then set h a none
      else set h a (some (record inner { data_box = none })))

-- `SingleArc::take`, with the drop at its end
pub take : Heap → SingleArc → Option (ℕ × Heap)
unfolding drop_strong
take h a = do
  inner ← block h a
  d ← inner.data_box
  left ← drop_strong (set h a (some (record inner { data_box = none }))) a
  some (d, left)

-- `Deref` of a `SingleArc`
pub deref : Heap → SingleArc → Option ℕ
deref h a = do inner ← block h a; inner.data_box

-- `DerefMut` of a `SingleArc`, through which the data becomes `d`
pub deref_mut : Heap → SingleArc → ℕ → Option Heap
deref_mut h a d = do
  inner ← block h a
  old ← inner.data_box
  some (set h a (some (record inner { data_box = some d })))

-- the last `Weak` frees the block where the data is gone
pub release : Heap → ℕ → SingleArcInner → Heap
release h a inner = elim inner.data_box [
  | none ↦
      (if inner.weak_count == 1
        then set h a none
        else set h a (some (record inner { weak_count = sub64 inner.weak_count 1 })))
  | some _ ↦ set h a (some (record inner { weak_count = sub64 inner.weak_count 1 }))
]

-- `Drop` of a `Weak`
pub drop_weak : Heap → Weak → Option Heap
unfolding release
drop_weak h none = some h
drop_weak h (some a) = do inner ← block h a; some (release h a inner)

-- `Weak::get`
pub get : Heap → Weak → Option (Option ℕ)
get h none = some none
get h (some a) = do inner ← block h a; some inner.data_box

-- `Weak::clear`
pub clear : Weak → Weak
clear w = none

-- `Weak::set` of a `Weak` that is unbound: the `Weak` that `downgrade` gives is dropped at the end.
pub bind : Heap → SingleArc → Option (Result (Unit {0}) (Unit {0}) × Weak × Heap)
unfolding downgrade drop_weak
bind h a = do made ← downgrade h a; left ← drop_weak made.1 made.0; some (ok tt, made.0, left)

-- `Weak::set` of a `Weak` whose data is this
pub rebind : Heap → ℕ → SingleArc → Option ℕ → Option (Result (Unit {0}) (Unit {0}) × Weak × Heap)
unfolding bind
rebind h b a none = bind h a
rebind h b a (some _) = some (err tt, some b, h)

-- `Weak::set`
pub set_to : Heap → Weak → SingleArc → Option (Result (Unit {0}) (Unit {0}) × Weak × Heap)
unfolding rebind bind
set_to h none a = bind h a
set_to h (some b) a = block h b >>= λ inner. rebind h b a inner.data_box

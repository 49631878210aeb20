-- ===== src/Util/SingleArc/Handles.antt =====
-- kernel/src/util/single_arc.rs: the handles to one block, and what is done through them.
use hootux.Util.SingleArc.{
  SingleArcInner, Heap, block_of, block, downgrade, drop_strong, take, deref, drop_weak, get,
}
use hootux.Prelude.{
  ℕ, zero, suc, ◌+◌, ◌<◌, ◌≤◌, ◌≡◌, refl, ap, Bool, true, false, Option, none, some, List, [], ◌∷◌,
  length, set, get_elem?-set_self, ◌>>=◌,
}

-- the handles to one block: whether its `SingleArc` is there, and how many `Weak`s are
pub record Handles : Type 0 where
  pub heap : Heap
  pub strong : Bool
  pub weaks : ℕ

-- what is done through a handle
pub data Op : Type 0 where
  downgrade_it : Op
  take_it : Op
  drop_it : Op
  deref_it : Op
  drop_one : Op
  read_one : Op

-- One operation on the block at `a`; there is nothing to call where the handle is not there.
unfoldable pub perform : ℕ → Heap → Bool → ℕ → Op → Option Handles
perform a h true n downgrade_it =
    downgrade h a >>= λ r. some (record { heap = r.1; strong = true; weaks = suc n })
perform a h true n take_it =
    take h a >>= λ r. some (record { heap = r.1; strong = false; weaks = n })
perform a h true n drop_it =
    drop_strong h a >>= λ k. some (record { heap = k; strong = false; weaks = n })
perform a h true n deref_it =
    deref h a >>= λ d. some (record { heap = h; strong = true; weaks = n })
perform a h false n deref_it = some (record { heap = h; strong = false; weaks = n })
perform a h false n downgrade_it = some (record { heap = h; strong = false; weaks = n })
perform a h false n take_it = some (record { heap = h; strong = false; weaks = n })
perform a h false n drop_it = some (record { heap = h; strong = false; weaks = n })
perform a h b zero drop_one = some (record { heap = h; strong = b; weaks = zero })
perform a h b (suc n) drop_one =
    drop_weak h (some a) >>= λ k. some (record { heap = k; strong = b; weaks = n })
perform a h b zero read_one = some (record { heap = h; strong = b; weaks = zero })
perform a h b (suc n) read_one =
    get h (some a) >>= λ d. some (record { heap = h; strong = b; weaks = suc n })

unfoldable pub run : ℕ → Handles → List Op → Option Handles
unfolding perform
run a w [] = some w
run a w (op ∷ ops) = perform a w.heap w.strong w.weaks op >>= λ v. run a v ops

-- What the heap has of a block with these handles: nothing where there are none.
unfoldable pub expected : Bool → ℕ → ℕ → Option SingleArcInner
expected true n d = some (record { weak_count = n; data_box = some d })
expected false zero d = none
expected false (suc n) d = some (record { weak_count = suc n; data_box = none })

pub block-set :
    (h : Heap) (a : ℕ) (o : Option SingleArcInner) → a < length h → block (set h a o) a ≡ o
unfolding block block_of
block-set h a o l = ap block_of (get_elem?-set_self h a o l)

pub set_twice : (h : Heap) (a : ℕ) (x y : Option SingleArcInner) → set (set h a x) a y ≡ set h a y
set_twice [] a x y = refl
set_twice (b ∷ h) zero x y = refl
set_twice (b ∷ h) (suc a) x y = ap (b ∷◌) (set_twice h a x y)

-- the block of the handles is as it should be
unfoldable pub Right : ℕ → ℕ → Handles → Type 0
Right a d w = (block w.heap a ≡ expected w.strong w.weaks d) × (a < length w.heap)

-- one operation that returns, and makes at most one `Weak`
unfoldable pub Steps : ℕ → ℕ → ℕ → Option Handles → Type 0
Steps a d n o = (w : Handles) × (o ≡ some w) × Right a d w × (w.weaks ≤ n + 1)

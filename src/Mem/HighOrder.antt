-- ===== src/Mem/HighOrder.antt =====
-- kernel/src/mem/high_order_alloc.rs: the regions of the free list, and giving a region back.
-- Addresses and lengths are words of 64 bits, for both types that implement `AllocAddressType`; `BS` is
-- an argument.
pub mod Merge
mod Tests
use hootux.Prelude.{
  ℕ, zero, suc, ◌+◌, Bool, true, false, Option, none, some, List, [], ◌∷◌, ◌++◌, ltb, ◌==◌,
  if◌then◌else◌, length, get_elem?, set, drop, Result, ok, err, ◌>>=◌, add64, sub64, bits_and,
}

-- `FreeMem`
pub record FreeMem : Type 0 where
  pub start : ℕ
  pub len : ℕ

-- `FreeMem::new`
pub new : ℕ → ℕ → ℕ → Option FreeMem
new bs addr len =
    if ltb len bs
    then none
    else if bits_and 64 addr (sub64 bs 1) == 0
    then some (record { start = addr; len = len })
    else none

-- `FreeMem::end`
pub end : FreeMem → ℕ
end m = add64 m.start m.len

-- `FreeMem::merge`: `self` afterwards, and `other` where it was not taken in.
pub merge : FreeMem → FreeMem → FreeMem × Option FreeMem
unfolding end
merge m other =
    if end m == other.start
    then (record { start = m.start; len = add64 m.len other.len }, none)
    else if end other == m.start
    then (record { start = other.start; len = add64 other.len m.len }, none)
    else (m, some other)

-- one `if let Some(b) = self.free_list.get_mut(i)` of `free`: the list if `region` was merged
pub try_merge : List FreeMem → ℕ → FreeMem → Option (List FreeMem)
try_merge list i region = do
  b ← get_elem? list i
  elim (merge b region).1 [ none ↦ some (set list i (merge b region).0) | some other ↦ none ]

-- `Vec::insert` at an index that is not past the end
pub insert : List FreeMem → ℕ → FreeMem → List FreeMem
insert list zero region = region ∷ list
insert [] (suc i) region = region ∷ []
insert (m ∷ list) (suc i) region = m ∷ insert list i region

-- what `free` does once the place of the region is known
pub free_at : List FreeMem → ℕ → FreeMem → List FreeMem
unfolding try_merge
free_at list i region = elim (try_merge list i region) [
  | some merged ↦ merged
  | none ↦ elim (try_merge list (sub64 i 1) region) [
    | some merged ↦ merged
    | none ↦ elim (try_merge list (i + 1) region) [
      | some merged ↦ merged
      | none ↦ insert list i region
    ]
  ]
]

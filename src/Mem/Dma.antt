-- ===== src/Mem/Dma.antt =====
-- kernel/src/mem/dma.rs: the regions of physical memory under a buffer, for scatter-gather tables.
-- `translate` is `mem_map::translate_ptr` at a position of the buffer, which reads the page tables; `len`
-- is the length of the buffer.
pub mod Frames
pub mod Regions
pub mod Limit
pub mod Guard
mod Tests
use hootux.Prelude.{
  ℕ, zero, suc, ◌+◌, ◌-◌, ◌%◌, Option, none, some, List, [], ◌∷◌, ◌++◌, ltb, leb, ◌==◌,
  if◌then◌else◌, min, ◌>>=◌, add64, sub64,
}

-- `mem::PAGE_SIZE`
abbrev pub page_size : ℕ
page_size = 4096

-- `PhysicalRegionDescription`
pub record PhysicalRegionDescription : Type 0 where
  pub addr : ℕ
  pub size : ℕ

-- `PhysicalRegionDescriber`
pub record PhysicalRegionDescriber : Type 0 where
  pub len : ℕ
  pub next_index : ℕ

-- `PhysicalRegionDescriber::next_chunk`
unfoldable pub next_chunk : (ℕ → Option ℕ) → ℕ → ℕ → Option ℕ
next_chunk translate len index = if ltb index len then translate index else none

-- The loop of `PhysicalRegionDescriber::next`, for so many rounds: the size of the region that starts at
-- position `start` of the buffer. `none` means that the rounds did not do.
unfoldable pub grow : ℕ → (ℕ → Option ℕ) → ℕ → ℕ → ℕ → ℕ → Option ℕ
unfolding next_chunk
grow zero translate len start base diff = none
grow (suc fuel) translate len start base diff =
    let longer = grow fuel translate len start base (min (diff + page_size) len) in
    elim (next_chunk translate len (diff + start)) [
      | none ↦ some diff
      | some addr ↦
          (if sub64 addr base == diff
            then (if min (diff + page_size) len == len then some len else longer)
            else some diff)
    ]

-- the size with which the loop starts
unfoldable pub first_diff : ℕ → ℕ → ℕ
first_diff base len = page_size - min (base % page_size) len

-- `PhysicalRegionDescriber::next`: the region, where there is one, and the describer. The outer `none` is an
-- exhausted number of rounds, which is one more than the length of the buffer.
unfoldable pub next :
    (ℕ → Option ℕ)
    → PhysicalRegionDescriber
    → Option (Option PhysicalRegionDescription × PhysicalRegionDescriber)
unfolding grow first_diff
next translate d = elim (next_chunk translate d.len d.next_index) [
  | none ↦ some (none, d)
  | some base ↦
      grow (d.len + 1) translate d.len d.next_index base (first_diff base d.len) >>= λ diff.
      some
        (some (record { addr = base; size = diff }), record d { next_index = d.next_index + diff })
]

-- the regions that the iterator yields, with the rounds that it may take
unfoldable pub collect :
    ℕ → (ℕ → Option ℕ) → PhysicalRegionDescriber → Option (List PhysicalRegionDescription)
unfolding next
collect zero translate d = none
collect (suc fuel) translate d = elim (next translate d) [
  | none ↦ none
  | some (none, e) ↦ some []
  | some (some r, e) ↦ collect fuel translate e >>= λ rs. some (r ∷ rs)
]

-- `DmaTarget::prd` and `DmaBuffer::prd`
unfoldable pub prd : ℕ → PhysicalRegionDescriber
prd len = record { len = len; next_index = 0 }

-- `PhysicalRegionDescription::limit`: one call of the adaptor, with its state
unfoldable pub limit_next :
    PhysicalRegionDescription → ℕ → ℕ → Option (PhysicalRegionDescription × ℕ)
limit_next desc len state =
    if leb desc.size state
    then none
    else (let piece = min (min desc.size len) (sub64 desc.size state) in
        some (record { addr = add64 desc.addr state; size = piece }, add64 state piece))

-- the regions that the adaptor yields, in so many rounds
unfoldable pub limit_from :
    ℕ → PhysicalRegionDescription → ℕ → ℕ → Option (List PhysicalRegionDescription)
unfolding limit_next
limit_from zero desc len state = none
limit_from (suc fuel) desc len state = elim (limit_next desc len state) [
  | none ↦ some []
  | some (r, state') ↦ limit_from fuel desc len state' >>= λ rs. some (r ∷ rs)
]

-- `PhysicalRegionDescription::limit`; a region has at most as many pieces as bytes.
unfoldable pub limit : PhysicalRegionDescription → ℕ → Option (List PhysicalRegionDescription)
unfolding limit_from
limit desc len = limit_from (desc.size + 1) desc len 0

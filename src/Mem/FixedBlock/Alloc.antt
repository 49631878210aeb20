-- ===== src/Mem/FixedBlock/Alloc.antt =====
-- The operations of fixed_size_block.rs that call the superior allocator (`InteriorAlloc`, a parameter).
pub mod Page
pub mod Fetch
pub mod Progress
mod Tests
use hootux.Prelude.{
  ℕ, ◌+◌, ◌*◌, ◌%◌, ◌<◌, ◌≡◌, Option, none, some, List, add64, ◌==◌, if◌then◌else◌, get_elem?, set,
  Result, ok, err, ◌>>=◌,
}
use hootux.Mem.FixedBlock.{
  Layout, RawLinkedList, add, is_empty, fetch, block_sizes, FixedBlockInner, get_block_index, crack,
  force_dealloc,
}

-- `HeapAlloc::virt_allocate` of the superior allocator and `mem_map::map_page`. Both may call this allocator
-- again, so each is given its state and leaves another.
-- Documented of them: a successful call gives a page, which starts on a page boundary, above 0.
pub record Superior : Type 1 where
  pub State : Type 0
  pub virt_allocate : Layout → FixedBlockInner → State → Option (ℕ × FixedBlockInner × State)
  pub map_page : ℕ → FixedBlockInner → State → FixedBlockInner × State
  pub page_aligned :
      (layout : Layout) (s : FixedBlockInner) (t : State) {p : ℕ} {s' : FixedBlockInner}
      {t' : State}
      → virt_allocate layout s t ≡ some (p, s', t')
      → p % 4096 ≡ 0
  pub page_in_range :
      (layout : Layout) (s : FixedBlockInner) (t : State) {p : ℕ} {s' : FixedBlockInner}
      {t' : State}
      → virt_allocate layout s t ≡ some (p, s', t')
      → (0 < p) × (p + 4096 < 18446744073709551616)

abbrev pub page_layout : Layout
page_layout = record { size = 4096; align = 4096 }

-- What `allocate` returns: the address and the length of a slice.
abbrev pub Slice : Type 0
Slice = ℕ × ℕ

abbrev pub count_call : FixedBlockInner → FixedBlockInner
count_call s = record s { alloc_count = add64 s.alloc_count 1 }

-- The end of `allocate`: the first block of the list; a null slice is a panic.
pub fetch_block : FixedBlockInner → ℕ → Option (Slice × FixedBlockInner)
fetch_block s index = do
  l ← get_elem? s.list_heads index
  addr ← (fetch l).0
  size ← get_elem? block_sizes index
  if addr == 0
      then none
      else some ((addr, size), record s { list_heads = set s.list_heads index (fetch l).1 })

pub must_crack : Result (Unit {0}) (Unit {0}) × FixedBlockInner → Option FixedBlockInner
must_crack (ok _, s) = some s
must_crack (err _, s) = none

-- `InferiorAllocator::init` over the two largest blocks of 4096 bytes
init_list : List RawLinkedList → ℕ → Option (List RawLinkedList)
init_list lists ptr = do
  l ← get_elem? lists 8
  some (set lists 8 (add (add l (add64 ptr (0 * 2048))) (add64 ptr (1 * 2048))))

pub init : FixedBlockInner → ℕ → Option FixedBlockInner
unfolding init_list
init s ptr = do
  lists ← init_list s.list_heads ptr
  some (record s { list_heads = lists; start = ptr })

module _ (superior : Superior) where
  open superior use {State, virt_allocate, map_page}

  -- `NewFixedBlockAllocator::extend`
  pub extend : FixedBlockInner → State → Option (FixedBlockInner × State)
  extend s t = do
    page ← virt_allocate page_layout s t
    s' ← force_dealloc (map_page page.0 page.1 page.2).0 page.0 page_layout
    some (s', (map_page page.0 page.1 page.2).1)

  -- What `allocate` does where `crack` has failed.
  pub extend_for : ℕ → FixedBlockInner → State → Option (FixedBlockInner × State)
  extend_for index s t = do
    grown ← extend s t
    if index == 8
        then some grown
        else crack grown.0 index >>= λ r. must_crack r >>= λ s'. some (s', grown.1)

  pub cracked_or_extended :
      ℕ → Result (Unit {0}) (Unit {0}) × FixedBlockInner → State → Option (FixedBlockInner × State)
  cracked_or_extended index (ok _, s) t = some (s, t)
  cracked_or_extended index (err _, s) t = extend_for index s t

  -- Fills the list if it is empty: by `crack`, or from a page of the superior allocator.
  pub refill : ℕ → FixedBlockInner → State → Option (FixedBlockInner × State)
  refill index s t = do
    l ← get_elem? s.list_heads index
    if is_empty l then (crack s index >>= λ r. cracked_or_extended index r t) else some (s, t)

  pub allocate_at :
      Option ℕ
      → FixedBlockInner
      → State
      → Option (Result (Unit {0}) Slice × FixedBlockInner × State)
  allocate_at none s t = some (err tt, s, t)
  allocate_at (some index) s t = do
    filled ← refill index s t
    got ← fetch_block filled.0 index
    some (ok got.0, got.1, filled.1)

  -- `Allocator::allocate`; the dangling pointer of `u8` is 1.
  pub allocate :
      FixedBlockInner → State → Layout → Option (Result (Unit {0}) Slice × FixedBlockInner × State)
  allocate s t layout =
      if layout.size == 0
      then some (ok (1, 0), count_call s, t)
      else allocate_at (get_block_index layout) (count_call s) t

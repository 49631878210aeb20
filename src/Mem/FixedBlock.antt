-- ===== src/Mem/FixedBlock.antt =====
-- kernel/src/mem/allocator/fixed_size_block.rs (`NewFixedBlockAllocator`) and allocator_linked_list.rs.
-- An address is a number. `none` outside an operation's result is a panic of the kernel.
-- `RawLinkedList` threads its nodes through the free blocks; here it is the list of their addresses.
pub mod Alloc
pub mod Bytes
pub mod Shape
pub mod Sizes
pub mod Search
pub mod Crack
pub mod Deallocate
pub mod ReleaseLoop
pub mod Release
use hootux.Prelude.{
  ℕ, zero, suc, ◌+◌, ◌*◌, ◌/◌, ◌%◌, max, Bool, true, false, Option, none, some, List, [], ◌∷◌,
  add64, sub64, leb, ◌==◌, if◌then◌else◌, get_elem?, set, drop, replicate, Result, ok, err, ◌>>=◌,
}

-- `core::alloc::Layout`: a size and an alignment.
pub record Layout : Type 0 where
  pub size : ℕ
  pub align : ℕ

pub record RawLinkedList : Type 0 where
  pub len : ℕ
  pub head : List ℕ

abbrev pub empty_list : RawLinkedList
empty_list = record { len = 0; head = [] }

-- `RawLinkedList::add`
pub add : RawLinkedList → ℕ → RawLinkedList
add l ptr = record { len = add64 l.len 1; head = ptr ∷ l.head }

is_empty_head : List ℕ → Bool
is_empty_head [] = true
is_empty_head (_ ∷ _) = false

-- `RawLinkedList::is_empty`
pub is_empty : RawLinkedList → Bool
unfolding is_empty_head
is_empty l = is_empty_head l.head

pub fetch_head : ℕ → List ℕ → Option ℕ × RawLinkedList
fetch_head len [] = (none, record { len = len; head = [] })
fetch_head len (a ∷ rest) = (some a, record { len = sub64 len 1; head = rest })

-- `RawLinkedList::fetch`
pub fetch : RawLinkedList → Option ℕ × RawLinkedList
unfolding fetch_head
fetch l = fetch_head l.len l.head

-- `BLOCK_SIZES`
abbrev pub block_sizes : List ℕ
block_sizes = 8 ∷ 16 ∷ 32 ∷ 64 ∷ 128 ∷ 256 ∷ 512 ∷ 1024 ∷ 2048 ∷ []

abbrev pub block_count : ℕ
block_count = 9

-- `FixedBlockInner`; every operation keeps nine lists.
pub record FixedBlockInner : Type 0 where
  pub list_heads : List RawLinkedList
  pub start : ℕ
  pub alloc_count : ℕ

-- `NewFixedBlockAllocator::new`
pub new : FixedBlockInner
new = record { list_heads = replicate block_count empty_list; start = 0; alloc_count = 0 }

pub position_from : ℕ → List ℕ → ℕ → Option ℕ
position_from wanted [] i = none
position_from wanted (s ∷ sizes) i =
    let rest = position_from wanted sizes (i + 1) in if leb wanted s then some i else rest

-- `NewFixedBlockAllocator::get_block_index`
pub get_block_index : Layout → Option ℕ
unfolding position_from
get_block_index layout = position_from (max layout.size layout.align) block_sizes 0

-- The search of `crack`: the place of the first list that is not empty.
pub first_filled : List RawLinkedList → ℕ → Option ℕ
first_filled [] i = none
first_filled (l ∷ lists) i =
    let rest = first_filled lists (i + 1) in if is_empty l then rest else some i

-- The last loop of `crack`: `n` blocks of `size` bytes, from the one numbered `block` on.
pub add_blocks : RawLinkedList → ℕ → ℕ → ℕ → ℕ → RawLinkedList
add_blocks l region size zero block = l
add_blocks l region size (suc n) block =
    add_blocks (add l (add64 region (size * block))) region size n (block + 1)

-- `crack` once its search has ended: the list numbered `from` gives one block to the list `target`.
pub crack_at :
    FixedBlockInner → ℕ → Option ℕ → Option (Result (Unit {0}) (Unit {0}) × FixedBlockInner)
crack_at s target none = some (err tt, s)
crack_at s target (some from) = do
  t_large ← get_elem? block_sizes from
  node ← get_elem? s.list_heads from
  region ← (fetch node).0
  let lists = set s.list_heads from (fetch node).1
  t_target ← get_elem? block_sizes target
  goal ← get_elem? lists target
  let filled = add_blocks goal region t_target (t_large / t_target) 0
  some (ok tt, record s { list_heads = set lists target filled })

-- `FixedBlockInner::crack`; the assertion fails for a target past the last list.
pub crack : FixedBlockInner → ℕ → Option (Result (Unit {0}) (Unit {0}) × FixedBlockInner)
unfolding crack_at
crack s target =
    if leb block_count target
    then none
    else crack_at s target (first_filled (drop (target + 1) s.list_heads) (target + 1))

-- `Allocator::deallocate`
pub deallocate : FixedBlockInner → ℕ → Layout → Option FixedBlockInner
deallocate s ptr layout = if layout.size == 0 then some s else do
  index ← get_block_index layout
  l ← get_elem? s.list_heads index
  some (record s { list_heads = set s.list_heads index (add l ptr) })

-- The inner loop of `force_dealloc` on fuel; `none` is a panic, or fuel that has run out.
pub release_while : ℕ → ℕ → ℕ → ℕ → ℕ → FixedBlockInner → Option (ℕ × FixedBlockInner)
release_while zero addr size num complete s = none
release_while (suc fuel) addr size num complete s = elim (leb num (sub64 size complete)) [
  | true ↦
      (if add64 addr complete == 0
        then none
        else deallocate s (add64 addr complete) (record { size = num; align = 1 }))
      >>= release_while fuel addr size num (add64 complete num)
  | false ↦ some (complete, s)
]

-- The outer loop of `force_dealloc`, over the sizes that are left.
pub release_sizes : List ℕ → ℕ → ℕ → ℕ → FixedBlockInner → Option FixedBlockInner
release_sizes [] addr size complete s = some s
release_sizes (num ∷ sizes) addr size complete s =
    release_while (suc size) addr size num complete s >>= λ r. elim (r.0 == size) [
      | true ↦ some r.1
      | false ↦ release_sizes sizes addr size r.0 r.1
    ]

abbrev pub block_sizes_rev : List ℕ
block_sizes_rev = 2048 ∷ 1024 ∷ 512 ∷ 256 ∷ 128 ∷ 64 ∷ 32 ∷ 16 ∷ 8 ∷ []

-- `InferiorAllocator::force_dealloc`
pub force_dealloc : FixedBlockInner → ℕ → Layout → Option FixedBlockInner
force_dealloc s ptr layout =
    if ptr % 8 == 0 then release_sizes block_sizes_rev ptr layout.size 0 s else none

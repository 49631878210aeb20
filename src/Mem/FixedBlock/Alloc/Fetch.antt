-- ===== src/Mem/FixedBlock/Alloc/Fetch.antt =====
-- The end of `allocate` of fixed_size_block.rs: one block leaves its list.
use hootux.Prelude.{ℕ, ◌+◌, ◌%◌, ◌≡◌, some, List, get_elem?, set, arith, ◌>>=◌}
use hootux.Mem.FixedBlock.{RawLinkedList, FixedBlockInner, fetch, block_sizes}
use hootux.Mem.FixedBlock.Alloc.{fetch_block}
use hootux.Mem.FixedBlock.Bytes.{cover, covers, free_at, inside, covers-set}
use hootux.Mem.FixedBlock.Shape.{IsValid, Fits-get, Fits-set, fetch-IsGood}
use hootux.Mem.FixedBlock.Search.{fetch_lem}
use hootux.Mem.FixedBlock.Crack.{IsFilled}

fetched :
    (lists : List RawLinkedList) (l : RawLinkedList) (a i z : ℕ)
    → get_elem? block_sizes i ≡ some z
    → get_elem? lists i ≡ some l
    → ((size b : ℕ) → cover size l.head b ≡ inside a size b + cover size (fetch l).1.head b)
    → (b : ℕ)
    → covers block_sizes lists b ≡ covers block_sizes (set lists i (fetch l).1) b + inside a z b
fetched lists l a i z at_z at_l split b =
    omega (arith, covers-set block_sizes lists i z b l (fetch l).1 at_z at_l, split z b)

-- From a list that has a block, `fetch_block` takes one: it starts at a multiple of its size, and
-- its bytes are free once less.
pub fetch_block_lem :
    (s : FixedBlockInner) (index z : ℕ)
    → IsValid s
    → get_elem? block_sizes index ≡ some z
    → IsFilled index s
    → (addr : ℕ) × (s' : FixedBlockInner) × (fetch_block s index ≡ some ((addr, z), s'))
      × IsValid s'
      × (addr % z ≡ 0)
      × ((b : ℕ) → free_at s b ≡ free_at s' b + inside addr z b)
unfolding fetch_block
fetch_block_lem s index z v at_z (l, at, full) =
    let (a, got, split) = fetch_lem l full in
    let (good, pos, _, aligned) =
      fetch-IsGood z l (Fits-get block_sizes s.list_heads index v at_z at) got in
    (
      a,
      record s { list_heads = set s.list_heads index (fetch l).1 },
      rw (at, got, at_z, ◌>>=◌) (ground arith),
      Fits-set block_sizes s.list_heads index z (fetch l).1 v at_z good,
      aligned,
      fetched s.list_heads l a index z at_z at split,
    )

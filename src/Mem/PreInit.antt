-- ===== src/Mem/PreInit.antt =====
-- kernel/src/mem/buddy_frame_alloc.rs, module `pre_init_framealloc`: the frame allocator that runs off
-- the boot loader's memory map (a list of regions), and how it is drained into the buddy allocator.
-- A physical address and a length are numbers of 64 bits; differences of lengths wrap. `PhysAddr` of the crate
-- x86_64 is a parameter. `none` is a panic, or fuel run out.
pub mod Bits
pub mod Dissolve
pub mod Frames
pub mod Sequence
mod Tests
use hootux.Prelude.{
  ℕ, zero, suc, ◌+◌, ◌-◌, ◌*◌, ◌/◌, ◌%◌, ◌^◌, max, min, Bool, true, false, Option, none, some, List,
  [], ◌∷◌, ◌&&◌, add64, sub64, ltb, leb, ◌==◌, if◌then◌else◌, ◌++◌, ◌>>=◌, ◌<◌, ◌≤◌, ◌≡◌,
}

-- `PhysAddr::new` of the crate x86_64, and the sum of an address and a number
pub record PhysAddrOps : Type 0 where
  pub new_addr : ℕ → Option ℕ
  pub plus : ℕ → ℕ → Option ℕ

-- What is documented of them: an address has 52 bits, and nothing panics that stays below that.
pub record IsPhysAddr (phys : PhysAddrOps) : Type 0 where
  pub new_fits : (a : ℕ) → a < 2 ^ 52 → phys.new_addr a ≡ some a
  pub plus_fits : (a n : ℕ) → a + n < 2 ^ 52 → phys.plus a n ≡ some (a + n)

-- `MemRegion`
pub data MemRegion : Type 0 where
  mem16 mem32 mem64 : MemRegion

-- `MemRegion::upper_limit`
pub upper_limit : MemRegion → ℕ
upper_limit mem16 = 0xffff
upper_limit mem32 = 0xffffffff
upper_limit mem64 = 0xffffffffffffffff

-- `MemRegion::lower_limit`
pub lower_limit : MemRegion → ℕ
lower_limit mem16 = 0
lower_limit mem32 = 0x10000
lower_limit mem64 = 0x100000000

-- `From<PhysAddr> for MemRegion`
pub region_of : ℕ → MemRegion
region_of addr = if leb addr 0xffff then mem16 else if leb addr 0xffffffff then mem32 else mem64

-- An entry of `hatcher::boot_info::MemoryMap`, with the test for `MemoryRegionType::Usable`.
pub record MapRegion : Type 0 where
  pub phys_addr : ℕ
  pub size : ℕ
  pub usable : Bool

pub record IterSegment : Type 0 where
  pub mem_region : MemRegion
  pub current : Option ℕ
  pub seg_num : ℕ
  pub len : ℕ

-- `IterSegment::new`
pub new : MemRegion → IterSegment
new r = record { mem_region = r; current = none; seg_num = 0; len = 0 }

-- The part of a map entry that lies in the segment's range, as its start and its end.
pub clip_start : MemRegion → MapRegion → ℕ
clip_start r e = max e.phys_addr (lower_limit r)

pub clip_end : MemRegion → MapRegion → ℕ
clip_end r e = min (add64 e.phys_addr e.size) (upper_limit r)

-- what `advance` does with a region that it can use; it panics where `current` is already there
pub stand_on : PhysAddrOps → IterSegment → ℕ → ℕ → ℕ → Option IterSegment
stand_on phys s start end i = phys.new_addr start >>= λ a. elim s.current [
  | none ↦ some (record s { current = some a; len = sub64 end start; seg_num = i })
  | some _ ↦ none
]

-- The loop of `advance`, over the entries from number `i` on.
pub advance_loop : PhysAddrOps → IterSegment → List MapRegion → ℕ → Option IterSegment
unfolding stand_on
advance_loop phys s [] i = some s
advance_loop phys s (e ∷ map) i =
    let rest = advance_loop phys s map (i + 1) in
    let start = clip_start s.mem_region e in
    let end = clip_end s.mem_region e in
    if e.usable && ltb start end then stand_on phys s start end i else rest

pub skip : ℕ → List MapRegion → List MapRegion
skip zero map = map
skip (suc n) [] = []
skip (suc n) (e ∷ map) = skip n map

-- `IterSegment::advance`
pub advance : PhysAddrOps → IterSegment → List MapRegion → Option IterSegment
advance phys s map = advance_loop phys s (skip (s.seg_num + 1) map) (s.seg_num + 1)

abbrev pub page_size : ℕ
page_size = 4096

-- The common part of `alloc`: takes a frame off the front of a segment.
pub take_frame : PhysAddrOps → IterSegment → Option ℕ → Option (Option ℕ × IterSegment)
take_frame phys s none = some (none, s)
take_frame phys s (some rc) =
    let left = sub64 s.len page_size in
    if left == 0
    then some (some rc, record s { current = none; len = left })
    else (phys.plus rc page_size >>= λ next.
        some (some rc, record s { current = some next; len = left }))

pub alloc_from :
    PhysAddrOps → IterSegment → List MapRegion → Option ℕ → Option (Option ℕ × IterSegment)
alloc_from phys s map (some rc) = take_frame phys s (some rc)
alloc_from phys s map none = advance phys s map >>= λ s'. take_frame phys s' s'.current

-- `IterSegment::alloc`
pub alloc : PhysAddrOps → IterSegment → List MapRegion → Option (Option ℕ × IterSegment)
unfolding alloc_from
alloc phys s map = alloc_from phys s map s.current

-- Takes the whole of the current segment.
take_all : IterSegment → Option ℕ → Option (ℕ × ℕ) × IterSegment
take_all s none = (none, s)
take_all s (some addr) = (some (addr, s.len), record s { current = none; len = 0 })

pop_from :
    PhysAddrOps → IterSegment → List MapRegion → Option ℕ → Option (Option (ℕ × ℕ) × IterSegment)
pop_from phys s map (some addr) = some (take_all s (some addr))
pop_from phys s map none = advance phys s map >>= λ s'. some (take_all s' s'.current)

-- `IterSegment::pop`
pub pop : PhysAddrOps → IterSegment → List MapRegion → Option (Option (ℕ × ℕ) × IterSegment)
unfolding pop_from take_all
pop phys s map = pop_from phys s map s.current

-- `u64::trailing_zeros` of the low `bits` bits
pub trailing_zeros : ℕ → ℕ → ℕ
trailing_zeros zero n = 0
trailing_zeros (suc bits) n =
    let rest = suc (trailing_zeros bits (n / 2)) in if n % 2 == 0 then rest else 0

-- `u64::leading_zeros` of a word of `bits` bits
pub leading_zeros : ℕ → ℕ → ℕ
leading_zeros zero n = 0
leading_zeros (suc bits) n =
    let rest = suc (leading_zeros bits n) in if leb (2 ^ bits) n then 0 else rest

-- `1u64.checked_shl(n).unwrap_or(1 << 63)`
pub shl_or_top : ℕ → ℕ
shl_or_top n = if ltb n 64 then 2 ^ n else 2 ^ 63

-- The size of the block that `dissolve` cuts off.
pub block_size : ℕ → ℕ → ℕ
block_size addr len =
    let tgt_size = shl_or_top (trailing_zeros 64 addr) in
    if ltb len tgt_size then 2 ^ (64 - (leading_zeros 64 len + 1)) else tgt_size

-- `IterSegment::dissolve`: the block, and the address and length that are left.
pub dissolve : PhysAddrOps → ℕ → ℕ → Option (Option (ℕ × ℕ) × ℕ × ℕ)
dissolve phys addr len =
    if len == 0
    then some (none, addr, len)
    else let tgt_size = block_size addr len in
      (phys.plus addr tgt_size >>= λ next. some (some (addr, tgt_size), next, sub64 len tgt_size))

-- The inner loop of `drain` on fuel: the calls of `deallocate`, in order.
pub dissolve_all : PhysAddrOps → ℕ → ℕ → ℕ → Option (List (ℕ × ℕ))
dissolve_all phys zero addr len = none
dissolve_all phys (suc fuel) addr len = dissolve phys addr len >>= λ r. elim r.0 [
  | none ↦ some []
  | some block ↦ dissolve_all phys fuel r.1 r.2 >>= λ blocks. some (block ∷ blocks)
]

-- `IterSegment::drain` on fuel: the calls of `deallocate` of the buddy allocator, in order.
pub drain : PhysAddrOps → ℕ → IterSegment → List MapRegion → Option (List (ℕ × ℕ))
drain phys zero s map = none
drain phys (suc fuel) s map = pop phys s map >>= λ r. elim r.0 [
  | none ↦ some []
  | some (addr, len) ↦ dissolve_all phys (suc len) addr len >>= λ blocks.
      drain phys fuel r.1 map >>= λ rest. some (blocks ++ rest)
]

pub record PreInitFrameAlloc : Type 0 where
  pub map : List MapRegion
  pub dma_16 : IterSegment
  pub dma_32 : IterSegment
  pub dma_64 : IterSegment

-- `PreInitFrameAlloc::new`
pub new_alloc : List MapRegion → PreInitFrameAlloc
new_alloc map = record { map = map; dma_16 = new mem16; dma_32 = new mem32; dma_64 = new mem64 }

try_16 : PreInitFrameAlloc → Option ℕ × IterSegment → Option ℕ × PreInitFrameAlloc
try_16 p (addr, s) = (addr, record p { dma_16 = s })

try_32 :
    PhysAddrOps → PreInitFrameAlloc → Option ℕ × IterSegment → Option (Option ℕ × PreInitFrameAlloc)
try_32 phys p (some addr, s) = some (some addr, record p { dma_32 = s })
try_32 phys p (none, s) =
    let p' = record p { dma_32 = s } in alloc phys p'.dma_16 p'.map >>= λ r. some (try_16 p' r)

try_64 :
    PhysAddrOps → PreInitFrameAlloc → Option ℕ × IterSegment → Option (Option ℕ × PreInitFrameAlloc)
try_64 phys p (some addr, s) = some (some addr, record p { dma_64 = s })
try_64 phys p (none, s) =
    let p' = record p { dma_64 = s } in alloc phys p'.dma_32 p'.map >>= λ r. try_32 phys p' r

-- `FrameAllocator::allocate_frame` of `PreInitFrameAlloc`, up to `PhysFrame::from_start_address`
pub allocate_frame : PhysAddrOps → PreInitFrameAlloc → Option (Option ℕ × PreInitFrameAlloc)
unfolding try_64 try_32 try_16
allocate_frame phys p = alloc phys p.dma_64 p.map >>= λ r. try_64 phys p r

-- ===== src/Mem/PreInit/Tests.antt =====
-- The frame allocator over a small memory map.
use hootux.Prelude.{
  ℕ, ◌+◌, ◌-◌, ◌^◌, ◌<◌, ◌>>=◌, ltb, if◌then◌else◌, Option, ◌≡◌, refl, true, false, none, some,
  List, [], ◌∷◌, arith,
}
use hootux.Mem.PreInit.{
  PhysAddrOps, IsPhysAddr, mem16, mem32, mem64, MapRegion, stand_on, IterSegment, new, new_alloc,
  lower_limit, upper_limit, clip_start, clip_end, advance_loop, advance, skip, take_frame, alloc,
  pop, block_size, shl_or_top, trailing_zeros, leading_zeros, dissolve, dissolve_all, drain,
  allocate_frame,
}
use hootux.Mem.PreInit.Dissolve.{Tiles, dissolve_all_lem}
use hootux.Mem.PreInit.Sequence.{alloc_times, frames, alloc_times_lem}
use hootux.Mem.PreInit.Frames.{Advanced, no_entry, entry_on, advance_lem}

-- addresses of 52 bits
abbrev checked : ℕ → Option ℕ
checked a = if ltb a (2 ^ 52) then some a else none

abbrev phys : PhysAddrOps
phys = record { new_addr = checked; plus = λ a n. checked (a + n) }

checked-fits : (a : ℕ) → a < 2 ^ 52 → checked a ≡ some a
checked-fits a h = ground arith

phys-IsPhysAddr : IsPhysAddr phys
phys-IsPhysAddr = record { new_fits = checked-fits; plus_fits = λ a n. checked-fits (a + n) }

abbrev low : MapRegion
low = record { phys_addr = 0; size = 0x9f000; usable = true }

abbrev bios : MapRegion
bios = record { phys_addr = 0x9f000; size = 0x61000; usable = false }

abbrev main_memory : MapRegion
main_memory = record { phys_addr = 0x100000; size = 0x3000; usable = true }

abbrev memory_map : List MapRegion
memory_map = low ∷ bios ∷ main_memory ∷ []

first_frame : (allocate_frame phys (new_alloc memory_map) >>= λ r. r.0) ≡ some 0x100000
unfolding allocate_frame new_alloc new alloc take_frame advance advance_loop stand_on skip
    clip_start clip_end lower_limit upper_limit
first_frame = refl

drained : drain phys 9 (new mem32) memory_map ≡ some ((0x100000, 0x2000) ∷ (0x102000, 0x1000) ∷ [])
unfolding drain new pop advance advance_loop stand_on skip clip_start clip_end lower_limit
    upper_limit dissolve_all dissolve block_size shl_or_top trailing_zeros leading_zeros
drained = refl

dissolve_all_lem_example :
    (blocks : List (ℕ × ℕ)) × (dissolve_all phys 100 0x1003 77 ≡ some blocks)
    × Tiles 0x1003 77 blocks
dissolve_all_lem_example =
    dissolve_all_lem phys phys-IsPhysAddr 100 0x1003 77 (omega arith) (omega arith)

abbrev fresh : IterSegment
fresh = record { mem_region = mem32; current = none; seg_num = 0; len = 0 }

abbrev at_main : IterSegment
at_main = record { mem_region = mem32; current = some 0x100000; seg_num = 2; len = 0x3000 }

abbrev at_limit : IterSegment
at_limit = record { mem_region = mem16; current = some 0xf000; seg_num = 1; len = 0xfff }

alloc_times_lem_example :
    alloc_times phys 3 at_main memory_map
    ≡ some (frames 0x100000 3, record { mem_region = mem32; current = none; seg_num = 2; len = 0 })
alloc_times_lem_example =
    alloc_times_lem phys 2 at_main memory_map 0x100000 phys-IsPhysAddr refl (omega arith)
      (omega arith)

advance_lem_example :
    (s : IterSegment) × (advance phys fresh memory_map ≡ some s)
    × Advanced fresh (bios ∷ main_memory ∷ []) 1 s
unfolding skip
advance_lem_example =
    advance_lem phys fresh memory_map phys-IsPhysAddr refl
      (entry_on (omega arith) (entry_on (omega arith) (entry_on (omega arith) no_entry)))

-- a frame that ends at 2 ^ 52 is the last: the address behind it does not exist
last_frame :
    alloc phys
      (record { mem_region = mem64; current = some (2 ^ 52 - 4096); seg_num = 2; len = 8192 })
      memory_map
    ≡ none
unfolding alloc take_frame
last_frame = refl

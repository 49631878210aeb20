-- ===== src/Ahci/Prdt/Tests.antt =====
-- drivers/ahci/src: the table of physical regions, run.
use hootux.Ahci.Prdt.{
  UnboundCommandTable, set_data_count, data_count_new, entry_new, raw_table, limit_all, regions,
  fill, import_table, set_len, resize, build_prdt,
}
use hootux.Ahci.Prdt.Entries.{described}
use hootux.Ahci.Prdt.Build.{build_prdt_lem}
use hootux.Ahci.Prdt.Large.{build_prdt_large}
use hootux.Mem.Dma.{
  PhysicalRegionDescription, next_chunk, grow, first_diff, next, collect, prd, limit_next,
  limit_from, limit,
}
use hootux.Mem.Dma.Frames.{frames_of, Mapped}
use hootux.Prelude.{
  ℕ, zero, suc, ◌+◌, ◌<◌, ◌*◌, ◌^◌, ◌≡◌, refl, ap, Option, none, some, eq_of_some, List, [], ◌∷◌,
  ltb, if◌then◌else◌, map, take, length, get_elem?, bits_or, arith,
}

-- the pages 7 and 3
abbrev two_pages : ℕ → Option ℕ
two_pages i = if ltb i 4096 then some (4096 * 7) else some (4096 * 3)

abbrev two_frames : List ℕ
two_frames = 7 ∷ 3 ∷ []

two_pages_at :
    (i p : ℕ) → get_elem? two_frames i ≡ some p → two_pages (4096 * (0 + i)) ≡ some (4096 * p)
two_pages_at zero p e = ap (λ q. some (4096 * q)) (eq_of_some e)
two_pages_at (suc zero) p e = ap (λ q. some (4096 * q)) (eq_of_some e)
two_pages_at (suc (suc i)) p e = absurd (cc)

two_pages_small :
    (i p : ℕ) → get_elem? two_frames i ≡ some p → 4096 * (p + length two_frames) < 2 ^ 64
two_pages_small zero p e = omega (arith, eq_of_some e)
two_pages_small (suc zero) p e = omega (arith, eq_of_some e)
two_pages_small (suc (suc i)) p e = absurd (cc)

two_pages-Mapped : Mapped two_pages (4096 * length two_frames) 0 two_frames
two_pages-Mapped = record { whole = refl; at = two_pages_at; small = two_pages_small }

abbrev command : UnboundCommandTable
command = record { table_size = 0; table = []; header_len = 1; header_addr = 0 }

abbrev place : ℕ → ℕ
place n = 0x100000

build_two :
    build_prdt place command two_pages 0 8192
    ≡ some (
      none,
      record {
        table_size = 0;
        table =
            record { base_addr = 28672; data_count = 4095 }
            ∷ record { base_addr = 12288; data_count = 4095 }
            ∷ [];
        header_len = 2;
        header_addr = 0x100000;
      },
    )
unfolding build_prdt regions limit_all resize import_table set_len fill raw_table entry_new
    data_count_new set_data_count bits_or collect next next_chunk grow first_diff prd limit
    limit_from limit_next
build_two = refl

build_prdt_lem_example :
    (u : UnboundCommandTable) × (build_prdt place command two_pages 0 8192 ≡ some (none, u))
    × (frames_of (map described (take u.header_len u.table)) ≡ two_frames)
build_prdt_lem_example =
    build_prdt_lem place two_pages command 0 two_frames (λ n. refl) two_pages-Mapped (omega arith)
      (omega arith) refl

-- an empty buffer leaves a header length of 0
build_none :
    build_prdt place command two_pages 0 0
    ≡ some (none, record { table_size = 0; table = []; header_len = 0; header_addr = 0 })
unfolding build_prdt regions limit_all resize set_len fill collect next next_chunk grow first_diff
    prd
build_none = refl

-- 65 pages in a row
abbrev in_a_row : ℕ → Option ℕ
in_a_row i = some (0x5000 + i)

abbrev large_region : List PhysicalRegionDescription
large_region = record { addr = 0x5000; size = 0x41000 } ∷ []

regions-in_a_row : regions in_a_row 0x41000 ≡ some large_region
unfolding regions limit_all collect next next_chunk grow first_diff prd limit limit_from limit_next
regions-in_a_row = refl

build_prdt_large_example : build_prdt place command in_a_row 0 0x41000 ≡ none
build_prdt_large_example =
    build_prdt_large place in_a_row command 0 0x41000 0 large_region
      (record { addr = 0x5000; size = 0x41000 }) refl refl regions-in_a_row (omega arith) refl
      (omega arith) (omega arith)

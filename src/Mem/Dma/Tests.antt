-- ===== src/Mem/Dma/Tests.antt =====
-- kernel/src/mem/dma.rs: the regions under a buffer, run.
use hootux.Mem.Dma.{
  PhysicalRegionDescription, next_chunk, grow, first_diff, next, collect, prd, limit_next,
  limit_from, limit,
}
use hootux.Mem.Dma.Frames.{frames_of, Mapped}
use hootux.Mem.Dma.Regions.{WholePages, collect_regions}
use hootux.Mem.Dma.Limit.{Cut, limit_lem}
use hootux.Prelude.{
  ℕ, zero, suc, ◌+◌, ◌-◌, ◌<◌, ◌*◌, ◌^◌, ◌≡◌, refl, ap, Option, some, eq_of_some, List, [], ◌∷◌,
  ltb, if◌then◌else◌, length, get_elem?, arith,
}

-- a buffer of three pages, in the frames 7, 8 and 3
abbrev three_pages : ℕ → Option ℕ
three_pages i =
    if ltb i 4096
    then some (4096 * 7)
    else (if ltb i 8192 then some (4096 * 8) else some (4096 * 3))

abbrev three_frames : List ℕ
three_frames = 7 ∷ 8 ∷ 3 ∷ []

three_pages_at :
    (i p : ℕ) → get_elem? three_frames i ≡ some p → three_pages (4096 * (0 + i)) ≡ some (4096 * p)
three_pages_at zero p e = ap (λ q. some (4096 * q)) (eq_of_some e)
three_pages_at (suc zero) p e = ap (λ q. some (4096 * q)) (eq_of_some e)
three_pages_at (suc (suc zero)) p e = ap (λ q. some (4096 * q)) (eq_of_some e)
three_pages_at (suc (suc (suc i))) p e = absurd (cc)

three_pages_small :
    (i p : ℕ) → get_elem? three_frames i ≡ some p → 4096 * (p + length three_frames) < 2 ^ 64
three_pages_small zero p e = omega (arith, eq_of_some e)
three_pages_small (suc zero) p e = omega (arith, eq_of_some e)
three_pages_small (suc (suc zero)) p e = omega (arith, eq_of_some e)
three_pages_small (suc (suc (suc i))) p e = absurd (cc)

three_pages-Mapped : Mapped three_pages (4096 * length three_frames) 0 three_frames
three_pages-Mapped = record { whole = refl; at = three_pages_at; small = three_pages_small }

collect_three :
    collect 4 three_pages (prd 12288)
    ≡ some (record { addr = 28672; size = 8192 } ∷ record { addr = 12288; size = 4096 } ∷ [])
unfolding collect next next_chunk grow first_diff prd
collect_three = refl

collect_regions_example :
    (rs : List PhysicalRegionDescription) × (collect
        (length three_frames + 1)
        three_pages
        (prd (4096 * length three_frames))
      ≡ some rs)
    × (frames_of rs ≡ three_frames)
    × WholePages rs
collect_regions_example = collect_regions three_pages three_frames three_pages-Mapped

abbrev one_page : ℕ → Option ℕ
one_page i = some (i + 4096)

-- a buffer of eight bytes gets a region of a whole page
next_short :
    next one_page (prd 8)
    ≡ some (some (record { addr = 4096; size = 4096 }), record { len = 8; next_index = 4096 })
unfolding next next_chunk grow first_diff prd
next_short = refl

-- a buffer of 4097 bytes whose second page lies elsewhere gets two whole pages
abbrev two_places : ℕ → Option ℕ
two_places i = if ltb i 4096 then some (4096 * 9 + i) else some (4096 * 4 + (i - 4096))

collect_long :
    collect 3 two_places (prd 4097)
    ≡ some (record { addr = 36864; size = 4096 } ∷ record { addr = 16384; size = 4096 } ∷ [])
unfolding collect next next_chunk grow first_diff prd
collect_long = refl

abbrev region : PhysicalRegionDescription
region = record { addr = 0x1000; size = 10 }

limit_ten :
    limit region 4
    ≡ some (
        record { addr = 0x1000; size = 4 }
        ∷ record { addr = 0x1004; size = 4 }
        ∷ record { addr = 0x1008; size = 2 }
        ∷ [])
unfolding limit limit_from limit_next
limit_ten = refl

limit_lem_example :
    (rs : List PhysicalRegionDescription) × (limit region 4 ≡ some rs) × Cut 4 0x1000 10 rs
limit_lem_example = limit_lem region 4 (omega arith) (omega arith)

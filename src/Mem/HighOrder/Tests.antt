-- ===== src/Mem/HighOrder/Tests.antt =====
-- Regions given back at concrete addresses.
use hootux.Mem.HighOrder.{FreeMem, free_at, try_merge, merge, insert, end}
use hootux.Mem.HighOrder.Merge.{cover, inside, Fits, no_region, one_more, free_at_lem}
use hootux.Prelude.{◌+◌, ◌≡◌, refl, [], ◌∷◌, arith}

abbrev low : FreeMem
low = record { start = 4096; len = 4096 }

abbrev high : FreeMem
high = record { start = 16384; len = 4096 }

-- a region that closes the gap is merged with the one above it only
free_at_test :
    free_at (low ∷ high ∷ []) 1 (record { start = 8192; len = 8192 })
    ≡ low ∷ record { start = 8192; len = 12288 } ∷ []
unfolding free_at try_merge merge insert end
free_at_test = refl

free_at_lem_example :
    cover (free_at (low ∷ high ∷ []) 1 (record { start = 8192; len = 8192 })) 9000
    ≡ cover (low ∷ high ∷ []) 9000 + inside (record { start = 8192; len = 8192 }) 9000
unfolding Fits
free_at_lem_example =
    free_at_lem (low ∷ high ∷ []) 1 (record { start = 8192; len = 8192 })
      (one_more (omega arith) (one_more (omega arith) no_region)) (omega arith) 9000

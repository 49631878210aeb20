-- ===== src/Mp/Bitmap/Scan/Tests.antt =====
-- Searching a set of two CPUs.
use hootux.Mp.Bitmap.{CpuBMap}
use hootux.Mp.Bitmap.Scan.{
  trailing_ones, trailing_zeros, count_ones, sum_ones, count, one_from, find_first_one, zero_from,
  find_first_zero,
}
use hootux.Mp.Bitmap.Scan.Zeros.{IsFirst, find_first_zero-IsFirst}
use hootux.Prelude.{◌≡◌, refl, some, [], ◌∷◌, arith}

find_first_zero_test : find_first_zero 4 (3 ∷ []) ≡ some 2
unfolding find_first_zero zero_from trailing_ones
find_first_zero_test = refl

-- past the last CPU
find_first_zero_past : find_first_zero 2 (3 ∷ []) ≡ some 2
unfolding find_first_zero zero_from trailing_ones
find_first_zero_past = refl

find_first_one_test : find_first_one 80 (0 ∷ 4 ∷ []) ≡ some 66
unfolding find_first_one one_from trailing_zeros
find_first_one_test = refl

count_test : count (5 ∷ 2 ∷ []) ≡ some 3
unfolding count sum_ones count_ones
count_test = refl

-- CPUs 0 and 1
abbrev first_two : CpuBMap
first_two = 3 ∷ []

find_first_zero-IsFirst_example : IsFirst 4 first_two (find_first_zero 4 first_two)
find_first_zero-IsFirst_example = find_first_zero-IsFirst 4 first_two (omega arith)

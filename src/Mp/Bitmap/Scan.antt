-- ===== src/Mp/Bitmap/Scan.antt =====
-- kernel/src/mp/bitmap.rs: counting and searching a `CpuBMap`, and its iterator.
-- `num_cpus` is the number of CPUs, of kernel/src/mp.rs.
pub mod Zeros
mod Tests
use hootux.Mp.Bitmap.{CpuBMap, get}
use hootux.Prelude.{
  ℕ, zero, suc, ◌+◌, ◌-◌, ◌*◌, ◌/◌, ◌%◌, ◌^◌, Bool, true, false, Option, none, some, List, [], ◌∷◌,
  ltb, ◌==◌, if◌then◌else◌, get_elem?, bits_and, bits_not, sub64, one_shl,
}

-- `count_ones`, `trailing_ones` and `trailing_zeros` of a word of `w` bits
pub count_ones : ℕ → ℕ → ℕ
count_ones zero u = 0
count_ones (suc w) u = u % 2 + count_ones w (u / 2)

pub trailing_ones : ℕ → ℕ → ℕ
trailing_ones zero u = 0
trailing_ones (suc w) u = let rest = trailing_ones w (u / 2) in if u % 2 == 1 then 1 + rest else 0

pub trailing_zeros : ℕ → ℕ → ℕ
trailing_zeros zero u = 0
trailing_zeros (suc w) u = let rest = trailing_zeros w (u / 2) in if u % 2 == 1 then 0 else 1 + rest

-- the loop of `CpuBMap::count`
pub sum_ones : CpuBMap → ℕ
unfolding count_ones
sum_ones [] = 0
sum_ones (u ∷ map) = count_ones 64 u + sum_ones map

-- `CpuBMap::count`; a `u32` always converts to a `CpuCount`.
pub count : CpuBMap → Option ℕ
unfolding sum_ones
count map = some (sum_ones map)

-- the loop of `CpuBMap::find_first_one`, from `n` on
pub one_from : ℕ → ℕ → CpuBMap → Option ℕ
unfolding trailing_zeros
one_from num_cpus n [] = none
one_from num_cpus n (u ∷ map) =
    let rest = one_from num_cpus (n + trailing_zeros 64 u) map in
    if trailing_zeros 64 u == 64
    then rest
    else if ltb (n + trailing_zeros 64 u) num_cpus
    then some ((n + trailing_zeros 64 u) % 2 ^ 32)
    else none

-- `CpuBMap::find_first_one`
pub find_first_one : ℕ → CpuBMap → Option ℕ
unfolding one_from
find_first_one num_cpus map = one_from num_cpus 0 map

-- the loop of `CpuBMap::find_first_zero`, from `n` on
pub zero_from : ℕ → ℕ → CpuBMap → Option ℕ
unfolding trailing_ones
zero_from num_cpus n [] = if n == num_cpus then none else some (n % 2 ^ 32)
zero_from num_cpus n (u ∷ map) =
    let rest = zero_from num_cpus (n + trailing_ones 64 u) map in
    if trailing_ones 64 u == 64 then rest else some ((n + trailing_ones 64 u) % 2 ^ 32)

-- `CpuBMap::find_first_zero`
pub find_first_zero : ℕ → CpuBMap → Option ℕ
unfolding zero_from
find_first_zero num_cpus map = zero_from num_cpus 0 map

-- the loop of `CpuBitmapIterator::next` over the words from word `i` on
pub scan : ℕ → CpuBMap → Option ℕ
unfolding trailing_zeros
scan i [] = none
scan i (u ∷ map) =
    let rest = scan (i + 1) map in
    if trailing_zeros 64 u == 64 then rest else some ((i * 64 + trailing_zeros 64 u) % 2 ^ 32)

-- `skip`, with the position
pub skip : ℕ → CpuBMap → CpuBMap
skip zero map = map
skip (suc n) [] = []
skip (suc n) (u ∷ map) = skip n map

-- the word of the last position, less the bits that the mask `!(1 << offset) - 1` takes away
pub rest_of : ℕ → ℕ → ℕ
rest_of u offset = bits_and 64 u (sub64 (bits_not 64 (one_shl offset)) 1)

-- `CpuBitmapIterator`
pub record CpuBitmapIterator : Type 0 where
  pub last : Option ℕ

-- the new position, where there is one, is also what the call returns
pub found : Option ℕ → Option ℕ → Option ℕ × CpuBitmapIterator
found last none = (none, record { last = last })
found last (some n) = (some n, record { last = some n })

-- `CpuBitmapIterator::next` from position `n`; the index is out of bounds where the word is not there
pub next_from : CpuBMap → ℕ → Option (Option ℕ × CpuBitmapIterator)
unfolding scan skip rest_of found
next_from map n =
    if n % 64 == 0
    then some (found (some n) (scan (n / 64) (skip (n / 64) map)))
    else elim (get_elem? map (n / 64)) [
      | none ↦ none
      | some u ↦
          (if trailing_zeros 64 (rest_of u (n % 64)) == 64
            then some (found (some n) (scan (n / 64 + 1) (skip (n / 64 + 1) map)))
            else some
                (found (some n) (some (n / 64 * 64 + trailing_zeros 64 (rest_of u (n % 64))))))
    ]

-- `CpuBMap::iter`
pub iter : CpuBitmapIterator
iter = record { last = none }

-- `CpuBitmapIterator::next`
pub next : CpuBMap → CpuBitmapIterator → Option (Option ℕ × CpuBitmapIterator)
unfolding next_from
next map it = elim it.last [
  | some n ↦ next_from map n
  | none ↦ (if get map 0 then some (some 0, record { last = some 0 }) else next_from map 0)
]

-- `CpuBMap::take`: what it held, as long as it was, and a set that is empty and as long
pub take : CpuBMap → CpuBMap × CpuBMap
take map = (map, zeros map)
  where
    zeros : CpuBMap → CpuBMap
    zeros [] = []
    zeros (u ∷ m) = 0 ∷ zeros m

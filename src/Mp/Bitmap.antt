-- ===== src/Mp/Bitmap.antt =====
-- kernel/src/mp/bitmap.rs: `CpuBMap`, a set of CPUs as the bits of a list of 64 bit words.
-- One operation at a time: an operation is one atomic access to one word, under the lock of the list.
pub mod Words
pub mod Laws
pub mod Scan
pub mod Own
mod Tests
use hootux.Prelude.{
  ℕ, ◌+◌, ◌-◌, ◌/◌, ◌%◌, Bool, true, false, Option, none, some, List, [], ◌∷◌, ◌++◌, ltb, ◌==◌,
  if◌then◌else◌, length, get_elem?, set, replicate, bits_and, bits_or, bits_not, one_shl,
}

-- `CpuBMap`
abbrev pub CpuBMap : Type 0
CpuBMap = List ℕ

-- `CpuBMap::new`
pub new : CpuBMap
new = []

-- `resize_with` to a length that is no shorter
pub resize : CpuBMap → ℕ → CpuBMap
resize map n = map ++ replicate (n - length map) 0

-- the word of an index that is in the list
pub word_at : CpuBMap → ℕ → ℕ
word_at map index = elim (get_elem? map index) [ none ↦ 0 | some u ↦ u ]

-- `fetch_or` and `fetch_and` on one word
pub set_word : CpuBMap → ℕ → ℕ → CpuBMap
unfolding word_at
set_word map index offset = set map index (bits_or 64 (word_at map index) (one_shl offset))

pub clear_word : CpuBMap → ℕ → ℕ → CpuBMap
unfolding word_at
clear_word map index offset =
    set map index (bits_and 64 (word_at map index) (bits_not 64 (one_shl offset)))

-- `CpuBMap::set_bit`
pub set_bit : CpuBMap → ℕ → CpuBMap
set_bit map cpu =
    if ltb (length map) (cpu / 64 + 1)
    then set_word (resize map (cpu / 64 + 1)) (cpu / 64) (cpu % 64)
    else set_word map (cpu / 64) (cpu % 64)

-- `CpuBMap::clear_bit`
pub clear_bit : CpuBMap → ℕ → CpuBMap
clear_bit map cpu =
    if ltb (length map) (cpu / 64 + 1)
    then clear_word (resize map (cpu / 64 + 1)) (cpu / 64) (cpu % 64)
    else clear_word map (cpu / 64) (cpu % 64)

-- the test of one bit in `CpuBMap::get`
pub get_word : ℕ → Option ℕ → Bool
get_word offset none = false
get_word offset (some t) = if 0 == bits_and 64 t (one_shl offset) then false else true

-- `CpuBMap::get`
pub get : CpuBMap → ℕ → Bool
get map cpu = get_word (cpu % 64) (get_elem? map (cpu / 64))

-- ===== src/Mem/FixedBlock/Sizes.antt =====
-- `BLOCK_SIZES` of fixed_size_block.rs: each size divides the later ones.
use hootux.Prelude.{
  ℕ, zero, suc, ◌*◌, ◌/◌, ◌<◌, ◌≤◌, ◌≡◌, refl, Bool, true, Option, none, some, get_elem?, arith,
  leb, ◌==◌, ◌&&◌, ◌||◌,
}
use hootux.Mem.FixedBlock.{block_sizes}

all_below : ℕ → (ℕ → Bool) → Bool
all_below zero p = true
all_below (suc n) p = p n && all_below n p

all_below_lem : (n : ℕ) (p : ℕ → Bool) (x : ℕ) → all_below n p ≡ true → x < n → p x ≡ true
unfolding all_below
all_below_lem zero p x h lt = absurd (omega arith)
all_below_lem (suc n) p x h lt = ground (arith, all_below_lem n p x)

size_or : Option ℕ → ℕ
size_or none = 0
size_or (some z) = z

nests : ℕ → ℕ → Bool
nests z w = leb 8 z && w == z * (w / z) && leb 2 (w / z)

nests_lem : (z w : ℕ) → nests z w ≡ true → (8 ≤ z) × (w ≡ z * (w / z)) × (2 ≤ w / z)
unfolding nests
nests_lem z w h = ground arith

nested : ℕ → ℕ → Bool
nested j i =
    leb j i || nests (size_or (get_elem? block_sizes i)) (size_or (get_elem? block_sizes j))

nested_table : all_below 9 (λ j. all_below 9 (nested j)) ≡ true
unfolding all_below nested size_or nests
nested_table = refl

nested_at :
    (j i : ℕ) {z w : ℕ}
    → i < j
    → get_elem? block_sizes i ≡ some z
    → get_elem? block_sizes j ≡ some w
    → nested j i ≡ true
    → nests z w ≡ true
unfolding nested size_or
nested_at j i {z} {w} lt h k t = ground arith

-- Each size divides the later ones.
pub block_sizes_nested :
    (i j : ℕ) {z w : ℕ}
    → i < j
    → j < 9
    → get_elem? block_sizes i ≡ some z
    → get_elem? block_sizes j ≡ some w
    → (8 ≤ z) × (w ≡ z * (w / z)) × (2 ≤ w / z)
block_sizes_nested i j {z} {w} lt bound h k = nests_lem z w cell
  where
    row : all_below 9 (nested j) ≡ true
    row = all_below_lem 9 (λ j. all_below 9 (nested j)) j nested_table bound

    cell : nests z w ≡ true
    cell = nested_at j i (omega arith) h k (all_below_lem 9 (nested j) i row (omega arith))

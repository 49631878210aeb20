-- ===== src/Mem/FixedBlock/Bytes.antt =====
-- The abstract view of the allocator: how often each byte is free.
use hootux.Prelude.{
  ℕ, zero, suc, ◌+◌, ◌*◌, ◌<◌, ◌≡◌, some, add64_exact, List, [], ◌∷◌, ltb, leb, ◌&&◌, if◌then◌else◌,
  get_elem?, set, add64, ap, ◌∙◌, arith,
}
use hootux.Mem.FixedBlock.{RawLinkedList, FixedBlockInner, add, add_blocks, block_sizes}

-- 1 if byte `b` lies in the `n` bytes from `a` on.
pub inside : ℕ → ℕ → ℕ → ℕ
inside a n b = if leb a b && ltb b (a + n) then 1 else 0

-- How many of the blocks of `size` bytes cover byte `b`.
abbrev pub cover : ℕ → List ℕ → ℕ → ℕ
cover size [] b = 0
cover size (a ∷ addrs) b = inside a size b + cover size addrs b

abbrev pub covers : List ℕ → List RawLinkedList → ℕ → ℕ
covers [] lists b = 0
covers (size ∷ sizes) [] b = 0
covers (size ∷ sizes) (l ∷ lists) b = cover size l.head b + covers sizes lists b

-- How many free blocks cover byte `b`.
abbrev pub free_at : FixedBlockInner → ℕ → ℕ
free_at s b = covers block_sizes s.list_heads b

pub inside-add : (a n m b : ℕ) → inside a (n + m) b ≡ inside a n b + inside (a + n) m b
unfolding inside
inside-add a n m b = ground arith

pub inside-zero : (a b : ℕ) → inside a 0 b ≡ 0
unfolding inside
inside-zero a b = ground arith

-- Replacing one list changes the sum by that list.
pub covers-set :
    (sizes : List ℕ) (lists : List RawLinkedList) (i : ℕ) (size b : ℕ) (old l : RawLinkedList)
    → get_elem? sizes i ≡ some size
    → get_elem? lists i ≡ some old
    → covers sizes (set lists i l) b + cover size old.head b
      ≡ covers sizes lists b + cover size l.head b
covers-set [] lists i size b old l h k = absurd (ground arith)
covers-set (z ∷ sizes) [] i size b old l h k = absurd (ground arith)
covers-set (z ∷ sizes) (x ∷ lists) zero size b old l h k = ground arith
covers-set (z ∷ sizes) (x ∷ lists) (suc i) size b old l h k =
    omega (arith, covers-set sizes lists i size b old l h k)

-- Splitting a region of `n` blocks puts exactly its bytes on the list.
pub cover-add_blocks :
    (l : RawLinkedList) (region size n block b : ℕ)
    → region + size * (block + n) < 18446744073709551616
    → cover size (add_blocks l region size n block).head b
      ≡ cover size l.head b + inside (region + size * block) (size * n) b
unfolding add_blocks add
cover-add_blocks l region size zero block b h = omega (arith, nothing)
  where
    nothing : inside (region + size * block) (size * 0) b ≡ 0
    nothing =
        ap (λ k. inside (region + size * block) k b) (omega arith)
        ∙ inside-zero (region + size * block) b
cover-add_blocks l region size (suc n) block b h =
    let a = region + size * block in
    let first : inside (add64 region (size * block)) size b ≡ inside a size b =
      ap (λ k. inside k size b) (add64_exact region (size * block) (omega arith)) in
    let there : inside (region + size * (block + 1)) (size * n) b ≡ inside (a + size) (size * n) b =
      ap (λ k. inside k (size * n) b) (omega arith) in
    let here : inside a (size * suc n) b ≡ inside a (size + size * n) b =
      ap (λ k. inside a k b) (omega arith) in
    omega (
      arith,
      cover-add_blocks (add l (add64 region (size * block))) region size n (block + 1) b
          (omega arith),
      first,
      here,
      there,
      inside-add a size (size * n) b,
    )

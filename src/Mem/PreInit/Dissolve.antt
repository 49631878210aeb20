-- ===== src/Mem/PreInit/Dissolve.antt =====
-- `dissolve` and the inner loop of `drain` of buddy_frame_alloc.rs: a region becomes blocks that the
-- buddy allocator takes.
use hootux.Prelude.{
  ℕ, zero, suc, ◌+◌, ◌-◌, ◌%◌, ◌^◌, ◌<◌, ◌≤◌, ◌≡◌, refl, false, ◌==◌, ◌>>=◌, some, List, [], ◌∷◌,
  sub64, sub64_exact, arith,
}
use hootux.Mem.PreInit.{PhysAddrOps, IsPhysAddr, block_size, dissolve, dissolve_all}
use hootux.Mem.PreInit.Bits.{block_size_lem, pow_pos}

-- The blocks stand one after the other from `addr` on, over `len` bytes in all; each has a power of
-- two of bytes and starts at a multiple of it.
abbrev pub Tiles : ℕ → ℕ → List (ℕ × ℕ) → Type 0
Tiles addr len [] = len ≡ 0
Tiles addr len ((base, size) ∷ blocks) =
    (base ≡ addr)
    × ((k : ℕ) × (size ≡ 2 ^ k))
    × (size ≤ len)
    × (base % size ≡ 0)
    × Tiles (addr + size) (len - size) blocks

module _ (phys : PhysAddrOps) (law : IsPhysAddr phys) where
  dissolve_block :
      (addr len size : ℕ)
      → 0 < len
      → addr + len < 2 ^ 52
      → block_size addr len ≡ size
      → size ≤ len
      → dissolve phys addr len ≡ some (some (addr, size), addr + size, len - size)
  unfolding dissolve
  dissolve_block addr len size pos fits e le =
      let a : phys.plus addr size ≡ some (addr + size) = law.plus_fits addr size (omega arith) in
      let b : sub64 len size ≡ len - size = sub64_exact len size le (omega arith) in
      let c : (len == 0) ≡ false = ground arith in rw (e, c, a, b) refl

  dissolve_all_cons :
      (fuel addr len addr' len' : ℕ) (block : ℕ × ℕ) (blocks : List (ℕ × ℕ))
      → dissolve phys addr len ≡ some (some block, addr', len')
      → dissolve_all phys fuel addr' len' ≡ some blocks
      → dissolve_all phys (suc fuel) addr len ≡ some (block ∷ blocks)
  unfolding dissolve_all
  dissolve_all_cons fuel addr len addr' len' block blocks e rest =
      rw (e, dissolve_all, ◌>>=◌, rest) refl

  -- With fuel above the length of a region that ends below 2 ^ 52 the loop ends without a panic, and its
  -- blocks tile the region.
  pub dissolve_all_lem :
      (fuel addr len : ℕ)
      → len < fuel
      → addr + len < 2 ^ 52
      → (blocks : List (ℕ × ℕ)) × (dissolve_all phys fuel addr len ≡ some blocks)
        × Tiles addr len blocks
  unfolding dissolve_all dissolve
  dissolve_all_lem zero addr len h fits = absurd (omega arith)
  dissolve_all_lem (suc fuel) addr zero h fits = ([], refl, refl)
  dissolve_all_lem (suc fuel) addr (suc len) h fits =
      let (k, e, le, aligned) = block_size_lem addr (suc len) (omega arith) (omega arith) in
      let size = 2 ^ k in
      let pos = pow_pos k in
      let (blocks, runs, tiles) =
        dissolve_all_lem fuel (addr + size) (suc len - size) (omega arith) (omega arith) in
      (
        (addr, size) ∷ blocks,
        dissolve_all_cons fuel addr (suc len) (addr + size) (suc len - size) (addr, size) blocks
            (dissolve_block addr (suc len) size (omega arith) fits e le) runs,
        (refl, (k, refl), le, aligned, tiles),
      )

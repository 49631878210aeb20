-- ===== src/Mem/FixedBlock/Release.antt =====
-- `force_dealloc` of fixed_size_block.rs: which bytes it frees.
use native.Mathlib.Nat.{dvd_of_mod-eq-zero, mod-eq-zero_of_dvd, dvd_trans}
use hootux.Prelude.{
  ℕ, suc, ◌+◌, ◌-◌, ◌%◌, ◌<◌, ◌≤◌, ◌≡◌, refl, ap, true, false, some, List, [], ◌∷◌, arith, ◌==◌,
  inl, inr, Bool-cases, ◌>>=◌,
}
use hootux.Mem.FixedBlock.{
  Layout, FixedBlockInner, block_sizes_rev, get_block_index, release_while, release_sizes,
  force_dealloc,
}
use hootux.Mem.FixedBlock.Bytes.{free_at, inside, inside-zero}
use hootux.Mem.FixedBlock.Shape.{IsValid}
use hootux.Mem.FixedBlock.ReleaseLoop.{IsBlockSize, release_while_lem}

-- The sizes left, where all bytes up to a multiple of `unit` are freed: each divides the one before,
-- and the last is 8.
abbrev pub Chain : ℕ → List ℕ → Type 0
Chain unit [] = unit ≡ 8
Chain unit (num ∷ sizes) = (unit % num ≡ 0) × IsBlockSize num × Chain num sizes

-- With no size left, less than the last is left over.
abbrev pub Ends : ℕ → ℕ → ℕ → List ℕ → Type 0
Ends size complete unit [] = size < complete + unit
Ends size complete unit (num ∷ sizes) = Unit {0}

mod-mod_zero : (a m n : ℕ) → a % m ≡ 0 → m % n ≡ 0 → a % n ≡ 0
mod-mod_zero a m n h k =
    mod-eq-zero_of_dvd n (dvd_trans n (dvd_of_mod-eq-zero n k) (dvd_of_mod-eq-zero m h))

Chain-eight : (unit a : ℕ) (sizes : List ℕ) → Chain unit sizes → a % unit ≡ 0 → a % 8 ≡ 0
Chain-eight unit a [] h e = rw h at e
Chain-eight unit a (num ∷ sizes) h e = Chain-eight num a sizes h.2 (mod-mod_zero a unit num e h.0)

Ends-next : (size c num : ℕ) (sizes : List ℕ) → size < c + num → Ends size c num sizes
Ends-next size c num [] h = h
Ends-next size c num (m ∷ sizes) h = tt

pub release_sizes_full :
    (num addr size complete c : ℕ) (sizes : List ℕ) (s s' : FixedBlockInner)
    → release_while (suc size) addr size num complete s ≡ some (c, s')
    → (c == size) ≡ true
    → release_sizes (num ∷ sizes) addr size complete s ≡ some s'
unfolding release_sizes
release_sizes_full num addr size complete c sizes s s' runs full = rw (runs, ◌>>=◌, full)

release_sizes_more :
    (num addr size complete c : ℕ) (sizes : List ℕ) (s s' : FixedBlockInner) {t : FixedBlockInner}
    → release_while (suc size) addr size num complete s ≡ some (c, s')
    → (c == size) ≡ false
    → release_sizes sizes addr size c s' ≡ some t
    → release_sizes (num ∷ sizes) addr size complete s ≡ some t
unfolding release_sizes
release_sizes_more num addr size complete c sizes s s' runs more e = rw (runs, ◌>>=◌, more) e

release_sizes_lem :
    (sizes : List ℕ) (unit addr size complete : ℕ) (s : FixedBlockInner)
    → Chain unit sizes
    → Ends size complete unit sizes
    → IsValid s
    → 0 < addr
    → addr + size < 18446744073709551616
    → complete ≤ size
    → addr % unit ≡ 0
    → complete % unit ≡ 0
    → (c : ℕ) × (s' : FixedBlockInner) × (release_sizes sizes addr size complete s ≡ some s')
      × IsValid s'
      × (c ≤ size)
      × (size < c + 8)
      × (c % 8 ≡ 0)
      × ((b : ℕ) → free_at s' b + inside addr complete b ≡ free_at s b + inside addr c b)
unfolding release_sizes
release_sizes_lem [] unit addr size complete s ch en v pos fits le a0 c0 =
    (complete, s, refl, v, le, omega arith, rw ch at c0, λ b. refl)
release_sizes_lem (num ∷ sizes) unit addr size complete s ch en v pos fits le a0 c0 =
    let an = mod-mod_zero addr unit num a0 ch.0 in
    let (c1, s1, runs, v1, le1, rest, c1z, bytes1) =
      release_while_lem (suc size) addr size num complete s ch.1 v (omega arith) pos fits le an
        (mod-mod_zero complete unit num c0 ch.0) in
    elim (Bool-cases (c1 == size)) [
      | inl full ↦ (
        c1,
        s1,
        release_sizes_full num addr size complete c1 sizes s s1 runs full,
        v1,
        le1,
        ground arith,
        Chain-eight num c1 sizes ch.2 c1z,
        bytes1,
      )
      | inr more ↦
          let (c2, s2, runs2, v2, le2, rest2, c2z, bytes2) =
            release_sizes_lem sizes num addr size c1 s1 ch.2 (Ends-next size c1 num sizes rest) v1
              pos fits le1 an c1z in
          (
            c2,
            s2,
            release_sizes_more num addr size complete c1 sizes s s1 runs more runs2,
            v2,
            le2,
            rest2,
            c2z,
            λ b. omega (arith, bytes1 b, bytes2 b),
          )
    ]

block_sizes_Chain : Chain 2048 block_sizes_rev
unfolding get_block_index
block_sizes_Chain = (
  refl,
  (8, refl, omega arith, refl, omega arith),
  (
    refl,
    (7, refl, omega arith, refl, omega arith),
    (
      refl,
      (6, refl, omega arith, refl, omega arith),
      (
        refl,
        (5, refl, omega arith, refl, omega arith),
        (
          refl,
          (4, refl, omega arith, refl, omega arith),
          (
            refl,
            (3, refl, omega arith, refl, omega arith),
            (
              refl,
              (2, refl, omega arith, refl, omega arith),
              (
                refl,
                (1, refl, omega arith, refl, omega arith),
                (refl, (0, refl, omega arith, refl, omega arith), refl),
              ),
            ),
          ),
        ),
      ),
    ),
  ),
)

freed_all :
    (s s' : FixedBlockInner) (ptr c size b : ℕ)
    → c ≤ size
    → size < c + 8
    → c % 8 ≡ 0
    → free_at s' b + inside ptr 0 b ≡ free_at s b + inside ptr c b
    → free_at s' b ≡ free_at s b + inside ptr (size - size % 8) b
freed_all s s' ptr c size b le rest c8 e =
    let same : inside ptr c b ≡ inside ptr (size - size % 8) b =
      ap (λ k. inside ptr k b) (omega arith) in
    omega (arith, e, same, inside-zero ptr b)

-- `force_dealloc` of a region that starts at a multiple of the largest block returns, keeps the
-- invariant, and frees the bytes of the region up to the last multiple of 8, each once.
pub force_dealloc_lem :
    (s : FixedBlockInner) (ptr : ℕ) (layout : Layout)
    → IsValid s
    → 0 < ptr
    → ptr + layout.size < 18446744073709551616
    → ptr % 2048 ≡ 0
    → (s' : FixedBlockInner) × (force_dealloc s ptr layout ≡ some s')
      × IsValid s'
      × ((b : ℕ) → free_at s' b ≡ free_at s b + inside ptr (layout.size - layout.size % 8) b)
unfolding force_dealloc
force_dealloc_lem s ptr layout v pos fits aligned =
    let (c, s', runs, v', le, rest, c8, bytes) =
      release_sizes_lem block_sizes_rev 2048 ptr layout.size 0 s block_sizes_Chain tt v pos fits
        (omega arith) aligned (omega arith) in
    (s', rw runs (ground arith), v', λ b. freed_all s s' ptr c layout.size b le rest c8 (bytes b))

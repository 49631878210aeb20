-- ===== src/Mem/FixedBlock/ReleaseLoop.antt =====
-- The inner loop of `force_dealloc` of fixed_size_block.rs.
use native.Mathlib.Nat.{add-mod, add-mod_right, zero-mod}
use hootux.Prelude.{
  ℕ, zero, suc, ◌+◌, ◌-◌, ◌%◌, ◌<◌, ◌≤◌, ◌≡◌, ◌∙◌, refl, ap, true, false, some, get_elem?, arith,
  leb, ◌==◌, add64, sub64, add64_exact, inl, inr, Bool-cases,
}
use hootux.Mem.FixedBlock.{FixedBlockInner, block_sizes, get_block_index, deallocate, release_while}
use hootux.Mem.FixedBlock.Bytes.{free_at, inside, inside-add}
use hootux.Mem.FixedBlock.Shape.{IsValid}
use hootux.Mem.FixedBlock.Deallocate.{deallocate_lem}

-- The size of a list: its place, and the layout that finds it.
abbrev pub IsBlockSize : ℕ → Type 0
IsBlockSize num =
    (i : ℕ) × (get_elem? block_sizes i ≡ some num)
    × (i < 9)
    × (get_block_index (record { size = num; align = 1 }) ≡ some i)
    × (0 < num)

mod-add_zero : (a b m : ℕ) → a % m ≡ 0 → b % m ≡ 0 → (a + b) % m ≡ 0
mod-add_zero a b m h k = add-mod a b m ∙ rw (h, k) (zero-mod m)

pub release_while_done :
    (fuel addr size num complete : ℕ) (s : FixedBlockInner)
    → leb num (sub64 size complete) ≡ false
    → release_while (suc fuel) addr size num complete s ≡ some (complete, s)
unfolding release_while
release_while_done fuel addr size num complete s h = rw (h, release_while)

pub release_while_more :
    (fuel addr size num complete next : ℕ) (s s' : FixedBlockInner) {r : ℕ × FixedBlockInner}
    → leb num (sub64 size complete) ≡ true
    → (add64 addr complete == 0) ≡ false
    → deallocate s (add64 addr complete) (record { size = num; align = 1 }) ≡ some s'
    → add64 complete num ≡ next
    → release_while fuel addr size num next s' ≡ some r
    → release_while (suc fuel) addr size num complete s ≡ some r
unfolding release_while
release_while_more fuel addr size num complete next s s' h z d on e =
    rw (h, release_while, z, d, on) e

-- The inner loop frees blocks of `num` bytes until fewer are left; with fuel above the rest it ends.
pub release_while_lem :
    (fuel addr size num complete : ℕ) (s : FixedBlockInner)
    → IsBlockSize num
    → IsValid s
    → size < fuel + complete
    → 0 < addr
    → addr + size < 18446744073709551616
    → complete ≤ size
    → addr % num ≡ 0
    → complete % num ≡ 0
    → (c : ℕ) × (s' : FixedBlockInner) × (release_while fuel addr size num complete s
        ≡ some (c, s'))
      × IsValid s'
      × (c ≤ size)
      × (size < c + num)
      × (c % num ≡ 0)
      × ((b : ℕ) → free_at s' b + inside addr complete b ≡ free_at s b + inside addr c b)
release_while_lem zero addr size num complete s k v f pos fits le a0 c0 = absurd (omega arith)
release_while_lem (suc fuel) addr size num complete s k v f pos fits le a0 c0 =
    elim (Bool-cases (leb num (sub64 size complete))) [
      | inr done ↦ (
        complete,
        s,
        release_while_done fuel addr size num complete s done,
        v,
        le,
        ground arith,
        c0,
        λ b. refl,
      )
      | inl more ↦
          let room : num ≤ size - complete = ground arith in
          let at : add64 addr complete ≡ addr + complete =
            add64_exact addr complete (omega arith) in
          let on : add64 complete num ≡ complete + num = add64_exact complete num (omega arith) in
          let (i, at_z, bound, found, sized) = k in
          let (s1, freed, v1, bytes1) =
            deallocate_lem s (add64 addr complete) i num (record { size = num; align = 1 }) v
              (omega arith) found at_z bound (omega arith) (omega arith)
              (rw at (mod-add_zero addr complete num a0 c0)) in
          let (c, s2, runs, v2, le2, rest, c2, bytes2) =
            release_while_lem fuel addr size num (complete + num) s1 k v1 (omega arith) pos fits
              (omega arith) a0 (add-mod_right complete num ∙ c0) in
          (
            c,
            s2,
            release_while_more fuel addr size num complete (complete + num) s s1 {r = (c, s2)} more
                (ground arith) freed on runs,
            v2,
            le2,
            rest,
            c2,
            λ b.
                let e : inside (add64 addr complete) num b ≡ inside (addr + complete) num b =
                  ap (λ k. inside k num b) at in
                omega (arith, bytes1 b, bytes2 b, e, inside-add addr complete num b),
          )
    ]

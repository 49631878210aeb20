-- ===== src/Elf/Load.antt =====
-- lib/elfload/src/load.rs: the addresses that the segments of a file take.
pub mod Range
mod Tests
use mathlib.Core.Path.{subst}
use hootux.Prelude.{
  ℕ, zero, suc, ◌+◌, ◌-◌, ◌*◌, ◌^◌, ◌<◌, ◌≤◌, ◌≡◌, ◌≢◌, ◌⊎◌, inl, inr, refl, sym, ap, ◌∙◌, Bool,
  true, false, Bool-cases, List, [], ◌∷◌, ltb, leb, ◌==◌, if◌then◌else◌, max, min, get_elem?, some,
  eq_of_some, add64, arith, ==→eq, ==→ne,
}

-- What `elf::segment::ProgramHeader` holds, as far as it is read.
pub record ProgramHeader : Type 0 where
  pub p_vaddr : ℕ
  pub p_memsz : ℕ

-- a round of the loop of `load_range`, on the range so far
unfoldable pub widen : ℕ × ℕ → ProgramHeader → ℕ × ℕ
widen (low, high) i =
    if i.p_memsz == 0
    then (low, high)
    else (min i.p_vaddr low, max (add64 i.p_vaddr i.p_memsz) high)

unfoldable pub widen_all : ℕ × ℕ → List ProgramHeader → ℕ × ℕ
unfolding widen
widen_all r [] = r
widen_all r (i ∷ segments) = widen_all (widen r i) segments

-- `load_range`
unfoldable pub load_range : List ProgramHeader → ℕ × ℕ
unfolding widen_all
load_range segments = widen_all (2 ^ 64 - 1, 0) segments

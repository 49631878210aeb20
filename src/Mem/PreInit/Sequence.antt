-- ===== src/Mem/PreInit/Sequence.antt =====
-- A run of calls of `IterSegment::alloc` in buddy_frame_alloc.rs.
use hootux.Prelude.{
  ℕ, zero, suc, ◌+◌, ◌*◌, ◌≤◌, ◌≡◌, ◌∙◌, ◌^◌, ◌==◌, ap, refl, false, sub64, ◌>>=◌, Option, none,
  some, List, [], ◌∷◌, arith,
}
use hootux.Mem.PreInit.{
  PhysAddrOps, IsPhysAddr, MapRegion, IterSegment, take_frame, alloc, alloc_from,
}

-- The answers of `n` calls in a row, and the segment after them; `none` is a panic.
pub alloc_times :
    PhysAddrOps → ℕ → IterSegment → List MapRegion → Option (List (Option ℕ) × IterSegment)
alloc_times phys zero s map = some ([], s)
alloc_times phys (suc n) s map = alloc phys s map >>= λ next.
    alloc_times phys n next.1 map >>= λ rest. some (next.0 ∷ rest.0, rest.1)

-- `n` frames in a row.
pub frames : ℕ → ℕ → List (Option ℕ)
frames rc zero = []
frames rc (suc n) = some rc ∷ frames (rc + 4096) n

module _ (phys : PhysAddrOps) where
  alloc_current :
      (s : IterSegment) (map : List MapRegion) (rc : ℕ)
      → s.current ≡ some rc
      → alloc phys s map ≡ take_frame phys s (some rc)
  unfolding alloc
  alloc_current s map rc e = ap (alloc_from phys s map) e

  alloc_times-suc :
      (n : ℕ) (s s' s'' : IterSegment) (map : List MapRegion) (a : Option ℕ) (as_ : List (Option ℕ))
      → alloc phys s map ≡ some (a, s')
      → alloc_times phys n s' map ≡ some (as_, s'')
      → alloc_times phys (suc n) s map ≡ some (a ∷ as_, s'')
  unfolding alloc_times
  alloc_times-suc n s s' s'' map a as_ e h = rw (e, ◌>>=◌, h) refl

  take_last :
      (s : IterSegment) (rc : ℕ)
      → s.len ≡ 4096
      → take_frame phys s (some rc) ≡ some (some rc, record s { current = none; len = 0 })
  unfolding take_frame
  take_last s rc len = ground arith

  take_more :
      (s : IterSegment) (rc n : ℕ)
      → IsPhysAddr phys
      → s.len ≡ 4096 * suc (suc n)
      → rc + s.len ≤ 2 ^ 52
      → take_frame phys s (some rc)
        ≡ some (some rc, record s { current = some (rc + 4096); len = 4096 * suc n })
  unfolding take_frame
  take_more s rc n law len fits =
      let next : phys.plus rc 4096 ≡ some (rc + 4096) = law.plus_fits rc 4096 (omega arith) in
      let left : sub64 s.len 4096 ≡ 4096 * suc n = omega arith in
      let more : (4096 * suc n == 0) ≡ false = ground arith in rw (left, more, next) refl

  alloc_last :
      (s : IterSegment) (map : List MapRegion) (rc : ℕ)
      → s.current ≡ some rc
      → s.len ≡ 4096
      → alloc phys s map ≡ some (some rc, record s { current = none; len = 0 })
  alloc_last s map rc e len = alloc_current s map rc e ∙ take_last s rc len

  alloc_more :
      (s : IterSegment) (map : List MapRegion) (rc n : ℕ)
      → IsPhysAddr phys
      → s.current ≡ some rc
      → s.len ≡ 4096 * suc (suc n)
      → rc + s.len ≤ 2 ^ 52
      → alloc phys s map
        ≡ some (some rc, record s { current = some (rc + 4096); len = 4096 * suc n })
  alloc_more s map rc n law e len fits = alloc_current s map rc e ∙ take_more s rc n law len fits

  -- A segment of whole frames that ends at 2 ^ 52 at most hands out each of its frames once, in order, without
  -- a panic, and is then used up.
  pub alloc_times_lem :
      (n : ℕ) (s : IterSegment) (map : List MapRegion) (rc : ℕ)
      → IsPhysAddr phys
      → s.current ≡ some rc
      → s.len ≡ 4096 * suc n
      → rc + s.len ≤ 2 ^ 52
      → alloc_times phys (suc n) s map
        ≡ some (frames rc (suc n), record s { current = none; len = 0 })
  unfolding alloc_times frames
  alloc_times_lem zero s map rc law e len fits =
      let last = alloc_last s map rc e (omega arith) in rw (last, ◌>>=◌) refl
  alloc_times_lem (suc n) s map rc law e len fits =
      let s' : IterSegment = record s { current = some (rc + 4096); len = 4096 * suc n } in
      let ih = alloc_times_lem n s' map (rc + 4096) law refl refl (omega arith) in
      alloc_times-suc (suc n) s s' (record s { current = none; len = 0 }) map (some rc)
        (frames (rc + 4096) (suc n)) (alloc_more s map rc n law e len fits) ih

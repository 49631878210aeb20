-- ===== src/Mem/PreInit/Frames.antt =====
-- `advance` and `alloc` of `IterSegment` in buddy_frame_alloc.rs: which frames a segment hands out.
use mathlib.Core.Path.{subst, ap₂}
use hootux.Prelude.{
  ℕ, zero, suc, ◌+◌, ◌-◌, ◌<◌, ◌≡◌, ◌∙◌, ap, refl, true, false, none, some, List, ◌>>=◌, ◌^◌, [],
  ◌∷◌, ltb, ◌&&◌, Bool-cases, inl, inr, ◌⊎◌, sub64, sub64_exact, get_elem?, eq_of_some, arith,
}
use hootux.Mem.PreInit.{
  MemRegion, mem16, mem32, mem64, MapRegion, IterSegment, new, upper_limit, clip_start, clip_end,
  PhysAddrOps, IsPhysAddr, lower_limit, stand_on, advance_loop, advance, skip, take_frame, alloc,
}

-- A map entry that the segment can use.
abbrev pub IsUseful : MemRegion → MapRegion → Type 0
IsUseful r e = (e.usable ≡ true) × (clip_start r e < clip_end r e)

abbrev pub IsUseless : MemRegion → MapRegion → Type 0
IsUseless r e = (e.usable && ltb (clip_start r e) (clip_end r e)) ≡ false

-- Every entry starts at a physical address of 52 bits.
pub data Addressable : List MapRegion → Type 0 where
  no_entry : Addressable []
  entry_on :
      {e : MapRegion} {map : List MapRegion}
      → e.phys_addr < 2 ^ 52
      → Addressable map
      → Addressable (e ∷ map)

Addressable-skip : (n : ℕ) (map : List MapRegion) → Addressable map → Addressable (skip n map)
unfolding skip
Addressable-skip zero map a = a
Addressable-skip (suc n) [] a = no_entry
Addressable-skip (suc n) (e ∷ map) (entry_on h a) = Addressable-skip n map a

clip_start-lt : (r : MemRegion) (e : MapRegion) → e.phys_addr < 2 ^ 52 → clip_start r e < 2 ^ 52
unfolding clip_start lower_limit
clip_start-lt mem16 e h = ground arith
clip_start-lt mem32 e h = ground arith
clip_start-lt mem64 e h = ground arith

-- What `advance_loop` has done: it stands on the first useful entry of the list, or there is none.
abbrev pub Advanced : IterSegment → List MapRegion → ℕ → IterSegment → Type 0
Advanced s map i s' =
    ((k : ℕ) × (e : MapRegion) × (get_elem? map k ≡ some e)
      × IsUseful s.mem_region e
      × ((j : ℕ) (e' : MapRegion) → j < k → get_elem? map j ≡ some e' → IsUseless s.mem_region e')
      × (s' ≡ record s {
        current = some (clip_start s.mem_region e);
        len = clip_end s.mem_region e - clip_start s.mem_region e;
        seg_num = i + k;
      }))
    ⊎ (((j : ℕ) (e' : MapRegion) → get_elem? map j ≡ some e' → IsUseless s.mem_region e')
        × (s' ≡ s))

clip_end-lt : (r : MemRegion) (e : MapRegion) → clip_end r e < 18446744073709551616
unfolding clip_end upper_limit
clip_end-lt mem16 e = omega arith
clip_end-lt mem32 e = omega arith
clip_end-lt mem64 e = omega arith

advance_loop_hit :
    (phys : PhysAddrOps) (s : IterSegment) (e : MapRegion) (map : List MapRegion) (i : ℕ)
    → IsPhysAddr phys
    → s.current ≡ none
    → clip_start s.mem_region e < 2 ^ 52
    → (e.usable && ltb (clip_start s.mem_region e) (clip_end s.mem_region e)) ≡ true
    → advance_loop phys s (e ∷ map) i
      ≡ some (record s {
        current = some (clip_start s.mem_region e);
        len = sub64 (clip_end s.mem_region e) (clip_start s.mem_region e);
        seg_num = i;
      })
unfolding advance_loop stand_on
advance_loop_hit phys s e map i law idle small t =
    let at = law.new_fits (clip_start s.mem_region e) small in rw (t, at, ◌>>=◌, idle) refl

advance_loop_miss :
    (phys : PhysAddrOps) (s : IterSegment) (e : MapRegion) (map : List MapRegion) (i : ℕ)
    → IsUseless s.mem_region e
    → advance_loop phys s (e ∷ map) i ≡ advance_loop phys s map (i + 1)
unfolding advance_loop
advance_loop_miss phys s e map i f = rw f

abbrev found_at : IterSegment → MapRegion → ℕ → ℕ → IterSegment
found_at s e len n = record s { current = some (clip_start s.mem_region e); len = len; seg_num = n }

-- One useless entry more in front.
Advanced-miss :
    (s s' : IterSegment) (e : MapRegion) (map : List MapRegion) (i : ℕ)
    → IsUseless s.mem_region e
    → Advanced s map (i + 1) s'
    → Advanced s (e ∷ map) i s'
Advanced-miss s s' e map i f (inr (none_left, same)) = inr (all, same)
  where
    all : (j : ℕ) (e' : MapRegion) → get_elem? (e ∷ map) j ≡ some e' → IsUseless s.mem_region e'
    all zero e' h = let e'' : e ≡ e' = eq_of_some h in subst (IsUseless s.mem_region) e'' f
    all (suc j) e' h = none_left j e' h
Advanced-miss s s' e map i f (inl (k, d, at, useful, before, same)) = inl (
  suc k,
  d,
  at,
  useful,
  all,
  same ∙ ap (found_at s d (clip_end s.mem_region d - clip_start s.mem_region d)) (omega arith),
)
  where
    all :
        (j : ℕ) (e' : MapRegion)
        → j < suc k
        → get_elem? (e ∷ map) j ≡ some e'
        → IsUseless s.mem_region e'
    all zero e' lt h = let e'' : e ≡ e' = eq_of_some h in subst (IsUseless s.mem_region) e'' f
    all (suc j) e' lt h = before j e' (omega arith) h

advance_loop_lem :
    (phys : PhysAddrOps) (s : IterSegment) (map : List MapRegion) (i : ℕ)
    → IsPhysAddr phys
    → s.current ≡ none
    → Addressable map
    → (s' : IterSegment) × (advance_loop phys s map i ≡ some s') × Advanced s map i s'
advance_loop_lem phys s [] i law idle a =
    (s, unfold advance_loop in refl, inr (λ j e' h. absurd (ground arith), refl))
advance_loop_lem phys s (e ∷ map) i law idle (entry_on small a) =
    elim (Bool-cases (e.usable && ltb (clip_start s.mem_region e) (clip_end s.mem_region e))) [
      | inl t ↦
          let lt : clip_start s.mem_region e < clip_end s.mem_region e = ground arith in
          let len =
            sub64_exact (clip_end s.mem_region e) (clip_start s.mem_region e) (omega arith)
              (clip_end-lt s.mem_region e) in
          let at = clip_start-lt s.mem_region e small in
          (
            found_at s e (clip_end s.mem_region e - clip_start s.mem_region e) (i + 0),
            advance_loop_hit phys s e map i law idle at t
                ∙ ap some (ap₂ (found_at s e) len (omega arith)),
            inl (0, e, refl, (ground arith, lt), λ j e' h. absurd (omega arith), refl),
          )
      | inr f ↦
          let (s', runs, done) = advance_loop_lem phys s map (i + 1) law idle a in
          (s', advance_loop_miss phys s e map i f ∙ runs, Advanced-miss s s' e map i f done)
    ]

-- A segment that stands nowhere, over a map whose entries start below 2 ^ 52: `advance` does not panic, and
-- stands on the first useful entry behind the one that it stood on last, clipped to the segment's range, with
-- all of it left; where there is none, nothing changes.
pub advance_lem :
    (phys : PhysAddrOps) (s : IterSegment) (map : List MapRegion)
    → IsPhysAddr phys
    → s.current ≡ none
    → Addressable map
    → (s' : IterSegment) × (advance phys s map ≡ some s')
      × Advanced s (skip (s.seg_num + 1) map) (s.seg_num + 1) s'
unfolding advance
advance_lem phys s map law idle a =
    advance_loop_lem phys s (skip (s.seg_num + 1) map) (s.seg_num + 1) law idle
      (Addressable-skip (s.seg_num + 1) map a)

advance_first :
    (phys : PhysAddrOps) (r : MemRegion) (e e' : MapRegion) (map : List MapRegion)
    → advance phys (new r) (e ∷ map) ≡ advance phys (new r) (e' ∷ map)
unfolding advance new skip
advance_first phys r e e' map = refl

-- The first entry of the map has no bearing on what a new segment does: it is never handed out.
pub alloc_first :
    (phys : PhysAddrOps) (r : MemRegion) (e e' : MapRegion) (map : List MapRegion)
    → alloc phys (new r) (e ∷ map) ≡ alloc phys (new r) (e' ∷ map)
unfolding alloc new
alloc_first phys r e e' map =
    ap (λ o. o >>= λ s. take_frame phys s s.current) (unfold new in advance_first phys r e e' map)

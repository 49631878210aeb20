-- ===== src/Mem/Dma/Regions.antt =====
-- kernel/src/mem/dma.rs: the regions that `PhysicalRegionDescriber` yields for a buffer of whole pages.
use mathlib.Core.Path.{subst}
use hootux.Mem.Dma.{PhysicalRegionDescription, grow, first_diff, next, collect, prd}
use hootux.Mem.Dma.Frames.{
  frames_from, frames_of, run, run_le, frames_from-run, Mapped, Mapped-tail, chunk_past, chunk_at,
  grow_lem,
}
use hootux.Prelude.{
  ℕ, zero, suc, ◌+◌, ◌*◌, ◌/◌, ◌%◌, ◌^◌, ◌<◌, ◌≤◌, ◌≡◌, refl, ap, ◌∙◌, Option, none, some, List, [],
  ◌∷◌, ◌++◌, length, drop, arith,
}

-- every region has whole pages
pub data WholePages : List PhysicalRegionDescription → Type 0 where
  no_more : WholePages []
  whole_page :
      {r : PhysicalRegionDescription} {rs : List PhysicalRegionDescription}
      → r.addr % 4096 ≡ 0
      → r.size % 4096 ≡ 0
      → 0 < r.size
      → r.addr + r.size < 2 ^ 64
      → WholePages rs
      → WholePages (r ∷ rs)

length-drop : (n : ℕ) (qs : List ℕ) → length (drop n qs) ≤ length qs
length-drop zero qs = omega arith
length-drop (suc n) [] = omega arith
length-drop (suc n) (q ∷ qs) = omega (arith, length-drop n qs)

module _ (translate : ℕ → Option ℕ) (len : ℕ) where
  Mapped-drop :
      (n j : ℕ) (qs : List ℕ)
      → n ≤ length qs
      → Mapped translate len j qs
      → Mapped translate len (j + n) (drop n qs)
  Mapped-drop zero j qs h m = subst (λ k. Mapped translate len k qs) {x = j} (omega arith) m
  Mapped-drop (suc n) j [] h m = absurd (omega arith)
  Mapped-drop (suc n) j (q ∷ qs) h m =
      subst (λ k. Mapped translate len k (drop n qs)) {x = j + 1 + n} (omega arith)
        (Mapped-drop n (j + 1) qs (omega arith) (Mapped-tail translate len j q qs m))

  next_end :
      (j : ℕ)
      → len ≡ 4096 * j
      → next translate (record { len = len; next_index = 4096 * j })
        ≡ some (none, record { len = len; next_index = 4096 * j })
  unfolding next
  next_end j h = rw (next, chunk_past translate len j h) refl

  first : (p : ℕ) → first_diff (4096 * p) len ≡ 4096
  unfolding first_diff
  first p = ground arith

  next_region :
      (j p : ℕ) (qs : List ℕ)
      → Mapped translate len j (p ∷ qs)
      → next translate (record { len = len; next_index = 4096 * j })
        ≡ some (
          some (record { addr = 4096 * p; size = 4096 * (1 + run (p + 1) qs) }),
          record { len = len; next_index = 4096 * (j + suc (run (p + 1) qs)) },
        )
  unfolding next
  next_region j p qs m =
      rw (next, chunk_at translate len j p qs m, size)
        (ap
          (λ n. some (
            some (record { addr = 4096 * p; size = 4096 * (1 + run (p + 1) qs) }),
            record { len = len; next_index = n },
          ))
          {x = 4096 * j + 4096 * (1 + run (p + 1) qs)} (omega arith))
    where
      size :
          grow (len + 1) translate len (4096 * j) (4096 * p) (first_diff (4096 * p) len)
          ≡ some (4096 * (1 + run (p + 1) qs))
      size =
          ap (grow (len + 1) translate len (4096 * j) (4096 * p)) {y = 4096 * 1} (first p)
          ∙ grow_lem translate len (len + 1) j 1 p qs (omega (arith, m.whole))
              (omega (arith, m.small 0 p refl)) (Mapped-tail translate len j p qs m)

  pub collect_from :
      (fuel j : ℕ) (frames : List ℕ)
      → length frames < fuel
      → Mapped translate len j frames
      → (rs : List PhysicalRegionDescription) × (collect fuel translate
            (record { len = len; next_index = 4096 * j })
          ≡ some rs)
        × (frames_of rs ≡ frames)
        × WholePages rs
  unfolding collect frames_of frames_from
  collect_from zero j frames h m = absurd (omega arith)
  collect_from (suc fuel) j [] h m =
      ([], rw (collect, next_end j (omega (arith, m.whole))) refl, refl, no_more)
  collect_from (suc fuel) j (p ∷ qs) h m =
      let n = run (p + 1) qs in
      let (rs, eq, same, whole) =
        collect_from fuel (j + suc n) (drop n qs) (omega (arith, length-drop n qs)) (
          subst (λ k. Mapped translate len k (drop n qs)) {x = j + 1 + n} (omega arith)
            (Mapped-drop n (j + 1) qs (run_le (p + 1) qs) (Mapped-tail translate len j p qs m))) in
      (
        record { addr = 4096 * p; size = 4096 * (1 + n) } ∷ rs,
        rw (collect, next_region j p qs m, eq) refl,
        ap (λ a. frames_from a (4096 * p / 4096) ++ frames_of rs) {y = suc n} (omega arith)
            ∙ ap (λ b. frames_from (suc n) b ++ frames_of rs) {y = p} (omega arith)
            ∙ ap (λ fs. p ∷ (frames_from n (p + 1) ++ fs)) same
            ∙ ap (λ fs. p ∷ fs) (frames_from-run (p + 1) qs),
        whole_page (omega arith) (omega arith) (omega arith)
            (omega (arith, m.small 0 p refl, run_le (p + 1) qs)) whole,
      )

-- a buffer of whole pages, that lies in these frames in this order, is described by whole pages in the same
-- order, all of them, in at most as many regions as it has pages
pub collect_regions :
    (translate : ℕ → Option ℕ) (frames : List ℕ)
    → Mapped translate (4096 * length frames) 0 frames
    → (rs : List PhysicalRegionDescription) × (collect
          (length frames + 1)
          translate
          (prd (4096 * length frames))
        ≡ some rs)
      × (frames_of rs ≡ frames)
      × WholePages rs
unfolding prd
collect_regions translate frames m =
    collect_from translate (4096 * length frames) (length frames + 1) 0 frames (omega arith) m

-- ===== src/Mem/FixedBlock/Alloc/Progress.antt =====
-- `extend` and `allocate` of fixed_size_block.rs over any superior allocator that gives a page and
-- may call this one meanwhile.
use hootux.Prelude.{
  ℕ, ◌+◌, ◌%◌, ◌<◌, ◌≤◌, ◌≡◌, ◌≢◌, ◌∙◌, refl, ap, true, false, some, get_elem?, arith, ◌==◌, inl,
  inr, ==→eq, ok, err, Bool-cases, ◌>>=◌, ◌⊎◌,
}
use hootux.Mem.FixedBlock.{
  Layout, RawLinkedList, FixedBlockInner, is_empty, block_sizes, get_block_index, crack,
}
use hootux.Mem.FixedBlock.Alloc.{
  Superior, page_layout, Slice, fetch_block, must_crack, extend, extend_for, cracked_or_extended,
  refill, allocate_at, allocate, count_call,
}
use hootux.Mem.FixedBlock.Bytes.{free_at, inside}
use hootux.Mem.FixedBlock.Shape.{IsValid, Fits-lookup}
use hootux.Mem.FixedBlock.Crack.{IsFilled, crack_lem}
use hootux.Mem.FixedBlock.Deallocate.{get_block_index_lem}
use hootux.Mem.FixedBlock.Release.{force_dealloc_lem}
use hootux.Mem.FixedBlock.Alloc.Page.{clash, page-IsFilled}
use hootux.Mem.FixedBlock.Alloc.Fetch.{fetch_block_lem}

module _ (superior : Superior) (t t1 t2 : Superior.State superior) (s s1 s2 : FixedBlockInner)
    (page : ℕ) (given : Superior.virt_allocate superior page_layout s t ≡ some (page, s1, t1))
    (mapped : Superior.map_page superior page s1 t1 ≡ (s2, t2)) (kept : IsValid s2) where
  open superior use {page_aligned, page_in_range}

  -- `extend` puts the bytes of one page on the lists, once each, and fills the last list.
  pub extend_lem :
      (s' : FixedBlockInner) × (extend superior s t ≡ some (s', t2))
      × IsValid s'
      × IsFilled 8 s'
      × ((b : ℕ) → free_at s' b ≡ free_at s2 b + inside page 4096 b)
  unfolding extend
  extend_lem =
      let aligned = page_aligned page_layout s t given in
      let (pos, fits) = page_in_range page_layout s t given in
      let (s', runs, v', bytes) =
        force_dealloc_lem s2 page page_layout kept pos fits (omega arith) in
      (
        s',
        rw (given, ◌>>=◌, mapped, runs) refl,
        v',
        page-IsFilled s2 page kept pos fits (omega arith) runs,
        bytes,
      )

  -- What a call of `allocate` may have done to the free bytes before it takes its block.
  abbrev pub Grown : FixedBlockInner → Type 0
  Grown s' =
      ((b : ℕ) → free_at s' b ≡ free_at s b)
      ⊎ ((b : ℕ) → free_at s' b ≡ free_at s2 b + inside page 4096 b)

  extend_for_last :
      (u : FixedBlockInner) (index : ℕ)
      → extend superior s t ≡ some (u, t2)
      → (index == 8) ≡ true
      → extend_for superior index s t ≡ some (u, t2)
  unfolding extend_for
  extend_for_last u index runs last = rw (runs, ◌>>=◌, last)

  extend_for_more :
      (u v : FixedBlockInner) (index : ℕ)
      → extend superior s t ≡ some (u, t2)
      → (index == 8) ≡ false
      → crack u index ≡ some (ok tt, v)
      → extend_for superior index s t ≡ some (v, t2)
  unfolding extend_for must_crack
  extend_for_more u v index runs more cracks = rw (runs, ◌>>=◌, more, cracks)

  extend_for_lem :
      (index : ℕ)
      → index < 9
      → (s' : FixedBlockInner) × (extend_for superior index s t ≡ some (s', t2))
        × IsValid s'
        × IsFilled index s'
        × ((b : ℕ) → free_at s' b ≡ free_at s2 b + inside page 4096 b)
  extend_for_lem index bound =
      let (u, runs, v1, (l8, at8, full8), bytes) = extend_lem in
      elim (Bool-cases (index == 8)) [
        | inl last ↦ (
          u,
          extend_for_last u index runs last,
          v1,
          (l8, ap (get_elem? u.list_heads) (==→eq index 8 last) ∙ at8, full8),
          bytes,
        )
        | inr more ↦
            let ((r, w), cracks, v2, same, how) = crack_lem u index v1 bound in
            elim how [
              | inl (e, filled) ↦ (
                w,
                extend_for_more u w index runs more (cracks ∙ ap (λ k. some (k, w)) e),
                v2,
                filled,
                λ b. omega (arith, same b, bytes b),
              )
              | inr (_, _, none_above) ↦ absurd (clash (none_above 8 l8 (ground arith) at8) full8)
            ]
      ]

  refill_full :
      (index : ℕ) (l : RawLinkedList)
      → get_elem? s.list_heads index ≡ some l
      → is_empty l ≡ false
      → refill superior index s t ≡ some (s, t)
  unfolding refill
  refill_full index l at full = rw (at, ◌>>=◌, full)

  refill_cracked :
      (u : FixedBlockInner) (index : ℕ) (l : RawLinkedList)
      → get_elem? s.list_heads index ≡ some l
      → is_empty l ≡ true
      → crack s index ≡ some (ok tt, u)
      → refill superior index s t ≡ some (u, t)
  unfolding refill cracked_or_extended
  refill_cracked u index l at none_left cracks = rw (at, ◌>>=◌, none_left, cracks)

  refill_extended :
      (u : FixedBlockInner) (index : ℕ) (l : RawLinkedList)
      → get_elem? s.list_heads index ≡ some l
      → is_empty l ≡ true
      → crack s index ≡ some (err tt, s)
      → extend_for superior index s t ≡ some (u, t2)
      → refill superior index s t ≡ some (u, t2)
  unfolding refill cracked_or_extended
  refill_extended u index l at none_left cracks runs = rw (at, ◌>>=◌, none_left, cracks) runs

  -- With a page at hand, `refill` leaves a block on the list, and adds nothing itself but that page.
  refill_lem :
      (index : ℕ)
      → IsValid s
      → index < 9
      → (s' : FixedBlockInner) × (u : Superior.State superior) × (refill superior index s t
          ≡ some (s', u))
        × IsValid s'
        × IsFilled index s'
        × Grown s'
  refill_lem index v bound =
      let (_, l, _, at) = Fits-lookup block_sizes s.list_heads index v bound in
      elim (Bool-cases (is_empty l)) [
        | inr full ↦ (s, t, refill_full index l at full, v, (l, at, full), inl (λ b. refl))
        | inl none_left ↦
            let ((r, u), cracks, v1, same, how) = crack_lem s index v bound in
            elim how [
              | inl (e, filled) ↦ (
                u,
                t,
                refill_cracked u index l at none_left (cracks ∙ ap (λ k. some (k, u)) e),
                v1,
                filled,
                inl same,
              )
              | inr (e, back, _) ↦
                  let (w, runs, v2, filled, bytes) = extend_for_lem index bound in
                  (
                    w,
                    t2,
                    refill_extended w index l at none_left
                        (cracks ∙ ap (λ k. some (k, u)) e ∙ ap (λ k. some (err tt, k)) back) runs,
                    v2,
                    filled,
                    inr bytes,
                  )
            ]
      ]

allocate_runs :
    (superior : Superior) (t u : Superior.State superior) (s s' s'' : FixedBlockInner)
    (layout : Layout) (i : ℕ) (slice : Slice)
    → (layout.size == 0) ≡ false
    → get_block_index layout ≡ some i
    → refill superior i (count_call s) t ≡ some (s', u)
    → fetch_block s' i ≡ some (slice, s'')
    → allocate superior s t layout ≡ some (ok slice, s'', u)
unfolding allocate allocate_at
allocate_runs superior t u s s' s'' layout i slice sized at refills fetches =
    rw (sized, at, refills, ◌>>=◌, fetches)

-- A request that some list can serve gets a block of at least its size and alignment, at a multiple of the
-- block's size, and leaves a valid state. The free bytes are those from before the call without the block; or
-- those of the state `s2` with the page and without the block, where `s2` is what the superior allocator and
-- the mapping of its page leave of this allocator, which they may call, and is valid.
pub allocate_lem :
    (superior : Superior) (t t1 t2 : Superior.State superior) (s s1 s2 : FixedBlockInner) (page : ℕ)
    (layout : Layout) (i : ℕ)
    → Superior.virt_allocate superior page_layout (count_call s) t ≡ some (page, s1, t1)
    → Superior.map_page superior page s1 t1 ≡ (s2, t2)
    → IsValid s2
    → IsValid s
    → layout.size ≢ 0
    → get_block_index layout ≡ some i
    → (addr : ℕ) × (z : ℕ) × (s' : FixedBlockInner) × (u : Superior.State superior) × (allocate
          superior s t layout
        ≡ some (ok (addr, z), s', u))
      × IsValid s'
      × (layout.size ≤ z)
      × (layout.align ≤ z)
      × (addr % z ≡ 0)
      × (((b : ℕ) → free_at s b ≡ free_at s' b + inside addr z b)
          ⊎ ((b : ℕ) → free_at s2 b + inside page 4096 b ≡ free_at s' b + inside addr z b))
allocate_lem superior t t1 t2 s s1 s2 page layout i given mapped kept v sized at =
    let (z, at_z, fits, fits', bound) = get_block_index_lem layout at in
    let (filled_s, u, refills, v1, filled, grown) =
      refill_lem superior t t1 t2 (count_call s) s1 s2 page given mapped kept i v bound in
    let (addr, s', fetches, v2, aligned, bytes) = fetch_block_lem filled_s i z v1 at_z filled in
    (
      addr,
      z,
      s',
      u,
      allocate_runs superior t u s filled_s s' layout i (addr, z) (ground arith) at refills fetches,
      v2,
      fits,
      fits',
      aligned,
      elim grown [
        | inl same ↦ inl (λ b. omega (arith, same b, bytes b))
        | inr more ↦ inr (λ b. omega (arith, more b, bytes b))
      ],
    )

-- ===== src/Ahci/Prdt/Build.antt =====
-- drivers/ahci/src/driver/cmd_ctl.rs: `build_prdt`, from the frames under the buffer to the table in memory.
use hootux.Ahci.Prdt.{
  Entry, CommandError, buff_too_long, UnboundCommandTable, raw_table, limit_all, regions, fill,
  import_table, set_len, resize, build_prdt,
}
use hootux.Ahci.Prdt.Entries.{Small, all_small, small_one, described, map-described, fill_lem}
use hootux.Mem.Dma.{PhysicalRegionDescription, limit_next, limit_from, limit, prd}
use hootux.Mem.Dma.Frames.{frames_from, frames_of, Mapped}
use hootux.Mem.Dma.Limit.{limit_stop, limit_piece}
use hootux.Mem.Dma.Regions.{WholePages, whole_page, collect_from}
use hootux.Prelude.{
  ℕ, zero, suc, ◌+◌, ◌-◌, ◌*◌, ◌/◌, ◌%◌, ◌^◌, ◌<◌, ◌≤◌, ◌≡◌, true, false, Bool-cases, inl, inr,
  refl, ap, ◌∙◌, Option, none, some, List, [], ◌∷◌, map, ltb, ◌==◌, if◌then◌else◌, ◌>>=◌, length,
  length-append, take, min, arith,
}

length-frames_from : (n p : ℕ) → length (frames_from n p) ≡ n
unfolding frames_from
length-frames_from zero p = refl
length-frames_from (suc n) p = ap suc (length-frames_from n (p + 1))

length-frames_of :
    (r : PhysicalRegionDescription) (rs : List PhysicalRegionDescription)
    → length (frames_of (r ∷ rs)) ≡ r.size / 4096 + length (frames_of rs)
unfolding frames_of
length-frames_of r rs =
    length-append (frames_from (r.size / 4096) (r.addr / 4096)) (frames_of rs)
    ∙ ap (λ n. n + length (frames_of rs)) (length-frames_from (r.size / 4096) (r.addr / 4096))

WholePages-Small :
    (rs : List PhysicalRegionDescription) → WholePages rs → length (frames_of rs) ≤ 64 → Small rs
WholePages-Small [] w h = all_small
WholePages-Small (r ∷ rs) (whole_page a s p b w) h =
    let frames = length-frames_of r rs in
    small_one (omega arith) p (omega arith) b (WholePages-Small rs w (omega arith))

length-WholePages :
    (rs : List PhysicalRegionDescription) → WholePages rs → length rs ≤ length (frames_of rs)
length-WholePages [] w = omega arith
length-WholePages (r ∷ rs) (whole_page a s p b w) =
    omega (arith, length-frames_of r rs, length-WholePages rs w)

limit_two :
    (fuel : ℕ) (r : PhysicalRegionDescription)
    → 0 < r.size
    → r.size ≤ 0x40000
    → r.addr + r.size < 2 ^ 64
    → limit_from (suc (suc fuel)) r 0x400000 0 ≡ some (r ∷ [])
unfolding limit_from
limit_two fuel r p h b =
    whole (limit_piece r 0x400000 0 p b ∙ exact) (limit_stop r 0x400000 r.size refl)
  where
    at : ℕ → ℕ → ℕ → Option (PhysicalRegionDescription × ℕ)
    at a n state = some (record { addr = a; size = n }, state)

    exact :
        at (r.addr + 0) (min 0x400000 (r.size - 0)) (0 + min 0x400000 (r.size - 0))
        ≡ some (r, r.size)
    exact =
        ap (λ a. at a (min 0x400000 (r.size - 0)) (0 + min 0x400000 (r.size - 0))) {y = r.addr}
          (omega arith)
        ∙ ap (λ n. at r.addr n (0 + n)) {y = r.size} (ground arith)
        ∙ ap (λ n. at r.addr r.size n) {y = r.size} (omega arith)

    whole :
        limit_next r 0x400000 0 ≡ some (r, r.size)
        → limit_next r 0x400000 r.size ≡ none
        → limit_from (suc (suc fuel)) r 0x400000 0 ≡ some (r ∷ [])
    whole e f = rw (limit_from, e, f) refl

limit_small :
    (r : PhysicalRegionDescription)
    → 0 < r.size
    → r.size ≤ 0x40000
    → r.addr + r.size < 2 ^ 64
    → limit r 0x400000 ≡ some (r ∷ [])
unfolding limit
limit_small r p h b =
    ap (λ n. limit_from n r 0x400000 0) {x = r.size + 1} {y = suc (suc (r.size - 1))} (omega arith)
    ∙ limit_two (r.size - 1) r p h b

limit_all-Small : (rs : List PhysicalRegionDescription) → Small rs → limit_all rs ≡ some rs
unfolding limit_all
limit_all-Small [] s = refl
limit_all-Small (r ∷ rs) (small_one e p h b s) = both (limit_small r p h b) (limit_all-Small rs s)
  where
    both :
        limit r 0x400000 ≡ some (r ∷ [])
        → limit_all rs ≡ some rs
        → limit_all (r ∷ rs) ≡ some (r ∷ rs)
    both a c = rw (limit_all, a, c) refl

length-raw_table : (n : ℕ) → length (raw_table n) ≡ n
unfolding raw_table
length-raw_table zero = refl
length-raw_table (suc n) = ap suc (length-raw_table n)

-- a buffer of at most 64 pages is described by regions of which an entry can be made
regions_lem :
    (translate : ℕ → Option ℕ) (frames : List ℕ)
    → Mapped translate (4096 * length frames) 0 frames
    → length frames ≤ 64
    → (rs : List PhysicalRegionDescription) × (regions translate (4096 * length frames) ≡ some rs)
      × (frames_of rs ≡ frames)
      × Small rs
      × (length rs ≤ 64)
unfolding regions prd
regions_lem translate frames m h =
    let (rs, eq, same, whole) =
      collect_from translate (4096 * length frames) (4096 * length frames + 1) 0 frames
        (omega arith) m in
    let few : length (frames_of rs) ≤ 64 = omega (arith, ap length same) in
    let small = WholePages-Small rs whole few in
    (
      rs,
      ap (λ o. o >>= limit_all) eq ∙ limit_all-Small rs small,
      same,
      small,
      omega (arith, length-WholePages rs whole),
    )

module _ (place : ℕ → ℕ) where
  import_table_lem :
      (t : UnboundCommandTable) (n : ℕ)
      → place n % 256 ≡ 0
      → n < 2 ^ 16
      → import_table place t n
        ≡ some (record t { table = raw_table n; header_len = n; header_addr = place n })
  unfolding import_table
  import_table_lem t n a h =
      ap
        (λ b.
          if b
          then some (record t {
            table = raw_table n;
            header_len =
                (if length (raw_table n) == 0x10000 then 0 else length (raw_table n) % 2 ^ 16);
            header_addr = place n;
          })
          else none)
        {x = place n % 256 == 0} {y = true} (ground arith)
      ∙ ap (λ k. some (record t { table = raw_table n; header_len = k; header_addr = place n }))
          {y = n} (ground (arith, length-raw_table n))

  set_len_lem :
      (t : UnboundCommandTable) (n : ℕ)
      → place n % 256 ≡ 0
      → n < 2 ^ 16
      → n ≤ length t.table
      → (u : UnboundCommandTable) × (set_len place t n ≡ some u)
        × (u.header_len ≡ n)
        × (n ≤ length u.table)
  unfolding set_len
  set_len_lem t n a h long = elim (Bool-cases (ltb t.table_size n)) [
    | inl e ↦ (
      record t { table_size = n; table = raw_table n; header_len = n; header_addr = place n },
      ap (λ b. if b then (import_table place t n >>= sized) else some (record t { header_len = n }))
            e
          ∙ ap (λ o. o >>= sized) (import_table_lem t n a h),
      refl,
      omega (arith, length-raw_table n),
    )
    | inr e ↦ (
      record t { header_len = n },
      ap (λ b. if b then (import_table place t n >>= sized) else some (record t { header_len = n }))
          e,
      refl,
      long,
    )
  ]
    where
      sized : UnboundCommandTable → Option UnboundCommandTable
      sized u = some (record u { table_size = n })

  -- the table is long enough, and the command header says how much of it to use
  resize_lem :
      (t : UnboundCommandTable) (n : ℕ)
      → place n % 256 ≡ 0
      → n < 2 ^ 16
      → (u : UnboundCommandTable) × (resize place t n ≡ some u)
        × (u.header_len ≡ n)
        × (n ≤ length u.table)
  unfolding resize
  resize_lem t n a h = elim (Bool-cases (ltb (length t.table) n)) [
    | inl e ↦ (
      record t { table = raw_table n; header_len = n; header_addr = place n },
      ap (λ b. if b then import_table place t (n % 2 ^ 16) else set_len place t (n % 2 ^ 16)) e
          ∙ ap (import_table place t) {x = n % 2 ^ 16} (omega arith)
          ∙ import_table_lem t n a h,
      refl,
      omega (arith, length-raw_table n),
    )
    | inr e ↦
        let (u, eq, len, long) = kept (ground arith) in
        (
          u,
          ap (λ b. if b then import_table place t (n % 2 ^ 16) else set_len place t (n % 2 ^ 16)) e
              ∙ ap (set_len place t) {x = n % 2 ^ 16} (omega arith)
              ∙ eq,
          len,
          long,
        )
  ]
    where
      kept :
          n ≤ length t.table
          → (u : UnboundCommandTable) × (set_len place t n ≡ some u)
            × (u.header_len ≡ n)
            × (n ≤ length u.table)
      kept long = set_len_lem t n a h long

  module _ (translate : ℕ → Option ℕ) (t : UnboundCommandTable) (at len : ℕ) (even : len % 2 ≡ 0)
      (even_at : at % 2 ≡ 0) where
    -- the rest of `build_prdt`, from the regions of the buffer on
    unfoldable pub build_regions :
        List PhysicalRegionDescription → Option (Option CommandError × UnboundCommandTable)
    build_regions rs =
        if ltb (2 ^ 16 - 1) (length rs)
        then some (some (buff_too_long (length rs)), t)
        else (resize place t (length rs) >>= λ u.
            fill 0 rs u.table >>= λ table. some (none, record u { table = table }))

    pub build_prdt-regions :
        (rs : List PhysicalRegionDescription)
        → regions translate len ≡ some rs
        → build_prdt place t translate at len ≡ build_regions rs
    unfolding build_prdt build_regions
    build_prdt-regions rs e = tested (ground arith) (ground arith)
      where
        tested :
            (len % 2 == 1) ≡ false
            → (at % 2 == 1) ≡ false
            → build_prdt place t translate at len ≡ build_regions rs
        tested p q = rw (build_prdt, p, q, e) refl

    build_regions_lem :
        (rs : List PhysicalRegionDescription)
        → Small rs
        → length rs < 2 ^ 16
        → place (length rs) % 256 ≡ 0
        → (u : UnboundCommandTable) × (build_regions rs ≡ some (none, u))
          × (map described (take u.header_len u.table) ≡ rs)
    unfolding build_regions
    build_regions_lem rs s h a =
        let (u, eq, size, long) = resize_lem t (length rs) a h in
        let (table, filled, same) = fill_lem 0 rs u.table s (omega (arith, long)) (omega arith) in
        (
          record u { table = table },
          built u table (ground arith) eq filled,
          ap (λ n. map described (take n table)) {x = u.header_len} {y = 0 + length rs}
                (omega (arith, size))
              ∙ ap (map described) same
              ∙ map-described rs s,
        )
      where
        built :
            (u : UnboundCommandTable) (table : List Entry)
            → ltb (2 ^ 16 - 1) (length rs) ≡ false
            → resize place t (length rs) ≡ some u
            → fill 0 rs u.table ≡ some table
            → build_regions rs ≡ some (none, record u { table = table })
        built u table p q f = rw (build_regions, p, q, f) refl

-- for a buffer of 1 to 64 pages that lies in these frames, a table that the allocator aligns and an even
-- address of the local reference, `build_prdt` succeeds, and the entries that the command header says are to
-- be used describe those frames in the same order
pub build_prdt_lem :
    (place : ℕ → ℕ) (translate : ℕ → Option ℕ) (t : UnboundCommandTable) (at : ℕ) (frames : List ℕ)
    → ((n : ℕ) → place n % 256 ≡ 0)
    → Mapped translate (4096 * length frames) 0 frames
    → 0 < length frames
    → length frames ≤ 64
    → at % 2 ≡ 0
    → (u : UnboundCommandTable) × (build_prdt place t translate at (4096 * length frames)
        ≡ some (none, u))
      × (frames_of (map described (take u.header_len u.table)) ≡ frames)
build_prdt_lem place translate t at frames a m p h e =
    let (rs, eq, same, small, few) = regions_lem translate frames m h in
    let even : 4096 * length frames % 2 ≡ 0 = omega arith in
    let (u, built, described) =
      build_regions_lem place translate t at (4096 * length frames) even e rs small (omega arith)
        (a (length rs)) in
    (
      u,
      build_prdt-regions place translate t at (4096 * length frames) even e rs eq ∙ built,
      ap frames_of described ∙ same,
    )

-- ===== src/Mem/Dma/Limit.antt =====
-- kernel/src/mem/dma.rs: `PhysicalRegionDescription::limit` cuts a region in pieces.
use mathlib.Core.Path.{subst}
use hootux.Mem.Dma.{PhysicalRegionDescription, limit_next, limit_from, limit}
use hootux.Prelude.{
  ℕ, zero, suc, ◌+◌, ◌-◌, ◌^◌, ◌<◌, ◌≤◌, ◌≡◌, refl, sym, ap, ◌∙◌, inl, inr, false, none, some, List,
  [], ◌∷◌, leb, if◌then◌else◌, min, sub64, add64, add64_exact, sub64_exact, Bool-cases, arith,
}

-- The pieces lie one after the other from `addr` to `addr + size`; none is empty or longer than `len`, and all
-- but the last have `len` bytes.
pub data Cut (len : ℕ) : ℕ → ℕ → List PhysicalRegionDescription → Type 0 where
  done : {addr : ℕ} → Cut len addr 0 []
  piece :
      {addr size : ℕ} {r : PhysicalRegionDescription} {rs : List PhysicalRegionDescription}
      → r.addr ≡ addr
      → r.size ≡ min len size
      → 0 < size
      → 0 < len
      → Cut len (addr + r.size) (size - r.size) rs
      → Cut len addr size (r ∷ rs)

Cut_at :
    {len a b n k : ℕ} {rs : List PhysicalRegionDescription}
    → a ≡ b
    → n ≡ k
    → Cut len a n rs
    → Cut len b k rs
Cut_at {len} {a} {b} {n} {k} {rs} e f c =
    subst (λ x. Cut len x k rs) e (subst (λ x. Cut len a x rs) f c)

module _ (desc : PhysicalRegionDescription) (len : ℕ) where
  pub limit_stop : (state : ℕ) → state ≡ desc.size → limit_next desc len state ≡ none
  unfolding limit_next
  limit_stop state h = ground arith

  pub limit_piece :
      (state : ℕ)
      → state < desc.size
      → desc.addr + desc.size < 2 ^ 64
      → limit_next desc len state
        ≡ some (
          record { addr = desc.addr + state; size = min len (desc.size - state) },
          state + min len (desc.size - state),
        )
  unfolding limit_next
  limit_piece state h b =
      ap
        (λ t.
          if t
          then none
          else some (
              at_piece (add64 desc.addr state) (min (min desc.size len) (sub64 desc.size state))
                (add64 state (min (min desc.size len) (sub64 desc.size state)))))
        {y = false} (ground arith)
      ∙ ap
          (λ a. some (
            at_piece a (min (min desc.size len) (sub64 desc.size state))
              (add64 state (min (min desc.size len) (sub64 desc.size state)))))
          (add64_exact desc.addr state (omega arith))
      ∙ ap (λ n. some (at_piece (desc.addr + state) n (add64 state n)))
          {y = min len (desc.size - state)}
          (ap (min (min desc.size len)) (sub64_exact desc.size state (omega arith) (omega arith))
            ∙ min_min)
      ∙ ap (λ n. some (at_piece (desc.addr + state) (min len (desc.size - state)) n)) (ground arith)
    where
      at_piece : ℕ → ℕ → ℕ → PhysicalRegionDescription × ℕ
      at_piece a n next = (record { addr = a; size = n }, next)

      min_min : min (min desc.size len) (desc.size - state) ≡ min len (desc.size - state)
      min_min = ground arith

  limit_from_lem :
      (fuel state : ℕ)
      → 0 < len
      → desc.addr + desc.size < 2 ^ 64
      → state ≤ desc.size
      → desc.size - state < fuel
      → (rs : List PhysicalRegionDescription) × (limit_from fuel desc len state ≡ some rs)
        × Cut len (desc.addr + state) (desc.size - state) rs
  unfolding limit_from
  limit_from_lem zero state p b h f = absurd (omega arith)
  limit_from_lem (suc fuel) state p b h f = elim (Bool-cases (leb desc.size state)) [
    | inl e ↦
        let all : state ≡ desc.size = ground arith in
        ([], rw (limit_from, limit_stop state all) refl, none_left (omega arith))
    | inr e ↦
        let n = min len (desc.size - state) in
        let (rs, eq, cut) = limit_from_lem fuel (state + n) p b (ground arith) (ground arith) in
        (
          record { addr = desc.addr + state; size = n } ∷ rs,
          rw (limit_from, limit_piece state (ground arith) b, eq) refl,
          piece refl refl (ground arith) p (Cut_at (omega arith) (omega arith) cut),
        )
  ]
    where
      none_left : desc.size - state ≡ 0 → Cut len (desc.addr + state) (desc.size - state) []
      none_left z = subst (λ n. Cut len (desc.addr + state) n []) (sym z) done

-- a region that ends in the address space is cut, by a limit that is not 0, in pieces that lie one after the
-- other and make up the region, all but the last as long as the limit and none longer
pub limit_lem :
    (desc : PhysicalRegionDescription) (len : ℕ)
    → 0 < len
    → desc.addr + desc.size < 2 ^ 64
    → (rs : List PhysicalRegionDescription) × (limit desc len ≡ some rs)
      × Cut len desc.addr desc.size rs
unfolding limit
limit_lem desc len p b =
    let (rs, eq, cut) = limit_from_lem desc len (desc.size + 1) 0 p b (omega arith) (omega arith) in
    (rs, eq, Cut_at (omega arith) (omega arith) cut)

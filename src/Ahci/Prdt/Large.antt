-- ===== src/Ahci/Prdt/Large.antt =====
-- drivers/ahci/src/driver/cmd_ctl.rs: a region that is too large for an entry.
use hootux.Ahci.Prdt.{Entry, UnboundCommandTable, entry_new, regions, fill, resize, build_prdt}
use hootux.Ahci.Prdt.Build.{build_regions, build_prdt-regions}
use hootux.Ahci.Prdt.Entries.{entry_new_large}
use hootux.Mem.Dma.{PhysicalRegionDescription}
use hootux.Prelude.{
  ℕ, zero, suc, ◌+◌, ◌-◌, ◌%◌, ◌^◌, ◌<◌, ◌≤◌, ◌≡◌, true, false, Bool-cases, inl, inr, refl, ap, ◌∙◌,
  Option, none, some, eq_of_some, Option-cases, List, [], ◌∷◌, ltb, lt→ltb, length, set, get_elem?,
  arith,
}

fill_refused :
    (i : ℕ) (r : PhysicalRegionDescription) (rs : List PhysicalRegionDescription)
    (table : List Entry)
    → ltb i (2 ^ 16) ≡ true
    → entry_new r.addr (r.size % 2 ^ 32) ≡ some none
    → fill i (r ∷ rs) table ≡ none
unfolding fill
fill_refused i r rs table t n = rw (fill, t, n) refl

-- a step that panics, or goes on to a list that does
fill_tail :
    (i : ℕ) (r : PhysicalRegionDescription) (rs : List PhysicalRegionDescription)
    (table : List Entry)
    → ltb i (2 ^ 16) ≡ true
    → ((e : Entry) → fill (i + 1) rs (set table i e) ≡ none)
    → fill i (r ∷ rs) table ≡ none
unfolding fill
fill_tail i r rs table t rec = elim (Option-cases (entry_new r.addr (r.size % 2 ^ 32))) [
  | inl n ↦ rw (fill, t, n) refl
  | inr (none, n) ↦ rw (fill, t, n) refl
  | inr (some e, n) ↦ elim (Bool-cases (ltb i (length table))) [
    | inl u ↦ rw (fill, t, n, u) (rec e)
    | inr u ↦ rw (fill, t, n, u) refl
  ]
]

fill_large :
    (i k : ℕ) (rs : List PhysicalRegionDescription) (table : List Entry)
    (r : PhysicalRegionDescription)
    → i + length rs ≤ 2 ^ 16
    → get_elem? rs k ≡ some r
    → 0x40000 < r.size
    → r.size < 2 ^ 32
    → fill i rs table ≡ none
fill_large i k [] table r h e l w = absurd (cc e)
fill_large i zero (s ∷ rs) table r h e l w =
    fill_refused i s rs table (lt→ltb i (2 ^ 16) (omega arith)) (
      ap (λ x. entry_new x.addr (x.size % 2 ^ 32)) (eq_of_some e)
      ∙ entry_new_large r.addr (r.size % 2 ^ 32) (omega arith))
fill_large i (suc k) (s ∷ rs) table r h e l w =
    fill_tail i s rs table (lt→ltb i (2 ^ 16) (omega arith))
      (λ x. fill_large (i + 1) k rs (set table i x) r (omega arith) e l w)

-- where one of the fewer than 2^16 regions of a buffer of an even length, each within a word of 32 bits, is
-- longer than 256 KiB, `build_prdt` panics, though it asked for regions of up to 4 MiB
pub build_prdt_large :
    (place : ℕ → ℕ) (translate : ℕ → Option ℕ) (t : UnboundCommandTable) (at len k : ℕ)
    (rs : List PhysicalRegionDescription) (r : PhysicalRegionDescription)
    → len % 2 ≡ 0
    → at % 2 ≡ 0
    → regions translate len ≡ some rs
    → length rs < 2 ^ 16
    → get_elem? rs k ≡ some r
    → 0x40000 < r.size
    → r.size < 2 ^ 32
    → build_prdt place t translate at len ≡ none
unfolding build_regions
build_prdt_large place translate t at len k rs r even even_at e h g l w =
    build_prdt-regions place translate t at len even even_at rs e ∙ panics (ground arith)
  where
    panics :
        ltb (2 ^ 16 - 1) (length rs) ≡ false
        → build_regions place translate t at len even even_at rs ≡ none
    panics p = elim (Option-cases (resize place t (length rs))) [
      | inl n ↦ rw (build_regions, p, n) refl
      | inr (u, q) ↦ rw (build_regions, p, q, fill_large 0 k rs u.table r (omega arith) g l w) refl
    ]

-- ===== src/Mem/FixedBlock/Deallocate.antt =====
-- `get_block_index` and `deallocate` of fixed_size_block.rs: which bytes a call frees.
use hootux.Prelude.{
  ℕ, suc, ◌+◌, ◌-◌, ◌%◌, ◌<◌, ◌≤◌, ◌≡◌, ◌≢◌, ◌∙◌, ap, some, List, [], ◌∷◌, get_elem?,
  get_elem?_bound, set, arith, leb, max, inl, inr, Bool-cases,
}
use hootux.Mem.FixedBlock.{
  Layout, RawLinkedList, FixedBlockInner, add, block_sizes, get_block_index, position_from,
  deallocate,
}
use hootux.Mem.FixedBlock.Bytes.{covers, free_at, inside, covers-set}
use hootux.Mem.FixedBlock.Shape.{IsValid, Fits-get, Fits-set, Fits-lookup, add-IsGood}

position_from_lem :
    (wanted : ℕ) (sizes : List ℕ) (i : ℕ) {j : ℕ}
    → position_from wanted sizes i ≡ some j
    → (z : ℕ) × (i ≤ j) × (get_elem? sizes (j - i) ≡ some z) × (wanted ≤ z)
unfolding position_from
position_from_lem wanted [] i e = absurd (ground arith)
position_from_lem wanted (s ∷ sizes) i {j} e = elim (Bool-cases (leb wanted s)) [
  | inl t ↦ here (ground arith) (ground arith)
  | inr f ↦ later (position_from_lem wanted sizes (i + 1) {j = j} (ground arith))
]
  where
    here :
        i ≡ j
        → wanted ≤ s
        → (z : ℕ) × (i ≤ j) × (get_elem? (s ∷ sizes) (j - i) ≡ some z) × (wanted ≤ z)
    here e' le = (s, omega arith, ap (get_elem? (s ∷ sizes)) {y = 0} (omega arith), le)

    later :
        (z : ℕ) × (i + 1 ≤ j) × (get_elem? sizes (j - (i + 1)) ≡ some z) × (wanted ≤ z)
        → (z : ℕ) × (i ≤ j) × (get_elem? (s ∷ sizes) (j - i) ≡ some z) × (wanted ≤ z)
    later (z, le, at, fits) = (
      z,
      omega arith,
      ap (get_elem? (s ∷ sizes)) {y = suc (j - (i + 1))} (omega arith) ∙ at,
      fits,
    )

-- The list chosen for a layout has blocks of at least its size and its alignment.
pub get_block_index_lem :
    (layout : Layout) {i : ℕ}
    → get_block_index layout ≡ some i
    → (z : ℕ) × (get_elem? block_sizes i ≡ some z)
      × (layout.size ≤ z)
      × (layout.align ≤ z)
      × (i < 9)
unfolding get_block_index
get_block_index_lem layout {i} e =
    let (z, _, at, fits) =
      position_from_lem (max layout.size layout.align) block_sizes 0 {j = i} e in
    let at' : get_elem? block_sizes i ≡ some z = ap (get_elem? block_sizes) (omega arith) ∙ at in
    (z, at', omega arith, omega arith, get_elem?_bound block_sizes i at')

deallocated :
    (lists : List RawLinkedList) (l : RawLinkedList) (ptr i z : ℕ)
    → get_elem? block_sizes i ≡ some z
    → get_elem? lists i ≡ some l
    → (b : ℕ)
    → covers block_sizes (set lists i (add l ptr)) b ≡ covers block_sizes lists b + inside ptr z b
unfolding add
deallocated lists l ptr i z at_z at_l b =
    omega (arith, covers-set block_sizes lists i z b l (add l ptr) at_z at_l)

-- A freed block of the size of its list covers its bytes once more, and nothing else changes.
pub deallocate_lem :
    (s : FixedBlockInner) (ptr i z : ℕ) (layout : Layout)
    → IsValid s
    → layout.size ≢ 0
    → get_block_index layout ≡ some i
    → get_elem? block_sizes i ≡ some z
    → i < 9
    → 0 < ptr
    → ptr + z < 18446744073709551616
    → ptr % z ≡ 0
    → (s' : FixedBlockInner) × (deallocate s ptr layout ≡ some s')
      × IsValid s'
      × ((b : ℕ) → free_at s' b ≡ free_at s b + inside ptr z b)
unfolding deallocate
deallocate_lem s ptr i z layout v sized at at_z bound pos fits aligned =
    let (_, l, _, at_l) = Fits-lookup block_sizes s.list_heads i v bound in
    (
      record s { list_heads = set s.list_heads i (add l ptr) },
      rw (at, at_l) (ground arith),
      Fits-set block_sizes s.list_heads i z (add l ptr) v at_z
          (add-IsGood z ptr l pos fits aligned (Fits-get block_sizes s.list_heads i v at_z at_l)),
      λ b. deallocated s.list_heads l ptr i z at_z at_l b,
    )

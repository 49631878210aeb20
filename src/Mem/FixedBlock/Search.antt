-- ===== src/Mem/FixedBlock/Search.antt =====
-- The pieces of `crack` of fixed_size_block.rs: its search, and what `fetch` takes off a list.
use hootux.Prelude.{
  ℕ, zero, suc, ◌+◌, ◌-◌, ◌*◌, ◌<◌, ◌≤◌, ◌≡◌, ◌∙◌, refl, ap, true, false, none, some, List, [], ◌∷◌,
  get_elem?, add64, arith, inl, inr, Bool-cases,
}
use hootux.Mem.FixedBlock.{
  RawLinkedList, is_empty, is_empty_head, fetch, fetch_head, first_filled, add, add_blocks,
}
use hootux.Mem.FixedBlock.Bytes.{cover, inside}

-- What the search finds is a list that is not empty, at its place.
pub first_filled_lem :
    (lists : List RawLinkedList) (i : ℕ) {j : ℕ}
    → first_filled lists i ≡ some j
    → (l : RawLinkedList) × (i ≤ j) × (get_elem? lists (j - i) ≡ some l) × (is_empty l ≡ false)
unfolding first_filled
first_filled_lem [] i e = absurd (ground arith)
first_filled_lem (x ∷ lists) i {j} e = elim (Bool-cases (is_empty x)) [
  | inl t ↦ later (first_filled_lem lists (i + 1) {j = j} (ground arith))
  | inr f ↦ here f (ground arith)
]
  where
    later :
        (l : RawLinkedList) × (i + 1 ≤ j)
          × (get_elem? lists (j - (i + 1)) ≡ some l)
          × (is_empty l ≡ false)
        → (l : RawLinkedList) × (i ≤ j)
          × (get_elem? (x ∷ lists) (j - i) ≡ some l)
          × (is_empty l ≡ false)
    later (l, le, at, full) = (
      l,
      omega arith,
      ap (get_elem? (x ∷ lists)) {y = suc (j - (i + 1))} (omega arith) ∙ at,
      full,
    )

    here :
        is_empty x ≡ false
        → i ≡ j
        → (l : RawLinkedList) × (i ≤ j)
          × (get_elem? (x ∷ lists) (j - i) ≡ some l)
          × (is_empty l ≡ false)
    here full e' = (x, omega arith, ap (get_elem? (x ∷ lists)) {y = 0} (omega arith), full)

fetch_head_lem :
    (len : ℕ) (head : List ℕ)
    → is_empty_head head ≡ false
    → (a : ℕ) × ((fetch_head len head).0 ≡ some a)
      × ((size b : ℕ)
          → cover size head b ≡ inside a size b + cover size (fetch_head len head).1.head b)
unfolding is_empty_head fetch_head
fetch_head_lem len [] e = absurd (ground arith)
fetch_head_lem len (x ∷ rest) e = (x, refl, λ size b. refl)

-- `fetch` takes one block off a list that is not empty.
pub fetch_lem :
    (l : RawLinkedList)
    → is_empty l ≡ false
    → (a : ℕ) × ((fetch l).0 ≡ some a)
      × ((size b : ℕ) → cover size l.head b ≡ inside a size b + cover size (fetch l).1.head b)
unfolding is_empty fetch
fetch_lem l e = fetch_head_lem l.len l.head e

-- A search that fails has seen empty lists only.
pub first_filled-none :
    (lists : List RawLinkedList) (i k : ℕ) {l : RawLinkedList}
    → first_filled lists i ≡ none
    → get_elem? lists k ≡ some l
    → is_empty l ≡ true
unfolding first_filled
first_filled-none [] i k e h = absurd (ground arith)
first_filled-none (x ∷ lists) i zero {l} e h = ground arith
first_filled-none (x ∷ lists) i (suc k) {l} e h =
    first_filled-none lists (i + 1) k {l = l} (ground arith) h

add_blocks-is_empty :
    (l : RawLinkedList) (region size n block : ℕ)
    → is_empty l ≡ false
    → is_empty (add_blocks l region size n block) ≡ false
unfolding add_blocks
add_blocks-is_empty l region size zero block h = h
add_blocks-is_empty l region size (suc n) block h =
    add_blocks-is_empty (add l (add64 region (size * block))) region size n (block + 1)
      (unfold add is_empty in refl)

pub add_blocks_filled :
    (l : RawLinkedList) (region size n block : ℕ)
    → 0 < n
    → is_empty (add_blocks l region size n block) ≡ false
unfolding add_blocks
add_blocks_filled l region size zero block h = absurd (omega arith)
add_blocks_filled l region size (suc n) block h =
    add_blocks-is_empty (add l (add64 region (size * block))) region size n (block + 1)
      (unfold add is_empty in refl)

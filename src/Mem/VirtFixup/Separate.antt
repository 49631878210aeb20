-- ===== src/Mem/VirtFixup/Separate.antt =====
-- kernel/src/mem/virt_fixup.rs: putting a region in the list that is apart from those in it.
use hootux.Mem.VirtFixup.{
  FixupEntry, VirtAddrOps, IsVirtAddr, is_canonical, is_page_size, insert, try_fixup,
}
use hootux.Mem.VirtFixup.Compare.{entry_order, Canonical, Canonical-inserted}
use hootux.Mem.VirtFixup.Lookup.{Below, all_below, one_below, Descending, region_on, try_fixup_lem}
use hootux.Mem.VirtFixup.Insert.{
  cmp_over, cmp_under, Descending-Partitioned, never_equal, new_entry, insert_missing,
}
use hootux.Prelude.Search.{Ordering, less, greater, SearchResult, found, missing, IsSearchOf}
use hootux.Prelude.{
  ℕ, zero, suc, ◌+◌, ◌<◌, ◌≤◌, ◌≡◌, ◌⊎◌, inl, inr, refl, ap, ◌∙◌, Bool, true, Bool-cases, Option,
  some, List, [], ◌∷◌, ◌++◌, map, ltb, leb, if◌then◌else◌, length, get_elem?, take, drop, sub64,
  arith,
}

-- A region that overlaps none of a list.
pub data Apart (entry : FixupEntry) : List FixupEntry → Type 0 where
  apart_all : Apart entry []
  apart_from :
      {e : FixupEntry} {es : List FixupEntry}
      → (entry.address + entry.len < e.address) ⊎ (e.address + e.len < entry.address)
      → Apart entry es
      → Apart entry (e ∷ es)

Below-mono : (n m : ℕ) (es : List FixupEntry) → Below n es → n ≤ m → Below m es
Below-mono n m [] b h = all_below
Below-mono n m (e ∷ es) (one_below p b) h = one_below (omega arith) (Below-mono n m es b h)

length-map : (f : FixupEntry → Ordering) (es : List FixupEntry) → length (map f es) ≡ length es
length-map f [] = refl
length-map f (e ∷ es) = ap suc (length-map f es)

module _ (entry : FixupEntry) where
  -- the place between the regions above and those below
  data Place : ℕ → List FixupEntry → Type 0 where
    under_all : {es : List FixupEntry} → Below entry.address es → Place 0 es
    over_one :
        {i : ℕ} {e : FixupEntry} {es : List FixupEntry}
        → entry.address + entry.len < e.address
        → Place i es
        → Place (suc i) (e ∷ es)

  inserted : ℕ → List FixupEntry → List FixupEntry
  inserted i es = take i es ++ (entry ∷ drop i es)

  Below-inserted :
      (n i : ℕ) (es : List FixupEntry)
      → entry.address + entry.len < n
      → Below n es
      → Below n (inserted i es)
  unfolding inserted
  Below-inserted n zero es h b = one_below h b
  Below-inserted n (suc i) [] h b = one_below h all_below
  Below-inserted n (suc i) (e ∷ es) h (one_below p b) = one_below p (Below-inserted n i es h b)

  Descending-inserted :
      (i : ℕ) (es : List FixupEntry) → Place i es → Descending es → Descending (inserted i es)
  unfolding inserted
  Descending-inserted zero es (under_all b) d = region_on b d
  Descending-inserted (suc i) [] q d = elim q [ ]
  Descending-inserted (suc i) (e ∷ es) (over_one p q) (region_on b d) =
      region_on (Below-inserted e.address i es p b) (Descending-inserted i es q d)

  get_elem?-inserted :
      (i : ℕ) (es : List FixupEntry) → Place i es → get_elem? (inserted i es) i ≡ some entry
  unfolding inserted
  get_elem?-inserted zero es q = refl
  get_elem?-inserted (suc i) [] q = elim q [ ]
  get_elem?-inserted (suc i) (e ∷ es) (over_one p q) = get_elem?-inserted i es q

  -- where a region is, by how it compares
  compares_less :
      (e : FixupEntry) → entry_order e entry ≡ less → entry.address + entry.len < e.address
  compares_less e q = elim (Bool-cases (leb e.address (entry.address + entry.len))) [
    | inl t ↦ absurd (cc (q, cmp_under entry e (ground arith)))
    | inr t ↦ ground arith
  ]

  compares_greater :
      (e : FixupEntry)
      → entry_order e entry ≡ greater
      → (entry.address + entry.len < e.address) ⊎ (e.address + e.len < entry.address)
      → e.address + e.len < entry.address
  compares_greater e q (inl h) = absurd (cc (q, cmp_over entry e h))
  compares_greater e q (inr h) = h

  Place-search :
      (i : ℕ) (es : List FixupEntry)
      → Apart entry es
      → Descending es
      → ((j : ℕ) (o : Ordering)
          → get_elem? (map (λ x. entry_order x entry) es) j ≡ some o
          → o ≡ (if ltb j i then less else greater))
      → i ≤ length es
      → Place i es
  Place-search zero [] a d f h = under_all all_below
  Place-search zero (e ∷ es) (apart_from a rest) (region_on b d) f h =
      let under = compares_greater e (f 0 (entry_order e entry) refl) a in
      under_all (one_below under (Below-mono e.address entry.address es b (omega (arith, under))))
  Place-search (suc i) [] a d f h = absurd (omega arith)
  Place-search (suc i) (e ∷ es) (apart_from a rest) (region_on b d) f h =
      over_one
        (compares_less e (
          f 0 (entry_order e entry) refl
          ∙ ap (λ b. if b then less else greater) {x = ltb 0 (suc i)} {y = true} (ground arith)))
        (Place-search i es rest d
          (λ j o g.
            f (suc j) o g
            ∙ ap (λ b. if b then less else greater) {x = ltb (suc j) (suc i)} {y = ltb j i}
                (ground arith))
          (omega arith))

-- In a list of regions apart from each other, the highest first, a region that overlaps none of them is put so
-- that the list stays in that order, and `try_fixup` then finds it by each of its addresses but the last. Its
-- page size exists; its first and last address and the last addresses of the list are canonical.
pub try_fixup-insert :
    (virt : VirtAddrOps) (search : List (Option Ordering) → Option SearchResult)
    (plain : List Ordering → SearchResult) (es : List FixupEntry) (address len page_size a : ℕ)
    (shrinkable : Bool)
    → IsVirtAddr virt
    → IsSearchOf search plain
    → Descending es
    → Canonical es
    → is_page_size page_size ≡ true
    → is_canonical address ≡ true
    → is_canonical (address + sub64 len 1) ≡ true
    → Apart (new_entry address len page_size shrinkable) es
    → address ≤ a
    → a < address + sub64 len 1
    → (i : ℕ) × (list : List FixupEntry) × (insert virt search es address len page_size shrinkable
        ≡ some (list, true))
      × Descending list
      × (get_elem? list i ≡ some (new_entry address len page_size shrinkable))
      × (try_fixup virt search list a ≡ some (some i))
unfolding inserted
try_fixup-insert virt search plain es address len page_size a shrinkable addr law d c p start end
      away l h =
    placed (plain (map (λ x. entry_order x (new_entry address len page_size shrinkable)) es)) refl
  where
    entry : FixupEntry
    entry = new_entry address len page_size shrinkable

    placed :
        (r : SearchResult)
        → plain (map (λ x. entry_order x entry) es) ≡ r
        → (i : ℕ) × (list : List FixupEntry) × (insert virt search es address len page_size
              shrinkable
            ≡ some (list, true))
          × Descending list
          × (get_elem? list i ≡ some entry)
          × (try_fixup virt search list a ≡ some (some i))
    placed (found i) q = absurd (
        never_equal entry es i (
          law.binary.found_equal (map (λ x. entry_order x entry) es) i
            (Descending-Partitioned entry es d) q))
    placed (missing i) q =
        let parts = Descending-Partitioned entry es d in
        let at =
          Place-search entry i es away d
            (λ j o g. law.binary.missing_place (map (λ x. entry_order x entry) es) i j o parts q g)
            (omega (
              arith,
              law.binary.missing_le (map (λ x. entry_order x entry) es) i parts q,
              length-map (λ x. entry_order x entry) es,
            )) in
        let kept = Descending-inserted entry i es at d in
        let there = get_elem?-inserted entry i es at in
        (
          i,
          inserted entry i es,
          insert_missing virt search plain addr law es address len page_size shrinkable start end c
              p i q,
          kept,
          there,
          try_fixup_lem virt search plain (inserted entry i es) i a entry addr law
              (Canonical-inserted entry i es end c) kept there l h,
        )

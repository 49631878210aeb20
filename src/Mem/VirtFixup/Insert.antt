-- ===== src/Mem/VirtFixup/Insert.antt =====
-- kernel/src/mem/virt_fixup.rs: putting a region in the list.
use mathlib.Core.Path.{subst}
use hootux.Mem.VirtFixup.{FixupEntry, VirtAddrOps, IsVirtAddr, is_canonical, is_page_size, insert}
use hootux.Mem.VirtFixup.Compare.{entry_order, Canonical, entries_compare}
use hootux.Mem.VirtFixup.Lookup.{Below, one_below, Descending, region_on}
use hootux.Prelude.Search.{
  Ordering, less, equal, greater, SearchResult, found, missing, Greaters, no_greater, one_greater,
  no_equal, Partitioned, no_less, one_less, IsSearchOf,
}
use hootux.Prelude.{
  ℕ, zero, suc, ◌+◌, ◌<◌, ◌≤◌, ◌≡◌, ◌≢◌, inl, inr, refl, sym, Bool, true, false, Bool-cases, Option,
  some, ◌>>=◌, List, [], ◌∷◌, ◌++◌, map, leb, if◌then◌else◌, get_elem?, take, drop, sub64, arith,
}

module _ (entry : FixupEntry) where
  pub cmp_over :
      (x : FixupEntry) → entry.address + entry.len < x.address → entry_order x entry ≡ less
  unfolding entry_order
  cmp_over x h = ground arith

  pub cmp_under :
      (x : FixupEntry) → x.address ≤ entry.address + entry.len → entry_order x entry ≡ greater
  unfolding entry_order
  cmp_under x h = ground arith

  under_Greaters :
      (n : ℕ) (es : List FixupEntry)
      → Below n es
      → n ≤ entry.address + entry.len
      → Greaters (map (λ x. entry_order x entry) es)
  under_Greaters n [] b h = no_greater
  under_Greaters n (x ∷ es) (one_below p b) h =
      subst (λ o. Greaters (o ∷ map (λ y. entry_order y entry) es))
        (sym (cmp_under x (omega arith))) (one_greater (under_Greaters n es b h))

  pub Descending-Partitioned :
      (es : List FixupEntry) → Descending es → Partitioned (map (λ x. entry_order x entry) es)
  Descending-Partitioned [] d = no_less (no_equal no_greater)
  Descending-Partitioned (x ∷ es) (region_on b d) =
      elim (Bool-cases (leb x.address (entry.address + entry.len))) [
        | inl t ↦
            subst (λ o. Partitioned (o ∷ map (λ y. entry_order y entry) es))
              (sym (cmp_under x (ground arith)))
              (no_less (no_equal (one_greater (under_Greaters x.address es b (ground arith)))))
        | inr t ↦
            subst (λ o. Partitioned (o ∷ map (λ y. entry_order y entry) es))
              (sym (cmp_over x (ground arith))) (one_less (Descending-Partitioned es d))
      ]

  pub never_equal :
      (es : List FixupEntry) (i : ℕ) → get_elem? (map (λ x. entry_order x entry) es) i ≢ some equal
  never_equal [] i e = absurd (cc e)
  never_equal (x ∷ es) zero e = elim (Bool-cases (leb x.address (entry.address + entry.len))) [
    | inl t ↦ absurd (cc (e, cmp_under x (ground arith)))
    | inr t ↦ absurd (cc (e, cmp_over x (ground arith)))
  ]
  never_equal (x ∷ es) (suc i) e = never_equal es i e

-- the region that `insert` makes
abbrev pub new_entry : ℕ → ℕ → ℕ → Bool → FixupEntry
new_entry address len page_size shrinkable = record {
  address = address;
  len = sub64 len 1;
  fixup_remain = 0;
  page_size = page_size;
  clear_when_fixed = if shrinkable then false else true;
}

module _ (virt : VirtAddrOps) (search : List (Option Ordering) → Option SearchResult)
    (plain : List Ordering → SearchResult) (addr : IsVirtAddr virt) (law : IsSearchOf search plain)
    (es : List FixupEntry) (address len page_size : ℕ) (shrinkable : Bool)
    (start : is_canonical address ≡ true) (end : is_canonical (address + sub64 len 1) ≡ true)
    (c : Canonical es) (p : is_page_size page_size ≡ true) where
  -- what `insert` makes of an answer of the search
  answer : SearchResult → Option (List FixupEntry × Bool)
  answer r = elim r [
    | found i ↦ some (es, false)
    | missing i ↦ some (take i es ++ (new_entry address len page_size shrinkable ∷ drop i es), true)
  ]

  insert-answer :
      (r : SearchResult)
      → plain (map (λ x. entry_order x (new_entry address len page_size shrinkable)) es) ≡ r
      → insert virt search es address len page_size shrinkable ≡ answer r
  unfolding insert answer
  insert-answer r q =
      let made = addr.new_fits address start in
      let all = entries_compare virt addr (new_entry address len page_size shrinkable) es end c in
      rw (insert, p, made, ◌>>=◌, all, law.agrees, q) refl

  -- where the search finds no equal one, the region is put in the list
  pub insert_missing :
      (i : ℕ)
      → plain (map (λ x. entry_order x (new_entry address len page_size shrinkable)) es) ≡ missing i
      → insert virt search es address len page_size shrinkable
        ≡ some (take i es ++ (new_entry address len page_size shrinkable ∷ drop i es), true)
  unfolding answer
  insert_missing i q = insert-answer (missing i) q

-- In a list of regions apart from each other, the highest first, `insert` never refuses a region of a page size
-- that exists, whatever regions it overlaps; its first and last address and the last addresses of the list are
-- canonical.
pub insert_accepts :
    (virt : VirtAddrOps) (search : List (Option Ordering) → Option SearchResult)
    (plain : List Ordering → SearchResult) (es : List FixupEntry) (address len page_size : ℕ)
    (shrinkable : Bool)
    → IsVirtAddr virt
    → IsSearchOf search plain
    → Descending es
    → Canonical es
    → is_page_size page_size ≡ true
    → is_canonical address ≡ true
    → is_canonical (address + sub64 len 1) ≡ true
    → (i : ℕ) × (insert virt search es address len page_size shrinkable
        ≡ some (take i es ++ (new_entry address len page_size shrinkable ∷ drop i es), true))
insert_accepts virt search plain es address len page_size shrinkable addr law d c p start end =
    placed (plain (map (λ x. entry_order x (new_entry address len page_size shrinkable)) es)) refl
  where
    entry : FixupEntry
    entry = new_entry address len page_size shrinkable

    placed :
        (r : SearchResult)
        → plain (map (λ x. entry_order x entry) es) ≡ r
        → (i : ℕ) × (insert virt search es address len page_size shrinkable
            ≡ some (take i es ++ (entry ∷ drop i es), true))
    placed (found i) q = absurd (
        never_equal entry es i (
          law.binary.found_equal (map (λ x. entry_order x entry) es) i
            (Descending-Partitioned entry es d) q))
    placed (missing i) q = (
      i,
      insert_missing virt search plain addr law es address len page_size shrinkable start end c p i
          q,
    )

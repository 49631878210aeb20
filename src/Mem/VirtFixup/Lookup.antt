-- ===== src/Mem/VirtFixup/Lookup.antt =====
-- kernel/src/mem/virt_fixup.rs: finding the region of an address. The list runs from the highest region to the
-- lowest.
use mathlib.Core.Path.{subst}
use hootux.Mem.VirtFixup.{FixupEntry, VirtAddrOps, IsVirtAddr, try_fixup}
use hootux.Mem.VirtFixup.Compare.{addr_order, Canonical, addresses_compare}
use hootux.Prelude.Search.{
  Ordering, less, equal, greater, SearchResult, found, missing, Greaters, no_greater, one_greater,
  no_equal, one_equal, Partitioned, no_less, one_less, IsSearchOf,
}
use hootux.Prelude.{
  ℕ, zero, suc, ◌+◌, ◌<◌, ◌≤◌, ◌≡◌, ◌≢◌, inl, inr, refl, sym, ap, ◌∙◌, Bool-cases, Option, none,
  some, ◌>>=◌, eq_of_some, List, [], ◌∷◌, map, ltb, if◌then◌else◌, get_elem?, arith,
}

-- Regions that end below an address.
pub data Below (n : ℕ) : List FixupEntry → Type 0 where
  all_below : Below n []
  one_below :
      {e : FixupEntry} {es : List FixupEntry}
      → e.address + e.len < n
      → Below n es
      → Below n (e ∷ es)

-- Regions apart from each other, the highest first.
pub data Descending : List FixupEntry → Type 0 where
  no_region : Descending []
  region_on :
      {e : FixupEntry} {es : List FixupEntry}
      → Below e.address es
      → Descending es
      → Descending (e ∷ es)

cmp_above : (a : ℕ) (x : FixupEntry) → x.address + x.len ≤ a → addr_order a x ≡ greater
unfolding addr_order
cmp_above a x h = ground arith

cmp_below : (a : ℕ) (x : FixupEntry) → a < x.address → addr_order a x ≡ less
unfolding addr_order
cmp_below a x h = ground arith

cmp_inside :
    (a : ℕ) (x : FixupEntry) → x.address ≤ a → a < x.address + x.len → addr_order a x ≡ equal
unfolding addr_order
cmp_inside a x h k = ground arith

pub Below-get_elem? :
    (n : ℕ) (es : List FixupEntry) (i : ℕ) (e : FixupEntry)
    → Below n es
    → get_elem? es i ≡ some e
    → e.address + e.len < n
Below-get_elem? n [] i e b g = absurd (cc g)
Below-get_elem? n (x ∷ es) zero e (one_below p b) g =
    subst (λ y. y.address + y.len < n) (eq_of_some g) p
Below-get_elem? n (x ∷ es) (suc i) e (one_below p b) g = Below-get_elem? n es i e b g

-- no element that is greater is equal
greater_only : (os : List Ordering) (j : ℕ) → Greaters os → get_elem? os j ≢ some equal
greater_only [] j g e = absurd (cc e)
greater_only (o ∷ os) zero (one_greater g) e = absurd (cc e)
greater_only (o ∷ os) (suc j) (one_greater g) e = greater_only os j g e

-- the orderings of an address that one region has, and which of them is equal
record Split (os : List Ordering) (i : ℕ) : Type 0 where
  parts : Partitioned os
  here : get_elem? os i ≡ some equal
  only : (j : ℕ) → get_elem? os j ≡ some equal → j ≡ i

equal_first : (os : List Ordering) → Greaters os → Split (equal ∷ os) 0
equal_first os g = record { parts = no_less (one_equal (no_equal g)); here = refl; only = alone }
  where
    alone : (j : ℕ) → get_elem? (equal ∷ os) j ≡ some equal → j ≡ 0
    alone zero e = refl
    alone (suc j) e = absurd (greater_only os j g e)

less_first : (os : List Ordering) (i : ℕ) → Split os i → Split (less ∷ os) (suc i)
less_first os i s = record { parts = one_less s.parts; here = s.here; only = later }
  where
    later : (j : ℕ) → get_elem? (less ∷ os) j ≡ some equal → j ≡ suc i
    later zero e = absurd (cc e)
    later (suc j) e = ap suc (s.only j e)

module _ (a : ℕ) where
  below_greater :
      (n : ℕ) (es : List FixupEntry) → Below n es → n ≤ a → Greaters (map (addr_order a) es)
  below_greater n [] b h = no_greater
  below_greater n (e ∷ es) (one_below p b) h =
      subst (λ o. Greaters (o ∷ map (addr_order a) es)) (sym (cmp_above a e (omega arith)))
        (one_greater (below_greater n es b h))

  Descending-Split :
      (es : List FixupEntry) (i : ℕ) (e : FixupEntry)
      → Descending es
      → get_elem? es i ≡ some e
      → e.address ≤ a
      → a < e.address + e.len
      → Split (map (addr_order a) es) i
  Descending-Split [] i e d g l h = absurd (cc g)
  Descending-Split (x ∷ es) zero e (region_on b d) g l h =
      let same : x ≡ e = eq_of_some g in
      subst (λ o. Split (o ∷ map (addr_order a) es) 0)
        (sym (ap (addr_order a) same ∙ cmp_inside a e l h))
        (equal_first (map (addr_order a) es) (below_greater x.address es b (start_le same)))
    where
      start_le : x ≡ e → x.address ≤ a
      start_le same = subst (λ y. y.address ≤ a) (sym same) l
  Descending-Split (x ∷ es) (suc i) e (region_on b d) g l h =
      subst (λ o. Split (o ∷ map (addr_order a) es) (suc i))
        (sym (cmp_below a x (omega (arith, Below-get_elem? x.address es i e b g))))
        (less_first (map (addr_order a) es) i (Descending-Split es i e d g l h))

-- in a list of regions apart from each other, the highest first, `try_fixup` finds the region of an address
-- that is not the last of its region
module _ (virt : VirtAddrOps) (search : List (Option Ordering) → Option SearchResult)
    (plain : List Ordering → SearchResult) where
  pub try_fixup_lem :
      (es : List FixupEntry) (i a : ℕ) (e : FixupEntry)
      → IsVirtAddr virt
      → IsSearchOf search plain
      → Canonical es
      → Descending es
      → get_elem? es i ≡ some e
      → e.address ≤ a
      → a < e.address + e.len
      → try_fixup virt search es a ≡ some (some i)
  unfolding try_fixup
  try_fixup_lem es i a e addr law c d g l h =
      rw (try_fixup, addresses_compare virt addr a es c, law.agrees, ◌>>=◌)
        (looked (plain (map (addr_order a) es)) refl (Descending-Split a es i e d g l h))
    where
      answer : SearchResult → Option (Option ℕ)
      answer r = elim r [ found j ↦ some (some j) | missing j ↦ some none ]

      looked :
          (r : SearchResult)
          → plain (map (addr_order a) es) ≡ r
          → Split (map (addr_order a) es) i
          → answer (plain (map (addr_order a) es)) ≡ some (some i)
      looked (found j) q s = rw (q) (
          ap (λ k. some (some k))
            (s.only j (law.binary.found_equal (map (addr_order a) es) j s.parts q)))
      looked (missing j) q s = elim (Bool-cases (ltb i j)) [
        | inl t ↦ absurd (
            cc (
              law.binary.missing_place (map (addr_order a) es) j i equal s.parts q s.here,
              ap (λ b. if b then less else greater) t,
            ))
        | inr t ↦ absurd (
            cc (
              law.binary.missing_place (map (addr_order a) es) j i equal s.parts q s.here,
              ap (λ b. if b then less else greater) t,
            ))
      ]

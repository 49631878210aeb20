-- ===== src/Mem/VirtFixup/Compare.antt =====
-- kernel/src/mem/virt_fixup.rs: how regions and addresses compare where no sum of addresses panics.
use mathlib.Core.Path.{ap₂}
use hootux.Mem.VirtFixup.{FixupEntry, VirtAddrOps, IsVirtAddr, is_canonical, entry_cmp, addr_cmp}
use hootux.Prelude.Search.{Ordering, less, equal, greater}
use hootux.Prelude.{
  ℕ, zero, suc, Bool, ◌+◌, ◌≡◌, refl, true, false, some, List, [], ◌∷◌, ◌++◌, ◌>>=◌, map, ltb, leb,
  if◌then◌else◌, take, drop,
}

unfoldable pub entry_order : FixupEntry → FixupEntry → Ordering
entry_order self other =
    if leb self.address (other.address + other.len)
    then greater
    else if leb other.address (self.address + self.len)
    then less
    else equal

unfoldable pub addr_order : ℕ → FixupEntry → Ordering
addr_order self other =
    if leb (other.address + other.len) self
    then greater
    else if ltb self other.address
    then less
    else equal

-- Regions whose last addresses are canonical.
pub data Canonical : List FixupEntry → Type 0 where
  no_end : Canonical []
  end_on :
      {e : FixupEntry} {es : List FixupEntry}
      → is_canonical (e.address + e.len) ≡ true
      → Canonical es
      → Canonical (e ∷ es)

pub Canonical-inserted :
    (entry : FixupEntry) (i : ℕ) (es : List FixupEntry)
    → is_canonical (entry.address + entry.len) ≡ true
    → Canonical es
    → Canonical (take i es ++ (entry ∷ drop i es))
Canonical-inserted entry zero es h c = end_on h c
Canonical-inserted entry (suc i) [] h c = end_on h no_end
Canonical-inserted entry (suc i) (e ∷ es) h (end_on k c) =
    end_on k (Canonical-inserted entry i es h c)

some_branch :
    (b c : Bool) (x y z : Ordering)
    → (if b then some x else if c then some y else some z)
      ≡ some (if b then x else if c then y else z)
some_branch true c x y z = refl
some_branch false true x y z = refl
some_branch false false x y z = refl

module _ (virt : VirtAddrOps) (law : IsVirtAddr virt) where
  entry_cmp-order :
      (e entry : FixupEntry)
      → is_canonical (e.address + e.len) ≡ true
      → is_canonical (entry.address + entry.len) ≡ true
      → entry_cmp virt e entry ≡ some (entry_order e entry)
  unfolding entry_cmp entry_order
  entry_cmp-order e entry h k =
      let there = law.plus_fits entry.address entry.len k in
      let here = law.plus_fits e.address e.len h in
      rw (there, here, ◌>>=◌) (some_branch _ _ greater less equal)

  addr_cmp-order :
      (a : ℕ) (e : FixupEntry)
      → is_canonical (e.address + e.len) ≡ true
      → addr_cmp virt a e ≡ some (addr_order a e)
  unfolding addr_cmp addr_order
  addr_cmp-order a e h =
      let here = law.plus_fits e.address e.len h in
      rw (here, ◌>>=◌) (some_branch _ _ greater less equal)

  pub entries_compare :
      (entry : FixupEntry) (es : List FixupEntry)
      → is_canonical (entry.address + entry.len) ≡ true
      → Canonical es
      → map (λ e. entry_cmp virt e entry) es ≡ map some (map (λ e. entry_order e entry) es)
  entries_compare entry [] k c = refl
  entries_compare entry (e ∷ es) k (end_on h c) =
      ap₂ (λ o os. o ∷ os) (entry_cmp-order e entry h k) (entries_compare entry es k c)

  pub addresses_compare :
      (a : ℕ) (es : List FixupEntry)
      → Canonical es
      → map (addr_cmp virt a) es ≡ map some (map (addr_order a) es)
  addresses_compare a [] c = refl
  addresses_compare a (e ∷ es) (end_on h c) =
      ap₂ (λ o os. o ∷ os) (addr_cmp-order a e h) (addresses_compare a es c)

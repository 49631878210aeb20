-- ===== src/Mem/VirtFixup.antt =====
-- kernel/src/mem/virt_fixup.rs: the regions in which a page fault is answered by mapping a page. The binary
-- search of the standard library is `search`, which finds its place by how each element compares. `VirtAddr` of
-- the crate x86_64 is a parameter. `none` is a panic.
pub mod Compare
pub mod Lookup
pub mod Insert
pub mod Separate
mod Tests
use hootux.Prelude.Search.{Ordering, less, equal, greater, SearchResult, found, missing, nat_cmp}
use hootux.Prelude.{
  ℕ, zero, suc, ◌+◌, ◌-◌, ◌^◌, Bool, true, false, Option, none, some, List, [], ◌∷◌, map, ltb, leb,
  ◌==◌, ◌||◌, ◌&&◌, ◌≡◌, if◌then◌else◌, ◌>>=◌, take, drop, ◌++◌, get_elem?, sub64, bits_and,
}

-- `FixupEntry`
pub record FixupEntry : Type 0 where
  pub address : ℕ
  pub len : ℕ
  pub fixup_remain : ℕ
  pub page_size : ℕ
  pub clear_when_fixed : Bool

-- `VirtAddr::new` of the crate x86_64, and the sum of an address and a number
pub record VirtAddrOps : Type 0 where
  pub new_addr : ℕ → Option ℕ
  pub plus : ℕ → ℕ → Option ℕ

-- the addresses whose upper 17 bits are the same
unfoldable pub is_canonical : ℕ → Bool
is_canonical a = ltb a (2 ^ 47) || (leb (2 ^ 64 - 2 ^ 47) a && ltb a (2 ^ 64))

-- What is documented of `VirtAddr`: nothing panics that makes a canonical address.
pub record IsVirtAddr (virt : VirtAddrOps) : Type 0 where
  pub new_fits : (a : ℕ) → is_canonical a ≡ true → virt.new_addr a ≡ some a
  pub plus_fits : (a n : ℕ) → is_canonical (a + n) ≡ true → virt.plus a n ≡ some (a + n)

-- `FixupEntry::cmp`, and `partial_cmp`, which is the same
unfoldable pub entry_cmp : VirtAddrOps → FixupEntry → FixupEntry → Option Ordering
entry_cmp virt self other = virt.plus other.address other.len >>= λ other_end.
    if leb self.address other_end
    then some greater
    else (virt.plus self.address self.len >>= λ self_end.
        if leb other.address self_end then some less else some equal)

-- `VirtAddr::partial_cmp` with a `FixupEntry`
unfoldable pub addr_cmp : VirtAddrOps → ℕ → FixupEntry → Option Ordering
addr_cmp virt self other = virt.plus other.address other.len >>= λ other_end.
    if leb other_end self
    then some greater
    else if ltb self other.address
    then some less
    else some equal

-- `!page_size - 1 & addr`, the address that `FixupEntry::fixup` returns
unfoldable pub fixup_address : ℕ → ℕ → ℕ
fixup_address page_size addr = bits_and 64 (sub64 (2 ^ 64 - 1 - page_size) 1) addr

-- `FixupEntry::fixup`: the entry, and the address of the page
unfoldable pub fixup : FixupEntry → ℕ → FixupEntry × ℕ
unfolding fixup_address
fixup e addr =
    (record e { fixup_remain = sub64 e.fixup_remain e.page_size }, fixup_address e.page_size addr)

-- the page sizes of x86-64
unfoldable pub is_page_size : ℕ → Bool
is_page_size n = (n == 0x1000 || n == 0x200000) || n == 0x40000000

module _ (virt : VirtAddrOps) (search : List (Option Ordering) → Option SearchResult) where
  -- `FixupList::insert`, and whether it returns `Ok`; it panics for another page size.
  unfoldable pub insert : List FixupEntry → ℕ → ℕ → ℕ → Bool → Option (List FixupEntry × Bool)
  unfolding is_page_size entry_cmp
  insert list address len page_size shrinkable =
      if is_page_size page_size
      then (virt.new_addr address >>= λ a.
          let entry : FixupEntry = record {
            address = a;
            len = sub64 len 1;
            fixup_remain = 0;
            page_size = page_size;
            clear_when_fixed = if shrinkable then false else true;
          } in
          search (map (λ e. entry_cmp virt e entry) list) >>= λ r. elim r [
            | found i ↦ some (list, false)
            | missing i ↦ some (take i list ++ (entry ∷ drop i list), true)
          ])
      else none

  -- `FixupList::try_fixup`: the index of the region
  unfoldable pub try_fixup : List FixupEntry → ℕ → Option (Option ℕ)
  unfolding addr_cmp
  try_fixup list address = search (map (addr_cmp virt address) list) >>= λ r. elim r [
    | found i ↦ some (some i)
    | missing i ↦ some none
  ]

  -- `FixupList::remove`, and whether it returns `Ok`
  unfoldable pub remove : List FixupEntry → ℕ → Option (List FixupEntry × Bool)
  unfolding nat_cmp
  remove list address = search (map (λ e. some (nat_cmp e.address address)) list) >>= λ r. elim r [
    | found i ↦ some (take i list ++ drop (i + 1) list, true)
    | missing i ↦ some (list, false)
  ]

-- the bookkeeping of `CachedFixup::fixup` for the region at an index, and the address of the page that it maps
unfoldable pub cached_fixup : List FixupEntry → ℕ → ℕ → Option (List FixupEntry × ℕ)
unfolding fixup
cached_fixup list index address = get_elem? list index >>= λ e.
    let (counted, page) = fixup e address in
    let left = sub64 counted.fixup_remain e.page_size in
    some (
      (if left == 0
          then (if e.clear_when_fixed
              then take index list ++ drop (index + 1) list
              else take index list
                ++ (record counted { fixup_remain = left } ∷ drop (index + 1) list))
          else take index list ++ (record counted { fixup_remain = left } ∷ drop (index + 1) list)),
      page,
    )

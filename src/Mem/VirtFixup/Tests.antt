-- ===== src/Mem/VirtFixup/Tests.antt =====
-- kernel/src/mem/virt_fixup.rs, run with a search that goes from the front to the back.
use hootux.Mem.VirtFixup.{
  FixupEntry, VirtAddrOps, IsVirtAddr, is_canonical, entry_cmp, addr_cmp, is_page_size, insert,
  try_fixup, remove, fixup_address, fixup, cached_fixup,
}
use hootux.Mem.VirtFixup.Lookup.{all_below, one_below, Descending, no_region, region_on}
use hootux.Mem.VirtFixup.Separate.{apart_all, apart_from, try_fixup-insert}
use hootux.Mem.VirtFixup.Compare.{Canonical, no_end, end_on}
use hootux.Mem.VirtFixup.Insert.{new_entry, insert_accepts}
use hootux.Prelude.Search.{nat_cmp, linear, from_front, from_front-IsSearchOf}
use hootux.Prelude.{
  ℕ, ◌+◌, Option, if◌then◌else◌, ◌≡◌, refl, true, false, none, some, List, [], ◌∷◌, ◌++◌, get_elem?,
  take, drop, bits_and, ◌^◌, ◌-◌, arith, inl, inr,
}

-- canonical addresses only
abbrev checked : ℕ → Option ℕ
checked a = if is_canonical a then some a else none

abbrev virt : VirtAddrOps
virt = record { new_addr = checked; plus = λ a n. checked (a + n) }

checked-fits : (a : ℕ) → is_canonical a ≡ true → checked a ≡ some a
checked-fits a h = rw (h) refl

virt-IsVirtAddr : IsVirtAddr virt
virt-IsVirtAddr = record { new_fits = checked-fits; plus_fits = λ a n. checked-fits (a + n) }

abbrev high : FixupEntry
high = record {
  address = 0x9000;
  len = 0xfff;
  fixup_remain = 0;
  page_size = 0x1000;
  clear_when_fixed = false;
}

abbrev low : FixupEntry
low = record {
  address = 0x4000;
  len = 0x1fff;
  fixup_remain = 0;
  page_size = 0x1000;
  clear_when_fixed = false;
}

abbrev regions : List FixupEntry
regions = high ∷ low ∷ []

regions-Canonical : Canonical regions
unfolding is_canonical
regions-Canonical = end_on refl (end_on refl no_end)

regions-Descending : Descending regions
regions-Descending = region_on (one_below (omega arith) all_below) (region_on all_below no_region)

found_inside : try_fixup virt from_front regions 0x5123 ≡ some (some 1)
unfolding try_fixup addr_cmp is_canonical
found_inside = refl

-- the last byte of a region is not found
try_fixup_last : try_fixup virt from_front regions 0x5fff ≡ some none
unfolding try_fixup addr_cmp is_canonical
try_fixup_last = refl

small_page : is_page_size 0x1000 ≡ true
unfolding is_page_size
small_page = refl

canonical_start : is_canonical 0x4000 ≡ true
unfolding is_canonical
canonical_start = refl

canonical_end : is_canonical (0x4000 + 0xfff) ≡ true
unfolding is_canonical
canonical_end = refl

-- a region of no bytes panics: its last address is not canonical
insert_empty : insert virt from_front regions 0x4000 0 0x1000 true ≡ none
unfolding insert entry_cmp is_canonical is_page_size
insert_empty = refl

-- a region inside another is put in the list
insert_accepts_example :
    (i : ℕ) × (insert virt from_front regions 0x4000 0x1000 0x1000 true
      ≡ some (take i regions ++ (new_entry 0x4000 0x1000 0x1000 true ∷ drop i regions), true))
insert_accepts_example =
    insert_accepts virt from_front linear regions 0x4000 0x1000 0x1000 true virt-IsVirtAddr
      from_front-IsSearchOf regions-Descending regions-Canonical small_page canonical_start
      canonical_end

-- `remove` expects the lowest region first: this search does not find the lower of two
remove_low : remove virt from_front regions 0x4000 ≡ some (regions, false)
unfolding remove nat_cmp
remove_low = refl

between_start : is_canonical 0x7000 ≡ true
unfolding is_canonical
between_start = refl

between_end : is_canonical (0x7000 + 0xfff) ≡ true
unfolding is_canonical
between_end = refl

abbrev between : FixupEntry
between = new_entry 0x7000 0x1000 0x1000 true

try_fixup-insert_example :
    (i : ℕ) × (list : List FixupEntry) × (insert virt from_front regions 0x7000 0x1000 0x1000 true
      ≡ some (list, true))
    × Descending list
    × (get_elem? list i ≡ some between)
    × (try_fixup virt from_front list 0x7ffe ≡ some (some i))
try_fixup-insert_example =
    try_fixup-insert virt from_front linear regions 0x7000 0x1000 0x1000 0x7ffe true virt-IsVirtAddr
      from_front-IsSearchOf regions-Descending regions-Canonical small_page between_start
      between_end (apart_from (inl (omega arith)) (apart_from (inr (omega arith)) apart_all))
      (omega arith) (omega arith)

-- bit 12 of the address is cleared, not the bits below it
fixup_address-odd : fixup_address 0x1000 0x5123 ≡ 0x4122
unfolding fixup_address bits_and
fixup_address-odd = refl

-- a region of one page that is to be cleared when it is fixed stays in the list
cached_fixup-stays :
    cached_fixup
      (record {
        address = 0x4000;
        len = 0xfff;
        fixup_remain = 0;
        page_size = 0x1000;
        clear_when_fixed = true;
      }
        ∷ [])
      0
      0x4000
    ≡ some (
      record {
        address = 0x4000;
        len = 0xfff;
        fixup_remain = 2 ^ 64 - 0x2000;
        page_size = 0x1000;
        clear_when_fixed = true;
      }
          ∷ [],
      0x4000,
    )
unfolding cached_fixup fixup fixup_address bits_and
cached_fixup-stays = refl

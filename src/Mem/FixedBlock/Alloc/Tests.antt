-- ===== src/Mem/FixedBlock/Alloc/Tests.antt =====
-- The fixed block allocator over 4096 bytes at 0x10000, and over a superior allocator that gives
-- one page.
use hootux.Prelude.{
  ℕ, ◌+◌, ◌-◌, ◌%◌, ◌<◌, ◌≤◌, ◌≡◌, ◌⊎◌, refl, Option, some, [], ◌∷◌, Result, ok, err, arith,
  replicate, set,
}
use hootux.Mem.FixedBlock.{
  Layout, RawLinkedList, FixedBlockInner, add, is_empty, fetch, new, get_block_index, add_blocks,
  first_filled, crack, deallocate, force_dealloc,
}
use hootux.Mem.FixedBlock.Alloc.{Superior, count_call, init, allocate_at, allocate}
use hootux.Mem.FixedBlock.Bytes.{free_at, inside}
use hootux.Mem.FixedBlock.Shape.{IsValid}
use hootux.Mem.FixedBlock.Crack.{IsFilled, NoneAbove, crack_lem}
use hootux.Mem.FixedBlock.Deallocate.{deallocate_lem}
use hootux.Mem.FixedBlock.Release.{force_dealloc_lem}
use hootux.Mem.FixedBlock.Alloc.Progress.{allocate_lem}

abbrev one_page : Layout → FixedBlockInner → ℕ → Option (ℕ × FixedBlockInner × ℕ)
one_page layout s t = some (0x20000, s, t)

-- mapping the page gives a block of 32 bytes back to this allocator
abbrev put_back : ℕ → FixedBlockInner → ℕ → FixedBlockInner × ℕ
put_back p s t =
    (record s { list_heads = set s.list_heads 2 (record { len = 1; head = 0x30000 ∷ [] }) }, t + 1)

one_page_aligned :
    (layout : Layout) (s : FixedBlockInner) (t : ℕ) {p : ℕ} {s' : FixedBlockInner} {t' : ℕ}
    → one_page layout s t ≡ some (p, s', t')
    → p % 4096 ≡ 0
one_page_aligned layout s t {p} e = let e' : p ≡ 0x20000 = cc in omega (arith, e')

one_page_in_range :
    (layout : Layout) (s : FixedBlockInner) (t : ℕ) {p : ℕ} {s' : FixedBlockInner} {t' : ℕ}
    → one_page layout s t ≡ some (p, s', t')
    → (0 < p) × (p + 4096 < 18446744073709551616)
one_page_in_range layout s t {p} e = let e' : p ≡ 0x20000 = cc in omega (arith, e')

abbrev pages : Superior
pages = record {
  State = ℕ;
  virt_allocate = one_page;
  map_page = put_back;
  page_aligned = one_page_aligned;
  page_in_range = one_page_in_range;
}

abbrev none_list : RawLinkedList
none_list = record { len = 0; head = [] }

-- The state after `init` with 4096 bytes at 0x10000.
abbrev ready : FixedBlockInner
ready = record {
  list_heads =
      none_list
      ∷ none_list
      ∷ none_list
      ∷ none_list
      ∷ none_list
      ∷ none_list
      ∷ none_list
      ∷ none_list
      ∷ record { len = 2; head = 0x10800 ∷ 0x10000 ∷ [] }
      ∷ [];
  start = 0x10000;
  alloc_count = 0;
}

abbrev spent : FixedBlockInner
spent = record { list_heads = replicate 9 none_list; start = 0x10000; alloc_count = 7 }

init_runs : init new 0x10000 ≡ some ready
unfolding init new add
init_runs = refl

crack_runs :
    crack ready 7
    ≡ some (
      ok tt,
      record ready {
        list_heads =
            none_list
            ∷ none_list
            ∷ none_list
            ∷ none_list
            ∷ none_list
            ∷ none_list
            ∷ none_list
            ∷ record { len = 2; head = 0x10C00 ∷ 0x10800 ∷ [] }
            ∷ record { len = 1; head = 0x10000 ∷ [] }
            ∷ [];
      },
    )
unfolding crack first_filled is_empty fetch add add_blocks
crack_runs = refl

allocate_runs_dry :
    allocate pages spent 0 (record { size = 3000; align = 8 })
    ≡ some (err tt, record spent { alloc_count = 8 }, 0)
unfolding allocate allocate_at get_block_index
allocate_runs_dry = refl

ready-IsValid : IsValid ready
ready-IsValid = omega arith

spent-IsValid : IsValid spent
spent-IsValid = omega arith

crack_lem_example :
    (out : Result (Unit {0}) (Unit {0}) × FixedBlockInner) × (crack ready 4 ≡ some out)
    × IsValid out.1
    × ((b : ℕ) → free_at out.1 b ≡ free_at ready b)
    × (((out.0 ≡ ok tt) × IsFilled 4 out.1)
        ⊎ ((out.0 ≡ err tt) × (out.1 ≡ ready) × NoneAbove 4 ready))
crack_lem_example = crack_lem ready 4 ready-IsValid (omega arith)

deallocate_lem_example :
    (s' : FixedBlockInner) × (deallocate ready 0x30040 (record { size = 40; align = 8 }) ≡ some s')
    × IsValid s'
    × ((b : ℕ) → free_at s' b ≡ free_at ready b + inside 0x30040 64 b)
unfolding get_block_index
deallocate_lem_example =
    deallocate_lem ready 0x30040 3 64 (record { size = 40; align = 8 }) ready-IsValid (omega arith)
      refl refl (omega arith) (omega arith) (omega arith) refl

force_dealloc_lem_example :
    (s' : FixedBlockInner) × (force_dealloc ready 0x30000 (record { size = 5003; align = 8 })
      ≡ some s')
    × IsValid s'
    × ((b : ℕ) → free_at s' b ≡ free_at ready b + inside 0x30000 (5003 - 5003 % 8) b)
force_dealloc_lem_example =
    force_dealloc_lem ready 0x30000 (record { size = 5003; align = 8 }) ready-IsValid (omega arith)
      (omega arith) refl

-- what mapping the page leaves
abbrev reclaimed : FixedBlockInner
reclaimed = (put_back 0x20000 (count_call spent) 0).0

reclaimed-IsValid : IsValid reclaimed
reclaimed-IsValid = omega arith

allocate_lem_example :
    (addr : ℕ) × (z : ℕ) × (s' : FixedBlockInner) × (u : ℕ) × (allocate pages spent 0
        (record { size = 100; align = 16 })
      ≡ some (ok (addr, z), s', u))
    × IsValid s'
    × (100 ≤ z)
    × (16 ≤ z)
    × (addr % z ≡ 0)
    × (((b : ℕ) → free_at spent b ≡ free_at s' b + inside addr z b)
        ⊎ ((b : ℕ) → free_at reclaimed b + inside 0x20000 4096 b ≡ free_at s' b + inside addr z b))
unfolding get_block_index
allocate_lem_example =
    allocate_lem pages 0 0 1 spent (count_call spent) reclaimed 0x20000
      (record { size = 100; align = 16 }) 4 refl refl reclaimed-IsValid spent-IsValid (omega arith)
      refl

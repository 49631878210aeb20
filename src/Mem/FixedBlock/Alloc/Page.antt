-- ===== src/Mem/FixedBlock/Alloc/Page.antt =====
-- What one page of the superior allocator becomes on the lists of fixed_size_block.rs.
use mathlib.Core.Path.{subst}
use hootux.Prelude.{
  ℕ, ◌+◌, ◌%◌, ◌<◌, ◌≡◌, ◌∙◌, sym, refl, Bool, true, false, some, [], ◌∷◌, get_elem?,
  get_elem?_bound, get_elem?-set_self, set, arith, add64, eq_of_some,
}
use hootux.Mem.FixedBlock.{
  RawLinkedList, FixedBlockInner, add, is_empty, is_empty_head, block_sizes, get_block_index,
  deallocate, release_while, force_dealloc,
}
use hootux.Mem.FixedBlock.Alloc.{page_layout}
use hootux.Mem.FixedBlock.Shape.{IsValid, Fits-lookup}
use hootux.Mem.FixedBlock.Crack.{IsFilled}
use hootux.Mem.FixedBlock.ReleaseLoop.{release_while_done, release_while_more}
use hootux.Mem.FixedBlock.Release.{release_sizes_full}

deallocate_largest :
    (s : FixedBlockInner) (ptr : ℕ) (l : RawLinkedList)
    → get_elem? s.list_heads 8 ≡ some l
    → deallocate s ptr (record { size = 2048; align = 1 })
      ≡ some (record s { list_heads = set s.list_heads 8 (add l ptr) })
unfolding deallocate get_block_index
deallocate_largest s ptr l h = rw h

-- The two blocks that a page gives.
abbrev paged : FixedBlockInner → ℕ → RawLinkedList → FixedBlockInner
paged s page l = record s {
  list_heads =
      set (set s.list_heads 8 (add l (add64 page 0))) 8
        (add (add l (add64 page 0)) (add64 page 2048));
}

release_page :
    (s : FixedBlockInner) (page : ℕ) (l : RawLinkedList)
    → 0 < page
    → page + 4096 < 18446744073709551616
    → get_elem? s.list_heads 8 ≡ some l
    → release_while 4097 page 4096 2048 0 s ≡ some (4096, paged s page l)
release_page s page l pos fits h =
    let s1 : FixedBlockInner = record s {
      list_heads = set s.list_heads 8 (add l (add64 page 0));
    } in
    release_while_more 4096 page 4096 2048 0 2048 s s1 refl (ground arith)
      (deallocate_largest s (add64 page 0) l h) refl
      (release_while_more 4095 page 4096 2048 2048 4096 s1 (paged s page l) refl (ground arith)
        (deallocate_largest s1 (add64 page 2048) (add l (add64 page 0)) (
          get_elem?-set_self s.list_heads 8 (add l (add64 page 0))
            (get_elem?_bound s.list_heads 8 h)))
        refl (release_while_done 4094 page 4096 2048 4096 (paged s page l) refl))

force_dealloc_page :
    (s : FixedBlockInner) (page : ℕ) (l : RawLinkedList)
    → 0 < page
    → page + 4096 < 18446744073709551616
    → page % 8 ≡ 0
    → get_elem? s.list_heads 8 ≡ some l
    → force_dealloc s page page_layout ≡ some (paged s page l)
unfolding force_dealloc
force_dealloc_page s page l pos fits aligned at = rw aligned (
    release_sizes_full 2048 page 4096 0 4096 (1024 ∷ 512 ∷ 256 ∷ 128 ∷ 64 ∷ 32 ∷ 16 ∷ 8 ∷ []) s
      (paged s page l) (release_page s page l pos fits at) refl)

paged-IsFilled :
    (s : FixedBlockInner) (page : ℕ) (l : RawLinkedList)
    → get_elem? s.list_heads 8 ≡ some l
    → IsFilled 8 (paged s page l)
unfolding add is_empty is_empty_head
paged-IsFilled s page l at =
    let l1 = add l (add64 page 0) in
    let lists = set s.list_heads 8 l1 in
    let at1 = get_elem?-set_self s.list_heads 8 l1 (get_elem?_bound s.list_heads 8 at) in
    let l2 = add l1 (add64 page 2048) in
    (l2, get_elem?-set_self lists 8 l2 (get_elem?_bound lists 8 at1), refl)

pub clash : {b : Bool} → b ≡ true → b ≡ false → ⊥
clash h k = cc

pub page-IsFilled :
    (s : FixedBlockInner) (page : ℕ) {s' : FixedBlockInner}
    → IsValid s
    → 0 < page
    → page + 4096 < 18446744073709551616
    → page % 8 ≡ 0
    → force_dealloc s page page_layout ≡ some s'
    → IsFilled 8 s'
page-IsFilled s page {s'} v pos fits aligned e =
    let (_, l, _, at) = Fits-lookup block_sizes s.list_heads 8 v (omega arith) in
    let e' : some (paged s page l) ≡ some s' =
      sym (force_dealloc_page s page l pos fits aligned at) ∙ e in
    subst IsFilled8 (eq_of_some e') (paged-IsFilled s page l at)
  where
    IsFilled8 : FixedBlockInner → Type 0
    IsFilled8 x = IsFilled 8 x

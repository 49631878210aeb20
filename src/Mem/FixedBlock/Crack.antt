-- ===== src/Mem/FixedBlock/Crack.antt =====
-- `crack` of fixed_size_block.rs: what it searches, what it keeps, and that it frees no byte and
-- loses none.
use mathlib.Core.Path.{subst, sym, ap₂}
use native.Mathlib.Nat.{div-add-mod}
use hootux.Prelude.{
  ℕ, ◌+◌, ◌-◌, ◌*◌, ◌/◌, ◌%◌, ◌<◌, ◌≤◌, ◌≡◌, ◌∙◌, refl, ap, true, false, none, some, get_elem?,
  get_elem?-drop, set, drop, Result, ok, err, arith, inl, inr, ◌⊎◌, get_elem?_bound,
  get_elem?-set_self, get_elem?-set_ne, Option-cases,
}
use hootux.Mem.FixedBlock.{
  RawLinkedList, FixedBlockInner, is_empty, fetch, first_filled, add_blocks, block_sizes, crack,
  crack_at,
}
use hootux.Mem.FixedBlock.Bytes.{cover, free_at, inside, covers-set, cover-add_blocks}
use hootux.Mem.FixedBlock.Shape.{
  IsValid, IsGood, Fits-bound, Fits-get, Fits-set, Fits-lookup, fetch-IsGood, add_blocks-IsGood,
}
use hootux.Mem.FixedBlock.Search.{first_filled_lem, first_filled-none, fetch_lem, add_blocks_filled}
use hootux.Mem.FixedBlock.Sizes.{block_sizes_nested}

-- No list above `target` has a block.
abbrev pub NoneAbove : ℕ → FixedBlockInner → Type 0
NoneAbove target s =
    (i : ℕ) (l : RawLinkedList) → target < i → get_elem? s.list_heads i ≡ some l → is_empty l ≡ true

-- The list `target` has a block.
abbrev pub IsFilled : ℕ → FixedBlockInner → Type 0
IsFilled target s =
    (l : RawLinkedList) × (get_elem? s.list_heads target ≡ some l) × (is_empty l ≡ false)

module _ (s : FixedBlockInner) (target from w z a : ℕ) (node goal : RawLinkedList) (v : IsValid s)
    (at_w : get_elem? block_sizes from ≡ some w) (at_node : get_elem? s.list_heads from ≡ some node)
    (got : (fetch node).0 ≡ some a) (at_z : get_elem? block_sizes target ≡ some z)
    (at_goal : get_elem? (set s.list_heads from (fetch node).1) target ≡ some goal)
    (whole : w ≡ z * (w / z)) (small : 8 ≤ z) where
  abbrev cracked : FixedBlockInner
  cracked = record s {
    list_heads = set (set s.list_heads from (fetch node).1) target (add_blocks goal a z (w / z) 0);
  }

  crack_at_runs : crack_at s target (some from) ≡ some (ok tt, cracked)
  unfolding crack_at
  crack_at_runs = rw (at_w, at_node, got, at_z, at_goal)

  region_whole : a % w ≡ 0 → a ≡ z * (w / z * (a / w))
  region_whole aligned =
      let at : w * (a / w) ≡ z * (w / z) * (a / w) = ap (λ k. k * (a / w)) whole in
      omega (arith, div-add-mod a w, at)

  cracked-IsValid : IsValid cracked
  cracked-IsValid =
      let (left, pos, fits, aligned) =
        fetch-IsGood w node (Fits-get block_sizes s.list_heads from v at_w at_node) got in
      let lists_fit = Fits-set block_sizes s.list_heads from w (fetch node).1 v at_w left in
      let e = region_whole aligned in
      let good : IsGood z (add_blocks goal (z * (w / z * (a / w))) z (w / z) 0) =
        add_blocks-IsGood goal (w / z * (a / w)) z (w / z) 0 (omega arith) (omega arith) (
          Fits-get block_sizes (set s.list_heads from (fetch node).1) target lists_fit at_z
            at_goal) in
      Fits-set block_sizes (set s.list_heads from (fetch node).1) target z
        (add_blocks goal a z (w / z) 0) lists_fit at_z
        (subst (λ k. IsGood z (add_blocks goal k z (w / z) 0)) (sym e) good)

  cracked_bytes :
      ((size b : ℕ) → cover size node.head b ≡ inside a size b + cover size (fetch node).1.head b)
      → (b : ℕ) → free_at cracked b ≡ free_at s b
  cracked_bytes split b =
      let (_, _, fits, _) =
        fetch-IsGood w node (Fits-get block_sizes s.list_heads from v at_w at_node) got in
      let same : inside (a + z * 0) (z * (w / z)) b ≡ inside a w b =
        ap₂ (λ k n. inside k n b) (omega arith) (sym whole) in
      omega (
        arith,
        covers-set block_sizes (set s.list_heads from (fetch node).1) target z b goal
            (add_blocks goal a z (w / z) 0) at_z at_goal,
        covers-set block_sizes s.list_heads from w b node (fetch node).1 at_w at_node,
        split w b,
        cover-add_blocks goal a z (w / z) 0 b (omega arith),
        same,
      )

-- One block cut up: the invariant is kept, no byte changes, and the target list is filled.
pub crack_at_lem :
    (s : FixedBlockInner) (target from : ℕ) (node : RawLinkedList)
    → IsValid s
    → target < from
    → from < 9
    → get_elem? s.list_heads from ≡ some node
    → is_empty node ≡ false
    → (s' : FixedBlockInner) × (crack_at s target (some from) ≡ some (ok tt, s'))
      × IsValid s'
      × ((b : ℕ) → free_at s' b ≡ free_at s b)
      × IsFilled target s'
unfolding crack_at
crack_at_lem s target from node v lt bound at full =
    let (w, _, at_w, _) = Fits-lookup block_sizes s.list_heads from v bound in
    let (z, goal, at_z, at_goal) = Fits-lookup block_sizes s.list_heads target v (omega arith) in
    let (a, got, split) = fetch_lem node full in
    let lists = set s.list_heads from (fetch node).1 in
    let filled = add_blocks goal a z (w / z) 0 in
    let at' : get_elem? lists target ≡ some goal =
      get_elem?-set_ne s.list_heads from target (fetch node).1 (omega arith) ∙ at_goal in
    let (small, whole, several) = block_sizes_nested target from lt bound at_z at_w in
    (
      cracked s target from w z a node goal v at_w at got at_z at' whole small,
      crack_at_runs s target from w z a node goal v at_w at got at_z at' whole small,
      cracked-IsValid s target from w z a node goal v at_w at got at_z at' whole small,
      cracked_bytes s target from w z a node goal v at_w at got at_z at' whole small split,
      (
        filled,
        get_elem?-set_self lists target filled (get_elem?_bound lists target at'),
        add_blocks_filled goal a z (w / z) 0 (omega arith),
      ),
    )

crack_none :
    (s : FixedBlockInner) (target : ℕ)
    → first_filled (drop (target + 1) s.list_heads) (target + 1) ≡ none
    → NoneAbove target s
crack_none s target e i l lt at =
    first_filled-none (drop (target + 1) s.list_heads) (target + 1) (i - (target + 1)) e (
      get_elem?-drop (target + 1) s.list_heads (i - (target + 1))
      ∙ ap (get_elem? s.list_heads) (omega arith)
      ∙ at)

-- On a valid allocator `crack` returns; the invariant and the set of free bytes stay as they were.
-- It succeeds with a block on the list `target`, or fails with nothing changed and every list above
-- `target` empty.
pub crack_lem :
    (s : FixedBlockInner) (target : ℕ)
    → IsValid s
    → target < 9
    → (out : Result (Unit {0}) (Unit {0}) × FixedBlockInner) × (crack s target ≡ some out)
      × IsValid out.1
      × ((b : ℕ) → free_at out.1 b ≡ free_at s b)
      × (((out.0 ≡ ok tt) × IsFilled target out.1)
          ⊎ ((out.0 ≡ err tt) × (out.1 ≡ s) × NoneAbove target s))
unfolding crack
crack_lem s target v bound =
    elim (Option-cases (first_filled (drop (target + 1) s.list_heads) (target + 1))) [
      | inl e ↦
          ((err tt, s), rw e (ground arith), v, λ b. refl, inr (refl, refl, crack_none s target e))
      | inr (from, e) ↦
          let (node, le, at, full) =
            first_filled_lem (drop (target + 1) s.list_heads) (target + 1) {j = from} e in
          let at' : get_elem? s.list_heads from ≡ some node =
            ap (get_elem? s.list_heads) (omega arith)
            ∙ sym (get_elem?-drop (target + 1) s.list_heads (from - (target + 1)))
            ∙ at in
          let (s', runs, v', bytes, filled) =
            crack_at_lem s target from node v (omega arith)
              (Fits-bound block_sizes s.list_heads from v at') at' full in
          ((ok tt, s'), rw (e, runs) (ground arith), v', bytes, inl (refl, filled))
    ]

-- ===== src/Mem/HighOrder/Merge.antt =====
-- kernel/src/mem/high_order_alloc.rs: the bytes of the free list after a region is given back.
use mathlib.Core.Path.{subst}
use hootux.Mem.HighOrder.{FreeMem, end, merge, try_merge, insert, free_at}
use hootux.Prelude.{
  ℕ, zero, suc, ◌+◌, ◌^◌, ◌<◌, ◌≡◌, refl, sym, ap, ◌∙◌, inl, inr, Bool, true, false, ◌&&◌, Option,
  none, some, Option-cases, List, [], ◌∷◌, leb, ltb, ◌==◌, ==→eq, if◌then◌else◌, get_elem?, set,
  add64, sub64, arith, >>=-eq-some, eq_of_some,
}

-- 1 for a byte of the region, 0 for any other
pub inside : FreeMem → ℕ → ℕ
inside m byte = if leb m.start byte && ltb byte (m.start + m.len) then 1 else 0

-- how often a byte is free
pub cover : List FreeMem → ℕ → ℕ
cover [] byte = 0
cover (m ∷ list) byte = inside m byte + cover list byte

-- a region that ends inside the address space
unfoldable pub Fits : FreeMem → Type 0
Fits m = m.start + m.len < 2 ^ 64

pub data AllFit : List FreeMem → Type 0 where
  no_region : AllFit []
  one_more : {m : FreeMem} {list : List FreeMem} → Fits m → AllFit list → AllFit (m ∷ list)

range : ℕ → ℕ → ℕ → ℕ
range a l byte = if leb a byte && ltb byte (a + l) then 1 else 0

range_join : (a l k byte : ℕ) → range a (l + k) byte ≡ range a l byte + range (a + l) k byte
unfolding range
range_join a l k byte = ground arith

-- the region that is left where `a` ends at the start of `b`
join :
    (a b : FreeMem)
    → Fits a
    → Fits b
    → end a ≡ b.start
    → (byte : ℕ)
    → inside (record { start = a.start; len = add64 a.len b.len }) byte
      ≡ inside a byte + inside b byte
unfolding inside Fits end range
join a b fa fb e byte =
    ap (λ x. range a.start x byte) {y = a.len + b.len} (omega arith)
    ∙ range_join a.start a.len b.len byte
    ∙ ap (λ x. range a.start a.len byte + range x b.len byte) {x = a.start + a.len} {y = b.start}
        (omega arith)

merged : Bool → Bool → FreeMem → FreeMem → FreeMem × Option FreeMem
merged b c m other =
    if b
    then (record { start = m.start; len = add64 m.len other.len }, none)
    else if c
    then (record { start = other.start; len = add64 other.len m.len }, none)
    else (m, some other)

merged-inside :
    (m other : FreeMem)
    → Fits m
    → Fits other
    → (b c : Bool) → (end m == other.start) ≡ b
    → (end other == m.start) ≡ c
    → (merged b c m other).1 ≡ none
    → (byte : ℕ) → inside (merged b c m other).0 byte ≡ inside m byte + inside other byte
unfolding merged
merged-inside m other fm fo true c t u e byte =
    join m other fm fo (==→eq (end m) other.start t) byte
merged-inside m other fm fo false true t u e byte =
    join other m fo fm (==→eq (end other) m.start u) byte ∙ omega arith
merged-inside m other fm fo false false t u e byte = absurd cc

-- Where both regions end inside the address space and `merge` takes the other region in, a byte is in
-- the merged region as often as in the two regions together.
pub merge-inside :
    (m other : FreeMem)
    → Fits m
    → Fits other
    → (merge m other).1 ≡ none
    → (byte : ℕ) → inside (merge m other).0 byte ≡ inside m byte + inside other byte
unfolding merge merged
merge-inside m other fm fo e byte =
    merged-inside m other fm fo (end m == other.start) (end other == m.start) refl refl e byte

cover-set :
    (list : List FreeMem) (i : ℕ) (b n : FreeMem) (byte : ℕ)
    → get_elem? list i ≡ some b
    → cover (set list i n) byte + inside b byte ≡ cover list byte + inside n byte
unfolding cover
cover-set [] i b n byte e = absurd (ground arith)
cover-set (m ∷ list) zero b n byte e =
    ap (λ x. inside n byte + cover list byte + inside x byte) (sym (eq_of_some e)) ∙ omega arith
cover-set (m ∷ list) (suc i) b n byte e = omega (arith, cover-set list i b n byte e)

cover-insert :
    (list : List FreeMem) (i : ℕ) (r : FreeMem) (byte : ℕ)
    → cover (insert list i r) byte ≡ cover list byte + inside r byte
unfolding cover insert
cover-insert [] zero r byte = omega arith
cover-insert (m ∷ list) zero r byte = omega arith
cover-insert [] (suc i) r byte = omega arith
cover-insert (m ∷ list) (suc i) r byte = omega (arith, cover-insert list i r byte)

all_fit :
    {list : List FreeMem} {b : FreeMem} (i : ℕ) → AllFit list → get_elem? list i ≡ some b → Fits b
all_fit i no_region e = absurd (ground arith)
all_fit zero (one_more f rest) e = subst Fits (eq_of_some e) f
all_fit (suc i) (one_more f rest) e = all_fit i rest e

taken_in : List FreeMem → ℕ → FreeMem × Option FreeMem → Option (List FreeMem)
taken_in list i got = elim got.1 [ none ↦ some (set list i got.0) | some other ↦ none ]

taken_in_lem :
    (list out : List FreeMem) (i : ℕ) (got : FreeMem × Option FreeMem)
    → taken_in list i got ≡ some out
    → (got.1 ≡ none) × (set list i got.0 ≡ out)
unfolding taken_in
taken_in_lem list out i (n, none) e = (refl, eq_of_some e)
taken_in_lem list out i (n, some other) e = absurd cc

cover-try_merge :
    (list out : List FreeMem) (i : ℕ) (r : FreeMem) (byte : ℕ)
    → AllFit list
    → Fits r
    → try_merge list i r ≡ some out
    → cover out byte ≡ cover list byte + inside r byte
unfolding try_merge taken_in
cover-try_merge list out i r byte fits fr e =
    let got = >>=-eq-some (get_elem? list i) (λ b. taken_in list i (merge b r)) e in
    let took = taken_in_lem list out i (merge got.0 r) got.2 in
    ap (λ l. cover l byte) (sym took.1)
    ∙ omega (
      arith,
      cover-set list i got.0 (merge got.0 r).0 byte got.1,
      merge-inside got.0 r (all_fit i fits got.1) fr took.0 byte,
    )

-- Where every region of the free list and the region given back end inside the address space, giving
-- it back, at any place that the search of the list gives, makes each of its bytes free once more, and
-- changes no other byte.
pub free_at_lem :
    (list : List FreeMem) (i : ℕ) (r : FreeMem)
    → AllFit list
    → Fits r
    → (byte : ℕ) → cover (free_at list i r) byte ≡ cover list byte + inside r byte
unfolding free_at
free_at_lem list i r fits fr byte = elim (Option-cases (try_merge list i r)) [
  | inr (out, e) ↦ rw (free_at, e) (cover-try_merge list out i r byte fits fr e)
  | inl e ↦ elim (Option-cases (try_merge list (sub64 i 1) r)) [
    | inr (out, e2) ↦ rw (free_at, e, e2) (cover-try_merge list out (sub64 i 1) r byte fits fr e2)
    | inl e2 ↦ elim (Option-cases (try_merge list (i + 1) r)) [
      | inr (out, e3) ↦ rw (free_at, e, e2, e3) (cover-try_merge list out (i + 1) r byte fits fr e3)
      | inl e3 ↦ rw (free_at, e, e2, e3) (cover-insert list i r byte)
    ]
  ]
]

-- ===== src/Mem/FixedBlock/Shape.antt =====
-- The representation invariant of `FixedBlockInner`: nine lists, every block on list k starts at a
-- multiple of its size, above 0, and ends inside the address space, and each list knows its length.
use native.Mathlib.Nat.{mul-mod_right}
use hootux.Prelude.{
  ℕ, zero, suc, ◌+◌, ◌*◌, ◌%◌, ◌^◌, ◌<◌, ◌≡◌, ◌∙◌, refl, some, List, [], ◌∷◌, length, get_elem?,
  set, add64, add64_exact, arith,
}
use hootux.Mem.FixedBlock.{
  RawLinkedList, FixedBlockInner, add, fetch, fetch_head, add_blocks, block_sizes,
}

abbrev pub Blocks : ℕ → List ℕ → Type 0
Blocks size [] = Unit {0}
Blocks size (a ∷ addrs) =
    (0 < a) × (a + size < 18446744073709551616) × (a % size ≡ 0) × Blocks size addrs

pub record IsGood (size : ℕ) (l : RawLinkedList) : Type 0 where
  pub counted : l.len ≡ length l.head % 2 ^ 64
  pub blocks : Blocks size l.head

abbrev pub Fits : List ℕ → List RawLinkedList → Type 0
Fits [] [] = Unit {0}
Fits [] (l ∷ lists) = ⊥
Fits (size ∷ sizes) [] = ⊥
Fits (size ∷ sizes) (l ∷ lists) = IsGood size l × Fits sizes lists

abbrev pub IsValid : FixedBlockInner → Type 0
IsValid s = Fits block_sizes s.list_heads

pub Fits-get :
    (sizes : List ℕ) (lists : List RawLinkedList) (i : ℕ) {size : ℕ} {l : RawLinkedList}
    → Fits sizes lists
    → get_elem? sizes i ≡ some size
    → get_elem? lists i ≡ some l
    → IsGood size l
Fits-get [] lists i f h k = absurd (ground arith)
Fits-get (z ∷ sizes) [] i f h k = absurd (ground arith)
Fits-get (z ∷ sizes) (x ∷ lists) zero {size} {l} f h k =
    let e : size ≡ z = cc in let e' : l ≡ x = cc in rw (e, e') f.0
Fits-get (z ∷ sizes) (x ∷ lists) (suc i) f h k = Fits-get sizes lists i f.1 h k

pub Fits-set :
    (sizes : List ℕ) (lists : List RawLinkedList) (i size : ℕ) (l : RawLinkedList)
    → Fits sizes lists
    → get_elem? sizes i ≡ some size
    → IsGood size l
    → Fits sizes (set lists i l)
Fits-set [] [] i size l f h g = f
Fits-set [] (x ∷ lists) i size l f h g = absurd f
Fits-set (z ∷ sizes) [] i size l f h g = absurd f
Fits-set (z ∷ sizes) (x ∷ lists) zero size l f h g = let e : z ≡ size = cc in (rw e g, f.1)
Fits-set (z ∷ sizes) (x ∷ lists) (suc i) size l f h g = (f.0, Fits-set sizes lists i size l f.1 h g)

pub Fits-lookup :
    (sizes : List ℕ) (lists : List RawLinkedList) (i : ℕ)
    → Fits sizes lists
    → i < length sizes
    → (size : ℕ) × (l : RawLinkedList) × (get_elem? sizes i ≡ some size)
      × (get_elem? lists i ≡ some l)
Fits-lookup [] lists i f h = absurd (omega arith)
Fits-lookup (z ∷ sizes) [] i f h = absurd f
Fits-lookup (z ∷ sizes) (x ∷ lists) zero f h = (z, x, refl, refl)
Fits-lookup (z ∷ sizes) (x ∷ lists) (suc i) f h = Fits-lookup sizes lists i f.1 (omega arith)

pub Fits-bound :
    (sizes : List ℕ) (lists : List RawLinkedList) (i : ℕ) {l : RawLinkedList}
    → Fits sizes lists
    → get_elem? lists i ≡ some l
    → i < length sizes
Fits-bound [] [] i f h = absurd (ground arith)
Fits-bound [] (x ∷ lists) i f h = absurd f
Fits-bound (z ∷ sizes) [] i f h = absurd f
Fits-bound (z ∷ sizes) (x ∷ lists) zero f h = omega arith
Fits-bound (z ∷ sizes) (x ∷ lists) (suc i) f h = omega (arith, Fits-bound sizes lists i f.1 h)

-- A block that fits may be put on a list.
pub add-IsGood :
    (size a : ℕ) (l : RawLinkedList)
    → 0 < a
    → a + size < 18446744073709551616
    → a % size ≡ 0
    → IsGood size l
    → IsGood size (add l a)
unfolding add
add-IsGood size a l pos fits aligned g = record {
  counted = omega (arith, g.counted);
  blocks = (pos, fits, aligned, g.blocks);
}

fetch_head-IsGood :
    (size len : ℕ) (head : List ℕ) {a : ℕ}
    → len ≡ length head % 2 ^ 64
    → Blocks size head
    → (fetch_head len head).0 ≡ some a
    → IsGood size (fetch_head len head).1
      × (0 < a)
      × (a + size < 18446744073709551616)
      × (a % size ≡ 0)
unfolding fetch_head
fetch_head-IsGood size len [] c bs e = absurd (ground arith)
fetch_head-IsGood size len (x ∷ rest) {a} c bs e =
    let e' : a ≡ x = cc in
    (record { counted = omega arith; blocks = bs.3 }, rw e' bs.0, rw e' bs.1, rw e' bs.2)

-- What `fetch` takes off a list is a block of that list's size.
pub fetch-IsGood :
    (size : ℕ) (l : RawLinkedList) {a : ℕ}
    → IsGood size l
    → (fetch l).0 ≡ some a
    → IsGood size (fetch l).1 × (0 < a) × (a + size < 18446744073709551616) × (a % size ≡ 0)
unfolding fetch
fetch-IsGood size l g e = fetch_head-IsGood size l.len l.head g.counted g.blocks e

-- Cutting a region that starts at a multiple of `size` gives blocks that fit.
pub add_blocks-IsGood :
    (l : RawLinkedList) (q size n block : ℕ)
    → 0 < size * q
    → size * q + size * (block + n) < 18446744073709551616
    → IsGood size l
    → IsGood size (add_blocks l (size * q) size n block)
unfolding add_blocks
add_blocks-IsGood l q size zero block pos fits g = g
add_blocks-IsGood l q size (suc n) block pos fits g =
    let at : add64 (size * q) (size * block) ≡ size * (q + block) =
      add64_exact (size * q) (size * block) (omega arith) ∙ omega arith in
    add_blocks-IsGood (add l (add64 (size * q) (size * block))) q size n (block + 1) pos
      (omega arith)
      (add-IsGood size (add64 (size * q) (size * block)) l (omega arith) (omega arith)
        (rw at (mul-mod_right size (q + block))) g)

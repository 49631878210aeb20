-- ===== src/Ahci/Prdt/Entries.antt =====
-- drivers/ahci/src: the entries of the table of physical regions.
use hootux.Mem.Dma.{PhysicalRegionDescription}
use hootux.Ahci.Prdt.{Entry, set_data_count, data_count_new, entry_new, fill}
use hootux.Prelude.{
  ℕ, zero, suc, ◌+◌, ◌-◌, ◌*◌, ◌/◌, ◌%◌, ◌^◌, ◌<◌, ◌≤◌, ◌≡◌, ◌||◌, true, false, refl, sym, ap, ◌∙◌,
  none, some, List, [], ◌∷◌, ◌++◌, map, ltb, ◌==◌, if◌then◌else◌, ◌>>=◌, length, length-set, set,
  take, bits_or, arith,
}

-- The regions are of an even number of bytes, at most 256 KiB, inside the address space.
pub data Small : List PhysicalRegionDescription → Type 0 where
  all_small : Small []
  small_one :
      {r : PhysicalRegionDescription} {rs : List PhysicalRegionDescription}
      → r.size % 2 ≡ 0
      → 0 < r.size
      → r.size ≤ 0x40000
      → r.addr + r.size < 2 ^ 64
      → Small rs
      → Small (r ∷ rs)

-- the entry that describes a region
unfoldable pub entry_of : PhysicalRegionDescription → Entry
entry_of r = record { base_addr = r.addr; data_count = r.size - 1 }

-- the region that the host adapter reads from an entry
unfoldable pub described : Entry → PhysicalRegionDescription
described e = record { addr = e.base_addr; size = e.data_count % 2 ^ 22 + 1 }

described-entry_of :
    (r : PhysicalRegionDescription) → 0 < r.size → r.size ≤ 0x40000 → described (entry_of r) ≡ r
unfolding described entry_of
described-entry_of r p h = ap (λ n. at r.addr n) {y = r.size} (omega arith)
  where
    at : ℕ → ℕ → PhysicalRegionDescription
    at a n = record { addr = a; size = n }

pub map-described :
    (rs : List PhysicalRegionDescription) → Small rs → map described (map entry_of rs) ≡ rs
map-described [] s = refl
map-described (r ∷ rs) (small_one e p h b s) =
    ap (λ x. x ∷ map described (map entry_of rs)) (described-entry_of r p h)
    ∙ ap (λ xs. r ∷ xs) (map-described rs s)

-- joining a word to 0
bits_or_zero : (width x : ℕ) → x < 2 ^ width → bits_or width 0 x ≡ x
unfolding bits_or
bits_or_zero zero x h = omega arith
bits_or_zero (suc width) x h =
    omega (arith, bits_or_zero width (x / 2) (half x (2 ^ width) (omega (arith, h))))
  where
    half : (a p : ℕ) → a < 2 * p → a / 2 < p
    half a p l = omega arith

data_count_new_lem :
    (n : ℕ) → n % 2 ≡ 0 → 0 < n → n ≤ 0x40000 → data_count_new n ≡ some (some (n - 1))
unfolding data_count_new set_data_count
data_count_new_lem n e p h =
    ap (λ t. if t then some none else (set_data_count 0 n >>= λ x. some (some x)))
      {x = ltb (2 ^ 21) n || n % 2 == 1} {y = false} (ground arith)
    ∙ ap
        (λ t. (if t then (if n == 0 then none else some (bits_or 32 0 (n - 1))) else none) >>= λ x.
          some (some x))
        {x = ltb n (2 ^ 22)} {y = true} (ground arith)
    ∙ ap (λ t. (if t then none else some (bits_or 32 0 (n - 1))) >>= λ x. some (some x))
        {x = n == 0} {y = false} (ground arith)
    ∙ ap (λ x. some (some x)) (bits_or_zero 32 (n - 1) (omega arith))

entry_new_lem :
    (r : PhysicalRegionDescription)
    → r.size % 2 ≡ 0
    → 0 < r.size
    → r.size ≤ 0x40000
    → entry_new r.addr (r.size % 2 ^ 32) ≡ some (some (entry_of r))
unfolding entry_new entry_of
entry_new_lem r e p h =
    ap (entry_new r.addr) {x = r.size % 2 ^ 32} {y = r.size} (omega arith)
    ∙ small (ground arith) (data_count_new_lem r.size e p h)
  where
    small :
        ltb 0x40000 r.size ≡ false
        → data_count_new r.size ≡ some (some (r.size - 1))
        → entry_new r.addr r.size ≡ some (some (entry_of r))
    small t d = rw (entry_new, t, d) refl

-- no entry is made of a region of more than 256 KiB
pub entry_new_large : (start len : ℕ) → 0x40000 < len → entry_new start len ≡ some none
unfolding entry_new
entry_new_large start len h = large (ground arith)
  where
    large : ltb 0x40000 len ≡ true → entry_new start len ≡ some none
    large t = rw (entry_new, t) refl

take-set :
    (i : ℕ) (table : List Entry) (e : Entry)
    → i < length table
    → take (suc i) (set table i e) ≡ take i table ++ (e ∷ [])
take-set i [] e h = absurd (omega arith)
take-set zero (x ∷ table) e h = refl
take-set (suc i) (x ∷ table) e h = ap (λ xs. x ∷ xs) (take-set i table e (omega arith))

append_nil : (xs : List Entry) → xs ++ [] ≡ xs
append_nil [] = refl
append_nil (x ∷ xs) = ap (λ l. x ∷ l) (append_nil xs)

append_assoc : (xs ys zs : List Entry) → (xs ++ ys) ++ zs ≡ xs ++ (ys ++ zs)
append_assoc [] ys zs = refl
append_assoc (x ∷ xs) ys zs = ap (λ l. x ∷ l) (append_assoc xs ys zs)

fill_one :
    (i : ℕ) (r : PhysicalRegionDescription) (rs : List PhysicalRegionDescription)
    (table : List Entry) (e : Entry)
    → ltb i (2 ^ 16) ≡ true
    → entry_new r.addr (r.size % 2 ^ 32) ≡ some (some e)
    → ltb i (length table) ≡ true
    → fill i (r ∷ rs) table ≡ fill (i + 1) rs (set table i e)
unfolding fill
fill_one i r rs table e t n u = rw (fill, t, n, u) refl

-- filling makes an entry of each region and keeps what stands before them
pub fill_lem :
    (i : ℕ) (rs : List PhysicalRegionDescription) (table : List Entry)
    → Small rs
    → i + length rs ≤ length table
    → i + length rs ≤ 2 ^ 16
    → (table' : List Entry) × (fill i rs table ≡ some table')
      × (take (i + length rs) table' ≡ take i table ++ map entry_of rs)
unfolding fill
fill_lem i [] table s h b = (
  table,
  refl,
  ap (λ n. take n table) {x = i + 0} {y = i} (omega arith) ∙ sym (append_nil (take i table)),
)
fill_lem i (r ∷ rs) table (small_one even p le bound s) h b =
    let (table', eq, same) =
      fill_lem (i + 1) rs (set table i (entry_of r)) s
        (omega (arith, length-set table i (entry_of r))) (omega arith) in
    (
      table',
      fill_one i r rs table (entry_of r) (ground arith) (entry_new_lem r even p le) (ground arith)
          ∙ eq,
      ap (λ n. take n table') {y = i + 1 + length rs} (omega arith)
          ∙ same
          ∙ ap (λ n. take n (set table i (entry_of r)) ++ map entry_of rs) {y = suc i} (omega arith)
          ∙ ap (λ xs. xs ++ map entry_of rs) (take-set i table (entry_of r) (omega arith))
          ∙ append_assoc (take i table) (entry_of r ∷ []) (map entry_of rs),
    )

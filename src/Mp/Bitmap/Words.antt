-- ===== src/Mp/Bitmap/Words.antt =====
-- kernel/src/mp/bitmap.rs: the bits of the list after one of its words has changed.
use hootux.Mp.Bitmap.{CpuBMap, resize, word_at, set_word, clear_word, get_word, get}
use hootux.Prelude.{
  ℕ, zero, suc, ◌+◌, ◌-◌, ◌*◌, ◌/◌, ◌%◌, ◌<◌, ◌≡◌, refl, sym, ap, ◌∙◌, ◌≢◌, ◌⊎◌, inl, inr, true,
  false, Bool-cases, some, Option-cases, [], ◌∷◌, ◌++◌, ◌==◌, ==→eq, ==→ne, if◌then◌else◌, length,
  get_elem?, set, get_elem?-set_self, get_elem?-set_ne, replicate, length-append, length-replicate,
  bits_and, bits_or, bits_not, one_shl, one_shl_pos, bit, bit_bound, bit_none, bit-bits_or,
  bit-bits_and, bit-bits_not, bit-one_shl, bit-one_shl_ne, bits_and-one_shl, arith,
}

-- bit `offset` of word `index`, 0 past the end
unfoldable pub bit_at : CpuBMap → ℕ → ℕ → ℕ
unfolding word_at
bit_at map index offset = bit offset (word_at map index)

word_zeros : (k i : ℕ) → word_at (replicate k 0) i ≡ 0
unfolding word_at
word_zeros zero i = refl
word_zeros (suc k) zero = refl
word_zeros (suc k) (suc i) = word_zeros k i

word_pad : (map : CpuBMap) (k i : ℕ) → word_at (map ++ replicate k 0) i ≡ word_at map i
unfolding word_at
word_pad [] k i = word_zeros k i
word_pad (w ∷ map) k zero = refl
word_pad (w ∷ map) k (suc i) = word_pad map k i

pub word_resize : (map : CpuBMap) (n i : ℕ) → word_at (resize map n) i ≡ word_at map i
unfolding resize
word_resize map n i = word_pad map (n - length map) i

pub length-resize : (map : CpuBMap) (n : ℕ) → length map < n → length (resize map n) ≡ n
unfolding resize
length-resize map n h =
    length-append map (replicate (n - length map) 0)
    ∙ ap (λ x. length map + x) (length-replicate (n - length map) 0)
    ∙ omega arith

word_set_self : (map : CpuBMap) (i v : ℕ) → i < length map → word_at (set map i v) i ≡ v
unfolding word_at
word_set_self map i v h = rw (word_at, get_elem?-set_self map i v h)

word_set_ne : (map : CpuBMap) (i j v : ℕ) → i ≢ j → word_at (set map i v) j ≡ word_at map j
unfolding word_at
word_set_ne map i j v h = rw (word_at, get_elem?-set_ne map i j v h)

pub get_word_lem : (k t : ℕ) → k < 64 → get_word k (some t) ≡ (bit k t == 1)
unfolding get_word
get_word_lem k t h = elim (Bool-cases (bit k t == 1)) [
  | inl e ↦
      ap (λ x. if 0 == x then false else true)
        (masked ∙ ap (λ b. b * one_shl k) (==→eq (bit k t) 1 e))
      ∙ nonzero
      ∙ sym e
  | inr e ↦
      ap (λ x. if 0 == x then false else true) {y = 0}
        (masked ∙ ap (λ b. b * one_shl k) (off (==→ne (bit k t) 1 e)) ∙ omega arith)
      ∙ sym e
]
  where
    masked : bits_and 64 t (one_shl k) ≡ bit k t * one_shl k
    masked = bits_and-one_shl 64 k t h

    off : bit k t ≢ 1 → bit k t ≡ 0
    off ne = omega (arith, bit_bound k t)

    nonzero : (if 0 == 1 * one_shl k then false else true) ≡ true
    nonzero = ground (arith, one_shl_pos k)

pub get_lem : (map : CpuBMap) (cpu : ℕ) → get map cpu ≡ (bit_at map (cpu / 64) (cpu % 64) == 1)
unfolding get bit_at word_at get_word
get_lem map cpu = elim (Option-cases (get_elem? map (cpu / 64))) [
  | inl e ↦ rw (word_at, e, bit_none (cpu % 64))
  | inr (t, e) ↦ rw (word_at, e) (get_word_lem (cpu % 64) t (omega arith))
]

-- words and bits of the list after one word has changed
bit-set : (map : CpuBMap) (i k v : ℕ) → i < length map → bit_at (set map i v) i k ≡ bit k v
unfolding bit_at
bit-set map i k v h = ap (bit k) (word_set_self map i v h)

bit-set_ne : (map : CpuBMap) (i j k v : ℕ) → i ≢ j → bit_at (set map i v) j k ≡ bit_at map j k
unfolding bit_at
bit-set_ne map i j k v h = ap (bit k) (word_set_ne map i j v h)

-- a bit that is neither in the word `i` nor at the place `o` of a word
unfoldable pub Apart : ℕ → ℕ → ℕ → ℕ → Type 0
Apart i o j k = (i ≢ j) ⊎ ((i ≡ j) × (k ≢ o))

pub Apart-of_ne : (c d : ℕ) → d ≢ c → Apart (c / 64) (c % 64) (d / 64) (d % 64)
unfolding Apart
Apart-of_ne c d h = elim (Bool-cases (c / 64 == d / 64)) [
  | inl e ↦ inr (==→eq (c / 64) (d / 64) e, λ q. h (omega (arith, q, ==→eq (c / 64) (d / 64) e)))
  | inr e ↦ inl (==→ne (c / 64) (d / 64) e)
]

pub set_word_self :
    (map : CpuBMap) (i o : ℕ) → i < length map → o < 64 → bit_at (set_word map i o) i o ≡ 1
unfolding set_word
set_word_self map i o h k =
    bit-set map i o (bits_or 64 (word_at map i) (one_shl o)) h
    ∙ bit-bits_or 64 o (word_at map i) (one_shl o) k
    ∙ omega (arith, bit_bound o (word_at map i), bit-one_shl o)

pub set_word_other :
    (map : CpuBMap) (i o j k : ℕ)
    → i < length map
    → k < 64
    → Apart i o j k
    → bit_at (set_word map i o) j k ≡ bit_at map j k
unfolding set_word Apart bit_at
set_word_other map i o j k h l (inl ne) =
    bit-set_ne map i j k (bits_or 64 (word_at map i) (one_shl o)) ne
set_word_other map i o j k h l (inr (e, ne)) =
    ap (λ x. bit_at (set_word map i o) x k) (sym e)
    ∙ bit-set map i k (bits_or 64 (word_at map i) (one_shl o)) h
    ∙ bit-bits_or 64 k (word_at map i) (one_shl o) l
    ∙ omega (arith, bit_bound k (word_at map i), bit-one_shl_ne k o ne)
    ∙ ap (λ x. bit_at map x k) e

pub clear_word_self :
    (map : CpuBMap) (i o : ℕ) → i < length map → o < 64 → bit_at (clear_word map i o) i o ≡ 0
unfolding clear_word
clear_word_self map i o h k =
    bit-set map i o (bits_and 64 (word_at map i) (bits_not 64 (one_shl o))) h
    ∙ bit-bits_and 64 o (word_at map i) (bits_not 64 (one_shl o)) k
    ∙ omega (arith, bit_bound o (word_at map i), bit-bits_not 64 o (one_shl o) k, bit-one_shl o)

pub clear_word_other :
    (map : CpuBMap) (i o j k : ℕ)
    → i < length map
    → k < 64
    → Apart i o j k
    → bit_at (clear_word map i o) j k ≡ bit_at map j k
unfolding clear_word Apart bit_at
clear_word_other map i o j k h l (inl ne) =
    bit-set_ne map i j k (bits_and 64 (word_at map i) (bits_not 64 (one_shl o))) ne
clear_word_other map i o j k h l (inr (e, ne)) =
    ap (λ x. bit_at (clear_word map i o) x k) (sym e)
    ∙ bit-set map i k (bits_and 64 (word_at map i) (bits_not 64 (one_shl o))) h
    ∙ bit-bits_and 64 k (word_at map i) (bits_not 64 (one_shl o)) l
    ∙ omega
        (arith, bit_bound k (word_at map i), bit-bits_not 64 k (one_shl o) l, bit-one_shl_ne k o ne)
    ∙ ap (λ x. bit_at map x k) e

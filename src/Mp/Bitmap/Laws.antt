-- ===== src/Mp/Bitmap/Laws.antt =====
-- kernel/src/mp/bitmap.rs: what `get` reads after `set_bit` and `clear_bit`.
use hootux.Mp.Bitmap.Words.{
  get_lem, bit_at, Apart, Apart-of_ne, set_word_self, set_word_other, clear_word_self,
  clear_word_other, word_resize, length-resize,
}
use hootux.Mp.Bitmap.{CpuBMap, resize, set_bit, clear_bit, get}
use hootux.Prelude.{
  ℕ, ◌+◌, ◌/◌, ◌%◌, ◌<◌, ◌≡◌, sym, ap, ◌∙◌, inl, inr, true, false, Bool-cases, ltb, ◌==◌, ==→eq,
  ==→ne, if◌then◌else◌, ltb→lt, le_of_not-ltb, length, bit, arith,
}

-- the bits after `set_bit` and `clear_bit`, whether or not the list had to grow
module _ (map : CpuBMap) (cpu : ℕ) where
  grown : ltb (length map) (cpu / 64 + 1) ≡ true → cpu / 64 < length (resize map (cpu / 64 + 1))
  grown e = omega (arith, length-resize map (cpu / 64 + 1) (ltb→lt (length map) (cpu / 64 + 1) e))

  long : ltb (length map) (cpu / 64 + 1) ≡ false → cpu / 64 < length map
  long e = omega (arith, le_of_not-ltb (length map) (cpu / 64 + 1) e)

  set_bit_self : bit_at (set_bit map cpu) (cpu / 64) (cpu % 64) ≡ 1
  unfolding set_bit
  set_bit_self = elim (Bool-cases (ltb (length map) (cpu / 64 + 1))) [
    | inl e ↦
        rw (e)
          (set_word_self (resize map (cpu / 64 + 1)) (cpu / 64) (cpu % 64) (grown e) (omega arith))
    | inr e ↦ rw (e) (set_word_self map (cpu / 64) (cpu % 64) (long e) (omega arith))
  ]

  clear_bit_self : bit_at (clear_bit map cpu) (cpu / 64) (cpu % 64) ≡ 0
  unfolding clear_bit
  clear_bit_self = elim (Bool-cases (ltb (length map) (cpu / 64 + 1))) [
    | inl e ↦
        rw (e) (
          clear_word_self (resize map (cpu / 64 + 1)) (cpu / 64) (cpu % 64) (grown e) (omega arith))
    | inr e ↦ rw (e) (clear_word_self map (cpu / 64) (cpu % 64) (long e) (omega arith))
  ]

  bit_resize : (j k : ℕ) → bit_at (resize map (cpu / 64 + 1)) j k ≡ bit_at map j k
  unfolding bit_at
  bit_resize j k = ap (bit k) (word_resize map (cpu / 64 + 1) j)

  set_bit_other :
      (j k : ℕ)
      → k < 64
      → Apart (cpu / 64) (cpu % 64) j k
      → bit_at (set_bit map cpu) j k ≡ bit_at map j k
  unfolding set_bit
  set_bit_other j k l a = elim (Bool-cases (ltb (length map) (cpu / 64 + 1))) [
    | inl e ↦ rw (e) (
        set_word_other (resize map (cpu / 64 + 1)) (cpu / 64) (cpu % 64) j k (grown e) l a
        ∙ bit_resize j k)
    | inr e ↦ rw (e) (set_word_other map (cpu / 64) (cpu % 64) j k (long e) l a)
  ]

  clear_bit_other :
      (j k : ℕ)
      → k < 64
      → Apart (cpu / 64) (cpu % 64) j k
      → bit_at (clear_bit map cpu) j k ≡ bit_at map j k
  unfolding clear_bit
  clear_bit_other j k l a = elim (Bool-cases (ltb (length map) (cpu / 64 + 1))) [
    | inl e ↦ rw (e) (
        clear_word_other (resize map (cpu / 64 + 1)) (cpu / 64) (cpu % 64) j k (grown e) l a
        ∙ bit_resize j k)
    | inr e ↦ rw (e) (clear_word_other map (cpu / 64) (cpu % 64) j k (long e) l a)
  ]

  -- After `set_bit` of one CPU, `get` reads true for that CPU, and for any other what it read before.
  pub get-set_bit : (d : ℕ) → get (set_bit map cpu) d ≡ (if d == cpu then true else get map d)
  get-set_bit d = elim (Bool-cases (d == cpu)) [
    | inl e ↦
        ap (get (set_bit map cpu)) (==→eq d cpu e)
        ∙ get_lem (set_bit map cpu) cpu
        ∙ ap (λ b. b == 1) set_bit_self
        ∙ rw (e)
    | inr e ↦
        get_lem (set_bit map cpu) d
        ∙ ap (λ b. b == 1)
            (set_bit_other (d / 64) (d % 64) (omega arith) (Apart-of_ne cpu d (==→ne d cpu e)))
        ∙ sym (get_lem map d)
        ∙ rw (e)
  ]

  -- After `clear_bit` of one CPU, `get` reads false for that CPU, and for any other what it read
  -- before.
  pub get-clear_bit : (d : ℕ) → get (clear_bit map cpu) d ≡ (if d == cpu then false else get map d)
  get-clear_bit d = elim (Bool-cases (d == cpu)) [
    | inl e ↦
        ap (get (clear_bit map cpu)) (==→eq d cpu e)
        ∙ get_lem (clear_bit map cpu) cpu
        ∙ ap (λ b. b == 1) clear_bit_self
        ∙ rw (e)
    | inr e ↦
        get_lem (clear_bit map cpu) d
        ∙ ap (λ b. b == 1)
            (clear_bit_other (d / 64) (d % 64) (omega arith) (Apart-of_ne cpu d (==→ne d cpu e)))
        ∙ sym (get_lem map d)
        ∙ rw (e)
  ]

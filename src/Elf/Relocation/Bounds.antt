-- ===== src/Elf/Relocation/Bounds.antt =====
-- lib/elfload/src/relocation.rs: what `relocate_image` may write to.
use hootux.Elf.Relocation.{
  Memory, Elf64Rela, RelocType, RelocError, written, outside_of_image, unknown_reloc_type,
  RelocSize, u8, u16, u32, u64, RelocCalc, try_from, size, reloc_calc, calc, byte_size, write_bytes,
  write, apply_reloc, relocate_one, relocate_image,
}
use hootux.Elf.Relocation.Bytes.{write_bytes_outside}
use hootux.Prelude.{
  ℕ, ◌+◌, ◌*◌, ◌^◌, ◌<◌, ◌≤◌, ◌≡◌, ◌⊎◌, inl, inr, refl, sym, ap, ◌∙◌, Bool, true, false, Bool-cases,
  ◌&&◌, Option, none, some, eq_of_some, Option-cases, List, [], ◌∷◌, ltb, leb, if◌then◌else◌, ◌>>=◌,
  add64, arith,
}

byte_size_le : (s : RelocSize) → byte_size s ≤ 8
unfolding byte_size
byte_size_le u8 = omega arith
byte_size_le u16 = omega arith
byte_size_le u32 = omega arith
byte_size_le u64 = omega arith

write_outside :
    (s : RelocSize) (mem m : Memory) (tgt value a : ℕ)
    → write s mem tgt value ≡ some m
    → (a < tgt) ⊎ (tgt + 8 ≤ a)
    → m a ≡ mem a
unfolding write
write_outside s mem m tgt value a e h = elim (Bool-cases (ltb value (2 ^ (8 * byte_size s)))) [
  | inl t ↦
      let same : some (write_bytes (byte_size s) mem tgt value) ≡ some m =
        sym (ap (λ b. if b then some (write_bytes (byte_size s) mem tgt value) else none) t) ∙ e in
      ap (λ f. f a) (sym (eq_of_some same))
      ∙ write_bytes_outside (byte_size s) mem tgt value a (ground (arith, byte_size_le s))
  | inr t ↦
      absurd
        (cc (e, ap (λ b. if b then some (write_bytes (byte_size s) mem tgt value) else none) t))
]

-- how a round can return some memory
checked_write :
    (test : Bool) (w : Option Memory) (mem m : Memory) (e : Option RelocError)
    → (if test then (w >>= written) else some (mem, some outside_of_image)) ≡ some (m, e)
    → ((test ≡ true) × (w ≡ some m)) ⊎ (m ≡ mem)
checked_write true none mem m e eq = absurd (cc eq)
checked_write true (some x) mem m e eq = inl (refl, ap (λ p. some p.0) (eq_of_some eq))
checked_write false w mem m e eq = inr (sym (ap (λ p. p.0) (eq_of_some eq)))

far_of :
    (base length tgt a : ℕ)
    → base + length < 2 ^ 64
    → (leb base tgt && ltb tgt (add64 base length)) ≡ true
    → (a < base) ⊎ (base + length + 7 ≤ a)
    → (a < tgt) ⊎ (tgt + 8 ≤ a)
far_of base length tgt a b t h = ground arith

module _ (code : RelocType → ℕ) (base length got plt : ℕ) where
  apply_reloc_outside :
      (mem m : Memory) (i : Elf64Rela) (t : RelocType) (c : RelocCalc) (e : Option RelocError)
      (a : ℕ)
      → base + length < 2 ^ 64
      → (a < base) ⊎ (base + length + 7 ≤ a)
      → apply_reloc code base length got plt mem i t c ≡ some (m, e)
      → m a ≡ mem a
  unfolding apply_reloc
  apply_reloc_outside mem m i t c e a b h eq =
      elim (checked_write (leb base tgt && ltb tgt (add64 base length))
        (write (size t) mem tgt value) mem m e eq) [
          | inl (inside, fits) ↦
              write_outside (size t) mem m tgt value a fits (far_of base length tgt a b inside h)
          | inr same ↦ ap (λ f. f a) same
        ]
    where
      tgt : ℕ
      tgt = add64 base i.r_offset

      value : ℕ
      value = calc c i.r_addend base got plt i.r_offset 0 (byte_size (size t))

  relocate_one_outside :
      (mem m : Memory) (i : Elf64Rela) (e : Option RelocError) (a : ℕ)
      → base + length < 2 ^ 64
      → (a < base) ⊎ (base + length + 7 ≤ a)
      → relocate_one code base length got plt mem i ≡ some (m, e)
      → m a ≡ mem a
  unfolding relocate_one
  relocate_one_outside mem m i e a b h eq = elim (Option-cases (try_from code i)) [
    | inl n ↦
        let unknown : relocate_one code base length got plt mem i
            ≡ some (mem, some unknown_reloc_type) =
          rw (relocate_one, n) refl in
        ap (λ p. p.0 a) (sym (eq_of_some (sym unknown ∙ eq)))
    | inr (t, q) ↦ elim (Option-cases (reloc_calc t)) [
      | inl n ↦
          let unsupported : relocate_one code base length got plt mem i ≡ none =
            rw (relocate_one, q, n) refl in
          absurd (cc (unsupported, eq))
      | inr (c, k) ↦
          let applied : relocate_one code base length got plt mem i
              ≡ apply_reloc code base length got plt mem i t c =
            rw (relocate_one, q, k) refl in
          apply_reloc_outside mem m i t c e a b h (sym applied ∙ eq)
    ]
  ]

  -- nothing below the image, and nothing from the eighth byte past its end on, is written to, whatever the
  -- relocations are
  pub relocate_image_outside :
      (rela : List Elf64Rela) (mem m : Memory) (e : Option RelocError) (a : ℕ)
      → base + length < 2 ^ 64
      → (a < base) ⊎ (base + length + 7 ≤ a)
      → relocate_image code base length got plt mem rela ≡ some (m, e)
      → m a ≡ mem a
  unfolding relocate_image
  relocate_image_outside [] mem m e a b h eq = ap (λ p. p.0 a) (sym (eq_of_some eq))
  relocate_image_outside (i ∷ rela) mem m e a b h eq =
      elim (Option-cases (relocate_one code base length got plt mem i)) [
        | inl n ↦
            let panics : relocate_image code base length got plt mem (i ∷ rela) ≡ none =
              rw (relocate_image, n) refl in
            absurd (cc (panics, eq))
        | inr ((m1, none), q) ↦
            let goes_on : relocate_image code base length got plt mem (i ∷ rela)
                ≡ relocate_image code base length got plt m1 rela =
              rw (relocate_image, q) refl in
            relocate_image_outside rela m1 m e a b h (sym goes_on ∙ eq)
            ∙ relocate_one_outside mem m1 i none a b h q
        | inr ((m1, some x), q) ↦
            let stops : relocate_image code base length got plt mem (i ∷ rela) ≡ some (m1, some x) =
              rw (relocate_image, q) refl in
            ap (λ p. p.0 a) (sym (eq_of_some (sym stops ∙ eq)))
            ∙ relocate_one_outside mem m1 i (some x) a b h q
      ]

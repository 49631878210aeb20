-- ===== src/Elf/Relocation/Relative.antt =====
-- lib/elfload/src/relocation.rs: an image that is relocated by relative relocations only, the kind of a
-- position independent executable.
use hootux.Elf.Relocation.{
  Memory, Elf64Rela, RelocType, relative, reloc_types, first_type, RelocError, outside_of_image,
  written, u64, RelocCalc, default_calc, try_from, size, reloc_calc, calc, byte_size, write_bytes,
  write, apply_reloc, relocate_one, relocate_image,
}
use hootux.Elf.Relocation.Bytes.{
  write_bytes_outside, read_bytes, read_bytes-write_bytes, read_bytes_apart,
}
use hootux.Prelude.{
  ℕ, zero, suc, ◌+◌, ◌%◌, ◌^◌, ◌<◌, ◌≤◌, ◌≡◌, ◌⊎◌, inl, inr, refl, sym, ap, ◌∙◌, true, Bool-cases,
  ==→eq, ◌&&◌, Option, none, some, eq_of_some, List, [], ◌∷◌, ltb, leb, lt→ltb, ◌==◌, if◌then◌else◌,
  ◌>>=◌, get_elem?, add64, arith,
}

-- The field of eight bytes at an offset shares none with the fields of these relocations.
pub data Apart (offset : ℕ) : List Elf64Rela → Type 0 where
  apart_all : Apart offset []
  apart_from :
      {i : Elf64Rela} {rela : List Elf64Rela}
      → (offset + 8 ≤ i.r_offset) ⊎ (i.r_offset + 8 ≤ offset)
      → Apart offset rela
      → Apart offset (i ∷ rela)

-- Relative relocations, their fields inside the image and apart from each other.
pub data Fields (code : RelocType → ℕ) (length : ℕ) : List Elf64Rela → Type 0 where
  no_field : Fields code length []
  one_field :
      {i : Elf64Rela} {rela : List Elf64Rela}
      → i.r_info % 2 ^ 32 ≡ code relative
      → i.r_offset + 8 ≤ length
      → Apart i.r_offset rela
      → Fields code length rela
      → Fields code length (i ∷ rela)

-- An address outside every field.
pub data Untouched (base a : ℕ) : List Elf64Rela → Type 0 where
  untouched_all : Untouched base a []
  untouched_by :
      {i : Elf64Rela} {rela : List Elf64Rela}
      → (a < base + i.r_offset) ⊎ (base + i.r_offset + 8 ≤ a)
      → Untouched base a rela
      → Untouched base a (i ∷ rela)

-- what relative relocations make of memory
relocated : ℕ → Memory → List Elf64Rela → Memory
relocated base mem [] = mem
relocated base mem (i ∷ rela) =
    relocated base (write_bytes 8 mem (base + i.r_offset) (add64 base i.r_addend)) rela

first_type_found :
    (code : RelocType → ℕ) (distinct : (s t : RelocType) → code s ≡ code t → s ≡ t) (info k : ℕ)
    (t : RelocType) (ts : List RelocType)
    → info ≡ code t
    → get_elem? ts k ≡ some t
    → first_type code info ts ≡ some t
unfolding first_type
first_type_found code distinct info k t [] e at = absurd (cc at)
first_type_found code distinct info zero t (s ∷ ts) e at =
    ap (λ b. if b then some s else first_type code info ts) {y = true}
      (same (e ∙ ap code (sym (eq_of_some at))))
    ∙ at
  where
    same : info ≡ code s → (info == code s) ≡ true
    same q = ground arith
first_type_found code distinct info (suc k) t (s ∷ ts) e at = elim (Bool-cases (info == code s)) [
  | inl q ↦
      ap (λ b. if b then some s else first_type code info ts) q
      ∙ ap some (distinct s t (sym (==→eq info (code s) q) ∙ e))
  | inr q ↦
      ap (λ b. if b then some s else first_type code info ts) q
      ∙ first_type_found code distinct info k t ts e at
]

try_from_relative :
    (code : RelocType → ℕ) (distinct : (s t : RelocType) → code s ≡ code t → s ≡ t) (i : Elf64Rela)
    → i.r_info % 2 ^ 32 ≡ code relative
    → try_from code i ≡ some relative
unfolding try_from
try_from_relative code distinct i e =
    first_type_found code distinct (i.r_info % 2 ^ 32) 6 relative reloc_types e refl

write_u64 :
    (mem : Memory) (tgt value : ℕ)
    → value < 2 ^ 64
    → write u64 mem tgt value ≡ some (write_bytes 8 mem tgt value)
unfolding write byte_size
write_u64 mem tgt value h =
    ap (λ b. if b then some (write_bytes 8 mem tgt value) else none) (lt→ltb value (2 ^ 64) h)

abbrev relative_calc : RelocCalc
relative_calc = record default_calc { base = true; addened = true }

supported : reloc_calc relative ≡ some relative_calc
unfolding reloc_calc
supported = refl

calc_relative :
    (addened base got plt offset sym_size : ℕ)
    → calc relative_calc addened base got plt offset 0 sym_size ≡ add64 base addened
unfolding calc
calc_relative addened base got plt offset sym_size = omega arith

module _ (code : RelocType → ℕ) (distinct : (s t : RelocType) → code s ≡ code t → s ≡ t)
    (base length got plt : ℕ) (bound : base + length < 2 ^ 64) where
  apply_reloc_relative :
      (mem : Memory) (i : Elf64Rela)
      → i.r_offset + 8 ≤ length
      → apply_reloc code base length got plt mem i relative relative_calc
        ≡ some (write_bytes 8 mem (base + i.r_offset) (add64 base i.r_addend), none)
  unfolding apply_reloc size
  apply_reloc_relative mem i fits =
      ap (λ v. place (add64 base i.r_offset) v) (calc_relative i.r_addend base got plt i.r_offset 8)
      ∙ ap (λ t. place t (add64 base i.r_addend)) {y = base + i.r_offset} (omega arith)
      ∙ ap
          (λ b.
            if b
            then (write u64 mem (base + i.r_offset) (add64 base i.r_addend) >>= written)
            else some (mem, some outside_of_image))
          {y = true} (ground arith)
      ∙ ap (λ w. w >>= written)
          (write_u64 mem (base + i.r_offset) (add64 base i.r_addend) (omega arith))
    where
      place : ℕ → ℕ → Option (Memory × Option RelocError)
      place tgt value =
          if leb base tgt && ltb tgt (add64 base length)
          then (write u64 mem tgt value >>= written)
          else some (mem, some outside_of_image)

  relocate_one_relative :
      (mem : Memory) (i : Elf64Rela)
      → i.r_info % 2 ^ 32 ≡ code relative
      → i.r_offset + 8 ≤ length
      → relocate_one code base length got plt mem i
        ≡ some (write_bytes 8 mem (base + i.r_offset) (add64 base i.r_addend), none)
  unfolding relocate_one
  relocate_one_relative mem i e fits =
      applied (try_from_relative code distinct i e) supported ∙ apply_reloc_relative mem i fits
    where
      applied :
          try_from code i ≡ some relative
          → reloc_calc relative ≡ some relative_calc
          → relocate_one code base length got plt mem i
            ≡ apply_reloc code base length got plt mem i relative relative_calc
      applied q k =
          rw (relocate_one, q)
            (ap (λ o. o >>= λ c. apply_reloc code base length got plt mem i relative c) k)

  relocate_image-relocated :
      (rela : List Elf64Rela) (mem : Memory)
      → Fields code length rela
      → relocate_image code base length got plt mem rela ≡ some (relocated base mem rela, none)
  unfolding relocate_image relocated
  relocate_image-relocated [] mem f = refl
  relocate_image-relocated (i ∷ rela) mem (one_field e fits apart f) =
      rw (relocate_image, relocate_one_relative mem i e fits) (relocate_image-relocated rela _ f)

relocated-Untouched :
    (base a : ℕ) (rela : List Elf64Rela) (mem : Memory)
    → Untouched base a rela
    → relocated base mem rela a ≡ mem a
unfolding relocated
relocated-Untouched base a [] mem u = refl
relocated-Untouched base a (i ∷ rela) mem (untouched_by h u) =
    relocated-Untouched base a rela (write_bytes 8 mem (base + i.r_offset) (add64 base i.r_addend))
      u
    ∙ write_bytes_outside 8 mem (base + i.r_offset) (add64 base i.r_addend) a h

relocated-Apart :
    (base offset : ℕ) (rela : List Elf64Rela) (mem : Memory)
    → Apart offset rela
    → read_bytes 8 (relocated base mem rela) (base + offset) ≡ read_bytes 8 mem (base + offset)
unfolding relocated
relocated-Apart base offset [] mem u = refl
relocated-Apart base offset (i ∷ rela) mem (apart_from h u) =
    relocated-Apart base offset rela (write_bytes 8 mem (base + i.r_offset) (add64 base i.r_addend))
      u
    ∙ read_bytes_apart 8 8 mem (base + i.r_offset) (add64 base i.r_addend) (base + offset)
        (ground arith)

relocated_field :
    (code : RelocType → ℕ) (base length k : ℕ) (rela : List Elf64Rela) (i : Elf64Rela)
    (mem : Memory)
    → Fields code length rela
    → get_elem? rela k ≡ some i
    → read_bytes 8 (relocated base mem rela) (base + i.r_offset) ≡ add64 base i.r_addend
unfolding relocated
relocated_field code base length k [] i mem f at = absurd (cc at)
relocated_field code base length zero (j ∷ rela) i mem (one_field e fits apart f) at =
    ap (λ r. read_bytes 8 (relocated base start rela) (base + r.r_offset)) (sym (eq_of_some at))
    ∙ relocated-Apart base j.r_offset rela start apart
    ∙ read_bytes-write_bytes 8 mem (base + j.r_offset) (add64 base j.r_addend) (omega arith)
    ∙ ap (λ r. add64 base r.r_addend) (eq_of_some at)
  where
    start : Memory
    start = write_bytes 8 mem (base + j.r_offset) (add64 base j.r_addend)
relocated_field code base length (suc k) (j ∷ rela) i mem (one_field e fits apart f) at =
    relocated_field code base length k rela i
      (write_bytes 8 mem (base + j.r_offset) (add64 base j.r_addend)) f at

-- an image whose relocations are relative, of fields inside the image and apart from each other, is relocated
-- without an error: each field then holds the base plus its addend, and every byte outside the fields is as it
-- was
pub relocate_image_relative :
    (code : RelocType → ℕ) (distinct : (s t : RelocType) → code s ≡ code t → s ≡ t)
    (base length got plt : ℕ) (rela : List Elf64Rela) (mem : Memory) (k a : ℕ) (i : Elf64Rela)
    → base + length < 2 ^ 64
    → Fields code length rela
    → get_elem? rela k ≡ some i
    → Untouched base a rela
    → (m : Memory) × (relocate_image code base length got plt mem rela ≡ some (m, none))
      × (read_bytes 8 m (base + i.r_offset) ≡ add64 base i.r_addend)
      × (m a ≡ mem a)
relocate_image_relative code distinct base length got plt rela mem k a i b f at u = (
  relocated base mem rela,
  relocate_image-relocated code distinct base length got plt b rela mem f,
  relocated_field code base length k rela i mem f at,
  relocated-Untouched base a rela mem u,
)

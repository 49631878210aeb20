-- ===== src/Elf/Relocation/Tests.antt =====
-- lib/elfload/src/relocation.rs, run. The numbers of the types are those of the ABI of x86-64.
use hootux.Elf.Relocation.{
  Memory, Elf64Rela, RelocType, r64, pc32, got32, plt32, glob_dat, jump_slot, relative, gotpcrel,
  r32, r32s, r16, pc16, r8, pc8, pc64, gotoff64, gotpc32, size32, size64, RelocError, reloc_types,
  first_type, try_from, size, reloc_calc, calc, byte_size, write_bytes, write, apply_reloc,
  relocate_one, relocate_image,
}
use hootux.Elf.Relocation.Bytes.{read_bytes}
use hootux.Elf.Relocation.Bounds.{relocate_image_outside}
use hootux.Elf.Relocation.Relative.{
  Fields, no_field, one_field, apart_all, apart_from, untouched_all, untouched_by,
  relocate_image_relative,
}
use hootux.Prelude.{
  ℕ, ◌+◌, ◌≡◌, inl, inr, refl, sym, ap, ◌∙◌, eq_of_some, Option, none, some, List, [], ◌∷◌, add64,
  arith,
}

unfoldable abi : RelocType → ℕ
abi r64 = 1
abi pc32 = 2
abi got32 = 3
abi plt32 = 4
abi glob_dat = 6
abi jump_slot = 7
abi relative = 8
abi gotpcrel = 9
abi r32 = 10
abi r32s = 11
abi r16 = 12
abi pc16 = 13
abi r8 = 14
abi pc8 = 15
abi pc64 = 24
abi gotoff64 = 25
abi gotpc32 = 26
abi size32 = 32
abi size64 = 33

abi_lem : (t : RelocType) → first_type abi (abi t) reloc_types ≡ some t
unfolding abi first_type
abi_lem r64 = refl
abi_lem pc32 = refl
abi_lem got32 = refl
abi_lem plt32 = refl
abi_lem glob_dat = refl
abi_lem jump_slot = refl
abi_lem relative = refl
abi_lem gotpcrel = refl
abi_lem r32 = refl
abi_lem r32s = refl
abi_lem r16 = refl
abi_lem pc16 = refl
abi_lem r8 = refl
abi_lem pc8 = refl
abi_lem pc64 = refl
abi_lem gotoff64 = refl
abi_lem gotpc32 = refl
abi_lem size32 = refl
abi_lem size64 = refl

abi_distinct : (s t : RelocType) → abi s ≡ abi t → s ≡ t
abi_distinct s t e =
    eq_of_some (sym (abi_lem s) ∙ ap (λ n. first_type abi n reloc_types) e ∙ abi_lem t)

abbrev zeros : Memory
zeros = λ a. 0

abbrev two_fields : List Elf64Rela
two_fields =
    record { r_offset = 8; r_info = 8; r_addend = 0x40 }
    ∷ record { r_offset = 16; r_info = 8; r_addend = 0x80 }
    ∷ []

two_fields-Fields : Fields abi 24 two_fields
unfolding abi
two_fields-Fields =
    one_field refl (omega arith) (apart_from (inl (omega arith)) apart_all)
      (one_field refl (omega arith) apart_all no_field)

relocate_image_relative_example :
    (m : Memory) × (relocate_image abi 0x1000 24 0 0 zeros two_fields ≡ some (m, none))
    × (read_bytes 8 m (0x1000 + 16) ≡ add64 0x1000 0x80)
    × (m 0x1000 ≡ 0)
relocate_image_relative_example =
    relocate_image_relative abi abi_distinct 0x1000 24 0 0 two_fields zeros 1 0x1000
      (record { r_offset = 16; r_info = 8; r_addend = 0x80 }) (omega arith) two_fields-Fields refl
      (untouched_by (inl (omega arith)) (untouched_by (inl (omega arith)) untouched_all))

abbrev byte_at : Option (Memory × Option RelocError) → ℕ → Option ℕ
byte_at none a = none
byte_at (some (m, e)) a = some (m a)

-- a field whose first byte is the last of the image is written, seven bytes past the end
abbrev last_byte : Elf64Rela
last_byte = record { r_offset = 23; r_info = 8; r_addend = 0x7f00000000000000 }

relocate_past_end :
    byte_at (relocate_image abi 0x1000 24 0 0 zeros (last_byte ∷ [])) (0x1000 + 30) ≡ some 0x7f
unfolding relocate_image relocate_one first_type try_from reloc_calc apply_reloc calc size byte_size
    write write_bytes abi
relocate_past_end = refl

relocate_image_outside_example : write_bytes 8 zeros 0x1017 0x1001 0x101f ≡ 0
unfolding relocate_image relocate_one first_type try_from reloc_calc apply_reloc calc size byte_size
    write write_bytes abi
relocate_image_outside_example =
    relocate_image_outside abi 0x1000 24 0 0
      (record { r_offset = 23; r_info = 8; r_addend = 1 } ∷ []) zeros
      (write_bytes 8 zeros 0x1017 0x1001) none 0x101f (omega arith) (inr (omega arith)) refl

-- R_X86_64_64 stores the base, whatever the addend
relocate_r64 :
    relocate_one abi 0x1000 24 0 0 zeros (record { r_offset = 8; r_info = 1; r_addend = 0x77 })
    ≡ some (write_bytes 8 zeros 0x1008 0x1000, none)
unfolding relocate_one first_type try_from reloc_calc apply_reloc calc size byte_size write abi
relocate_r64 = refl

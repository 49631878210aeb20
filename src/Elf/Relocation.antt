-- ===== src/Elf/Relocation.antt =====
-- lib/elfload/src/relocation.rs: the relocations that are applied to a loaded image. Memory is a function from
-- addresses to bytes. The numbers of the relocation types stand in the elf crate: they are the parameter
-- `code`. Sums and differences of words wrap, as in a build without overflow checks.
pub mod Bytes
pub mod Bounds
pub mod Relative
mod Tests
use hootux.Prelude.{
  ℕ, zero, suc, ◌+◌, ◌*◌, ◌/◌, ◌%◌, ◌^◌, Bool, true, false, ◌&&◌, Option, none, some, List, [], ◌∷◌,
  ltb, leb, ◌==◌, if◌then◌else◌, ◌>>=◌, add64, sub64,
}

abbrev pub Memory : Type 0
Memory = ℕ → ℕ

-- What `elf::relocation::Elf64_Rela` holds, as words: `r_addend` is the two's complement of the addend.
pub record Elf64Rela : Type 0 where
  pub r_offset : ℕ
  pub r_info : ℕ
  pub r_addend : ℕ

-- `X86_64RelocType`
pub data RelocType : Type 0 where
  r64 pc32 got32 plt32 glob_dat jump_slot relative gotpcrel r32 r32s r16 pc16 r8 pc8 pc64 gotoff64
        gotpc32 size32 size64 :
      RelocType

-- the types in the order in which they are tried
abbrev pub reloc_types : List RelocType
reloc_types =
    r64 ∷ pc32 ∷ got32 ∷ plt32 ∷ glob_dat ∷ jump_slot ∷ relative ∷ gotpcrel ∷ r32 ∷ r32s ∷ r16
    ∷ pc16 ∷ r8 ∷ pc8 ∷ pc64 ∷ gotoff64 ∷ gotpc32 ∷ size32 ∷ size64 ∷ []

pub data RelocError : Type 0 where
  outside_of_image unknown_reloc_type : RelocError

pub data RelocSize : Type 0 where
  u8 u16 u32 u64 : RelocSize

pub data Usage : Type 0 where
  unused add sub : Usage

pub record RelocCalc : Type 0 where
  pub addened : Bool
  pub base : Bool
  pub got_offset : Bool
  pub got : Usage
  pub plt : Bool
  pub sym_offset : Usage
  pub tgt_symbol : Bool
  pub symbol_size : Bool

-- `RelocCalc::default`
abbrev pub default_calc : RelocCalc
default_calc = record {
  addened = false;
  base = false;
  got_offset = false;
  got = unused;
  plt = false;
  sym_offset = unused;
  tgt_symbol = false;
  symbol_size = false;
}

-- the arms of `X86_64RelocType::try_from`, from the first of these types on
unfoldable pub first_type : (RelocType → ℕ) → ℕ → List RelocType → Option RelocType
first_type code info [] = none
first_type code info (t ∷ ts) =
    let later = first_type code info ts in if info == code t then some t else later

-- `X86_64RelocType::try_from`
unfoldable pub try_from : (RelocType → ℕ) → Elf64Rela → Option RelocType
unfolding first_type
try_from code value = first_type code (value.r_info % 2 ^ 32) reloc_types

-- `X86_64RelocType::size`
unfoldable pub size : RelocType → RelocSize
size r64 = u64
size glob_dat = u64
size jump_slot = u64
size relative = u64
size pc64 = u64
size gotoff64 = u64
size size64 = u64
size pc32 = u32
size got32 = u32
size size32 = u32
size gotpcrel = u32
size r32 = u32
size r32s = u32
size gotpc32 = u32
size plt32 = u32
size r16 = u16
size pc16 = u16
size pc8 = u8
size r8 = u8

-- S + A
abbrev pub symbol_calc : RelocCalc
symbol_calc = record default_calc { tgt_symbol = true; base = true }

-- S + A - P
abbrev pub symbol_offset_calc : RelocCalc
symbol_offset_calc = record default_calc { tgt_symbol = true; base = true; sym_offset = sub }

-- `X86_64RelocType::reloc_calc`; `none` is a `todo!`.
unfoldable pub reloc_calc : RelocType → Option RelocCalc
reloc_calc r64 = some symbol_calc
reloc_calc r32 = some symbol_calc
reloc_calc r32s = some symbol_calc
reloc_calc r16 = some symbol_calc
reloc_calc r8 = some symbol_calc
reloc_calc pc32 = some symbol_offset_calc
reloc_calc pc16 = some symbol_offset_calc
reloc_calc pc8 = some symbol_offset_calc
reloc_calc pc64 = some symbol_offset_calc
reloc_calc got32 = none
reloc_calc plt32 = none
reloc_calc glob_dat = some (record default_calc { tgt_symbol = true })
reloc_calc jump_slot = some (record default_calc { tgt_symbol = true })
reloc_calc relative = some (record default_calc { base = true; addened = true })
reloc_calc gotpcrel = none
reloc_calc gotoff64 = none
reloc_calc gotpc32 = none
reloc_calc size32 = some (record default_calc { addened = true; symbol_size = true })
reloc_calc size64 = some (record default_calc { addened = true; symbol_size = true })

abbrev pub plus_if : Bool → ℕ → ℕ → ℕ
plus_if used value sum = if used then add64 sum value else sum

abbrev pub apply_usage : Usage → ℕ → ℕ → ℕ
apply_usage unused value sum = sum
apply_usage add value sum = add64 sum value
apply_usage sub value sum = sub64 sum value

-- `RelocCalc::calc`
unfoldable pub calc : RelocCalc → ℕ → ℕ → ℕ → ℕ → ℕ → ℕ → ℕ → ℕ
calc c addened base got plt sym_offset dst_address sym_size =
    let with_addened = plus_if c.addened addened 0 in
    let with_base = plus_if c.base base with_addened in
    let with_got_offset = plus_if c.got_offset (sub64 sym_offset got) with_base in
    let with_plt = plus_if c.plt plt with_got_offset in
    let with_symbol = plus_if c.tgt_symbol dst_address with_plt in
    let with_size = plus_if c.symbol_size sym_size with_symbol in
    apply_usage c.sym_offset sym_offset (apply_usage c.got got with_size)

-- `RelocSize::size`
unfoldable pub byte_size : RelocSize → ℕ
byte_size u8 = 1
byte_size u16 = 2
byte_size u32 = 4
byte_size u64 = 8

-- `write_unaligned` of so many bytes, the lowest first
unfoldable pub write_bytes : ℕ → Memory → ℕ → ℕ → Memory
write_bytes zero mem tgt value = mem
write_bytes (suc n) mem tgt value =
    let rest = write_bytes n mem (tgt + 1) (value / 256) in
    λ a. if a == tgt then value % 256 else rest a

-- `RelocSize::write`; `none` is the panic for a value that does not fit.
unfoldable pub write : RelocSize → Memory → ℕ → ℕ → Option Memory
unfolding byte_size write_bytes
write s mem tgt value =
    if ltb value (2 ^ (8 * byte_size s))
    then some (write_bytes (byte_size s) mem tgt value)
    else none

-- a round that comes to its end
abbrev pub written : Memory → Option (Memory × Option RelocError)
written m = some (m, none)

-- The parameters of `relocate_image`: an image of `length` bytes at `base`.
module _ (code : RelocType → ℕ) (base length got plt : ℕ) where
  -- the rest of a round of the loop, from the type and its `RelocCalc` on
  unfoldable pub apply_reloc :
      Memory → Elf64Rela → RelocType → RelocCalc → Option (Memory × Option RelocError)
  unfolding calc write size byte_size
  apply_reloc mem i t c =
      let value = calc c i.r_addend base got plt i.r_offset 0 (byte_size (size t)) in
      let tgt_addr = add64 base i.r_offset in
      if leb base tgt_addr && ltb tgt_addr (add64 base length)
      then (write (size t) mem tgt_addr value >>= written)
      else some (mem, some outside_of_image)

  -- a round of the loop of `relocate_image`: the memory, and the error with which it returns
  unfoldable pub relocate_one : Memory → Elf64Rela → Option (Memory × Option RelocError)
  unfolding try_from reloc_calc apply_reloc
  relocate_one mem i = elim (try_from code i) [
    | none ↦ some (mem, some unknown_reloc_type)
    | some t ↦ reloc_calc t >>= λ c. apply_reloc mem i t c
  ]

  -- `relocate_image`; `none` is a panic.
  unfoldable pub relocate_image : Memory → List Elf64Rela → Option (Memory × Option RelocError)
  unfolding relocate_one
  relocate_image mem [] = some (mem, none)
  relocate_image mem (i ∷ rela) = elim (relocate_one mem i) [
    | none ↦ none
    | some (m, some e) ↦ some (m, some e)
    | some (m, none) ↦ relocate_image m rela
  ]

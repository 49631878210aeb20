-- ===== src/Elf/Load/Tests.antt =====
-- lib/elfload/src/load.rs, run.
use hootux.Elf.Load.{ProgramHeader, widen, widen_all, load_range}
use hootux.Elf.Load.Range.{Takes}
use hootux.Prelude.{◌≡◌, refl, List, [], ◌∷◌, arith}

abbrev text : ProgramHeader
text = record { p_vaddr = 0x2000; p_memsz = 0x1800 }

abbrev data_segment : ProgramHeader
data_segment = record { p_vaddr = 0x1000; p_memsz = 0x20 }

abbrev note : ProgramHeader
note = record { p_vaddr = 0x10; p_memsz = 0 }

abbrev file : List ProgramHeader
file = note ∷ text ∷ data_segment ∷ []

load_range-file : load_range file ≡ (0x1000, 0x3800)
unfolding load_range widen_all widen
load_range-file = refl

text-Takes : Takes file text
text-Takes = record { place = 1; at = refl; takes = λ e. absurd (omega (arith, e)) }

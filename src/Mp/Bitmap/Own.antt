-- ===== src/Mp/Bitmap/Own.antt =====
-- kernel/src/mp/bitmap.rs: the operations on the bit of the CPU that makes the call, `cpu`.
use hootux.Mp.Bitmap.{CpuBMap, set_bit, clear_bit}
use hootux.Prelude.{ℕ}

-- `CpuBMap::set`
abbrev pub set : CpuBMap → ℕ → CpuBMap
set map cpu = set_bit map cpu

-- `CpuBMap::clear`
abbrev pub clear : CpuBMap → ℕ → CpuBMap
clear map cpu = clear_bit map cpu

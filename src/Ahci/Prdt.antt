-- ===== src/Ahci/Prdt.antt =====
-- drivers/ahci/src/driver/cmd_ctl.rs and hba/command.rs: the table in which a command names the physical
-- regions of its buffer. `place` is the address at which the DMA allocator puts a table of so many entries;
-- that it is out of memory is left out. A panic is `none`.
pub mod Entries
pub mod Build
pub mod Large
mod Tests
use hootux.Mem.Dma.{PhysicalRegionDescription, collect, prd, limit}
use hootux.Prelude.{
  ℕ, zero, suc, ◌+◌, ◌-◌, ◌*◌, ◌%◌, ◌^◌, ◌||◌, Option, none, some, List, [], ◌∷◌, ◌++◌, ltb, leb,
  ◌==◌, if◌then◌else◌, ◌>>=◌, length, set, bits_or,
}

-- `hba::command::PhysicalRegionDescription`
pub record Entry : Type 0 where
  pub base_addr : ℕ
  pub data_count : ℕ

-- `CommandError`
pub data CommandError : Type 0 where
  bad_address bad_buffer : CommandError
  buff_too_long : ℕ → CommandError

-- `PhysicalDataCount::set_data_count`
unfoldable pub set_data_count : ℕ → ℕ → Option ℕ
set_data_count inner count =
    if ltb count (2 ^ 22)
    then (if count == 0 then none else some (bits_or 32 (inner % 2 ^ 22) (count - 1)))
    else none

-- `PhysicalDataCount::new`; the outer `none` is a panic.
unfoldable pub data_count_new : ℕ → Option (Option ℕ)
unfolding set_data_count
data_count_new count =
    if ltb (2 ^ 21) count || count % 2 == 1
    then some none
    else (set_data_count 0 count >>= λ t. some (some t))

-- `PhysicalRegionDescription::new` of the host adapter; the outer `none` is a panic.
unfoldable pub entry_new : ℕ → ℕ → Option (Option Entry)
unfolding data_count_new
entry_new start len = if ltb 0x40000 len then some none else elim (data_count_new len) [
  | none ↦ none
  | some none ↦ some none
  | some (some count) ↦ some (some (record { base_addr = start; data_count = count }))
]

-- `UnboundCommandTable`: the length that it is taken to have, the entries of the table, and the length and the
-- address that the command header in memory has.
pub record UnboundCommandTable : Type 0 where
  pub table_size : ℕ
  pub table : List Entry
  pub header_len : ℕ
  pub header_addr : ℕ

abbrev pub zero_entry : Entry
zero_entry = record { base_addr = 0; data_count = 0 }

-- the entries of `CommandTableRaw::new`
unfoldable pub raw_table : ℕ → List Entry
raw_table zero = []
raw_table (suc n) = zero_entry ∷ raw_table n

-- the regions of a buffer, none longer than 4 MiB
unfoldable pub limit_all : List PhysicalRegionDescription → Option (List PhysicalRegionDescription)
limit_all [] = some []
limit_all (r ∷ rs) = limit r 0x400000 >>= λ pieces. limit_all rs >>= λ more. some (pieces ++ more)

unfoldable pub regions : (ℕ → Option ℕ) → ℕ → Option (List PhysicalRegionDescription)
unfolding limit_all
regions translate len = collect (len + 1) translate (prd len) >>= limit_all

-- the loop that fills the table, from an index on
unfoldable pub fill : ℕ → List PhysicalRegionDescription → List Entry → Option (List Entry)
unfolding entry_new
fill i [] table = some table
fill i (r ∷ rs) table =
    if ltb i (2 ^ 16)
    then elim (entry_new r.addr (r.size % 2 ^ 32)) [
      | none ↦ none
      | some none ↦ none
      | some (some e) ↦
          let rest = fill (i + 1) rs (set table i e) in if ltb i (length table) then rest else none
    ]
    else some table

module _ (place : ℕ → ℕ) where
  -- `UnboundCommandTable::import_table` of a new table; setting the address panics where it is not aligned.
  unfoldable pub import_table : UnboundCommandTable → ℕ → Option UnboundCommandTable
  unfolding raw_table
  import_table t len =
      if place len % 256 == 0
      then some (record t {
        table = raw_table len;
        header_len =
            (if length (raw_table len) == 0x10000 then 0 else length (raw_table len) % 2 ^ 16);
        header_addr = place len;
      })
      else none

  -- `UnboundCommandTable::set_len`
  unfoldable pub set_len : UnboundCommandTable → ℕ → Option UnboundCommandTable
  unfolding import_table
  set_len t len =
      if ltb t.table_size len
      then (import_table t len >>= λ u. some (record u { table_size = len }))
      else some (record t { header_len = len })

  -- the table, made as long as it is to be
  unfoldable pub resize : UnboundCommandTable → ℕ → Option UnboundCommandTable
  unfolding import_table set_len
  resize t prd_len =
      if ltb (length t.table) prd_len
      then import_table t (prd_len % 2 ^ 16)
      else set_len t (prd_len % 2 ^ 16)

  -- `UnboundCommandTable::build_prdt` of the buffer of this length behind `translate`, with a local reference
  -- at the address `at`: the error that it returns, if any, and the table
  unfoldable pub build_prdt :
      UnboundCommandTable
      → (ℕ → Option ℕ)
      → ℕ
      → ℕ
      → Option (Option CommandError × UnboundCommandTable)
  unfolding regions resize fill
  build_prdt t translate at len =
      if len % 2 == 1
      then some (some bad_buffer, t)
      else if at % 2 == 1
      then some (some bad_buffer, t)
      else (regions translate len >>= λ rs.
          if ltb (2 ^ 16 - 1) (length rs)
          then some (some (buff_too_long (length rs)), t)
          else (resize t (length rs) >>= λ u.
              fill 0 rs u.table >>= λ table. some (none, record u { table = table })))

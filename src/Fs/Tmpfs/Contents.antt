-- ===== src/Fs/Tmpfs/Contents.antt =====
-- kernel/src/fs/tmpfs.rs: `TmpFsNormalFile`, reading, writing and locking a file.
-- `handle` is the address of the file object that makes the call. Bytes that `set_len` adds are what
-- memory holds, the argument `spare`. The allocation behind `reserve_exact` is taken to succeed.
pub mod Bytes
pub mod Reads
mod Tests
use hootux.Fs.Tmpfs.{FileAccessor, IoError, exclusive, end_of_file}
use hootux.Prelude.{
  ℕ, zero, suc, ◌+◌, ◌-◌, Bool, true, false, Option, none, some, List, [], ◌∷◌, ◌++◌, ltb, leb,
  ◌==◌, if◌then◌else◌, length, ◌^◌, ◌>>=◌, take, drop, min, Result, ok, err, add64,
}

-- `Weak::cmp_t` on the lock of the file
pub cmp_t : Option ℕ → ℕ → Bool
cmp_t none handle = true
cmp_t (some holder) handle = holder == handle

-- `copy_from_slice` of `buff` over the bytes of `file` from `pos` on, which are all there
pub overwrite : List ℕ → ℕ → List ℕ → List ℕ
overwrite file pos buff = take pos file ++ (buff ++ drop (pos + length buff) file)

-- the bytes of memory from `from` on, `n` of them
pub spare_bytes : (ℕ → ℕ) → ℕ → ℕ → List ℕ
spare_bytes spare from zero = []
spare_bytes spare from (suc n) = spare from ∷ spare_bytes spare (from + 1) n

-- `Read::read`: the buffer and the count, or the error with the buffer and a count of 0
pub read : FileAccessor → ℕ → ℕ → List ℕ → Result (IoError × List ℕ × ℕ) (List ℕ × ℕ)
unfolding cmp_t overwrite
read f handle pos buff =
    if cmp_t f.lock handle
    then (if leb (length f.bytes) pos
        then err (end_of_file, buff, 0)
        else ok (
          overwrite buff 0 (take (min (length buff) (length f.bytes - pos)) (drop pos f.bytes)),
          min (length buff) (length f.bytes - pos),
        ))
    else err (exclusive, buff, 0)

-- `Vec::reserve_exact` of a vector of bytes: whether the capacity is at most `isize::MAX`; it panics otherwise.
pub reserve_exact : List ℕ → ℕ → Bool
reserve_exact file additional = leb (length file + additional) (2 ^ 63 - 1)

-- the file after `set_len`, where the write ends at `end`
pub grown : (ℕ → ℕ) → List ℕ → ℕ → List ℕ
unfolding spare_bytes
grown spare file end =
    if ltb (length file) end
    then file ++ spare_bytes spare (length file) (end - length file)
    else file

-- the file with room for a write that ends at `end`; `none` is the panic of `reserve_exact`
pub extend : (ℕ → ℕ) → List ℕ → ℕ → Option (List ℕ)
unfolding reserve_exact grown
extend spare file end =
    if ltb (length file) end
    then (if reserve_exact file end then some (grown spare file end) else none)
    else some (grown spare file end)

-- `Write::write`; it panics where no room can be made, and the slice panics where the end of the write has
-- wrapped round.
pub write :
    (ℕ → ℕ)
    → FileAccessor
    → ℕ
    → ℕ
    → List ℕ
    → Option (Result (IoError × List ℕ × ℕ) (List ℕ × ℕ) × FileAccessor)
unfolding cmp_t overwrite extend
write spare f handle pos buff =
    if cmp_t f.lock handle
    then (extend spare f.bytes (add64 (length buff) pos) >>= λ bytes.
        if ltb (add64 (length buff) pos) pos
        then none
        else some (ok (buff, length buff), record f { bytes = overwrite bytes pos buff }))
    else some (err (exclusive, buff, 0), f)

-- `file_lock` of a file object: the lock is set where no locked file object is alive.
pub file_lock : FileAccessor → ℕ → Result IoError (Unit {0}) × FileAccessor
file_lock f handle = elim f.lock [
  | none ↦ (ok tt, record f { lock = some handle })
  | some _ ↦ (err exclusive, f)
]

-- `unlock_unsafe`
pub unlock_unsafe : FileAccessor → FileAccessor
unlock_unsafe f = record f { lock = none }

-- ===== src/Fs/Tmpfs/Contents/Tests.antt =====
-- Reading and writing at a concrete file.
use hootux.Prelude.Maps.{string_key}
use hootux.Fs.Tmpfs.{FileAccessor}
use hootux.Fs.Tmpfs.Contents.{cmp_t, read, write}
use hootux.Fs.Tmpfs.Contents.Bytes.{write_lem}
use hootux.Fs.Tmpfs.Contents.Reads.{read-write}
use hootux.Prelude.{
  ℕ, ◌-◌, ◌≡◌, refl, none, some, [], ◌∷◌, ltb, if◌then◌else◌, get_elem?, ok, arith,
}

abbrev zeros : ℕ → ℕ
zeros a = 0

-- a file of three bytes that nothing has locked
abbrev three : FileAccessor
three = record { bytes = 1 ∷ 2 ∷ 3 ∷ []; lock = none; serial = 1 }

write_lem_example :
    (f : FileAccessor) × (write zeros three 7 5 (8 ∷ 9 ∷ []) ≡ some (ok (8 ∷ 9 ∷ [], 2), f))
    × (f.lock ≡ none)
    × ((i : ℕ)
        → get_elem? f.bytes i ≡ (
            if ltb i 5
            then (if ltb i 3 then get_elem? three.bytes i else some 0)
            else if ltb i 7
            then get_elem? (8 ∷ 9 ∷ []) (i - 5)
            else get_elem? three.bytes i))
unfolding cmp_t
write_lem_example = write_lem zeros three 7 5 (8 ∷ 9 ∷ []) refl (omega arith)

read-write_example :
    (f : FileAccessor) × (write zeros three 7 2 (8 ∷ 9 ∷ []) ≡ some (ok (8 ∷ 9 ∷ [], 2), f))
    × (read f 7 2 (0 ∷ 0 ∷ []) ≡ ok (8 ∷ 9 ∷ [], 2))
unfolding cmp_t
read-write_example =
    read-write zeros three 7 2 (8 ∷ 9 ∷ []) (0 ∷ 0 ∷ []) refl (omega arith) (omega arith) refl

-- ===== src/Fs/Tmpfs/Contents/Reads.antt =====
-- kernel/src/fs/tmpfs.rs: what a read gives, and reading back what was written.
use hootux.Fs.Tmpfs.{FileAccessor}
use hootux.Fs.Tmpfs.Contents.{cmp_t, overwrite, read, write}
use hootux.Fs.Tmpfs.Contents.Bytes.{overwrite_lem, write-eq, written, written_byte, length-written}
use hootux.Prelude.{
  ℕ, ◌+◌, ◌-◌, ◌^◌, ◌<◌, ◌≡◌, sym, ap, ◌∙◌, inl, inr, true, false, Bool-cases, some, List, ltb, leb,
  ltb→lt, lt→ltb, le_of_not-ltb, if◌then◌else◌, length, length-take, length-drop, take, drop,
  get_elem?, get_elem?-take, get_elem?-drop, get_elem?_past, list_ext, min, ok, arith,
}

-- the bytes that a read copies
module _ (bytes : List ℕ) (pos : ℕ) (buff : List ℕ) (h : pos < length bytes) where
  count : ℕ
  count = min (length buff) (length bytes - pos)

  chunk : List ℕ
  unfolding count
  chunk = take count (drop pos bytes)

  length-chunk : length chunk ≡ count
  unfolding chunk count
  length-chunk = length-take count (drop pos bytes) (omega (arith, length-drop pos bytes))

  chunk_byte :
      (i : ℕ)
      → get_elem? (overwrite buff 0 chunk) i
        ≡ (if ltb i count then get_elem? bytes (pos + i) else get_elem? buff i)
  unfolding count chunk
  chunk_byte i = overwrite_lem buff 0 chunk (omega (arith, length-chunk)) i ∙ branch
    where
      zeroth : ltb i 0 ≡ false
      zeroth = ground arith

      same_count : 0 + length chunk ≡ count
      same_count = omega (arith, length-chunk)

      same_place : i - 0 ≡ i
      same_place = omega arith

      branch :
          (if ltb i 0
            then get_elem? buff i
            else if ltb i (0 + length chunk)
            then get_elem? chunk (i - 0)
            else get_elem? buff i)
          ≡ (if ltb i count then get_elem? bytes (pos + i) else get_elem? buff i)
      branch =
          rw (zeroth, same_count, same_place)
            (elim (Bool-cases (ltb i count)) [
              | inl e ↦ rw (e) (
                  get_elem?-take count (drop pos bytes) i (ltb→lt i count e)
                  ∙ get_elem?-drop pos bytes i)
              | inr e ↦ rw (e)
            ])

-- Where no other file object holds the lock and the position is inside the file, `read` succeeds with
-- the smaller of the length of the buffer and what is left of the file; so many bytes of the buffer
-- are those of the file from the position on, the others are as they were, and its length is kept.
pub read_lem :
    (f : FileAccessor) (handle pos : ℕ) (buff : List ℕ)
    → cmp_t f.lock handle ≡ true
    → pos < length f.bytes
    → (out : List ℕ) × (read f handle pos buff ≡ ok (out, min (length buff) (length f.bytes - pos)))
      × ((i : ℕ)
          → get_elem? out i ≡ (
              if ltb i (min (length buff) (length f.bytes - pos))
              then get_elem? f.bytes (pos + i)
              else get_elem? buff i))
unfolding read count chunk
read_lem f handle pos buff c h =
    (overwrite buff 0 (chunk f.bytes pos buff h), rw (c, short), chunk_byte f.bytes pos buff h)
  where
    short : leb (length f.bytes) pos ≡ false
    short = ground arith

copied_byte :
    (spare : ℕ → ℕ) (f : FileAccessor) (pos : ℕ) (buff other : List ℕ) (i n : ℕ)
    → length other ≡ length buff
    → n ≡ length buff
    → (if ltb i n then get_elem? (written spare f pos buff).bytes (pos + i) else get_elem? other i)
      ≡ get_elem? buff i
copied_byte spare f pos buff other i n l w = elim (Bool-cases (ltb i n)) [
  | inl e ↦
      rw (e) (written_byte spare f pos buff (pos + i) ∙ rw (behind, within (ltb→lt i n e), place))
  | inr e ↦ rw (e) (
      get_elem?_past other i (omega (arith, le_of_not-ltb i n e))
      ∙ sym (get_elem?_past buff i (omega (arith, le_of_not-ltb i n e))))
]
  where
    behind : ltb (pos + i) pos ≡ false
    behind = ground arith

    within : i < n → ltb (pos + i) (pos + length buff) ≡ true
    within k = lt→ltb (pos + i) (pos + length buff) (omega arith)

    place : pos + i - pos ≡ i
    place = omega arith

-- Where no other file object holds the lock and the end of the write and the length of the file add up to
-- less than 2 ^ 63, reading as many bytes, at least one, at the position of a write gives back what was written.
pub read-write :
    (spare : ℕ → ℕ) (f : FileAccessor) (handle pos : ℕ) (buff other : List ℕ)
    → cmp_t f.lock handle ≡ true
    → length f.bytes + (pos + length buff) < 2 ^ 63
    → 0 < length buff
    → length other ≡ length buff
    → (f' : FileAccessor) × (write spare f handle pos buff ≡ some (ok (buff, length buff), f'))
      × (read f' handle pos other ≡ ok (buff, length buff))
unfolding written
read-write spare f handle pos buff other c h p l = (
  f',
  write-eq spare f handle pos buff c h,
  got.1 ∙ ap ok (ap (λ x. (got.0, x)) whole ∙ ap (λ x. (x, length buff)) same),
)
  where
    f' : FileAccessor
    f' = written spare f pos buff

    got :
        (out : List ℕ) × (read f' handle pos other
          ≡ ok (out, min (length other) (length f'.bytes - pos)))
        × ((i : ℕ)
            → get_elem? out i ≡ (
                if ltb i (min (length other) (length f'.bytes - pos))
                then get_elem? f'.bytes (pos + i)
                else get_elem? other i))
    got = read_lem f' handle pos other c (omega (arith, length-written spare f pos buff))

    whole : min (length other) (length f'.bytes - pos) ≡ length buff
    whole = omega (arith, length-written spare f pos buff)

    byte : (i : ℕ) → get_elem? got.0 i ≡ get_elem? buff i
    byte i =
        got.2 i
        ∙ copied_byte spare f pos buff other i (min (length other) (length f'.bytes - pos)) l whole

    same : got.0 ≡ buff
    same = list_ext got.0 buff byte

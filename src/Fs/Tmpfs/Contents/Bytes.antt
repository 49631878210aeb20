-- ===== src/Fs/Tmpfs/Contents/Bytes.antt =====
-- kernel/src/fs/tmpfs.rs: every byte of a file after a write, and of a buffer after a read.
use hootux.Fs.Tmpfs.{FileAccessor}
use hootux.Fs.Tmpfs.Contents.{cmp_t, overwrite, spare_bytes, reserve_exact, grown, extend, write}
use hootux.Prelude.{
  ℕ, zero, suc, ◌+◌, ◌-◌, ◌^◌, ◌<◌, ◌≤◌, ◌≡◌, refl, sym, ap, ◌∙◌, inl, inr, true, false, Bool-cases,
  some, List, ◌++◌, ◌>>=◌, ltb, leb, ltb→lt, lt→ltb, le_of_not-ltb, if◌then◌else◌, length,
  length-append, length-take, length-drop, take, drop, get_elem?, get_elem?-take, get_elem?-drop,
  get_elem?-append_left, get_elem?-append_right, get_elem?_past, ok, add64, arith,
}

length-spare_bytes : (spare : ℕ → ℕ) (from n : ℕ) → length (spare_bytes spare from n) ≡ n
unfolding spare_bytes
length-spare_bytes spare from zero = refl
length-spare_bytes spare from (suc n) = ap suc (length-spare_bytes spare (from + 1) n)

get_elem?-spare_bytes :
    (spare : ℕ → ℕ) (from n i : ℕ)
    → i < n
    → get_elem? (spare_bytes spare from n) i ≡ some (spare (from + i))
unfolding spare_bytes
get_elem?-spare_bytes spare from zero i h = absurd (omega arith)
get_elem?-spare_bytes spare from (suc n) zero h = ap (λ x. some (spare x)) (omega arith)
get_elem?-spare_bytes spare from (suc n) (suc i) h =
    get_elem?-spare_bytes spare (from + 1) n i (omega arith)
    ∙ ap (λ x. some (spare x)) {x = from + 1 + i} (omega arith)

-- the bytes of a write that lies inside the file
module _ (file : List ℕ) (pos : ℕ) (buff : List ℕ) (inside : pos + length buff ≤ length file) where
  overwrite_before : (i : ℕ) → i < pos → get_elem? (overwrite file pos buff) i ≡ get_elem? file i
  unfolding overwrite
  overwrite_before i h =
      get_elem?-append_left (take pos file) (buff ++ drop (pos + length buff) file) i
        (omega (arith, length-take pos file))
      ∙ get_elem?-take pos file i h

  overwrite_within :
      (i : ℕ)
      → pos ≤ i
      → i < pos + length buff
      → get_elem? (overwrite file pos buff) i ≡ get_elem? buff (i - pos)
  unfolding overwrite
  overwrite_within i h k =
      get_elem?-append_right (take pos file) (buff ++ drop (pos + length buff) file) i
        (omega (arith, length-take pos file))
      ∙ ap (get_elem? (buff ++ drop (pos + length buff) file)) {y = i - pos}
          (omega (arith, length-take pos file))
      ∙ get_elem?-append_left buff (drop (pos + length buff) file) (i - pos) (omega arith)

  overwrite_after :
      (i : ℕ) → pos + length buff ≤ i → get_elem? (overwrite file pos buff) i ≡ get_elem? file i
  unfolding overwrite
  overwrite_after i h =
      get_elem?-append_right (take pos file) (buff ++ drop (pos + length buff) file) i
        (omega (arith, length-take pos file))
      ∙ ap (get_elem? (buff ++ drop (pos + length buff) file)) {y = i - pos}
          (omega (arith, length-take pos file))
      ∙ get_elem?-append_right buff (drop (pos + length buff) file) (i - pos) (omega arith)
      ∙ get_elem?-drop (pos + length buff) file (i - pos - length buff)
      ∙ ap (get_elem? file) {x = pos + length buff + (i - pos - length buff)} (omega arith)

  length-overwrite : length (overwrite file pos buff) ≡ length file
  unfolding overwrite
  length-overwrite =
      length-append (take pos file) (buff ++ drop (pos + length buff) file)
      ∙ omega (
        arith,
        length-take pos file,
        length-append buff (drop (pos + length buff) file),
        length-drop (pos + length buff) file,
      )

  -- the byte at each place
  pub overwrite_lem :
      (i : ℕ)
      → get_elem? (overwrite file pos buff) i ≡ (
          if ltb i pos
          then get_elem? file i
          else if ltb i (pos + length buff)
          then get_elem? buff (i - pos)
          else get_elem? file i)
  overwrite_lem i = elim (Bool-cases (ltb i pos)) [
    | inl e ↦ overwrite_before i (ltb→lt i pos e) ∙ rw (e)
    | inr e ↦ elim (Bool-cases (ltb i (pos + length buff))) [
      | inl k ↦
          overwrite_within i (le_of_not-ltb i pos e) (ltb→lt i (pos + length buff) k) ∙ rw (e, k)
      | inr k ↦ overwrite_after i (le_of_not-ltb i (pos + length buff) k) ∙ rw (e, k)
    ]
  ]

grown_lem :
    (spare : ℕ → ℕ) (file : List ℕ) (end i : ℕ)
    → i < end
    → get_elem? (grown spare file end) i
      ≡ (if ltb i (length file) then get_elem? file i else some (spare i))
unfolding grown
grown_lem spare file end i h = elim (Bool-cases (ltb (length file) end)) [
  | inl e ↦ rw (e) (elim (Bool-cases (ltb i (length file))) [
    | inl k ↦ rw (k) (get_elem?-append_left file _ i (ltb→lt i (length file) k))
    | inr k ↦ rw (k) (
        get_elem?-append_right file _ i (le_of_not-ltb i (length file) k)
        ∙ get_elem?-spare_bytes spare (length file) (end - length file) (i - length file)
            (omega (arith, le_of_not-ltb i (length file) k))
        ∙ ap (λ x. some (spare x)) (omega (arith, le_of_not-ltb i (length file) k)))
  ])
  | inr e ↦ rw (e, lt→ltb i (length file) (omega (arith, le_of_not-ltb (length file) end e)))
]

grown_after :
    (spare : ℕ → ℕ) (file : List ℕ) (end i : ℕ)
    → end ≤ i
    → get_elem? (grown spare file end) i ≡ get_elem? file i
unfolding grown
grown_after spare file end i h = elim (Bool-cases (ltb (length file) end)) [
  | inl e ↦ rw (e) (
      get_elem?_past (file ++ spare_bytes spare (length file) (end - length file)) i
        (omega (arith, long, ltb→lt (length file) end e))
      ∙ sym (get_elem?_past file i (omega (arith, ltb→lt (length file) end e))))
  | inr e ↦ rw (e)
]
  where
    long :
        length (file ++ spare_bytes spare (length file) (end - length file))
        ≡ length file + (end - length file)
    long =
        length-append file (spare_bytes spare (length file) (end - length file))
        ∙ ap (λ x. length file + x) (length-spare_bytes spare (length file) (end - length file))

length-grown : (spare : ℕ → ℕ) (file : List ℕ) (end : ℕ) → end ≤ length (grown spare file end)
unfolding grown
length-grown spare file end = elim (Bool-cases (ltb (length file) end)) [
  | inl e ↦ rw (e) (
      omega (
        arith,
        length-append file (spare_bytes spare (length file) (end - length file)),
        length-spare_bytes spare (length file) (end - length file),
      ))
  | inr e ↦ rw (e) (le_of_not-ltb (length file) end e)
]

extend-grown :
    (spare : ℕ → ℕ) (file : List ℕ) (end : ℕ)
    → length file + end < 2 ^ 63
    → extend spare file end ≡ some (grown spare file end)
unfolding extend reserve_exact
extend-grown spare file end h = roomy (ground arith)
  where
    roomy :
        leb (length file + end) (2 ^ 63 - 1) ≡ true
        → extend spare file end ≡ some (grown spare file end)
    roomy e = rw (extend, reserve_exact, e) (ground arith)

-- the file that a write leaves
unfoldable pub written : (ℕ → ℕ) → FileAccessor → ℕ → List ℕ → FileAccessor
written spare f pos buff = record f {
  bytes = overwrite (grown spare f.bytes (pos + length buff)) pos buff;
}

pub write-eq :
    (spare : ℕ → ℕ) (f : FileAccessor) (handle pos : ℕ) (buff : List ℕ)
    → cmp_t f.lock handle ≡ true
    → length f.bytes + (pos + length buff) < 2 ^ 63
    → write spare f handle pos buff ≡ some (ok (buff, length buff), written spare f pos buff)
unfolding write written
write-eq spare f handle pos buff c h = rw (c, exact, extend-grown spare f.bytes _ h, ◌>>=◌, no_wrap)
  where
    exact : add64 (length buff) pos ≡ pos + length buff
    exact = omega arith

    no_wrap : ltb (pos + length buff) pos ≡ false
    no_wrap = ground arith

pub written_byte :
    (spare : ℕ → ℕ) (f : FileAccessor) (pos : ℕ) (buff : List ℕ) (i : ℕ)
    → get_elem? (written spare f pos buff).bytes i ≡ (
        if ltb i pos
        then (if ltb i (length f.bytes) then get_elem? f.bytes i else some (spare i))
        else if ltb i (pos + length buff)
        then get_elem? buff (i - pos)
        else get_elem? f.bytes i)
unfolding written
written_byte spare f pos buff i =
    overwrite_lem (grown spare f.bytes (pos + length buff)) pos buff
      (length-grown spare f.bytes (pos + length buff)) i
    ∙ elim (Bool-cases (ltb i pos)) [
      | inl e ↦
          rw (e) (grown_lem spare f.bytes (pos + length buff) i (omega (arith, ltb→lt i pos e)))
      | inr e ↦ rw (e) (elim (Bool-cases (ltb i (pos + length buff))) [
        | inl k ↦ rw (k)
        | inr k ↦ rw (k) (
            grown_after spare f.bytes (pos + length buff) i (le_of_not-ltb i (pos + length buff) k))
      ])
    ]

pub length-written :
    (spare : ℕ → ℕ) (f : FileAccessor) (pos : ℕ) (buff : List ℕ)
    → pos + length buff ≤ length (written spare f pos buff).bytes
unfolding written
length-written spare f pos buff = omega (
  arith,
  length-overwrite (grown spare f.bytes (pos + length buff)) pos buff
      (length-grown spare f.bytes (pos + length buff)),
  length-grown spare f.bytes (pos + length buff),
)

-- Where no other file object holds the lock and the end of the write and the length of the file add up to
-- less than 2 ^ 63, `write` succeeds with the whole buffer; the file then has the buffer at the position, before it and behind
-- it what it had, and what memory held between its old end and the position.
pub write_lem :
    (spare : ℕ → ℕ) (f : FileAccessor) (handle pos : ℕ) (buff : List ℕ)
    → cmp_t f.lock handle ≡ true
    → length f.bytes + (pos + length buff) < 2 ^ 63
    → (f' : FileAccessor) × (write spare f handle pos buff ≡ some (ok (buff, length buff), f'))
      × (f'.lock ≡ f.lock)
      × ((i : ℕ)
          → get_elem? f'.bytes i ≡ (
              if ltb i pos
              then (if ltb i (length f.bytes) then get_elem? f.bytes i else some (spare i))
              else if ltb i (pos + length buff)
              then get_elem? buff (i - pos)
              else get_elem? f.bytes i))
unfolding written
write_lem spare f handle pos buff c h = (
  written spare f pos buff,
  write-eq spare f handle pos buff c h,
  refl,
  written_byte spare f pos buff,
)

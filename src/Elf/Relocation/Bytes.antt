-- ===== src/Elf/Relocation/Bytes.antt =====
-- lib/elfload/src/relocation.rs: fields of memory, their bytes the lowest first.
use hootux.Elf.Relocation.{Memory, write_bytes}
use hootux.Prelude.{
  ℕ, zero, suc, ◌+◌, ◌*◌, ◌/◌, ◌%◌, ◌^◌, ◌<◌, ◌≤◌, ◌≡◌, ◌⊎◌, refl, ap, ◌∙◌, true, false,
  if◌then◌else◌, arith,
}

-- the number in a field of so many bytes
unfoldable pub read_bytes : ℕ → Memory → ℕ → ℕ
read_bytes zero mem tgt = 0
read_bytes (suc n) mem tgt = mem tgt + 256 * read_bytes n mem (tgt + 1)

pub write_bytes_outside :
    (n : ℕ) (mem : Memory) (tgt value a : ℕ)
    → (a < tgt) ⊎ (tgt + n ≤ a)
    → write_bytes n mem tgt value a ≡ mem a
unfolding write_bytes
write_bytes_outside zero mem tgt value a h = refl
write_bytes_outside (suc n) mem tgt value a h =
    ap (λ b. if b then value % 256 else write_bytes n mem (tgt + 1) (value / 256) a) {y = false}
      (ground arith)
    ∙ write_bytes_outside n mem (tgt + 1) (value / 256) a (ground arith)

-- a field reads the same where every byte of it does
pub read_bytes_same :
    (n : ℕ) (mem mem' : Memory) (tgt : ℕ)
    → ((i : ℕ) → i < n → mem (tgt + i) ≡ mem' (tgt + i))
    → read_bytes n mem tgt ≡ read_bytes n mem' tgt
unfolding read_bytes
read_bytes_same zero mem mem' tgt h = refl
read_bytes_same (suc n) mem mem' tgt h =
    let first : mem tgt ≡ mem' tgt =
      ap mem {y = tgt + 0} (omega arith)
      ∙ h 0 (omega arith)
      ∙ ap mem' {x = tgt + 0} (omega arith) in
    let rest = read_bytes_same n mem mem' (tgt + 1) (λ i l.
      ap mem {y = tgt + suc i} (omega arith)
      ∙ h (suc i) (omega arith)
      ∙ ap mem' {x = tgt + suc i} (omega arith)) in
    omega (arith, first, rest)

quotient_lt : (v p : ℕ) → v < 256 * p → v / 256 < p
quotient_lt v p h = omega arith

pub read_bytes-write_bytes :
    (n : ℕ) (mem : Memory) (tgt value : ℕ)
    → value < 256 ^ n
    → read_bytes n (write_bytes n mem tgt value) tgt ≡ value
unfolding write_bytes read_bytes
read_bytes-write_bytes zero mem tgt value h = omega arith
read_bytes-write_bytes (suc n) mem tgt value h =
    let head : write_bytes (suc n) mem tgt value tgt ≡ value % 256 =
      ap (λ b. if b then value % 256 else write_bytes n mem (tgt + 1) (value / 256) tgt) {y = true}
        (ground arith) in
    let tail =
      read_bytes_same n (write_bytes (suc n) mem tgt value)
        (write_bytes n mem (tgt + 1) (value / 256)) (tgt + 1)
        (λ i l.
          ap
            (λ b.
              if b then value % 256 else write_bytes n mem (tgt + 1) (value / 256) (tgt + 1 + i))
            {y = false} (ground arith)) in
    let small : value / 256 < 256 ^ n = quotient_lt value (256 ^ n) (omega (arith, h)) in
    omega (arith, head, tail, read_bytes-write_bytes n mem (tgt + 1) (value / 256) small)

-- a write leaves a field that lies apart from it
pub read_bytes_apart :
    (n k : ℕ) (mem : Memory) (tgt value a : ℕ)
    → (a + k ≤ tgt) ⊎ (tgt + n ≤ a)
    → read_bytes k (write_bytes n mem tgt value) a ≡ read_bytes k mem a
read_bytes_apart n k mem tgt value a h =
    read_bytes_same k (write_bytes n mem tgt value) mem a
      (λ i l. write_bytes_outside n mem tgt value (a + i) (ground arith))

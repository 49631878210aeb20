-- ===== src/Mem/PreInit/Bits.antt =====
-- Leading and trailing zeros of words, for `dissolve` of buddy_frame_alloc.rs.
use mathlib.Core.Path.{subst}
use native.Mathlib.Nat.{
  pow-suc, one-le-pow, pow-le-pow_right, mod-eq-zero_of_dvd, dvd_of_mod-eq-zero, dvd_trans,
  mul-mod_right, div-add-mod, mod_self, mod-one,
}
use hootux.Prelude.{
  ℕ, zero, suc, ◌+◌, ◌-◌, ◌*◌, ◌/◌, ◌%◌, ◌^◌, ◌<◌, ◌≤◌, ◌≡◌, ◌∙◌, sym, ap, ltb, leb, ◌==◌,
  Bool-cases, ltb→lt, le_of_not-ltb, inl, inr, arith,
}
use hootux.Mem.PreInit.{trailing_zeros, leading_zeros, shl_or_top, block_size}

pub pow_pos : (k : ℕ) → 0 < 2 ^ k
pow_pos k = one-le-pow k 2 (omega arith)

-- A smaller power of two divides a larger one.
pub pow-mod-pow : (i j : ℕ) → i ≤ j → 2 ^ j % 2 ^ i ≡ 0
pow-mod-pow i zero h = let e : i ≡ 0 = omega arith in rw e
pow-mod-pow i (suc j) h = elim (Bool-cases (leb i j)) [
  | inl le ↦
      let ih = pow-mod-pow i j (ground arith) in
      let e : 2 ^ suc j ≡ 2 ^ i * (2 ^ j / 2 ^ i * 2) =
        omega (arith, pow-suc 2 j, div-add-mod (2 ^ j) (2 ^ i), ih) in
      rw e (mul-mod_right (2 ^ i) (2 ^ j / 2 ^ i * 2))
  | inr gt ↦ let e : i ≡ suc j = ground arith in rw e (mod_self (2 ^ suc j))
]

trailing_zeros_double : (n t : ℕ) → n % 2 ≡ 0 → n / 2 % 2 ^ t ≡ 0 → n % 2 ^ suc t ≡ 0
trailing_zeros_double n t even h =
    let e : n ≡ 2 ^ suc t * (n / 2 / 2 ^ t) =
      omega (arith, ap (λ k. k * (n / 2 / 2 ^ t)) (pow-suc 2 t), div-add-mod (n / 2) (2 ^ t), h) in
    ap (λ k. k % 2 ^ suc t) e ∙ mul-mod_right (2 ^ suc t) (n / 2 / 2 ^ t)

-- 2 to the number of trailing zeros divides the word.
pub trailing_zeros-mod : (bits n : ℕ) → n % 2 ^ trailing_zeros bits n ≡ 0
unfolding trailing_zeros
trailing_zeros-mod zero n = mod-one n
trailing_zeros-mod (suc bits) n = elim (Bool-cases (n % 2 == 0)) [
  | inl even ↦ rw even (
      trailing_zeros_double n (trailing_zeros bits (n / 2)) (ground arith)
        (trailing_zeros-mod bits (n / 2)))
  | inr odd ↦ rw odd (mod-one n)
]

pub trailing_zeros-le : (bits n : ℕ) → trailing_zeros bits n ≤ bits
unfolding trailing_zeros
trailing_zeros-le zero n = omega arith
trailing_zeros-le (suc bits) n = ground (arith, trailing_zeros-le bits (n / 2))

pow-le_of_eq : (j k n : ℕ) → j ≡ k → 2 ^ k ≤ n → 2 ^ j ≤ n
pow-le_of_eq j k n e h = rw e h

-- A word other than 0 has a highest bit: 2 to its place is at most the word.
pub leading_zeros_lem :
    (bits n : ℕ)
    → 0 < n
    → n < 2 ^ bits
    → (leading_zeros bits n < bits) × (2 ^ (bits - (leading_zeros bits n + 1)) ≤ n)
unfolding leading_zeros
leading_zeros_lem zero n pos lt = absurd (omega arith)
leading_zeros_lem (suc bits) n pos lt = elim (Bool-cases (leb (2 ^ bits) n)) [
  | inl top ↦ rw top (omega arith, pow-le_of_eq _ bits n (omega arith) (ground arith))
  | inr low ↦
      let (lt', le) = leading_zeros_lem bits n pos (ground arith) in
      rw low (omega arith, pow-le_of_eq _ (bits - (leading_zeros bits n + 1)) n (omega arith) le)
]

mod-mod_zero : (a m n : ℕ) → a % m ≡ 0 → m % n ≡ 0 → a % n ≡ 0
mod-mod_zero a m n h k =
    mod-eq-zero_of_dvd n (dvd_trans n (dvd_of_mod-eq-zero n k) (dvd_of_mod-eq-zero m h))

shl_or_top_lem :
    (addr : ℕ)
    → (k : ℕ) × (shl_or_top (trailing_zeros 64 addr) ≡ 2 ^ k) × (k ≤ 63) × (addr % 2 ^ k ≡ 0)
unfolding shl_or_top
shl_or_top_lem addr =
    let t = trailing_zeros 64 addr in
    elim (Bool-cases (ltb t 64)) [
      | inl small ↦ (t, rw small, ground arith, trailing_zeros-mod 64 addr)
      | inr large ↦
          let e : t ≡ 64 = ground (arith, trailing_zeros-le 64 addr) in
          let h : addr % 2 ^ 64 ≡ 0 = ap (λ k. addr % 2 ^ k) (sym e) ∙ trailing_zeros-mod 64 addr in
          (63, rw large, omega arith, omega (arith, h))
    ]

pow-lt-pow_cancel : (i j : ℕ) → 2 ^ i < 2 ^ j → i ≤ j
pow-lt-pow_cancel i j h = elim (Bool-cases (leb i j)) [
  | inl le ↦ ground arith
  | inr gt ↦
      let h' : 2 ^ j ≤ 2 ^ i = pow-le-pow_right (omega arith) (ground arith) in
      absurd (omega (arith, h, h'))
]

-- The block that `dissolve` cuts off: a power of two that fits in the region and divides its address.
pub block_size_lem :
    (addr len : ℕ)
    → 0 < len
    → len < 18446744073709551616
    → (k : ℕ) × (block_size addr len ≡ 2 ^ k) × (2 ^ k ≤ len) × (addr % 2 ^ k ≡ 0)
unfolding block_size
block_size_lem addr len pos lim =
    let (t, e, small, aligned) = shl_or_top_lem addr in
    elim (Bool-cases (ltb len (shl_or_top (trailing_zeros 64 addr)))) [
      | inl more ↦
          let (lt, le) = leading_zeros_lem 64 len pos lim in
          let f = 64 - (leading_zeros 64 len + 1) in
          let below : len < 2 ^ t = subst (λ x. len < x) e (ltb→lt _ _ more) in
          let ft : f ≤ t = pow-lt-pow_cancel f t (omega (arith, le, below)) in
          (f, rw more, le, mod-mod_zero addr (2 ^ t) (2 ^ f) aligned (pow-mod-pow f t ft))
      | inr fits ↦ (t, rw fits e, subst (λ x. x ≤ len) e (le_of_not-ltb _ _ fits), aligned)
    ]

-- ===== src/Prelude/Shifts.antt =====
-- `1 << k`, `!`, and the single bits of a word under `&`, `|` and `!`.
use Prim.Native.Nat.{ℕ, zero, suc, ◌+◌, ◌-◌, ◌*◌, ◌/◌, ◌%◌, ◌<◌}
use mathlib.Core.Path.{◌≡◌, refl, ap, ◌∙◌}
use mathlib.Core.Logic.{◌≢◌}
use native.Mathlib.Omega.{arith}
use hootux.Prelude.Bits.{bits_and, bits_or}

-- `1 << k`, below the width of the word
unfoldable pub one_shl : ℕ → ℕ
one_shl zero = 1
one_shl (suc k) = 2 * one_shl k

-- `!a` on `width` bits
unfoldable pub bits_not : ℕ → ℕ → ℕ
bits_not zero a = 0
bits_not (suc width) a = 1 - a % 2 + 2 * bits_not width (a / 2)

-- bit `j` of a word
unfoldable pub bit : ℕ → ℕ → ℕ
bit zero x = x % 2
bit (suc j) x = bit j (x / 2)

pub bit_bound : (j x : ℕ) → bit j x < 2
unfolding bit
bit_bound zero x = omega arith
bit_bound (suc j) x = bit_bound j (x / 2)

pub bit_none : (j : ℕ) → bit j 0 ≡ 0
unfolding bit
bit_none zero = refl
bit_none (suc j) = bit_none j

-- the bits of a word made of a lowest bit and the rest
bit_low : (l r : ℕ) → l < 2 → bit 0 (l + 2 * r) ≡ l
unfolding bit
bit_low l r h = omega arith

bit_high : (j l r : ℕ) → l < 2 → bit (suc j) (l + 2 * r) ≡ bit j r
unfolding bit
bit_high j l r h = ap (bit j) {x = (l + 2 * r) / 2} (omega arith)

bit_twice : (j r : ℕ) → bit (suc j) (2 * r) ≡ bit j r
unfolding bit
bit_twice j r = ap (bit j) {x = 2 * r / 2} (omega arith)

pub bit-bits_or : (w j a b : ℕ) → j < w → bit j (bits_or w a b) ≡ (bit j a + bit j b + 1) / 2
unfolding bits_or bit
bit-bits_or zero j a b h = absurd (omega arith)
bit-bits_or (suc w) zero a b h =
    bit_low ((a % 2 + b % 2 + 1) / 2) (bits_or w (a / 2) (b / 2)) (omega arith)
bit-bits_or (suc w) (suc j) a b h =
    bit_high j ((a % 2 + b % 2 + 1) / 2) (bits_or w (a / 2) (b / 2)) (omega arith)
    ∙ bit-bits_or w j (a / 2) (b / 2) (omega arith)

pub bit-bits_and : (w j a b : ℕ) → j < w → bit j (bits_and w a b) ≡ (bit j a + bit j b) / 2
unfolding bits_and bit
bit-bits_and zero j a b h = absurd (omega arith)
bit-bits_and (suc w) zero a b h =
    bit_low ((a % 2 + b % 2) / 2) (bits_and w (a / 2) (b / 2)) (omega arith)
bit-bits_and (suc w) (suc j) a b h =
    bit_high j ((a % 2 + b % 2) / 2) (bits_and w (a / 2) (b / 2)) (omega arith)
    ∙ bit-bits_and w j (a / 2) (b / 2) (omega arith)

pub bit-bits_not : (w j a : ℕ) → j < w → bit j (bits_not w a) ≡ 1 - bit j a
unfolding bits_not bit
bit-bits_not zero j a h = absurd (omega arith)
bit-bits_not (suc w) zero a h = bit_low (1 - a % 2) (bits_not w (a / 2)) (omega arith)
bit-bits_not (suc w) (suc j) a h =
    bit_high j (1 - a % 2) (bits_not w (a / 2)) (omega arith)
    ∙ bit-bits_not w j (a / 2) (omega arith)

pub bit-one_shl : (k : ℕ) → bit k (one_shl k) ≡ 1
unfolding one_shl bit
bit-one_shl zero = refl
bit-one_shl (suc k) = bit_twice k (one_shl k) ∙ bit-one_shl k

pub bit-one_shl_ne : (j k : ℕ) → j ≢ k → bit j (one_shl k) ≡ 0
unfolding one_shl bit
bit-one_shl_ne zero zero h = absurd (h refl)
bit-one_shl_ne (suc j) zero h = bit_none j
bit-one_shl_ne zero (suc k) h = omega arith
bit-one_shl_ne (suc j) (suc k) h = bit_twice j (one_shl k) ∙ bit-one_shl_ne j k (λ e. h (ap suc e))

bits_and_none : (w t : ℕ) → bits_and w t 0 ≡ 0
unfolding bits_and
bits_and_none zero t = refl
bits_and_none (suc w) t = omega (arith, bits_and_none w (t / 2))

-- masking out one bit
pub bits_and-one_shl : (w k t : ℕ) → k < w → bits_and w t (one_shl k) ≡ bit k t * one_shl k
unfolding bits_and one_shl bit
bits_and-one_shl zero k t h = absurd (omega arith)
bits_and-one_shl (suc w) zero t h = omega (arith, bits_and_none w (t / 2))
bits_and-one_shl (suc w) (suc k) t h =
    ap (λ x. (t % 2 + 2 * one_shl k % 2) / 2 + 2 * bits_and w (t / 2) x) {y = one_shl k}
      (omega arith)
    ∙ ap (λ x. (t % 2 + 2 * one_shl k % 2) / 2 + 2 * x) (bits_and-one_shl w k (t / 2) (omega arith))
    ∙ omega arith

pub one_shl_pos : (k : ℕ) → 0 < one_shl k
unfolding one_shl
one_shl_pos zero = omega arith
one_shl_pos (suc k) = omega (arith, one_shl_pos k)

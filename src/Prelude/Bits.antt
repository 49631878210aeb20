-- ===== src/Prelude/Bits.antt =====
-- The operators `&`, `|` and `>>` on machine words, bit by bit, from the lowest bit of a width.
use Prim.Native.Nat.{ℕ, zero, suc, ◌+◌, ◌*◌, ◌/◌, ◌%◌, ◌<◌}
use mathlib.Core.Path.{◌≡◌, ap, ◌∙◌}
use native.Mathlib.Omega.{arith}

-- `a & b` on `width` bits
unfoldable pub bits_and : ℕ → ℕ → ℕ → ℕ
bits_and zero a b = 0
bits_and (suc width) a b = (a % 2 + b % 2) / 2 + 2 * bits_and width (a / 2) (b / 2)

-- `a | b` on `width` bits
unfoldable pub bits_or : ℕ → ℕ → ℕ → ℕ
bits_or zero a b = 0
bits_or (suc width) a b = (a % 2 + b % 2 + 1) / 2 + 2 * bits_or width (a / 2) (b / 2)

bits_or-shift :
    (width a r : ℕ) → bits_or (suc width) (2 * a) r ≡ r % 2 + 2 * bits_or width a (r / 2)
unfolding bits_or
bits_or-shift width a r =
    ap (λ x. x + 2 * bits_or width (2 * a / 2) (r / 2)) low
    ∙ ap (λ x. r % 2 + 2 * bits_or width x (r / 2)) halve
  where
    low : (2 * a % 2 + r % 2 + 1) / 2 ≡ r % 2
    low = omega arith

    halve : 2 * a / 2 ≡ a
    halve = omega arith

bits_or_none : (d : ℕ) → d < 8 → bits_or 3 d 0 ≡ d
unfolding bits_or
bits_or_none d h = omega arith

-- one bit of a word below `2 * m`, joined to a word that ends in a zero bit
bits_or-step :
    (width a r m : ℕ)
    → r < 2 * m
    → ((q : ℕ) → q < m → bits_or width a q ≡ a + q)
    → bits_or (suc width) (2 * a) r ≡ 2 * a + r
bits_or-step width a r m h rec =
    bits_or-shift width a r ∙ ap (λ x. r % 2 + 2 * x) (rec (r / 2) (omega arith)) ∙ omega arith

-- a word that ends in five zero bits, joined with a word of five bits, is their sum
pub bits_or_low : (d r : ℕ) → d < 8 → r < 32 → bits_or 8 (32 * d) r ≡ 32 * d + r
bits_or_low d r hd hr =
    ap (λ x. bits_or 8 x r) {x = 32 * d} {y = 2 * (2 * (2 * (2 * (2 * d))))} (omega arith)
    ∙ bits_or-step 7 (2 * (2 * (2 * (2 * d)))) r 16 (omega arith) (λ q4 h4.
      bits_or-step 6 (2 * (2 * (2 * d))) q4 8 (omega arith) (λ q3 h3.
        bits_or-step 5 (2 * (2 * d)) q3 4 (omega arith) (λ q2 h2.
          bits_or-step 4 (2 * d) q2 2 (omega arith) (λ q1 h1.
            bits_or-step 3 d q1 1 (omega arith) (λ q0 h0.
              ap (bits_or 3 d) {x = q0} {y = 0} (omega arith) ∙ bits_or_none d hd ∙ omega arith)))))
    ∙ omega arith

-- the mask 0xe0 of a byte is its part above the low five bits
pub bits_and_high : (r : ℕ) → r < 256 → bits_and 8 r 0xe0 ≡ r / 32 * 32
unfolding bits_and
bits_and_high r h = omega arith

-- the mask 8 of a byte is its bit 3
pub bits_and_eight : (r : ℕ) → bits_and 8 r 8 ≡ r / 8 % 2 * 8
unfolding bits_and
bits_and_eight r = omega arith

-- the mask 0x1f of a byte is its low five bits
pub bits_and_low : (r : ℕ) → r < 128 → bits_and 8 r 0x1f ≡ r % 32
unfolding bits_and
bits_and_low r h = omega arith

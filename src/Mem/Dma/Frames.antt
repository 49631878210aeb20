-- ===== src/Mem/Dma/Frames.antt =====
-- kernel/src/mem/dma.rs: the page frames under the regions that `PhysicalRegionDescriber` yields.
use mathlib.Core.Path.{subst}
use hootux.Mem.Dma.{PhysicalRegionDescription, next_chunk, grow}
use hootux.Prelude.{
  ℕ, zero, suc, ◌+◌, ◌*◌, ◌/◌, ◌^◌, ◌<◌, ◌≤◌, ◌≡◌, refl, sym, ap, ◌∙◌, inl, inr, true, false,
  Bool-cases, Option, none, some, List, [], ◌∷◌, ◌++◌, lt→ltb, ◌==◌, ==→eq, if◌then◌else◌, min,
  length, get_elem?, drop, sub64, arith,
}

-- the page frames from `p` on, `n` of them
unfoldable pub frames_from : ℕ → ℕ → List ℕ
frames_from zero p = []
frames_from (suc n) p = p ∷ frames_from n (p + 1)

-- the page frames of a list of regions
unfoldable pub frames_of : List PhysicalRegionDescription → List ℕ
unfolding frames_from
frames_of [] = []
frames_of (r ∷ rs) = frames_from (r.size / 4096) (r.addr / 4096) ++ frames_of rs

-- how many of the frames of a list follow on from `p`
pub run : ℕ → List ℕ → ℕ
run p [] = 0
run p (q ∷ qs) = if q == p then suc (run (p + 1) qs) else 0

run_hit : (p q : ℕ) (qs : List ℕ) → (q == p) ≡ true → run p (q ∷ qs) ≡ suc (run (p + 1) qs)
unfolding run
run_hit p q qs e = ap (λ b. if b then suc (run (p + 1) qs) else 0) e

run_nil : (p : ℕ) → run p [] ≡ 0
unfolding run
run_nil p = refl

run_miss : (p q : ℕ) (qs : List ℕ) → (q == p) ≡ false → run p (q ∷ qs) ≡ 0
unfolding run
run_miss p q qs e = ap (λ b. if b then suc (run (p + 1) qs) else 0) e

pub run_le : (p : ℕ) (qs : List ℕ) → run p qs ≤ length qs
run_le p [] = omega (arith, run_nil p)
run_le p (q ∷ qs) = elim (Bool-cases (q == p)) [
  | inl e ↦ omega (arith, run_hit p q qs e, run_le (p + 1) qs)
  | inr e ↦ omega (arith, run_miss p q qs e)
]

whole_end :
    (len j k p : ℕ) (qs : List ℕ)
    → len ≡ 4096 * (j + k + suc (length qs))
    → (min (4096 * k + 4096) len == len) ≡ true
    → len ≡ 4096 * (k + suc (run p qs))
whole_end len j k p qs w u = ground (arith, run_le p qs)

not_end :
    (len j k n : ℕ)
    → len ≡ 4096 * (j + k + suc n)
    → (min (4096 * k + 4096) len == len) ≡ false
    → min (4096 * k + 4096) len ≡ 4096 * (k + 1)
not_end len j k n w u = ground arith

pub frames_from-run : (p : ℕ) (qs : List ℕ) → frames_from (run p qs) p ++ drop (run p qs) qs ≡ qs
unfolding frames_from run
frames_from-run p [] = refl
frames_from-run p (q ∷ qs) = elim (Bool-cases (q == p)) [
  | inl e ↦
      ap (λ n. frames_from n p ++ drop n (q ∷ qs)) (run_hit p q qs e)
      ∙ ap (λ x. p ∷ x) (frames_from-run (p + 1) qs)
      ∙ ap (λ x. x ∷ qs) (sym (==→eq q p e))
  | inr e ↦ ap (λ n. frames_from n p ++ drop n (q ∷ qs)) (run_miss p q qs e)
]

-- The buffer from page `j` on lies in these frames.
pub record Mapped (translate : ℕ → Option ℕ) (len j : ℕ) (frames : List ℕ) : Type 0 where
  pub whole : len ≡ 4096 * (j + length frames)
  pub at : (i p : ℕ) → get_elem? frames i ≡ some p → translate (4096 * (j + i)) ≡ some (4096 * p)
  pub small : (i p : ℕ) → get_elem? frames i ≡ some p → 4096 * (p + length frames) < 2 ^ 64

pub Mapped-tail :
    (translate : ℕ → Option ℕ) (len j q : ℕ) (qs : List ℕ)
    → Mapped translate len j (q ∷ qs)
    → Mapped translate len (j + 1) qs
Mapped-tail translate len j q qs m = record {
  whole = omega (arith, m.whole);
  at = λ i p e. ap translate {y = 4096 * (j + suc i)} (omega arith) ∙ m.at (suc i) p e;
  small = λ i p e. omega (arith, m.small (suc i) p e);
}

same_frame :
    (p q k : ℕ)
    → 4096 * (p + k) < 2 ^ 64
    → 4096 * q < 2 ^ 64
    → (sub64 (4096 * q) (4096 * p) == 4096 * k) ≡ (q == p + k)
same_frame p q k h g = ground arith

module _ (translate : ℕ → Option ℕ) (len : ℕ) where
  pub chunk_past : (j : ℕ) → len ≡ 4096 * j → next_chunk translate len (4096 * j) ≡ none
  unfolding next_chunk
  chunk_past j h = ground arith

  pub chunk_at :
      (j q : ℕ) (qs : List ℕ)
      → Mapped translate len j (q ∷ qs)
      → next_chunk translate len (4096 * j) ≡ some (4096 * q)
  unfolding next_chunk
  chunk_at j q qs m =
      ap (λ b. if b then translate (4096 * j) else none)
        (lt→ltb (4096 * j) len (omega (arith, m.whole)))
      ∙ ap translate {y = 4096 * (j + 0)} (omega arith)
      ∙ m.at 0 q refl

  -- one round of the loop, by what it finds
  module _ (fuel start base diff : ℕ) where
    grow_without :
        next_chunk translate len (diff + start) ≡ none
        → grow (suc fuel) translate len start base diff ≡ some diff
    unfolding grow
    grow_without e = rw (grow, e) refl

    grow_apart :
        (addr : ℕ)
        → next_chunk translate len (diff + start) ≡ some addr
        → (sub64 addr base == diff) ≡ false
        → grow (suc fuel) translate len start base diff ≡ some diff
    unfolding grow
    grow_apart addr e t = rw (grow, e, t) refl

    grow_end :
        (addr : ℕ)
        → next_chunk translate len (diff + start) ≡ some addr
        → (sub64 addr base == diff) ≡ true
        → (min (diff + 4096) len == len) ≡ true
        → grow (suc fuel) translate len start base diff ≡ some len
    unfolding grow
    grow_end addr e t u = rw (grow, e, t, u) refl

    grow_more :
        (addr : ℕ)
        → next_chunk translate len (diff + start) ≡ some addr
        → (sub64 addr base == diff) ≡ true
        → (min (diff + 4096) len == len) ≡ false
        → grow (suc fuel) translate len start base diff
          ≡ grow fuel translate len start base (min (diff + 4096) len)
    unfolding grow
    grow_more addr e t u = rw (grow, e, t, u) refl

  pub grow_lem :
      (fuel j k p : ℕ) (rest : List ℕ)
      → length rest < fuel
      → 4096 * (p + k + length rest) < 2 ^ 64
      → Mapped translate len (j + k) rest
      → grow fuel translate len (4096 * j) (4096 * p) (4096 * k)
        ≡ some (4096 * (k + run (p + k) rest))
  grow_lem zero j k p rest f b m = absurd (omega arith)
  grow_lem (suc fuel) j k p [] f b m =
      grow_without fuel (4096 * j) (4096 * p) (4096 * k) (
        ap (next_chunk translate len) {y = 4096 * (j + k)} (omega arith)
        ∙ chunk_past (j + k) (omega (arith, m.whole)))
      ∙ ap some (omega (arith, run_nil (p + k)))
  grow_lem (suc fuel) j k p (q ∷ qs) f b m = elim (Bool-cases (q == p + k)) [
    | inr e ↦
        grow_apart fuel (4096 * j) (4096 * p) (4096 * k) (4096 * q) there (frame ∙ e)
        ∙ ap some (omega (arith, run_miss (p + k) q qs e))
    | inl e ↦ elim (Bool-cases (min (4096 * k + 4096) len == len)) [
      | inl u ↦
          grow_end fuel (4096 * j) (4096 * p) (4096 * k) (4096 * q) there (frame ∙ e) u
          ∙ ap some
              (whole_end len j k (p + k + 1) qs m.whole u ∙ omega (arith, run_hit (p + k) q qs e))
      | inr u ↦
          grow_more fuel (4096 * j) (4096 * p) (4096 * k) (4096 * q) there (frame ∙ e) u
          ∙ ap (grow fuel translate len (4096 * j) (4096 * p)) {y = 4096 * (k + 1)}
              (not_end len j k (length qs) m.whole u)
          ∙ grow_lem fuel j (k + 1) p qs (omega arith) (omega arith) (
              subst (λ n. Mapped translate len n qs) {x = j + k + 1} (omega arith)
                (Mapped-tail translate len (j + k) q qs m))
          ∙ ap some (
              omega (
                arith,
                run_hit (p + k) q qs e,
                ap (λ x. run x qs) {x = p + (k + 1)} {y = p + k + 1} (omega arith),
              ))
    ]
  ]
    where
      there : next_chunk translate len (4096 * k + 4096 * j) ≡ some (4096 * q)
      there =
          ap (next_chunk translate len) {y = 4096 * (j + k)} (omega arith) ∙ chunk_at (j + k) q qs m

      frame : (sub64 (4096 * q) (4096 * p) == 4096 * k) ≡ (q == p + k)
      frame = same_frame p q k (omega arith) (omega (arith, m.small 0 q refl))

-- ===== src/Irq/Longest.antt =====
-- `reserve_contiguous` of vector_tables.rs with two vectors or more: an error means that no window is
-- left, and its number is the length of the longest one.
use hootux.Prelude.{
  ℕ, zero, suc, ◌+◌, ◌<◌, ◌≤◌, ◌≡◌, ◌∙◌, sym, refl, ap, max, false, Option, none, some, leb,
  get_elem?, eq_of_some, Bool-cases, inl, inr, ◌⊎◌, arith,
}
use hootux.Irq.{InterruptHandleContainer, empty, Vectors, is_empty, Scan}
use hootux.Irq.Search.{AllEmpty, Run}

-- What the loop knows before entry `i`, as long as it has not met its `break`.
pub record Longest (r : Vectors) (start req i : ℕ) (s : Scan) : Type 0 where
  pub run : Run r start i s.found_start s.found
  pub best_lt : s.best < req
  pub found_lt : s.found < req
  pub ending : (a n : ℕ) → start ≤ a → a + n ≡ i → AllEmpty r a n → n ≤ s.found
  pub covered : (a n : ℕ) → start ≤ a → a + n ≤ i → AllEmpty r a n → (n ≤ s.best) ⊎ (n ≤ s.found)
  pub seen : (a : ℕ) × (start ≤ a) × (a + s.best ≤ i) × AllEmpty r a s.best

AllEmpty-pred : (r : Vectors) (a n : ℕ) → AllEmpty r a (suc n) → AllEmpty r a n
AllEmpty-pred r a n h k lt = h k (omega arith)

-- A window that ends past an entry that is not empty has no entry.
nonempty_end :
    (r : Vectors) (a n i : ℕ) (c : InterruptHandleContainer)
    → get_elem? r i ≡ some c
    → is_empty c ≡ false
    → a + n ≡ i + 1
    → AllEmpty r a n
    → n ≡ 0
nonempty_end r a zero i c at e len h = refl
nonempty_end r a (suc n) i c at e len h =
    let e' : some empty ≡ some c = sym (h n (omega arith)) ∙ ap (get_elem? r) (omega arith) ∙ at in
    absurd (clash c e' e)
  where
    clash : (d : InterruptHandleContainer) → some empty ≡ some d → is_empty d ≡ false → ⊥
    clash d p q =
        let d' : empty ≡ d = eq_of_some p in
        let q' : is_empty empty ≡ false = ap is_empty d' ∙ q in unfold is_empty in cc q'

-- The length of the run after one more empty entry.
pub Longest-empty :
    (r : Vectors) (start req i : ℕ) (s : Scan) (s' : Scan)
    → Longest r start req i s
    → Run r start (i + 1) s'.found_start s'.found
    → s'.best ≡ s.best
    → s'.found ≡ s.found + 1
    → s'.found < req
    → Longest r start req (i + 1) s'
Longest-empty r start req i s s' l run eb ef lt = record {
  run = run;
  best_lt = omega (arith, l.best_lt);
  found_lt = lt;
  ending = λ a n le e h. ends a n le e h;
  covered = λ a n le lim h. elim (Bool-cases (leb (a + n) i)) [
    | inl below ↦ wider (l.covered a n le (ground arith) h)
    | inr above ↦ inr (ends a n le (ground arith) h)
  ];
  seen = longer l.seen;
}
  where
    ends : (a n : ℕ) → start ≤ a → a + n ≡ i + 1 → AllEmpty r a n → n ≤ s'.found
    ends a zero le e h = omega arith
    ends a (suc n) le e h = omega (arith, l.ending a n le (omega arith) (AllEmpty-pred r a n h))

    wider : {n : ℕ} → (n ≤ s.best) ⊎ (n ≤ s.found) → (n ≤ s'.best) ⊎ (n ≤ s'.found)
    wider (inl h) = inl (omega arith)
    wider (inr h) = inr (omega arith)

    longer :
        (a : ℕ) × (start ≤ a) × (a + s.best ≤ i) × AllEmpty r a s.best
        → (a : ℕ) × (start ≤ a) × (a + s'.best ≤ i + 1) × AllEmpty r a s'.best
    longer (a, le, lim, h) = (a, le, omega arith, λ k lt'. h k (omega arith))

-- The longest window that the loop knows of.
abbrev pub Window : Vectors → ℕ → ℕ → ℕ → Type 0
Window r start i n = (a : ℕ) × (start ≤ a) × (a + n ≤ i) × AllEmpty r a n

pub Run-Window :
    (r : Vectors) (start i found : ℕ) (fs : Option ℕ)
    → start ≤ i
    → Run r start i fs found
    → Window r start i found
Run-Window r start i found none le e = (i, le, omega arith, λ k lt. absurd (omega arith))
Run-Window r start i found (some v) le (e, lv, pos, h) = (v, lv, omega arith, h)

pub max-Window :
    (r : Vectors) (start i m n : ℕ)
    → Window r start i m
    → Window r start i n
    → Window r start i (max m n)
max-Window r start i m n (a, la, ea, ha) (b, lb, eb, hb) = elim (Bool-cases (leb m n)) [
  | inl e ↦ let e' : max m n ≡ n = ground arith in (b, lb, omega arith, λ k lt. hb k (omega arith))
  | inr e ↦ let e' : max m n ≡ m = ground arith in (a, la, omega arith, λ k lt. ha k (omega arith))
]

-- An entry that is not empty ends the run.
pub Longest-other :
    (r : Vectors) (start req i : ℕ) (c : InterruptHandleContainer) (s : Scan)
    → start ≤ i
    → Longest r start req i s
    → get_elem? r i ≡ some c
    → is_empty c ≡ false
    → Longest r start req
        (i + 1)
        (record { best = max s.found s.best; found_start = none; found = 0 })
Longest-other r start req i c s low l at e = record {
  run = refl;
  best_lt = omega (arith, l.best_lt, l.found_lt);
  found_lt = omega (arith, l.found_lt);
  ending = λ a n le len h. omega (arith, nonempty_end r a n i c at e len h);
  covered = λ a n le lim h. elim (Bool-cases (leb (a + n) i)) [
    | inl below ↦ inl (wider (l.covered a n le (ground arith) h))
    | inr above ↦ inr (omega (arith, nonempty_end r a n i c at e (ground arith) h))
  ];
  seen =
      let (a, le, lim, h) =
        max-Window r start i s.found s.best (Run-Window r start i s.found s.found_start low l.run)
          l.seen in
      (a, le, omega arith, h);
}
  where
    wider : {n : ℕ} → (n ≤ s.best) ⊎ (n ≤ s.found) → n ≤ max s.found s.best
    wider (inl h) = omega arith
    wider (inr h) = omega arith

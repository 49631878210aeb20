-- ===== src/Irq/Search.antt =====
-- `reserve_contiguous` of vector_tables.rs: the vectors that it grants are free.
use mathlib.Core.Path.{subst}
use hootux.Prelude.{
  ℕ, suc, ◌+◌, ◌%◌, ◌<◌, ◌≤◌, ◌≡◌, ◌∙◌, sym, refl, ap, true, false, Option, none, some, [], ◌∷◌,
  ltb, get_elem?, length, Bool-cases, inl, inr, arith,
}
use hootux.Irq.{
  InterruptHandleContainer, empty, Vectors, is_empty, Scan, scan_empty, scan_step, scan,
}

-- `n` entries from `a` on are `empty`.
abbrev pub AllEmpty : Vectors → ℕ → ℕ → Type 0
AllEmpty r a n = (k : ℕ) → k < n → get_elem? r (a + k) ≡ some empty

-- The run that ends before entry `i`.
abbrev pub Run : Vectors → ℕ → ℕ → Option ℕ → ℕ → Type 0
Run r start i none found = found ≡ 0
Run r start i (some v) found = (v + found ≡ i) × (start ≤ v) × (1 ≤ found) × AllEmpty r v found

abbrev pub IsSuffix : Vectors → ℕ → Vectors → Type 0
IsSuffix r i rest = (k : ℕ) → get_elem? rest k ≡ get_elem? r (i + k)

pub is_empty_lem : (c : InterruptHandleContainer) → is_empty c ≡ true → c ≡ empty
unfolding is_empty
is_empty_lem empty e = refl
is_empty_lem _ e = cc

AllEmpty-suc :
    (r : Vectors) (v n i : ℕ)
    → AllEmpty r v n
    → v + n ≡ i
    → get_elem? r i ≡ some empty
    → AllEmpty r v (n + 1)
AllEmpty-suc r v n i h e at k lt = elim (Bool-cases (ltb k n)) [
  | inl below ↦ h k (ground arith)
  | inr last ↦ ap (get_elem? r) (ground arith) ∙ at
]

scan_empty-Run :
    (r : Vectors) (start req i found : ℕ) (best : ℕ) (fs : Option ℕ)
    → start ≤ i
    → i < 256
    → 32 ≤ start
    → get_elem? r i ≡ some empty
    → Run r start i fs found
    → let s = (scan_empty req i fs (record { best = best; found_start = fs; found = found })).0 in
      Run r start (i + 1) s.found_start s.found
unfolding scan_empty
scan_empty-Run r start req i found best none le lt low at h =
    (refl, le, omega arith, λ k k0. ap (get_elem? r) (omega arith) ∙ at)
scan_empty-Run r start req i found best (some v) le lt low at (e, lv, pos, run) =
    let e' : (found + 1) % 256 ≡ found + 1 = omega arith in
    (omega arith, lv, omega arith, rw e' (AllEmpty-suc r v found i run e at))

pub scan_step-Run :
    (r : Vectors) (start req i : ℕ) (c : InterruptHandleContainer) (s : Scan)
    → start ≤ i
    → i < 256
    → 32 ≤ start
    → get_elem? r i ≡ some c
    → Run r start i s.found_start s.found
    → let s' = (scan_step req c i s).0 in Run r start (i + 1) s'.found_start s'.found
unfolding scan_step
scan_step-Run r start req i c s le lt low at h = elim (Bool-cases (is_empty c)) [
  | inl e ↦ rw e (
      scan_empty-Run r start req i s.found s.best s.found_start le lt low
        (at ∙ ap some (is_empty_lem c e)) h)
  | inr e ↦ rw e refl
]

pub IsSuffix-tail :
    (r : Vectors) (i : ℕ) (c : InterruptHandleContainer) (rest : Vectors)
    → IsSuffix r i (c ∷ rest)
    → IsSuffix r (i + 1) rest
IsSuffix-tail r i c rest h k = h (suc k) ∙ ap (get_elem? r) (omega arith)

pub IsSuffix-head :
    (r : Vectors) (i : ℕ) (c : InterruptHandleContainer) (rest : Vectors)
    → IsSuffix r i (c ∷ rest)
    → get_elem? r i ≡ some c
IsSuffix-head r i c rest h = ap (get_elem? r) (omega arith) ∙ sym (h 0)

pub scan_stop :
    (req i : ℕ) (c : InterruptHandleContainer) (rest : Vectors) (s : Scan)
    → (scan_step req c i s).1 ≡ true
    → scan req (c ∷ rest) i s ≡ (scan_step req c i s).0
unfolding scan
scan_stop req i c rest s e = rw (e, scan)

pub scan_go :
    (req i : ℕ) (c : InterruptHandleContainer) (rest : Vectors) (s : Scan)
    → (scan_step req c i s).1 ≡ false
    → scan req (c ∷ rest) i s ≡ scan req rest (i + 1) (scan_step req c i s).0
unfolding scan
scan_go req i c rest s e = rw (e, scan)

-- Whatever the loop returns is a run of empty entries inside the array.
pub scan-Run :
    (r : Vectors) (start req i : ℕ) (rest : Vectors) (s : Scan)
    → start ≤ i
    → i + length rest ≤ 256
    → 32 ≤ start
    → IsSuffix r i rest
    → Run r start i s.found_start s.found
    → (j : ℕ) × (j ≤ i + length rest)
      × Run r start j (scan req rest i s).found_start (scan req rest i s).found
unfolding scan
scan-Run r start req i [] s le fits low suffix h = (i, omega arith, h)
scan-Run r start req i (c ∷ rest) s le fits low suffix h =
    let step =
      scan_step-Run r start req i c s le (omega arith) low (IsSuffix-head r i c rest suffix) h in
    elim (Bool-cases (scan_step req c i s).1) [
      | inl stop ↦ (
        i + 1,
        omega arith,
        subst (λ x. Run r start (i + 1) x.found_start x.found) (sym (scan_stop req i c rest s stop))
            step,
      )
      | inr more ↦
          let (j, le', run) =
            scan-Run r start req (i + 1) rest (scan_step req c i s).0 (omega arith) (omega arith)
              low (IsSuffix-tail r i c rest suffix) step in
          (
            j,
            omega arith,
            subst (λ x. Run r start j x.found_start x.found) (sym (scan_go req i c rest s more))
                run,
          )
    ]

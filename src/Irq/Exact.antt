-- ===== src/Irq/Exact.antt =====
-- `reserve_contiguous` of vector_tables.rs: what an error says of two vectors or more.
use mathlib.Core.Path.{subst}
use hootux.Prelude.{
  ℕ, ◌+◌, ◌<◌, ◌≤◌, ◌≡◌, ◌∙◌, sym, refl, max, Option, none, some, ltb, get_elem?-drop, length-drop,
  drop, length, Result, ok, err, eq_of_some, Bool-cases, inl, inr, ◌⊎◌, arith,
}
use hootux.Irq.{Vectors, Scan, scan_init, scan, claim, reserve_contiguous}
use hootux.Irq.Search.{AllEmpty, Run}
use hootux.Irq.Longest.{Longest, Window, Run-Window, max-Window}
use hootux.Irq.Refuse.{scan-Longest}
use hootux.Irq.Grant.{claim-some, reserve_short, reserve_long, scan_lem}

starts :
    (r : Vectors) (start req : ℕ) → 2 ≤ req → Longest r (max start 32) req (max start 32) scan_init
starts r start req two = record {
  run = refl;
  best_lt = omega arith;
  found_lt = omega arith;
  ending = λ a n le e h. omega arith;
  covered = λ a n le e h. inl (omega arith);
  seen = (max start 32, omega arith, omega arith, λ k lt. absurd (omega arith));
}

abbrev Answer : Vectors → ℕ → ℕ → ℕ → Type 0
Answer r start req m =
    (m < req)
    × Window r start 256 m
    × ((a n : ℕ) → start ≤ a → a + n ≤ 256 → AllEmpty r a n → n ≤ m)

-- The answer of a search that ends with too few entries.
short_answer :
    (r : Vectors) (start req : ℕ) (s : Scan)
    → start ≤ 256
    → Longest r start req 256 s
    → (max s.best s.found < req)
      × Window r start 256 (max s.best s.found)
      × ((a n : ℕ) → start ≤ a → a + n ≤ 256 → AllEmpty r a n → n ≤ max s.best s.found)
short_answer r start req s low l = (
  omega (arith, l.best_lt, l.found_lt),
  max-Window r start 256 s.best s.found l.seen
      (Run-Window r start 256 s.found s.found_start low l.run),
  λ a n le lim h. wider (l.covered a n le lim h),
)
  where
    wider : {n : ℕ} → (n ≤ s.best) ⊎ (n ≤ s.found) → n ≤ max s.best s.found
    wider (inl h) = omega arith
    wider (inr h) = omega arith

long_answer :
    (r : Vectors) (start req best j found : ℕ) (fs : Option ℕ) {m : ℕ} {r' : Vectors}
    → length r ≡ 256
    → j ≤ 256
    → req ≤ found
    → 1 ≤ req
    → Run r start j fs found
    → claim r req best fs ≡ some (err m, r')
    → ⊥
long_answer r start req best j found none full le fits one run e = omega arith
long_answer r start req best j found (some v) full le fits one run e =
    never (eq_of_some (sym (claim-some r start req best j v found full le fits run) ∙ e))
  where
    never : {a b : ℕ} {x y : Vectors} → ◌≡◌ {A = Result ℕ ℕ × Vectors} (ok a, x) (err b, y) → ⊥
    never h = cc

-- Where `reserve_contiguous` refuses a request for two vectors or more, its number is less than the
-- request, it is the length of a window of empty entries at or above `start` and 32, and no such
-- window is longer.
pub reserve_contiguous_err :
    (r : Vectors) (start req : ℕ) {m : ℕ} {r' : Vectors}
    → length r ≡ 256
    → start < 256
    → 2 ≤ req
    → reserve_contiguous r start req ≡ some (err m, r')
    → (m < req)
      × Window r (max start 32) 256 m
      × ((a n : ℕ) → max start 32 ≤ a → a + n ≤ 256 → AllEmpty r a n → n ≤ m)
reserve_contiguous_err r start req {m} {r'} full small two e =
    let s = scan req (drop (max start 32) r) (max start 32) scan_init in
    elim (Bool-cases (ltb s.found req)) [
      | inl short ↦
          let same : max s.best s.found ≡ m =
            number (eq_of_some (sym (reserve_short r start req short) ∙ e)) in
          let l =
            scan-Longest r (max start 32) req (max start 32) 256 (drop (max start 32) r) scan_init
              (omega arith) (omega (arith, length-drop (max start 32) r)) (omega arith)
              (omega arith) two (get_elem?-drop (max start 32) r) (starts r start req two)
              (ground arith) in
          subst (Answer r (max start 32) req) same
            (short_answer r (max start 32) req s (omega arith) l)
      | inr long ↦
          let (j, le, run) = scan_lem r start req full small in
          absurd (
            long_answer r (max start 32) req (max s.best s.found) j s.found s.found_start full le
              (ground arith) (omega arith) run (sym (reserve_long r start req long) ∙ e))
    ]
  where
    number :
        {a b : ℕ} {x y : Vectors} → ◌≡◌ {A = Result ℕ ℕ × Vectors} (err a, x) (err b, y) → a ≡ b
    number h = cc

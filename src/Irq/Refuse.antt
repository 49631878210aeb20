-- ===== src/Irq/Refuse.antt =====
-- `reserve_contiguous` of vector_tables.rs: what an error says, for two vectors or more and for one,
-- and what `reserve_irq` of interrupts.rs does to the lock on an error.
use mathlib.Core.Path.{subst}
use hootux.Prelude.{
  ℕ, ◌+◌, ◌%◌, ◌<◌, ◌≤◌, ◌≡◌, ◌∙◌, sym, refl, ap, max, true, false, Option, none, some, [], ◌∷◌,
  get_elem?, length, Bool-cases, inl, inr, arith,
}
use hootux.Irq.{InterruptHandleContainer, Vectors, is_empty, Scan, scan_empty, scan_step, scan}
use hootux.Irq.Search.{
  Run, IsSuffix, IsSuffix-head, IsSuffix-tail, scan_stop, scan_go, scan_step-Run,
}
use hootux.Irq.Longest.{Longest, Longest-empty, Longest-other}

scan_empty_lem :
    (r : Vectors) (start req i : ℕ) (fs : Option ℕ) (s : Scan)
    → Run r start i fs s.found
    → i < 256
    → 32 ≤ start
    → 2 ≤ req
    → s.found < req
    → (scan_empty req i fs s).1 ≡ false
    → let s' = (scan_empty req i fs s).0 in
      (s'.best ≡ s.best) × (s'.found ≡ s.found + 1) × (s'.found < req)
unfolding scan_empty
scan_empty_lem r start req i none s run lim low two lt go = (refl, omega arith, omega arith)
scan_empty_lem r start req i (some v) s (e, lv, pos, h) lim low two lt go =
    let e' : (s.found + 1) % 256 ≡ s.found + 1 = omega arith in (refl, e', ground arith)

pub scan_step_empty :
    (req i : ℕ) (c : InterruptHandleContainer) (s : Scan)
    → is_empty c ≡ true
    → scan_step req c i s ≡ scan_empty req i s.found_start s
unfolding scan_step
scan_step_empty req i c s e = rw e

pub scan_step_other :
    (req i : ℕ) (c : InterruptHandleContainer) (s : Scan)
    → is_empty c ≡ false
    → scan_step req c i s
      ≡ (record { best = max s.found s.best; found_start = none; found = 0 }, false)
unfolding scan_step
scan_step_other req i c s e = rw e

Longest-step :
    (r : Vectors) (start req i : ℕ) (c : InterruptHandleContainer) (s : Scan)
    → start ≤ i
    → i < 256
    → 32 ≤ start
    → 2 ≤ req
    → get_elem? r i ≡ some c
    → Longest r start req i s
    → (scan_step req c i s).1 ≡ false
    → Longest r start req (i + 1) (scan_step req c i s).0
Longest-step r start req i c s le lim low two at l go = elim (Bool-cases (is_empty c)) [
  | inr e ↦
      subst (λ x. Longest r start req (i + 1) x.0) (sym (scan_step_other req i c s e))
        (Longest-other r start req i c s le l at e)
  | inl e ↦
      let same = scan_step_empty req i c s e in
      let (eb, ef, lt) =
        scan_empty_lem r start req i s.found_start s l.run lim low two l.found_lt
          (ap (λ x. x.1) (sym same) ∙ go) in
      let run = scan_step-Run r start req i c s le lim low at l.run in
      Longest-empty r start req i s (scan_step req c i s).0 l run (ap (λ x. x.0.best) same ∙ eb)
        (ap (λ x. x.0.found) same ∙ ef) (subst (λ x. x < req) (sym (ap (λ x. x.0.found) same)) lt)
]

scan_empty_stop :
    (req i : ℕ) (fs : Option ℕ) (s : Scan)
    → (scan_empty req i fs s).1 ≡ true
    → (scan_empty req i fs s).0.found ≡ req
unfolding scan_empty
scan_empty_stop req i none s e = absurd (ground arith)
scan_empty_stop req i (some v) s e = ground arith

-- The loop breaks only with `req` entries found.
scan_step_stop :
    (req i : ℕ) (c : InterruptHandleContainer) (s : Scan)
    → (scan_step req c i s).1 ≡ true
    → (scan_step req c i s).0.found ≡ req
scan_step_stop req i c s e = elim (Bool-cases (is_empty c)) [
  | inl t ↦
      let same = scan_step_empty req i c s t in
      ap (λ x. x.0.found) same
      ∙ scan_empty_stop req i s.found_start s (ap (λ x. x.1) (sym same) ∙ e)
  | inr f ↦ absurd (never (ap (λ x. x.1) (sym (scan_step_other req i c s f)) ∙ e))
]
  where
    never : false ≡ true → ⊥
    never h = cc

pub scan-Longest :
    (r : Vectors) (start req i j : ℕ) (rest : Vectors) (s : Scan)
    → start ≤ i
    → i + length rest ≡ j
    → j ≤ 256
    → 32 ≤ start
    → 2 ≤ req
    → IsSuffix r i rest
    → Longest r start req i s
    → (scan req rest i s).found < req
    → Longest r start req j (scan req rest i s)
unfolding scan
scan-Longest r start req i j [] s le len lim low two suffix l short =
    let e : i ≡ j = omega arith in subst (λ k. Longest r start req k s) e l
scan-Longest r start req i j (c ∷ rest) s le len lim low two suffix l short =
    let at = IsSuffix-head r i c rest suffix in
    elim (Bool-cases (scan_step req c i s).1) [
      | inl stop ↦
          let found : (scan req (c ∷ rest) i s).found ≡ req =
            ap (λ x. x.found) (scan_stop req i c rest s stop) ∙ scan_step_stop req i c s stop in
          absurd (omega (arith, found, short))
      | inr go ↦
          let same = scan_go req i c rest s go in
          subst (λ x. Longest r start req j x) (sym same)
            (scan-Longest r start req (i + 1) j rest (scan_step req c i s).0 (omega arith)
              (omega arith) lim low two (IsSuffix-tail r i c rest suffix)
              (Longest-step r start req i c s le (omega arith) low two at l go)
              (subst (λ x. x < req) (ap (λ x. x.found) same) short))
    ]

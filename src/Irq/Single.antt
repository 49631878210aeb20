-- ===== src/Irq/Single.antt =====
-- `reserve_contiguous` of vector_tables.rs asked for one vector, `alloc_interrupt` and `reserve_irq`
-- of interrupts.rs.
use hootux.Prelude.{
  ℕ, ◌+◌, ◌%◌, ◌<◌, ◌≤◌, ◌≡◌, ◌≢◌, ◌∙◌, sym, refl, ap, max, true, false, Option, none, some, [],
  ◌∷◌, ◌==◌, get_elem?, get_elem?-drop, length-drop, drop, length, Result, ok, err, eq_of_some,
  Bool-cases, inl, inr, arith,
}
use hootux.Irq.{
  InterruptHandleContainer, Vectors, HandleRegistry, is_empty, Scan, scan_init, scan_empty,
  scan_step, scan, reserve_contiguous, returns, spins, pub_vec_start, leave_irq, reserve_irq,
  alloc_interrupt, ok_of,
}
use hootux.Irq.Search.{Run, IsSuffix, IsSuffix-head, IsSuffix-tail, scan_go, scan_step-Run}
use hootux.Irq.Refuse.{scan_step_other, scan_step_empty}
use hootux.Irq.Grant.{reserve_short}

no_break_empty :
    (r : Vectors) (start i : ℕ) (fs : Option ℕ) (s : Scan)
    → Run r start i fs s.found
    → i < 256
    → (scan_empty 1 i fs s).1 ≡ false
unfolding scan_empty
no_break_empty r start i none s run lim = refl
no_break_empty r start i (some v) s (e, lv, pos, h) lim =
    let e' : (s.found + 1) % 256 ≢ 1 = omega arith in ground arith

-- Asked for one vector, the loop never breaks.
no_break :
    (r : Vectors) (start i : ℕ) (c : InterruptHandleContainer) (s : Scan)
    → Run r start i s.found_start s.found
    → i < 256
    → (scan_step 1 c i s).1 ≡ false
no_break r start i c s run lim = elim (Bool-cases (is_empty c)) [
  | inl t ↦
      ap (λ x. x.1) (scan_step_empty 1 i c s t) ∙ no_break_empty r start i s.found_start s run lim
  | inr f ↦ ap (λ x. x.1) (scan_step_other 1 i c s f)
]

scan_single :
    (r : Vectors) (start i : ℕ) (c last : InterruptHandleContainer) (rest : Vectors) (s : Scan)
    → start ≤ i
    → i + length (c ∷ rest) ≡ 256
    → 32 ≤ start
    → IsSuffix r i (c ∷ rest)
    → Run r start i s.found_start s.found
    → get_elem? r 255 ≡ some last
    → is_empty last ≡ false
    → (scan 1 (c ∷ rest) i s).found ≡ 0
unfolding scan
scan_single r start i c last [] s le len low suffix run at taken =
    let e : c ≡ last =
      eq_of_some (sym (IsSuffix-head r i c [] suffix) ∙ ap (get_elem? r) (omega arith) ∙ at) in
    let stays = no_break r start i c s run (omega arith) in
    ap (λ x. x.found) (scan_go 1 i c [] s stays)
    ∙ ap (λ x. x.0.found) (scan_step_other 1 i c s (ap is_empty e ∙ taken))
scan_single r start i c last (d ∷ rest) s le len low suffix run at taken =
    let stays = no_break r start i c s run (omega arith) in
    ap (λ x. x.found) (scan_go 1 i c (d ∷ rest) s stays)
    ∙ scan_single r start (i + 1) d last rest (scan_step 1 c i s).0 (omega arith) (omega arith) low
        (IsSuffix-tail r i c (d ∷ rest) suffix)
        (scan_step-Run r start 1 i c s le (omega arith) low (IsSuffix-head r i c (d ∷ rest) suffix)
          run)
        at taken

scan_rest :
    (r : Vectors) (start : ℕ) (last : InterruptHandleContainer) (rest : Vectors)
    → start + length rest ≡ 256
    → start < 256
    → 32 ≤ start
    → IsSuffix r start rest
    → get_elem? r 255 ≡ some last
    → is_empty last ≡ false
    → (scan 1 rest start scan_init).found ≡ 0
scan_rest r start last [] len lim low suffix at taken = absurd (omega arith)
scan_rest r start last (c ∷ rest) len lim low suffix at taken =
    scan_single r start start c last rest scan_init (omega arith) len low suffix refl at taken

-- With vector 255 in use a request for one vector is refused, whatever else is free.
pub reserve_contiguous_single :
    (r : Vectors) (start : ℕ) (last : InterruptHandleContainer)
    → length r ≡ 256
    → start < 256
    → get_elem? r 255 ≡ some last
    → is_empty last ≡ false
    → (m : ℕ) × (reserve_contiguous r start 1 ≡ some (err m, r))
reserve_contiguous_single r start last full small at taken =
    let s = scan 1 (drop (max start 32) r) (max start 32) scan_init in
    let e =
      scan_rest r (max start 32) last (drop (max start 32) r)
        (omega (arith, length-drop (max start 32) r)) (omega arith) (omega arith)
        (get_elem?-drop (max start 32) r) at taken in
    (max s.best s.found, reserve_short r start 1 (ground arith))

-- So `alloc_interrupt` fails, with nothing changed, once vector 255 is in use.
pub alloc_interrupt_last :
    (r : Vectors) (last : InterruptHandleContainer)
    → length r ≡ 256
    → get_elem? r 255 ≡ some last
    → is_empty last ≡ false
    → alloc_interrupt r ≡ some (none, r)
unfolding alloc_interrupt ok_of
alloc_interrupt_last r last full at taken =
    let (m, e) = reserve_contiguous_single r 32 last full (omega arith) at taken in rw e

leave_irq_err :
    (out : Option (Result ℕ ℕ × Vectors)) {m : ℕ} {r' : HandleRegistry}
    → leave_irq out ≡ returns (err m, r')
    → r'.lock ≡ true
unfolding leave_irq
leave_irq_err none e = absurd (ground arith)
leave_irq_err (some (err n, arr)) {m} {r'} e = ground arith
leave_irq_err (some (ok v, arr)) e = absurd (ground arith)

-- A refusal by `reserve_irq` leaves the registry locked: the next call for one vector or more spins
-- for ever.
pub reserve_irq_err :
    (r : HandleRegistry) (p n p' n' : ℕ) {m : ℕ} {r' : HandleRegistry}
    → reserve_irq r p n ≡ returns (err m, r')
    → 0 < n'
    → reserve_irq r' p' n' ≡ spins
unfolding reserve_irq
reserve_irq_err r p n p' n' {m} {r'} e pos =
    let locked : r'.lock ≡ true = elim (Bool-cases (n == 0)) [
      | inl z ↦ absurd (ground arith)
      | inr some_wanted ↦ elim (Bool-cases r.lock) [
        | inl held ↦ absurd (ground arith)
        | inr free ↦
            leave_irq_err (reserve_contiguous r.arr (max p pub_vec_start) n) {m = m} {r' = r'}
              (ground arith)
      ]
    ] in
    rw locked (ground arith)

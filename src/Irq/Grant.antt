-- ===== src/Irq/Grant.antt =====
-- `reserve_contiguous` of vector_tables.rs always returns, and what it grants was free.
use hootux.Prelude.{
  ℕ, zero, suc, ◌+◌, ◌%◌, ◌<◌, ◌≤◌, ◌≡◌, ◌∙◌, refl, max, true, false, Option, none, some, ltb, leb,
  ◌==◌, ◌&&◌, if◌then◌else◌, get_elem?, get_elem?-drop, get_elem?-set_self, get_elem?-set_ne,
  length-set, length-drop, set, drop, length, Result, ok, err, Bool-cases, inl, inr, arith,
}
use hootux.Irq.{reserved, Vectors, scan_init, scan, reserve_all, claim, reserve_contiguous}
use hootux.Irq.Search.{AllEmpty, Run, scan-Run}

pub get_elem?-reserve_all :
    (r : Vectors) (v n j : ℕ)
    → v + n ≤ length r
    → get_elem? (reserve_all r v n) j
      ≡ (if leb v j && ltb j (v + n) then some reserved else get_elem? r j)
unfolding reserve_all
get_elem?-reserve_all r v zero j h = ground arith
get_elem?-reserve_all r v (suc n) j h =
    get_elem?-reserve_all (set r v reserved) (v + 1) n j (omega (arith, length-set r v reserved))
    ∙ elim (Bool-cases (v == j)) [
      | inl e ↦
          let e' : v ≡ j = ground arith in
          rw (← e') (ground (arith, get_elem?-set_self r v reserved (omega arith)))
      | inr e ↦ ground (arith, get_elem?-set_ne r v j reserved (ground arith))
    ]

-- The run that a search from `start` ends with.
pub scan_lem :
    (r : Vectors) (start req : ℕ)
    → length r ≡ 256
    → start < 256
    → let s = scan req (drop (max start 32) r) (max start 32) scan_init in
      (j : ℕ) × (j ≤ 256) × Run r (max start 32) j s.found_start s.found
scan_lem r start req full small =
    let (j, le, run) =
      scan-Run r (max start 32) req (max start 32) (drop (max start 32) r) scan_init (omega arith)
        (omega (arith, length-drop (max start 32) r)) (omega arith)
        (get_elem?-drop (max start 32) r) refl in
    (j, omega (arith, le, length-drop (max start 32) r), run)

pub claim-some :
    (r : Vectors) (start req best j v found : ℕ)
    → length r ≡ 256
    → j ≤ 256
    → req ≤ found
    → Run r start j (some v) found
    → claim r req best (some v) ≡ some (ok v, reserve_all r v req)
unfolding claim
claim-some r start req best j v found full le fits (e, lv, pos, run) =
    let e' : v % 256 ≡ v = omega arith in rw e' (ground (arith, full))

-- What `reserve_contiguous` may return: a free window past the exceptions, every entry of which is
-- then reserved and no other changed; or an error with nothing changed.
abbrev pub Granted : Vectors → ℕ → ℕ → Result ℕ ℕ × Vectors → Type 0
Granted r start req (ok v, r') =
    (max start 32 ≤ v)
    × (v + req ≤ 256)
    × AllEmpty r v req
    × ((j : ℕ)
        → get_elem? r' j ≡ (if leb v j && ltb j (v + req) then some reserved else get_elem? r j))
Granted r start req (err m, r') = r' ≡ r

Granted-claim :
    (r : Vectors) (start req best j found : ℕ) (fs : Option ℕ)
    → length r ≡ 256
    → j ≤ 256
    → req ≤ found
    → Run r (max start 32) j fs found
    → (out : Result ℕ ℕ × Vectors) × (claim r req best fs ≡ some out) × Granted r start req out
Granted-claim r start req best j found none full le fits run =
    ((err best, r), unfold claim in refl, refl)
Granted-claim r start req best j found (some v) full le fits run = (
  (ok v, reserve_all r v req),
  claim-some r (max start 32) req best j v found full le fits run,
  (
    run.1,
    omega (arith, run.0),
    λ k lt. run.3 k (omega arith),
    λ k. get_elem?-reserve_all r v req k (omega (arith, run.0)),
  ),
)

pub reserve_short :
    (r : Vectors) (start req : ℕ)
    → let s = scan req (drop (max start 32) r) (max start 32) scan_init in
      ltb s.found req ≡ true → reserve_contiguous r start req ≡ some (err (max s.best s.found), r)
unfolding reserve_contiguous
reserve_short r start req e = rw e

pub reserve_long :
    (r : Vectors) (start req : ℕ)
    → let s = scan req (drop (max start 32) r) (max start 32) scan_init in
      ltb s.found req ≡ false
      → reserve_contiguous r start req ≡ claim r req (max s.best s.found) s.found_start
unfolding reserve_contiguous
reserve_long r start req e = rw e

-- On an array of 256 entries `reserve_contiguous` never panics. A vector that it grants starts a
-- window of `req` empty entries at or above both `start` and 32; exactly the window becomes reserved.
-- On an error nothing changes.
pub reserve_contiguous_lem :
    (r : Vectors) (start req : ℕ)
    → length r ≡ 256
    → start < 256
    → (out : Result ℕ ℕ × Vectors) × (reserve_contiguous r start req ≡ some out)
      × Granted r start req out
reserve_contiguous_lem r start req full small =
    let s = scan req (drop (max start 32) r) (max start 32) scan_init in
    let (j, le, run) = scan_lem r start req full small in
    elim (Bool-cases (ltb s.found req)) [
      | inl e ↦ ((err (max s.best s.found), r), reserve_short r start req e, refl)
      | inr e ↦
          let (out, runs, granted) =
            Granted-claim r start req (max s.best s.found) j s.found s.found_start full le
              (ground arith) run in
          (out, reserve_long r start req e ∙ runs, granted)
    ]

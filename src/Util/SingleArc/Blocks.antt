-- ===== src/Util/SingleArc/Blocks.antt =====
-- kernel/src/util/single_arc.rs: the block after one operation.
use mathlib.Core.Path.{subst}
use hootux.Util.SingleArc.{
  Heap, block, downgrade, drop_strong, take, deref, release, drop_weak, get,
}
use hootux.Prelude.{
  ℕ, zero, suc, ◌+◌, ◌^◌, ◌<◌, ◌≤◌, ◌≡◌, refl, sym, ap, ◌∙◌, Bool, true, false, Option, none, some,
  ◌==◌, if◌then◌else◌, length, length-set, set, ◌>>=◌, add64, sub64, arith,
}
use hootux.Util.SingleArc.Handles.{
  Handles, Op, downgrade_it, take_it, drop_it, deref_it, drop_one, read_one, perform, expected,
  block-set, set_twice, Right, Steps,
}

module _ (a d : ℕ) (h : Heap) (l : a < length h) where
  -- the state with these handles, and the block that goes with them
  abbrev next : Bool → ℕ → Handles
  next b n = record { heap = set h a (expected b n d); strong = b; weaks = n }

  moved :
      (out : Option Handles) (b : Bool) (n m : ℕ)
      → out ≡ some (next b n)
      → n ≤ m + 1
      → Steps a d m out
  unfolding Steps Right
  moved out b n m e k = (
    next b n,
    e,
    (block-set h a (expected b n d) l, omega (arith, length-set h a (expected b n d))),
    k,
  )

  -- nothing was called
  stay :
      (b : Bool) (n : ℕ)
      → block h a ≡ expected b n d
      → Steps a d n (some (record { heap = h; strong = b; weaks = n }))
  unfolding Steps Right
  stay b n e = (record { heap = h; strong = b; weaks = n }, refl, (e, l), omega arith)

  drop_step : (n : ℕ) → block h a ≡ expected true n d → Steps a d n (perform a h true n drop_it)
  unfolding perform drop_strong expected
  drop_step zero e = moved _ false zero zero (rw (drop_strong, e) refl) (omega arith)
  drop_step (suc n) e = moved _ false (suc n) (suc n) (rw (drop_strong, e) kept) (omega arith)
    where
      kept :
          Path
            (Option Handles)
            (some (record {
              heap =
                  (if suc n == 0
                    then set h a none
                    else set h a (some (record { weak_count = suc n; data_box = none })));
              strong = false;
              weaks = suc n;
            }))
            (some (next false (suc n)))
      kept =
          ap
            (λ t. some (record {
              heap =
                  (if t
                    then set h a none
                    else set h a (some (record { weak_count = suc n; data_box = none })));
              strong = false;
              weaks = suc n;
            }))
            {x = suc n == 0} {y = false} (ground arith)

  count_up :
      (n : ℕ)
      → n + 1 < 2 ^ 64
      → block h a ≡ expected true n d
      → perform a h true n downgrade_it ≡ some (next true (suc n))
  unfolding perform downgrade expected
  count_up n k e =
      rw (downgrade, e)
        (ap
          (λ c. some (record {
            heap = set h a (some (record { weak_count = c; data_box = some d }));
            strong = true;
            weaks = suc n;
          }))
          {x = add64 n 1} {y = suc n} (omega arith))

  last_one :
      (n : ℕ)
      → suc n + 1 < 2 ^ 64
      → block h a ≡ expected false (suc n) d
      → perform a h false (suc n) drop_one ≡ some (next false n)
  unfolding perform drop_weak release expected
  last_one zero k e = rw (drop_weak, e) refl
  last_one (suc n) k e =
      rw (drop_weak, e)
        (ap
            (λ t. some (record {
              heap =
                  (if t
                    then set h a none
                    else set h a
                        (some (record { weak_count = sub64 (suc (suc n)) 1; data_box = none })));
              strong = false;
              weaks = suc n;
            }))
            {x = suc (suc n) == 1} {y = false} (ground arith)
          ∙ ap
              (λ c. some (record {
                heap = set h a (some (record { weak_count = c; data_box = none }));
                strong = false;
                weaks = suc n;
              }))
              {x = sub64 (suc (suc n)) 1} {y = suc n} (omega arith))

  count_down :
      (n : ℕ)
      → suc n + 1 < 2 ^ 64
      → block h a ≡ expected true (suc n) d
      → perform a h true (suc n) drop_one ≡ some (next true n)
  unfolding perform drop_weak release expected
  count_down n k e =
      rw (drop_weak, e)
        (ap
          (λ c. some (record {
            heap = set h a (some (record { weak_count = c; data_box = some d }));
            strong = true;
            weaks = n;
          }))
          {x = sub64 (suc n) 1} {y = n} (omega arith))

  -- the heap without the handle, or with the data gone
  dropped : ℕ → Heap
  dropped n =
      if n == 0 then set h a none else set h a (some (record { weak_count = n; data_box = none }))

  drop_strong-dropped : (n : ℕ) → block h a ≡ expected true n d → drop_strong h a ≡ some (dropped n)
  unfolding drop_strong dropped expected
  drop_strong-dropped n e = rw (drop_strong, e) refl

  drop_strong-set :
      (n : ℕ)
      → drop_strong (set h a (some (record { weak_count = n; data_box = none }))) a
        ≡ some (dropped n)
  unfolding drop_strong dropped
  drop_strong-set n =
      rw (drop_strong, block-set h a (some (record { weak_count = n; data_box = none })) l)
        (ap
            (λ x. some (
              if n == 0
              then x
              else set (set h a (some (record { weak_count = n; data_box = none }))) a
                  (some (record { weak_count = n; data_box = none }))))
            (set_twice h a _ none)
          ∙ ap (λ x. some (if n == 0 then set h a none else x)) (set_twice h a _ _))

  take_drop :
      (n : ℕ)
      → block h a ≡ expected true n d
      → perform a h true n take_it ≡ perform a h true n drop_it
  unfolding perform take expected
  take_drop n e =
      rw (take, e) (ap taken (drop_strong-set n))
      ∙ sym (
          ap (λ o. o >>= λ k. some (record { heap = k; strong = false; weaks = n }))
            (drop_strong-dropped n e))
    where
      with_data : Option Heap → Option (ℕ × Heap)
      with_data o = o >>= λ k. some (d, k)

      taken : Option Heap → Option Handles
      taken o = with_data o >>= λ r. some (record { heap = r.1; strong = false; weaks = n })

  -- every operation keeps the block right
  pub step :
      (b : Bool) (n : ℕ) (op : Op)
      → n + 1 < 2 ^ 64
      → block h a ≡ expected b n d
      → Steps a d n (perform a h b n op)
  unfolding perform get deref expected
  step true n downgrade_it k e = moved _ true (suc n) n (count_up n k e) (omega arith)
  step true n take_it k e = subst (Steps a d n) (sym (take_drop n e)) (drop_step n e)
  step true n drop_it k e = drop_step n e
  step true n deref_it k e = rw (deref, e) (stay true n e)
  step false n deref_it k e = stay false n e
  step false n downgrade_it k e = stay false n e
  step false n take_it k e = stay false n e
  step false n drop_it k e = stay false n e
  step b zero drop_one k e = stay b zero e
  step true (suc n) drop_one k e = moved _ true n (suc n) (count_down n k e) (omega arith)
  step false (suc n) drop_one k e = moved _ false n (suc n) (last_one n k e) (omega arith)
  step b zero read_one k e = stay b zero e
  step true (suc n) read_one k e = rw (get, e) (stay true (suc n) e)
  step false (suc n) read_one k e = rw (get, e) (stay false (suc n) e)

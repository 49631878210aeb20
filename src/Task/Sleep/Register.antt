-- ===== src/Task/Sleep/Register.antt =====
-- kernel/src/task/util/sleep.rs: the queue stays sorted by alarm.
use mathlib.Core.Path.{subst}
use hootux.Task.Sleep.{System, place_of, register}
use hootux.Task.Sleep.Wakeup.{Sorted, no_timer, last_timer, more_timers, Sorted-tail, update-alarm}
use hootux.Prelude.Search.{
  Ordering, less, equal, greater, SearchResult, found, missing, nat_cmp, Greaters, no_greater,
  one_greater, Equals, no_equal, one_equal, Partitioned, no_less, one_less, IsBinarySearch,
}
use hootux.Prelude.{
  ℕ, zero, suc, ◌<◌, ◌≤◌, ◌≡◌, ◌≢◌, ◌⊎◌, inl, inr, refl, sym, ap, ◌∙◌, true, Bool-cases, some,
  eq_of_some, List, [], ◌∷◌, ◌++◌, map, ltb, if◌then◌else◌, length, get_elem?, take, drop, arith,
}

cmp_less : (b a : ℕ) → b < a → nat_cmp b a ≡ less
unfolding nat_cmp
cmp_less b a h = ground arith

cmp_equal : (b a : ℕ) → b ≡ a → nat_cmp b a ≡ equal
unfolding nat_cmp
cmp_equal b a h = ground arith

cmp_greater : (b a : ℕ) → a < b → nat_cmp b a ≡ greater
unfolding nat_cmp
cmp_greater b a h = ground arith

ltb-cases : (b a : ℕ) → (b < a) ⊎ (a ≤ b)
ltb-cases b a = elim (Bool-cases (ltb b a)) [
  | inl t ↦ inl (ground arith)
  | inr t ↦ inr (ground arith)
]

Greaters-equal : (os : List Ordering) (j : ℕ) → Greaters os → get_elem? os j ≢ some equal
Greaters-equal [] j g e = absurd (cc e)
Greaters-equal (o ∷ os) zero (one_greater g) e = absurd (cc e)
Greaters-equal (o ∷ os) (suc j) (one_greater g) e = Greaters-equal os j g e

module _ (alarm : ℕ → ℕ) (a : ℕ) where
  equal_le : (b : ℕ) → nat_cmp b a ≡ equal → a ≤ b
  equal_le b e = elim (ltb-cases b a) [ inl l ↦ absurd (cc (e, cmp_less b a l)) | inr l ↦ l ]

  greater_le : (b : ℕ) → nat_cmp b a ≡ greater → a ≤ b
  greater_le b e = elim (ltb-cases b a) [ inl l ↦ absurd (cc (e, cmp_less b a l)) | inr l ↦ l ]

  less_le : (b : ℕ) → nat_cmp b a ≡ less → b ≤ a
  less_le b e = elim (ltb-cases a b) [ inl l ↦ absurd (cc (e, cmp_greater b a l)) | inr l ↦ l ]

  compared : List ℕ → List Ordering
  compared ts = map (λ u. nat_cmp (alarm u) a) ts

  Sorted-Greaters :
      (t : ℕ) (ts : List ℕ) → Sorted alarm (t ∷ ts) → a < alarm t → Greaters (compared (t ∷ ts))
  unfolding compared
  Sorted-Greaters t [] s h =
      subst (λ o. Greaters (o ∷ [])) (sym (cmp_greater (alarm t) a h)) (one_greater no_greater)
  Sorted-Greaters t (u ∷ ts) (more_timers l s) h =
      subst (λ o. Greaters (o ∷ compared (u ∷ ts))) (sym (cmp_greater (alarm t) a h))
        (one_greater (Sorted-Greaters u ts s (omega arith)))

  Sorted-Equals :
      (t : ℕ) (ts : List ℕ) → Sorted alarm (t ∷ ts) → a ≤ alarm t → Equals (compared (t ∷ ts))
  unfolding compared
  Sorted-Equals t [] s h = elim (ltb-cases a (alarm t)) [
    | inl l ↦ no_equal (Sorted-Greaters t [] s l)
    | inr l ↦
        subst (λ o. Equals (o ∷ [])) (sym (cmp_equal (alarm t) a (omega arith)))
          (one_equal (no_equal no_greater))
  ]
  Sorted-Equals t (u ∷ ts) (more_timers k s) h = elim (ltb-cases a (alarm t)) [
    | inl l ↦ no_equal (Sorted-Greaters t (u ∷ ts) (more_timers k s) l)
    | inr l ↦
        subst (λ o. Equals (o ∷ compared (u ∷ ts))) (sym (cmp_equal (alarm t) a (omega arith)))
          (one_equal (Sorted-Equals u ts s (omega arith)))
  ]

  Sorted-Partitioned : (ts : List ℕ) → Sorted alarm ts → Partitioned (compared ts)
  unfolding compared
  Sorted-Partitioned [] s = no_less (no_equal no_greater)
  Sorted-Partitioned (t ∷ ts) s = elim (ltb-cases (alarm t) a) [
    | inl l ↦
        subst (λ o. Partitioned (o ∷ compared ts)) (sym (cmp_less (alarm t) a l))
          (one_less (Sorted-Partitioned ts (Sorted-tail alarm t ts s)))
    | inr l ↦ no_less (Sorted-Equals t ts s l)
  ]

  -- a place at which an alarm fits in a sorted list
  data Fits : ℕ → List ℕ → Type 0 where
    at_end : Fits 0 []
    before : {t : ℕ} {ts : List ℕ} → a ≤ alarm t → Fits 0 (t ∷ ts)
    behind : {i t : ℕ} {ts : List ℕ} → alarm t ≤ a → Fits i ts → Fits (suc i) (t ∷ ts)

  insert-Sorted :
      (t i : ℕ) (ts : List ℕ)
      → alarm t ≡ a
      → Sorted alarm ts
      → Fits i ts
      → Sorted alarm (take i ts ++ (t ∷ drop i ts))
  insert-Sorted t zero [] e s f = last_timer
  insert-Sorted t zero (u ∷ ts) e s (before h) = more_timers (omega arith) s
  insert-Sorted t (suc i) [] e s f = elim f [ ]
  insert-Sorted t (suc zero) (u ∷ []) e s (behind h f) = more_timers (omega arith) last_timer
  insert-Sorted t (suc (suc i)) (u ∷ []) e s (behind h f) = elim f [ ]
  insert-Sorted t (suc zero) (u ∷ v ∷ ts) e (more_timers l s) (behind h (before k)) =
      more_timers (omega arith) (more_timers (omega arith) s)
  insert-Sorted t (suc (suc i)) (u ∷ v ∷ ts) e (more_timers l s) (behind h f) =
      more_timers l (insert-Sorted t (suc i) (v ∷ ts) e s f)

  -- the first alarm of a sorted list is at most one that is found in it
  first_le :
      (t i : ℕ) (ts : List ℕ)
      → Sorted alarm (t ∷ ts)
      → get_elem? (compared (t ∷ ts)) i ≡ some equal
      → alarm t ≤ a
  unfolding compared
  first_le t i ts s e = elim (ltb-cases a (alarm t)) [
    | inl l ↦ absurd (Greaters-equal (compared (t ∷ ts)) i (Sorted-Greaters t ts s l) e)
    | inr l ↦ l
  ]

  found-Fits :
      (i : ℕ) (ts : List ℕ) → Sorted alarm ts → get_elem? (compared ts) i ≡ some equal → Fits i ts
  unfolding compared
  found-Fits i [] s e = absurd (cc e)
  found-Fits zero (t ∷ ts) s e = before (equal_le (alarm t) (eq_of_some e))
  found-Fits (suc i) (t ∷ ts) s e =
      behind (first_le t (suc i) ts s e) (found-Fits i ts (Sorted-tail alarm t ts s) e)

  missing-Fits :
      (i : ℕ) (ts : List ℕ)
      → ((j : ℕ) (o : Ordering)
          → get_elem? (compared ts) j ≡ some o
          → o ≡ (if ltb j i then less else greater))
      → i ≤ length ts
      → Fits i ts
  unfolding compared
  missing-Fits zero [] f h = at_end
  missing-Fits zero (t ∷ ts) f h = before (greater_le (alarm t) (f 0 (nat_cmp (alarm t) a) refl))
  missing-Fits (suc i) [] f h = absurd (omega arith)
  missing-Fits (suc i) (t ∷ ts) f h =
      behind
        (less_le (alarm t) (
          f 0 (nat_cmp (alarm t) a) refl
          ∙ ap (λ b. if b then less else greater) {x = ltb 0 (suc i)} {y = true} (ground arith)))
        (missing-Fits i ts
          (λ j o g.
            f (suc j) o g
            ∙ ap (λ b. if b then less else greater) {x = ltb (suc j) (suc i)} {y = ltb j i}
                (ground arith))
          (omega arith))

length-map : (f : ℕ → Ordering) (ts : List ℕ) → length (map f ts) ≡ length ts
length-map f [] = refl
length-map f (t ∷ ts) = ap suc (length-map f ts)

Sorted-ext : (f g : ℕ → ℕ) (ts : List ℕ) → ((u : ℕ) → f u ≡ g u) → Sorted f ts → Sorted g ts
Sorted-ext f g [] e s = no_timer
Sorted-ext f g (t ∷ []) e s = last_timer
Sorted-ext f g (t ∷ u ∷ ts) e (more_timers l s) =
    more_timers (omega (arith, e t, e u)) (Sorted-ext f g (u ∷ ts) e s)

search-Fits :
    (search : List Ordering → SearchResult) (alarm : ℕ → ℕ) (a : ℕ) (ts : List ℕ)
    → IsBinarySearch search
    → Sorted alarm ts
    → Fits alarm a (place_of (search (compared alarm a ts))) ts
unfolding compared
search-Fits search alarm a ts law s = placed (search (map (λ u. nat_cmp (alarm u) a) ts)) refl
  where
    parts : Partitioned (map (λ u. nat_cmp (alarm u) a) ts)
    parts = Sorted-Partitioned alarm a ts s

    placed :
        (r : SearchResult)
        → search (map (λ u. nat_cmp (alarm u) a) ts) ≡ r
        → Fits alarm a (place_of r) ts
    placed (found i) q =
        found-Fits alarm a i ts s (law.found_equal (map (λ u. nat_cmp (alarm u) a) ts) i parts q)
    placed (missing i) q =
        missing-Fits alarm a i ts
          (λ j o g. law.missing_place (map (λ u. nat_cmp (alarm u) a) ts) i j o parts q g)
          (omega (
            arith,
            law.missing_le (map (λ u. nat_cmp (alarm u) a) ts) i parts q,
            length-map (λ u. nat_cmp (alarm u) a) ts,
          ))

-- registering a timer keeps the queue sorted by alarm, for a binary search as documented
pub register-Sorted :
    (search : List Ordering → SearchResult) (s : System) (t : ℕ)
    → IsBinarySearch search
    → Sorted (λ u. (s.timers u).alarm) s.list
    → Sorted (λ u. ((register search s t).timers u).alarm) (register search s t).list
unfolding register compared
register-Sorted search s t law o =
    Sorted-ext alarm (λ u. ((register search s t).timers u).alarm) (register search s t).list
      (λ u. sym (update-alarm s.timers t u (record (s.timers t) { in_queue = true }) refl))
      (insert-Sorted alarm (alarm t) t (place_of (search (compared alarm (alarm t) s.list))) s.list
        refl o (search-Fits search alarm (alarm t) s.list law o))
  where
    alarm : ℕ → ℕ
    alarm u = (s.timers u).alarm

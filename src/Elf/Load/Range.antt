-- ===== src/Elf/Load/Range.antt =====
-- lib/elfload/src/load.rs: the range that `load_range` finds.
use hootux.Elf.Load.{ProgramHeader, widen, widen_all, load_range}
use mathlib.Core.Path.{subst}
use hootux.Prelude.{
  ℕ, zero, suc, ◌+◌, ◌-◌, ◌^◌, ◌<◌, ◌≤◌, ◌≡◌, ◌≢◌, ◌⊎◌, inl, inr, refl, sym, ap, ◌∙◌, false,
  Bool-cases, List, [], ◌∷◌, ◌==◌, if◌then◌else◌, max, min, get_elem?, some, eq_of_some, add64,
  arith, ==→eq, ==→ne,
}

widen_empty : (low high : ℕ) (i : ProgramHeader) → i.p_memsz ≡ 0 → widen (low, high) i ≡ (low, high)
unfolding widen
widen_empty low high i e = ground arith

widen_full :
    (low high : ℕ) (i : ProgramHeader)
    → i.p_memsz ≢ 0
    → i.p_vaddr + i.p_memsz < 2 ^ 64
    → widen (low, high) i ≡ (min i.p_vaddr low, max (i.p_vaddr + i.p_memsz) high)
unfolding widen
widen_full low high i e b =
    ap (λ t. if t then (low, high) else (min i.p_vaddr low, max (add64 i.p_vaddr i.p_memsz) high))
      {y = false} (ground arith)
    ∙ ap (λ n. (min i.p_vaddr low, max n high)) {y = i.p_vaddr + i.p_memsz} (omega arith)

-- The ends of these segments are in the address space.
pub data Bounded : List ProgramHeader → Type 0 where
  all_bounded : Bounded []
  bounded_one :
      {i : ProgramHeader} {segments : List ProgramHeader}
      → i.p_vaddr + i.p_memsz < 2 ^ 64
      → Bounded segments
      → Bounded (i ∷ segments)

-- A segment that takes memory, at a place of the list.
pub record Takes (segments : List ProgramHeader) (i : ProgramHeader) : Type 0 where
  pub place : ℕ
  pub at : get_elem? segments place ≡ some i
  pub takes : i.p_memsz ≢ 0

-- What becomes of a range: it is `low` and `high`, or ends with a segment.
record Widened (low high : ℕ) (segments : List ProgramHeader) (r : ℕ × ℕ) : Type 0 where
  lower : r.0 ≤ low
  higher : high ≤ r.1
  covers :
      (i : ProgramHeader) → Takes segments i → (r.0 ≤ i.p_vaddr) × (i.p_vaddr + i.p_memsz ≤ r.1)
  low_at : (r.0 ≡ low) ⊎ ((i : ProgramHeader) × Takes segments i × (r.0 ≡ i.p_vaddr))
  high_at : (r.1 ≡ high) ⊎ ((i : ProgramHeader) × Takes segments i × (r.1 ≡ i.p_vaddr + i.p_memsz))

later :
    {segments : List ProgramHeader} {i j : ProgramHeader}
    → Takes segments i
    → Takes (j ∷ segments) i
later t = record { place = suc t.place; at = t.at; takes = t.takes }

here : {segments : List ProgramHeader} (j : ProgramHeader) → j.p_memsz ≢ 0 → Takes (j ∷ segments) j
here j h = record { place = 0; at = refl; takes = h }

-- A segment at the head of the list, or behind it.
first_or_later :
    (segments : List ProgramHeader) (i j : ProgramHeader) (k : ℕ)
    → get_elem? (j ∷ segments) k ≡ some i
    → i.p_memsz ≢ 0
    → (j ≡ i) ⊎ Takes segments i
first_or_later segments i j zero e h = inl (eq_of_some e)
first_or_later segments i j (suc k) e h = inr (record { place = k; at = e; takes = h })

-- An end that a segment has, or the one that the range had.
module _ {segments : List ProgramHeader} {j : ProgramHeader} {n old : ℕ}
    (f : ProgramHeader → ℕ) where
  later_at :
      (n ≡ old) ⊎ ((i : ProgramHeader) × Takes segments i × (n ≡ f i))
      → (n ≡ old) ⊎ ((i : ProgramHeader) × Takes (j ∷ segments) i × (n ≡ f i))
  later_at (inl e) = inl e
  later_at (inr (i, t, e)) = inr (i, later t, e)

  first_at :
      {new : ℕ}
      → j.p_memsz ≢ 0
      → (new ≡ old) ⊎ (new ≡ f j)
      → (n ≡ new) ⊎ ((i : ProgramHeader) × Takes segments i × (n ≡ f i))
      → (n ≡ old) ⊎ ((i : ProgramHeader) × Takes (j ∷ segments) i × (n ≡ f i))
  first_at h (inl q) (inl e) = inl (e ∙ q)
  first_at h (inr q) (inl e) = inr (j, here j h, e ∙ q)
  first_at h q (inr (i, t, e)) = inr (i, later t, e)

min_either : (a b : ℕ) → (min a b ≡ b) ⊎ (min a b ≡ a)
min_either a b = ground arith

max_either : (a b : ℕ) → (max a b ≡ b) ⊎ (max a b ≡ a)
max_either a b = ground arith

widen_all-Widened :
    (low high : ℕ) (segments : List ProgramHeader)
    → Bounded segments
    → Widened low high segments (widen_all (low, high) segments)
unfolding widen_all
widen_all-Widened low high [] b = record {
  lower = omega arith;
  higher = omega arith;
  covers = λ i t. absurd (cc (t.at));
  low_at = inl refl;
  high_at = inl refl;
}
widen_all-Widened low high (j ∷ segments) (bounded_one h b) = elim (Bool-cases (j.p_memsz == 0)) [
  | inl e ↦
      subst (λ r. Widened low high (j ∷ segments) (widen_all r segments))
        (sym (widen_empty low high j (==→eq j.p_memsz 0 e)))
        (skipped (==→eq j.p_memsz 0 e) (widen_all-Widened low high segments b))
  | inr e ↦
      subst (λ r. Widened low high (j ∷ segments) (widen_all r segments))
        (sym (widen_full low high j (==→ne j.p_memsz 0 e) h))
        (taken (==→ne j.p_memsz 0 e)
          (widen_all-Widened (min j.p_vaddr low) (max (j.p_vaddr + j.p_memsz) high) segments b))
]
  where
    skipped :
        {r : ℕ × ℕ}
        → j.p_memsz ≡ 0
        → Widened low high segments r
        → Widened low high (j ∷ segments) r
    skipped {r} e w = record {
      lower = w.lower;
      higher = w.higher;
      covers = λ i t. elim (first_or_later segments i j t.place t.at t.takes) [
        | inl q ↦ absurd (t.takes (ap (λ x. x.p_memsz) (sym q) ∙ e))
        | inr u ↦ w.covers i u
      ];
      low_at = later_at (λ i. i.p_vaddr) w.low_at;
      high_at = later_at (λ i. i.p_vaddr + i.p_memsz) w.high_at;
    }

    taken :
        {r : ℕ × ℕ}
        → j.p_memsz ≢ 0
        → Widened (min j.p_vaddr low) (max (j.p_vaddr + j.p_memsz) high) segments r
        → Widened low high (j ∷ segments) r
    taken {r} e w = record {
      lower = ground (arith, w.lower);
      higher = ground (arith, w.higher);
      covers = λ i t. elim (first_or_later segments i j t.place t.at t.takes) [
        | inl q ↦
            subst (λ x. (r.0 ≤ x.p_vaddr) × (x.p_vaddr + x.p_memsz ≤ r.1)) q
              (ground (arith, w.lower, w.higher))
        | inr u ↦ w.covers i u
      ];
      low_at = first_at (λ i. i.p_vaddr) e (min_either j.p_vaddr low) w.low_at;
      high_at =
          first_at (λ i. i.p_vaddr + i.p_memsz) e (max_either (j.p_vaddr + j.p_memsz) high)
            w.high_at;
    }

Bounded-get_elem? :
    (segments : List ProgramHeader) (i : ProgramHeader)
    → Bounded segments
    → (k : ℕ) → get_elem? segments k ≡ some i
    → i.p_vaddr + i.p_memsz < 2 ^ 64
Bounded-get_elem? [] i b k e = absurd (cc e)
Bounded-get_elem? (j ∷ segments) i (bounded_one h b) zero e =
    subst (λ x. x.p_vaddr + x.p_memsz < 2 ^ 64) (eq_of_some e) h
Bounded-get_elem? (j ∷ segments) i (bounded_one h b) (suc k) e = Bounded-get_elem? segments i b k e

attained :
    {segments : List ProgramHeader} {f : ProgramHeader → ℕ} {n old : ℕ}
    → (n ≡ old) ⊎ ((i : ProgramHeader) × Takes segments i × (n ≡ f i))
    → n ≢ old
    → (i : ProgramHeader) × Takes segments i × (n ≡ f i)
attained (inl e) h = absurd (h e)
attained (inr found) h = found

-- where the segments end inside the address space and one of them takes memory, the range of the file starts
-- where one of those that do starts and ends where one of them ends, and none reaches out of it
pub load_range_lem :
    (segments : List ProgramHeader) (i : ProgramHeader)
    → Bounded segments
    → Takes segments i
    → ((load_range segments).0 ≤ i.p_vaddr)
      × (i.p_vaddr + i.p_memsz ≤ (load_range segments).1)
      × ((j : ProgramHeader) × Takes segments j × ((load_range segments).0 ≡ j.p_vaddr))
      × ((j : ProgramHeader) × Takes segments j × ((load_range segments).1 ≡ j.p_vaddr + j.p_memsz))
unfolding load_range
load_range_lem segments i b t =
    exact (widen_all-Widened (2 ^ 64 - 1) 0 segments b)
      (Bounded-get_elem? segments i b t.place t.at)
  where
    r : ℕ × ℕ
    r = widen_all (2 ^ 64 - 1, 0) segments

    exact :
        Widened (2 ^ 64 - 1) 0 segments r
        → i.p_vaddr + i.p_memsz < 2 ^ 64
        → (r.0 ≤ i.p_vaddr)
          × (i.p_vaddr + i.p_memsz ≤ r.1)
          × ((j : ProgramHeader) × Takes segments j × (r.0 ≡ j.p_vaddr))
          × ((j : ProgramHeader) × Takes segments j × (r.1 ≡ j.p_vaddr + j.p_memsz))
    exact w h =
        let (from, to) = w.covers i t in
        (
          from,
          to,
          attained w.low_at (ground (arith, from, h, t.takes)),
          attained w.high_at (ground (arith, to, t.takes)),
        )

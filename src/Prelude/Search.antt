-- ===== src/Prelude/Search.antt =====
-- The binary search of a slice, a function of how its elements compare, and what is documented of it.
use mathlib.Core.Path.{◌≡◌, refl, sym, ap, ◌∙◌, subst}
use mathlib.Core.Bool.{true, false}
use mathlib.Core.Option.{Option, none, some}
use mathlib.Core.List.{List, [], ◌∷◌, map}
use native.Mathlib.Omega.{arith}
use Prim.Native.Nat.{ℕ, zero, suc, ◌≤◌}
use hootux.Prelude.Lists.{get_elem?, length}
use hootux.Prelude.Tests.{ltb, ◌==◌, if◌then◌else◌}
use hootux.Prelude.Results.{eq_of_some}

-- `core::cmp::Ordering`
pub data Ordering : Type 0 where
  less equal greater : Ordering

-- what a binary search returns
pub data SearchResult : Type 0 where
  found missing : ℕ → SearchResult

-- the order of two numbers
unfoldable pub nat_cmp : ℕ → ℕ → Ordering
nat_cmp a b = if ltb a b then less else if a == b then equal else greater

-- How the elements of a list may compare for a binary search: first all that are less, then all that are
-- equal, then all that are greater.
pub data Greaters : List Ordering → Type 0 where
  no_greater : Greaters []
  one_greater : {os : List Ordering} → Greaters os → Greaters (greater ∷ os)

pub data Equals : List Ordering → Type 0 where
  no_equal : {os : List Ordering} → Greaters os → Equals os
  one_equal : {os : List Ordering} → Equals os → Equals (equal ∷ os)

pub data Partitioned : List Ordering → Type 0 where
  no_less : {os : List Ordering} → Equals os → Partitioned os
  one_less : {os : List Ordering} → Partitioned os → Partitioned (less ∷ os)

-- What is documented of a binary search: it finds one of the elements that are equal, or the place between
-- those that are less and those that are greater.
pub record IsBinarySearch (search : List Ordering → SearchResult) : Type 0 where
  pub found_equal :
      (os : List Ordering) (i : ℕ)
      → Partitioned os
      → search os ≡ found i
      → get_elem? os i ≡ some equal
  pub missing_place :
      (os : List Ordering) (i j : ℕ) (o : Ordering)
      → Partitioned os
      → search os ≡ missing i
      → get_elem? os j ≡ some o
      → o ≡ (if ltb j i then less else greater)
  pub missing_le :
      (os : List Ordering) (i : ℕ) → Partitioned os → search os ≡ missing i → i ≤ length os

-- a search from the front to the back
abbrev shift : SearchResult → SearchResult
shift (found i) = found (suc i)
shift (missing i) = missing (suc i)

abbrev pub linear : List Ordering → SearchResult
linear [] = missing 0
linear (less ∷ os) = shift (linear os)
linear (equal ∷ os) = found 0
linear (greater ∷ os) = missing 0

found_inj : {i j : ℕ} → found i ≡ found j → i ≡ j
found_inj e = cc

missing_inj : {i j : ℕ} → missing i ≡ missing j → i ≡ j
missing_inj e = cc

shift-found :
    (os : List Ordering) (k : ℕ) (r : SearchResult)
    → ((j : ℕ) → r ≡ found j → get_elem? os j ≡ some equal)
    → shift r ≡ found k
    → get_elem? (less ∷ os) k ≡ some equal
shift-found os k (found j) rec f =
    subst (λ n. get_elem? (less ∷ os) n ≡ some equal) (found_inj f) (rec j refl)
shift-found os k (missing j) rec f = absurd (cc f)

linear-found : (os : List Ordering) (i : ℕ) → linear os ≡ found i → get_elem? os i ≡ some equal
linear-found [] i e = absurd (cc e)
linear-found (less ∷ os) i e = shift-found os i (linear os) (linear-found os) e
linear-found (equal ∷ os) i e =
    subst (λ n. get_elem? (equal ∷ os) n ≡ some equal) (found_inj e) refl
linear-found (greater ∷ os) i e = absurd (cc e)

Greaters-get_elem? :
    (os : List Ordering) (j : ℕ) (o : Ordering)
    → Greaters os
    → get_elem? os j ≡ some o
    → o ≡ greater
Greaters-get_elem? [] j o g e = absurd (cc e)
Greaters-get_elem? (x ∷ os) zero o (one_greater g) e = sym (eq_of_some e)
Greaters-get_elem? (x ∷ os) (suc j) o (one_greater g) e = Greaters-get_elem? os j o g e

abbrev side : ℕ → ℕ → Ordering
side j i = if ltb j i then less else greater

shift-missing :
    (os : List Ordering) (k j : ℕ) (o : Ordering) (r : SearchResult)
    → ((i n : ℕ) (x : Ordering) → r ≡ missing i → get_elem? os n ≡ some x → x ≡ side n i)
    → shift r ≡ missing k
    → get_elem? (less ∷ os) j ≡ some o
    → o ≡ side j k
shift-missing os k j o (found i) rec f e = absurd (cc f)
shift-missing os k zero o (missing i) rec f e =
    sym (eq_of_some e)
    ∙ ap (λ b. if b then less else greater) {x = true} {y = ltb 0 k} (before (missing_inj f))
  where
    before : suc i ≡ k → true ≡ ltb 0 k
    before q = ground arith
shift-missing os k (suc j) o (missing i) rec f e =
    rec i j o refl e ∙ ap (λ b. if b then less else greater) (same (missing_inj f))
  where
    same : suc i ≡ k → ltb j i ≡ ltb (suc j) k
    same q = ground arith

linear-missing :
    (os : List Ordering) (i j : ℕ) (o : Ordering)
    → Partitioned os
    → linear os ≡ missing i
    → get_elem? os j ≡ some o
    → o ≡ side j i
linear-missing [] i j o p m e = absurd (cc e)
linear-missing (less ∷ os) i j o (one_less p) m e =
    shift-missing os i j o (linear os) (λ k n x. linear-missing os k n x p) m e
linear-missing (less ∷ os) i j o (no_less (no_equal g)) m e = elim g [ ]
linear-missing (equal ∷ os) i j o p m e = absurd (cc m)
linear-missing (greater ∷ os) i j o (no_less (no_equal g)) m e =
    Greaters-get_elem? (greater ∷ os) j o g e
    ∙ ap (λ b. if b then less else greater) {x = false} {y = ltb j i} (behind (missing_inj m))
  where
    behind : 0 ≡ i → false ≡ ltb j i
    behind q = ground arith

shift-missing_le :
    (n k : ℕ) (r : SearchResult)
    → ((i : ℕ) → r ≡ missing i → i ≤ n)
    → shift r ≡ missing k
    → k ≤ suc n
shift-missing_le n k (found i) rec f = absurd (cc f)
shift-missing_le n k (missing i) rec f = omega (arith, missing_inj f, rec i refl)

linear-missing_le : (os : List Ordering) (i : ℕ) → linear os ≡ missing i → i ≤ length os
linear-missing_le [] i m = omega (arith, missing_inj m)
linear-missing_le (less ∷ os) i m =
    shift-missing_le (length os) i (linear os) (linear-missing_le os) m
linear-missing_le (equal ∷ os) i m = absurd (cc m)
linear-missing_le (greater ∷ os) i m = omega (arith, missing_inj m)

pub linear-IsBinarySearch : IsBinarySearch linear
linear-IsBinarySearch = record {
  found_equal = λ os i p e. linear-found os i e;
  missing_place = linear-missing;
  missing_le = λ os i p e. linear-missing_le os i e;
}

-- A binary search whose comparisons may panic, and that then panics: where none of them does, it returns what
-- a binary search of the orderings returns.
pub record IsSearchOf (search : List (Option Ordering) → Option SearchResult)
    (plain : List Ordering → SearchResult) : Type 0 where
  pub agrees : (os : List Ordering) → search (map some os) ≡ some (plain os)
  pub binary : IsBinarySearch plain

abbrev shift_some : Option SearchResult → Option SearchResult
shift_some none = none
shift_some (some r) = some (shift r)

-- the search from the front to the back
abbrev pub from_front : List (Option Ordering) → Option SearchResult
from_front [] = some (missing 0)
from_front (none ∷ os) = none
from_front (some less ∷ os) = shift_some (from_front os)
from_front (some equal ∷ os) = some (found 0)
from_front (some greater ∷ os) = some (missing 0)

from_front-map : (os : List Ordering) → from_front (map some os) ≡ some (linear os)
from_front-map [] = refl
from_front-map (less ∷ os) = ap shift_some (from_front-map os)
from_front-map (equal ∷ os) = refl
from_front-map (greater ∷ os) = refl

pub from_front-IsSearchOf : IsSearchOf from_front linear
from_front-IsSearchOf = record { agrees = from_front-map; binary = linear-IsBinarySearch }

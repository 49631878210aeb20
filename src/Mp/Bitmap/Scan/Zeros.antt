-- ===== src/Mp/Bitmap/Scan/Zeros.antt =====
-- kernel/src/mp/bitmap.rs: the CPU that `find_first_zero` finds.
use hootux.Mp.Bitmap.{CpuBMap, get_word, get}
use hootux.Mp.Bitmap.Words.{get_word_lem}
use hootux.Mp.Bitmap.Scan.{trailing_ones, zero_from, find_first_zero}
use hootux.Prelude.{
  ℕ, zero, suc, ◌+◌, ◌-◌, ◌*◌, ◌/◌, ◌%◌, ◌^◌, ◌<◌, ◌≤◌, ◌≡◌, refl, sym, ap, ◌∙◌, inl, inr, Bool,
  true, false, Bool-cases, Option-cases, Option, none, some, eq_of_some, [], ◌∷◌, ltb, ltb→lt,
  le_of_not-ltb, ◌==◌, ==→eq, if◌then◌else◌, length, get_elem?, bit, arith,
}

trailing_ones_bound : (w u : ℕ) → trailing_ones w u ≤ w
unfolding trailing_ones
trailing_ones_bound zero u = omega arith
trailing_ones_bound (suc w) u = ground (arith, trailing_ones_bound w (u / 2))

below_ones : (w u j : ℕ) → j < trailing_ones w u → bit j u ≡ 1
unfolding trailing_ones bit
below_ones zero u j h = absurd (omega arith)
below_ones (suc w) u zero h = ground arith
below_ones (suc w) u (suc j) h = below_ones w (u / 2) j (ground arith)

at_ones : (w u : ℕ) → trailing_ones w u < w → bit (trailing_ones w u) u ≡ 0
unfolding trailing_ones bit
at_ones zero u h = absurd (omega arith)
at_ones (suc w) u h = elim (Bool-cases (u % 2 == 1)) [
  | inl e ↦
      ap (λ k. bit k u) {x = trailing_ones (suc w) u} {y = suc (trailing_ones w (u / 2))}
        (ground (arith, e))
      ∙ at_ones w (u / 2) (ground (arith, e))
  | inr e ↦
      ap (λ k. bit k u) {x = trailing_ones (suc w) u} {y = 0} (ground (arith, e))
      ∙ ground (arith, e)
]

get_head : (map : CpuBMap) (u j : ℕ) → j < 64 → get (u ∷ map) j ≡ (bit j u == 1)
unfolding get
get_head map u j h =
    ap (λ k. get_word (j % 64) (get_elem? (u ∷ map) k)) {y = 0} (omega arith)
    ∙ ap (λ k. get_word k (some u)) {y = j} (omega arith)
    ∙ get_word_lem j u h

get_tail : (map : CpuBMap) (u j : ℕ) → 64 ≤ j → get (u ∷ map) j ≡ get map (j - 64)
unfolding get
get_tail map u j h =
    ap (λ k. get_word (j % 64) (get_elem? (u ∷ map) k)) {y = suc ((j - 64) / 64)} (omega arith)
    ∙ ap (λ k. get_word k (get_elem? map ((j - 64) / 64))) {y = (j - 64) % 64} (omega arith)

-- a word of ones before the rest
all_ones :
    (map : CpuBMap) (u m : ℕ)
    → trailing_ones 64 u ≡ 64
    → ((j : ℕ) → j < m → get map j ≡ true)
    → (j : ℕ) → j < 64 + m
    → get (u ∷ map) j ≡ true
all_ones map u m e rest j h = elim (Bool-cases (ltb j 64)) [
  | inl t ↦
      get_head map u j (ltb→lt j 64 t)
      ∙ ap (λ b. b == 1) (below_ones 64 u j (omega (arith, ltb→lt j 64 t)))
  | inr t ↦
      get_tail map u j (le_of_not-ltb j 64 t) ∙ rest (j - 64) (omega (arith, le_of_not-ltb j 64 t))
]

Found : CpuBMap → ℕ → Type 0
Found map m = (get map m ≡ false) × ((j : ℕ) → j < m → get map j ≡ true)

get_nil : (j : ℕ) → get [] j ≡ false
unfolding get get_word
get_nil j = refl

-- the word that has a zero, after words of ones
stop_here : (map : CpuBMap) (u : ℕ) → trailing_ones 64 u < 64 → Found (u ∷ map) (trailing_ones 64 u)
unfolding Found
stop_here map u h = (
  get_head map u (trailing_ones 64 u) h ∙ ap (λ b. b == 1) (at_ones 64 u h),
  λ j k. get_head map u j (omega arith) ∙ ap (λ b. b == 1) (below_ones 64 u j k),
)

go_on : (map : CpuBMap) (u m : ℕ) → trailing_ones 64 u ≡ 64 → Found map m → Found (u ∷ map) (64 + m)
unfolding Found
go_on map u m e (z, below) = (
  get_tail map u (64 + m) (omega arith) ∙ ap (get map) (omega arith) ∙ z,
  all_ones map u m e below,
)

chosen :
    (num_cpus n : ℕ) (map : CpuBMap) (u : ℕ) {x : Bool}
    → (trailing_ones 64 u == 64) ≡ x
    → zero_from num_cpus n (u ∷ map) ≡ (
        if x
        then zero_from num_cpus (n + trailing_ones 64 u) map
        else some ((n + trailing_ones 64 u) % 2 ^ 32))
unfolding zero_from
chosen num_cpus n map u t =
    ap
      (λ x.
        if x
        then zero_from num_cpus (n + trailing_ones 64 u) map
        else some ((n + trailing_ones 64 u) % 2 ^ 32))
      t

lt_of_ne : (a b : ℕ) → a ≤ b → (a == b) ≡ false → a < b
lt_of_ne a b h e = ground arith

zero_some :
    (num_cpus n : ℕ) (map : CpuBMap) (c : ℕ)
    → n + 64 * length map < 2 ^ 32
    → zero_from num_cpus n map ≡ some c
    → (m : ℕ) × (c ≡ n + m) × Found map m
unfolding zero_from Found
zero_some num_cpus n [] c b e = (0, ground arith, (get_nil 0, λ j h. absurd (omega arith)))
zero_some num_cpus n (u ∷ map) c b e = elim (Bool-cases (trailing_ones 64 u == 64)) [
  | inl t ↦
      let (m, place, f) =
        zero_some num_cpus (n + trailing_ones 64 u) map c
          (omega (arith, ==→eq (trailing_ones 64 u) 64 t)) (sym (chosen num_cpus n map u t) ∙ e) in
      (
        64 + m,
        omega (arith, ==→eq (trailing_ones 64 u) 64 t),
        go_on map u m (==→eq (trailing_ones 64 u) 64 t) f,
      )
  | inr t ↦ (
    trailing_ones 64 u,
    omega (arith, eq_of_some (sym (chosen num_cpus n map u t) ∙ e), trailing_ones_bound 64 u),
    stop_here map u (less t),
  )
]
  where
    less : (trailing_ones 64 u == 64) ≡ false → trailing_ones 64 u < 64
    less t = lt_of_ne (trailing_ones 64 u) 64 (trailing_ones_bound 64 u) t

zero_none :
    (num_cpus n : ℕ) (map : CpuBMap)
    → zero_from num_cpus n map ≡ none
    → (n + 64 * length map ≡ num_cpus) × ((j : ℕ) → j < 64 * length map → get map j ≡ true)
unfolding zero_from
zero_none num_cpus n [] e = (ground arith, λ j h. absurd (omega arith))
zero_none num_cpus n (u ∷ map) e = elim (Bool-cases (trailing_ones 64 u == 64)) [
  | inl t ↦
      let (total, below) =
        zero_none num_cpus (n + trailing_ones 64 u) map (sym (chosen num_cpus n map u t) ∙ e) in
      (
        omega (arith, ==→eq (trailing_ones 64 u) 64 t),
        λ j h.
            all_ones map u (64 * length map) (==→eq (trailing_ones 64 u) 64 t) below j
              (omega arith),
      )
  | inr t ↦ absurd (cc (sym (chosen num_cpus n map u t) ∙ e))
]

-- that `find_first_zero` may return this: a CPU that is not in the set, with every CPU below it in the set,
-- or none, where the words of the list are just as many bits as there are CPUs and all of them are in the set
unfoldable pub IsFirst : ℕ → CpuBMap → Option ℕ → Type 0
IsFirst num_cpus map (some c) = (get map c ≡ false) × ((j : ℕ) → j < c → get map j ≡ true)
IsFirst num_cpus map none =
    (64 * length map ≡ num_cpus) × ((j : ℕ) → j < num_cpus → get map j ≡ true)

-- For a list of words that holds fewer than 2 ^ 32 bits, a CPU that find_first_zero returns is not in the
-- set, and every CPU below it is; where it returns none, every CPU is in the set, and the words of the list
-- are just as many bits as there are CPUs.
pub find_first_zero-IsFirst :
    (num_cpus : ℕ) (map : CpuBMap)
    → 64 * length map < 2 ^ 32
    → IsFirst num_cpus map (find_first_zero num_cpus map)
unfolding find_first_zero Found IsFirst
find_first_zero-IsFirst num_cpus map b = elim (Option-cases (zero_from num_cpus 0 map)) [
  | inl e ↦
      let (total, below) = zero_none num_cpus 0 map e in
      rw (e) (omega arith, λ j h. below j (omega arith))
  | inr (c, e) ↦
      let (m, same, (clear, below)) = zero_some num_cpus 0 map c (omega arith) e in
      rw (e) (ap (get map) {y = m} (omega (arith, same)) ∙ clear, λ j h. below j (omega arith))
]

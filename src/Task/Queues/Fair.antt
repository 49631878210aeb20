-- ===== src/Task/Queues/Fair.antt =====
-- kernel/src/task/kernel_scheduler.rs: how long a task waits where nothing is pushed.
use hootux.Task.{LocalExecutor}
use hootux.Task.Queues.{local_first, stealable_first, put, next_tid}
use hootux.Task.Queues.Order.{drain}
use hootux.Prelude.{
  ℕ, zero, suc, ◌+◌, ◌-◌, ◌*◌, ◌<◌, ◌≤◌, ◌⊎◌, ◌≡◌, refl, ap, ◌∙◌, inl, inr, Bool, true, false,
  Bool-cases, leb→le, some, List, [], ◌∷◌, leb, if◌then◌else◌, length, get_elem?, arith,
}

abbrev executor : Bool → List ℕ → List ℕ → List ℕ → LocalExecutor
executor b l s c = record {
  arbiter_local = b;
  local_queue = l;
  stealable_queue = s;
  local_task_cache = c;
}

lt_of_not-leb : (a b : ℕ) → leb a b ≡ false → b < a
lt_of_not-leb a b h = ground arith

-- a place in a list that `wait` calls reach
Taken : List ℕ → ℕ → ℕ → Type 0
Taken ids t wait = (k : ℕ) × (k ≤ wait) × (get_elem? ids k ≡ some t)

module _ (c : List ℕ) where
  longer :
      (n : ℕ) (x : ℕ) (b b' : Bool) (l s l' s' : List ℕ) (is : Bool)
      → next_tid (executor b l s c) ≡ (some (x, is), executor b' l' s' c)
      → drain (suc n) (executor b l s c) ≡ x ∷ drain n (executor b' l' s' c)
  unfolding drain
  longer n x b b' l s l' s' is e = rw (e) refl

  by_length :
      (b : Bool) (x : ℕ) (l s : List ℕ)
      → leb (length s) (length (x ∷ l)) ≡ true
      → next_tid (executor b (x ∷ l) s c) ≡ (some (x, true), executor false l s c)
  unfolding next_tid put local_first
  by_length b x l s h = rw (h) refl

  by_arbiter :
      (x : ℕ) (l s : List ℕ)
      → leb (length s) (length (x ∷ l)) ≡ false
      → next_tid (executor true (x ∷ l) s c) ≡ (some (x, true), executor false l s c)
  unfolding next_tid put local_first
  by_arbiter x l s h = rw (h) refl

  only_stealable :
      (y : ℕ) (s : List ℕ)
      → next_tid (executor true [] (y ∷ s) c) ≡ (some (y, false), executor false [] s c)
  unfolding next_tid put local_first
  only_stealable y s = let h : leb (suc (length s)) 0 ≡ false = ground arith in rw (h) refl

  local_next :
      (x : ℕ) (l s : List ℕ)
      → next_tid (executor true (x ∷ l) s c) ≡ (some (x, true), executor false l s c)
  local_next x l s = elim (Bool-cases (leb (length s) (length (x ∷ l)))) [
    | inl e ↦ by_length true x l s e
    | inr e ↦ by_arbiter x l s e
  ]

  by_turn :
      (y : ℕ) (l s : List ℕ)
      → leb (length (y ∷ s)) (length l) ≡ false
      → next_tid (executor false l (y ∷ s) c) ≡ (some (y, false), executor true l s c)
  unfolding next_tid put stealable_first
  by_turn y l s h = rw (h) refl

  later :
      (n t x wait : ℕ) (b b' : Bool) (l s l' s' : List ℕ) (is : Bool)
      → next_tid (executor b l s c) ≡ (some (x, is), executor b' l' s' c)
      → Taken (drain n (executor b' l' s' c)) t wait
      → Taken (drain (suc n) (executor b l s c)) t (suc wait)
  unfolding Taken
  later n t x wait b b' l s l' s' is e (k, h, g) =
      (suc k, omega arith, ap (λ z. get_elem? z (suc k)) (longer n x b b' l s l' s' is e) ∙ g)

  now :
      (n t x wait : ℕ) (b b' : Bool) (l s l' s' : List ℕ) (is : Bool)
      → next_tid (executor b l s c) ≡ (some (x, is), executor b' l' s' c)
      → some x ≡ some t
      → Taken (drain (suc n) (executor b l s c)) t wait
  unfolding Taken
  now n t x wait b b' l s l' s' is e q =
      (zero, omega arith, ap (λ z. get_elem? z 0) (longer n x b b' l s l' s' is e) ∙ q)

  sooner : (ids : List ℕ) (t m n : ℕ) → m ≤ n → Taken ids t m → Taken ids t n
  unfolding Taken
  sooner ids t m n h (k, q, g) = (k, omega arith, g)

  -- where the stealable queue is longer, or will be after the call that the local queue has before it
  stealable_turn :
      (n i t late : ℕ) (b : Bool) (l s : List ℕ)
      → late + (2 * i + 1) ≤ n
      → ((b ≡ false) × (length l < length s)) ⊎ ((late ≡ 1) × (b ≡ true) × (length l ≤ length s))
      → get_elem? s i ≡ some t
      → Taken (drain n (executor b l s c)) t (late + 2 * i)
  stealable_turn zero i t late b l s m h g = absurd (omega arith)
  stealable_turn (suc n) i t late b l [] m h g = absurd (cc g)
  stealable_turn (suc n) zero t late false l (y ∷ s) m (inl (e, h)) g =
      now n t y (late + 0) false true l (y ∷ s) l s false (by_turn y l s (ground arith)) g
  stealable_turn (suc n) (suc i) t late false l (y ∷ s) m (inl (e, h)) g =
      sooner (drain (suc n) (executor false l (y ∷ s) c)) t (suc (1 + 2 * i)) (late + 2 * suc i)
        (omega arith)
        (later n t y (1 + 2 * i) false true l (y ∷ s) l s false (by_turn y l s (ground arith))
          (stealable_turn n i t 1 true l s (omega arith) (inr (refl, refl, omega arith)) g))
  stealable_turn (suc n) i t late true l (y ∷ s) m (inl (e, h)) g = absurd (cc e)
  stealable_turn (suc n) i t late false l (y ∷ s) m (inr (k, e, h)) g = absurd (cc e)
  stealable_turn (suc n) zero t late true [] (y ∷ s) m (inr (k, e, h)) g =
      now n t y (late + 0) true false [] (y ∷ s) [] s false (only_stealable y s) g
  stealable_turn (suc n) (suc i) t late true [] (y ∷ []) m (inr (k, e, h)) g = absurd (cc g)
  stealable_turn (suc n) (suc i) t late true [] (y ∷ (z ∷ s)) m (inr (k, e, h)) g =
      sooner (drain (suc n) (executor true [] (y ∷ (z ∷ s)) c)) t (suc (0 + 2 * i))
        (late + 2 * suc i) (omega arith)
        (later n t y (0 + 2 * i) true false [] (y ∷ (z ∷ s)) [] (z ∷ s) false
          (only_stealable y (z ∷ s))
          (stealable_turn n i t 0 false [] (z ∷ s) (omega arith) (inl (refl, omega arith)) g))
  stealable_turn (suc n) i t late true (x ∷ l) (y ∷ s) m (inr (k, e, h)) g =
      sooner (drain (suc n) (executor true (x ∷ l) (y ∷ s) c)) t (suc (0 + 2 * i)) (late + 2 * i)
        (omega arith)
        (later n t x (0 + 2 * i) true false (x ∷ l) (y ∷ s) l (y ∷ s) true (local_next x l (y ∷ s))
          (stealable_turn n i t 0 false l (y ∷ s) (omega arith) (inl (refl, omega arith)) g))

  -- where the local queue is at least as long
  stealable_behind :
      (n i t : ℕ) (b : Bool) (l s : List ℕ)
      → length l - length s + (2 * i + 2) ≤ n
      → length s ≤ length l
      → get_elem? s i ≡ some t
      → Taken (drain n (executor b l s c)) t (length l - length s + (1 + 2 * i))
  stealable_behind zero i t b l s m h g = absurd (omega arith)
  stealable_behind (suc n) i t b [] [] m h g = absurd (cc g)
  stealable_behind (suc n) i t b [] (y ∷ s) m h g = absurd (omega arith)
  stealable_behind (suc n) i t b (x ∷ l) s m h g = elim (Bool-cases (leb (length s) (length l))) [
    | inl e ↦
        let le = leb→le (length s) (length l) e in
        sooner (drain (suc n) (executor b (x ∷ l) s c)) t (suc (length l - length s + (1 + 2 * i)))
          (length (x ∷ l) - length s + (1 + 2 * i)) (omega arith)
          (later n t x (length l - length s + (1 + 2 * i)) b false (x ∷ l) s l s true
            (by_length b x l s (ground arith))
            (stealable_behind n i t false l s (omega arith) le g))
    | inr e ↦
        let gt = lt_of_not-leb (length s) (length l) e in
        sooner (drain (suc n) (executor b (x ∷ l) s c)) t (suc (0 + 2 * i))
          (length (x ∷ l) - length s + (1 + 2 * i)) (omega arith)
          (later n t x (0 + 2 * i) b false (x ∷ l) s l s true (by_length b x l s (ground arith))
            (stealable_turn n i t 0 false l s (omega arith) (inl (refl, gt)) g))
  ]

  stealable_waits :
      (n i t : ℕ) (b : Bool) (l s : List ℕ)
      → length l - length s + (2 * i + 2) ≤ n
      → get_elem? s i ≡ some t
      → Taken (drain n (executor b l s c)) t (length l - length s + (1 + 2 * i))
  stealable_waits n i t b l s m g = elim (Bool-cases (leb (length s) (length l))) [
    | inl e ↦ stealable_behind n i t b l s m (leb→le (length s) (length l) e) g
    | inr e ↦ ahead b (lt_of_not-leb (length s) (length l) e)
  ]
    where
      ahead :
          (a : Bool)
          → length l < length s
          → Taken (drain n (executor a l s c)) t (length l - length s + (1 + 2 * i))
      ahead true h =
          sooner (drain n (executor true l s c)) t (1 + 2 * i) (length l - length s + (1 + 2 * i))
            (omega arith)
            (stealable_turn n i t 1 true l s (omega arith) (inr (refl, refl, omega arith)) g)
      ahead false h =
          sooner (drain n (executor false l s c)) t (0 + 2 * i) (length l - length s + (1 + 2 * i))
            (omega arith) (stealable_turn n i t 0 false l s (omega arith) (inl (refl, h)) g)

  -- the head of the local queue is taken
  local_taken :
      (n i t x late : ℕ) (b : Bool) (l s : List ℕ)
      → next_tid (executor b (x ∷ l) s c) ≡ (some (x, true), executor false l s c)
      → get_elem? (x ∷ l) i ≡ some t
      → ((j : ℕ)
          → i ≡ suc j
          → get_elem? l j ≡ some t
          → Taken (drain n (executor false l s c)) t (1 + 2 * j))
      → Taken (drain (suc n) (executor b (x ∷ l) s c)) t (late + 2 * i)
  local_taken n zero t x late b l s e g rest = now n t x (late + 0) b false (x ∷ l) s l s true e g
  local_taken n (suc i) t x late b l s e g rest =
      sooner (drain (suc n) (executor b (x ∷ l) s c)) t (suc (1 + 2 * i)) (late + 2 * suc i)
        (omega arith) (later n t x (1 + 2 * i) b false (x ∷ l) s l s true e (rest i refl g))

  -- a task of the local queue, which is late by one call where it is the turn of the stealable queue
  local_waits :
      (n i t late : ℕ) (b : Bool) (l s : List ℕ)
      → late + (2 * i + 1) ≤ n
      → (late ≡ 1) ⊎ (b ≡ true)
      → get_elem? l i ≡ some t
      → Taken (drain n (executor b l s c)) t (late + 2 * i)
  local_waits zero i t late b l s m h g = absurd (omega arith)
  local_waits (suc n) i t late b [] s m h g = absurd (cc g)
  local_waits (suc n) i t late true (x ∷ l) s m h g =
      local_taken n i t x late true l s (local_next x l s) g
        (λ j q k. local_waits n j t 1 false l s (omega arith) (inl refl) k)
  local_waits (suc n) i t late false (x ∷ l) s m (inr e) g = absurd (cc e)
  local_waits (suc n) i t late false (x ∷ l) [] m (inl k) g =
      local_taken n i t x late false l [] (by_length false x l [] (ground arith)) g
        (λ j q k. local_waits n j t 1 false l [] (omega arith) (inl refl) k)
  local_waits (suc n) i t late false (x ∷ l) (y ∷ s) m (inl k) g =
      elim (Bool-cases (leb (length (y ∷ s)) (length (x ∷ l)))) [
        | inl e ↦
            local_taken n i t x late false l (y ∷ s) (by_length false x l (y ∷ s) e) g
              (λ j q k. local_waits n j t 1 false l (y ∷ s) (omega arith) (inl refl) k)
        | inr e ↦
            sooner (drain (suc n) (executor false (x ∷ l) (y ∷ s) c)) t (suc (0 + 2 * i))
              (late + 2 * i) (omega arith)
              (later n t y (0 + 2 * i) false true (x ∷ l) (y ∷ s) (x ∷ l) s false
                (by_turn y (x ∷ l) s e)
                (local_waits n i t 0 true (x ∷ l) s (omega arith) (inr refl) g))
      ]

-- Where nothing is pushed, the task at place `i` of the local queue is taken after at most `1 + 2 * i` others,
-- however long the stealable queue is; and the one at place `i` of the stealable queue after at most that many
-- and as many as the local queue is longer than the stealable one.
pub drain_fair :
    (n : ℕ) (e : LocalExecutor) (is_local : Bool) (i t : ℕ)
    → (if is_local then 0 else length e.local_queue - length e.stealable_queue) + (2 * i + 2) ≤ n
    → get_elem? (if is_local then e.local_queue else e.stealable_queue) i ≡ some t
    → (k : ℕ) × (k
        ≤ (if is_local then 0 else length e.local_queue - length e.stealable_queue) + (1 + 2 * i))
      × (get_elem? (drain n e) k ≡ some t)
unfolding Taken
drain_fair n e true i t m g = local_any e.arbiter_local
  where
    local_any :
        (b : Bool)
        → Taken
            (drain n (executor b e.local_queue e.stealable_queue e.local_task_cache))
            t
            (0 + (1 + 2 * i))
    local_any b =
        sooner e.local_task_cache
          (drain n (executor b e.local_queue e.stealable_queue e.local_task_cache)) t (1 + 2 * i)
          (0 + (1 + 2 * i)) (omega arith)
          (local_waits e.local_task_cache n i t 1 b e.local_queue e.stealable_queue (omega arith)
            (inl refl) g)
drain_fair n e false i t m g =
    stealable_waits e.local_task_cache n i t e.arbiter_local e.local_queue e.stealable_queue m g

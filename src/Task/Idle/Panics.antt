-- ===== src/Task/Idle/Panics.antt =====
-- kernel/src/task/kernel_scheduler.rs: the arbiter of `search` leaves the list.
use hootux.Task.Idle.{
  IdleTask, IdleWorkList, eligible, enumerate, next_arbiter, first_eligible, search,
}
use hootux.Prelude.{
  ℕ, suc, ◌+◌, ◌≡◌, refl, ap, ◌∙◌, true, false, none, some, List, [], ◌∷◌, ◌++◌, leb, length,
  length-append, get_elem?, take, drop, arith,
}

module _ (now cpus_working start len : ℕ) where
  first-append_some :
      (a b : List (ℕ × IdleTask)) (r : ℕ × IdleTask)
      → first_eligible now cpus_working start len a ≡ some r
      → first_eligible now cpus_working start len (a ++ b) ≡ some r
  unfolding first_eligible
  first-append_some [] b r h = absurd (cc)
  first-append_some ((i, t) ∷ a) b r h = ground (arith, first-append_some a b r)

  last_eligible :
      (i : ℕ) (front : List IdleTask) (t : IdleTask)
      → ((j : ℕ) (u : IdleTask) → get_elem? front j ≡ some u → eligible now cpus_working u ≡ false)
      → eligible now cpus_working t ≡ true
      → first_eligible now cpus_working start len (enumerate i (front ++ t ∷ []))
        ≡ some (next_arbiter start len (i + length front), t)
  unfolding first_eligible enumerate
  last_eligible i [] t p e =
      rw (first_eligible, e) (ap (λ k. some (next_arbiter start len k, t)) (omega arith))
  last_eligible i (u ∷ front) t p e =
      rw (first_eligible, p 0 u refl)
        (last_eligible (i + 1) front t (λ j v. p (suc j) v) e
          ∙ ap (λ k. some (next_arbiter start len k, t)) (omega arith))

take_all : (l : List IdleTask) → take (length l) l ≡ l
take_all [] = refl
take_all (x ∷ l) = ap (x ∷◌) (take_all l)

drop_all : (l : List IdleTask) → drop (length l) l ≡ []
drop_all [] = refl
drop_all (x ∷ l) = drop_all l

-- the last of the idle jobs is the only one that is to run
module _ (now cpus_working : ℕ) (front : List IdleTask) (t : IdleTask)
    (p : (j : ℕ) (u : IdleTask) → get_elem? front j ≡ some u → eligible now cpus_working u ≡ false)
    (e : eligible now cpus_working t ≡ true) where
  abbrev jobs : List IdleTask
  jobs = front ++ t ∷ []

  count : length jobs ≡ length front + 1
  count = length-append front (t ∷ [])

  at : ℕ → IdleWorkList
  at arbiter = record { arbiter = arbiter; idle_jobs = jobs }

  search-at :
      (arbiter next : ℕ)
      → leb arbiter (length jobs) ≡ true
      → first_eligible now cpus_working arbiter
          (length jobs)
          (enumerate 0 (drop arbiter jobs) ++ enumerate 0 (take arbiter jobs))
        ≡ some (next, t)
      → search now cpus_working (at arbiter) ≡ some (some t, at next)
  unfolding search at
  search-at arbiter next b f = rw (b, f) refl

  first : search now cpus_working (at 0) ≡ some (some t, at (length jobs))
  unfolding next_arbiter
  first = search-at 0 (length jobs) (ground arith) (
      first-append_some now cpus_working 0 (length jobs) (enumerate 0 jobs) _ _
        (last_eligible now cpus_working 0 (length jobs) 0 front t p e ∙ ap (λ k. some (k, t)) next))
    where
      next : next_arbiter 0 (length jobs) (0 + length front) ≡ length jobs
      next = ground (arith, count)

  second :
      search now cpus_working (at (length jobs)) ≡ some (some t, at (length jobs + length jobs))
  unfolding next_arbiter enumerate
  second = search-at (length jobs) (length jobs + length jobs) (ground arith) (
      ap
        (λ l.
          first_eligible now cpus_working (length jobs) (length jobs)
            (enumerate 0 l ++ enumerate 0 (take (length jobs) jobs)))
        (drop_all jobs)
      ∙ ap (λ l. first_eligible now cpus_working (length jobs) (length jobs) (enumerate 0 l))
          (take_all jobs)
      ∙ last_eligible now cpus_working (length jobs) (length jobs) 0 front t p e
      ∙ ap (λ k. some (k, t)) next)
    where
      next : next_arbiter (length jobs) (length jobs) (0 + length front) ≡ length jobs + length jobs
      next = ground (arith, count)

  third : search now cpus_working (at (length jobs + length jobs)) ≡ none
  unfolding search at
  third = ground (arith, count)

-- Where of the idle jobs only the last one is to run, the first two searches return it, the arbiter moves
-- past the end of the list, and the third search panics.
pub search_panics :
    (now cpus_working : ℕ) (front : List IdleTask) (t : IdleTask)
    → ((j : ℕ) (u : IdleTask) → get_elem? front j ≡ some u → eligible now cpus_working u ≡ false)
    → eligible now cpus_working t ≡ true
    → (w v : IdleWorkList) × (search now cpus_working
          (record { arbiter = 0; idle_jobs = front ++ t ∷ [] })
        ≡ some (some t, w))
      × (search now cpus_working w ≡ some (some t, v))
      × (search now cpus_working v ≡ none)
unfolding at
search_panics now cpus_working front t p e = (
  _,
  _,
  first now cpus_working front t p e,
  second now cpus_working front t p e,
  third now cpus_working front t p e,
)

-- ===== src/Task/Idle/Tests.antt =====
-- Two idle jobs, of which the first stands down.
use hootux.Task.Idle.{IdleTask, IdleWorkList, eligible, is_future, search}
use hootux.Task.Idle.Panics.{search_panics}
use hootux.Prelude.{
  ℕ, zero, suc, ◌≡◌, refl, sym, ap, ◌∙◌, false, true, none, some, [], ◌∷◌, get_elem?, eq_of_some,
}

abbrev standing_down : IdleTask
standing_down = record { id = 1; active_minimum = 0; stand_down_until = 100 }

abbrev willing : IdleTask
willing = record { id = 2; active_minimum = 0; stand_down_until = 5 }

first_stands_down :
    (j : ℕ) (u : IdleTask) → get_elem? (standing_down ∷ []) j ≡ some u → eligible 50 2 u ≡ false
unfolding eligible is_future
first_stands_down zero u e = ap (eligible 50 2) (sym (eq_of_some e)) ∙ refl
first_stands_down (suc j) u e = absurd (cc)

willing_now : eligible 50 2 willing ≡ true
unfolding eligible is_future
willing_now = refl

search_panics_example :
    (w v : IdleWorkList) × (search 50 2
        (record { arbiter = 0; idle_jobs = standing_down ∷ willing ∷ [] })
      ≡ some (some willing, w))
    × (search 50 2 w ≡ some (some willing, v))
    × (search 50 2 v ≡ none)
search_panics_example =
    search_panics 50 2 (standing_down ∷ []) willing first_stands_down willing_now

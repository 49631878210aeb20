-- ===== src/Task/Sleep/Tests.antt =====
-- kernel/src/task/util/sleep.rs, run.
use hootux.Task.Sleep.{SleepTimerInner, System, register, try_wake, wake_front, wakeup, poll}
use hootux.Task.Sleep.Wakeup.{wakeups, Sorted, last_timer, more_timers, later, wakeups_lem}
use hootux.Task.Sleep.Register.{register-Sorted}
use hootux.Prelude.Search.{nat_cmp, linear, linear-IsBinarySearch}
use hootux.Prelude.{ℕ, ◌*◌, ◌≡◌, refl, true, false, some, [], ◌∷◌, arith}

-- Timer `u` rings at ten times `u`, and wakes the task `u`.
abbrev tens : ℕ → SleepTimerInner
tens u = record { in_queue = true; alarm = 10 * u; waker = some u }

abbrev waiting : System
waiting = record { timers = tens; list = 1 ∷ 2 ∷ 5 ∷ []; woken = [] }

waiting-Sorted : Sorted (λ u. (waiting.timers u).alarm) waiting.list
waiting-Sorted = more_timers (omega arith) (more_timers (omega arith) last_timer)

-- one call wakes one of the two timers that are due
wakeup_once : (wakeup waiting false 25).list ≡ 2 ∷ 5 ∷ []
unfolding wakeup wake_front try_wake
wakeup_once = refl

wakeups_woken : (wakeups 3 waiting 25).woken ≡ 1 ∷ 2 ∷ []
unfolding wakeups wakeup wake_front try_wake
wakeups_woken = refl

wakeups_lem_example : (wakeups 3 waiting 25).list ≡ 5 ∷ []
unfolding later
wakeups_lem_example = wakeups_lem 3 waiting 25 waiting-Sorted (omega arith)

register_three : (register linear waiting 3).list ≡ 1 ∷ 2 ∷ 3 ∷ 5 ∷ []
unfolding register nat_cmp
register_three = refl

register-Sorted_example :
    Sorted (λ u. ((register linear waiting 3).timers u).alarm) (register linear waiting 3).list
register-Sorted_example = register-Sorted linear waiting 3 linear-IsBinarySearch waiting-Sorted

-- a timer that is in the queue keeps the waker it has
poll_again : ((poll linear waiting 5 25 77).0.timers 5).waker ≡ some 5
unfolding poll
poll_again = refl

-- ===== src/Task/Sleep.antt =====
-- kernel/src/task/util/sleep.rs: timers, and the queue of those that are waited for. A timer is its id; what is
-- behind its `Arc` is in `timers`. Waking a waker adds it to `woken`. The binary search of the standard library
-- is `search`.
pub mod Wakeup
pub mod Register
mod Tests
use hootux.Prelude.Search.{Ordering, SearchResult, found, missing, nat_cmp}
use hootux.Prelude.{
  ℕ, ◌+◌, Bool, true, false, Option, none, some, List, [], ◌∷◌, ◌++◌, map, ltb, ◌==◌, if◌then◌else◌,
  take, drop,
}

-- `SleepTimerInner`; `waker` is what is registered in its `AtomicWaker`.
pub record SleepTimerInner : Type 0 where
  pub in_queue : Bool
  pub alarm : ℕ
  pub waker : Option ℕ

-- `SLEEP_QUEUE` and every timer
pub record System : Type 0 where
  pub timers : ℕ → SleepTimerInner
  pub list : List ℕ
  pub woken : List ℕ

abbrev pub update : (ℕ → SleepTimerInner) → ℕ → SleepTimerInner → ℕ → SleepTimerInner
update timers t inner u = if u == t then inner else timers u

-- the place that `register` takes from the search
abbrev pub place_of : SearchResult → ℕ
place_of (found i) = i
place_of (missing i) = i

-- `SleepQueue::register`
unfoldable pub register : (List Ordering → SearchResult) → System → ℕ → System
register search s t =
    let inner = s.timers t in
    let index = place_of (search (map (λ u. nat_cmp (s.timers u).alarm inner.alarm) s.list)) in
    record s {
      timers = update s.timers t (record inner { in_queue = true });
      list = take index s.list ++ (t ∷ drop index s.list);
    }

abbrev pub wake : Option ℕ → List ℕ → List ℕ
wake none woken = woken
wake (some w) woken = woken ++ (w ∷ [])

-- `Timer::try_wake`, and what it returns; an `AtomicWaker` gives its waker out once.
unfoldable pub try_wake : System → ℕ → ℕ → System × Bool
try_wake s t time =
    let inner = s.timers t in
    if ltb time inner.alarm then (s, false) else (
      record s {
        timers = update s.timers t (record inner { waker = none });
        woken = wake inner.waker s.woken;
      },
      true,
    )

-- `SleepQueue::wakeup` under the lock: the first timer of the list, where there is one
unfoldable pub wake_front : System → ℕ → List ℕ → System
unfolding try_wake
wake_front s ct [] = s
wake_front s ct (t ∷ list) =
    let (woke, popped) = try_wake s t ct in if popped then record woke { list = list } else woke

-- `SleepQueue::wakeup` at a time, where another CPU may hold the lock
unfoldable pub wakeup : System → Bool → ℕ → System
unfolding wake_front
wakeup s locked ct = if locked then s else wake_front s ct s.list

-- `Timer::poll` at a time, and whether it is ready
unfoldable pub poll : (List Ordering → SearchResult) → System → ℕ → ℕ → ℕ → System × Bool
unfolding register
poll search s t time waker =
    let inner = s.timers t in
    if ltb time inner.alarm
    then (if inner.in_queue then (s, false) else (
      register search
          (record s { timers = update s.timers t (record inner { waker = some waker }) }) t,
      false,
    ))
    else (s, true)

-- ===== src/Task/Sleep/Wakeup.antt =====
-- kernel/src/task/util/sleep.rs: which timers are woken, and when.
use hootux.Task.Sleep.{SleepTimerInner, System, update, wake, try_wake, wake_front, wakeup}
use hootux.Prelude.{
  ℕ, zero, suc, ◌<◌, ◌≤◌, ◌≡◌, inl, inr, refl, sym, ap, ◌∙◌, true, false, Bool-cases, none, List,
  [], ◌∷◌, ltb, ◌==◌, ==→eq, if◌then◌else◌, length, arith,
}

-- so many calls of `wakeup` at one time
unfoldable pub wakeups : ℕ → System → ℕ → System
wakeups zero s ct = s
wakeups (suc n) s ct = wakeups n (wakeup s false ct) ct

-- Timers whose alarms do not go down.
pub data Sorted (alarm : ℕ → ℕ) : List ℕ → Type 0 where
  no_timer : Sorted alarm []
  last_timer : {t : ℕ} → Sorted alarm (t ∷ [])
  more_timers :
      {t u : ℕ} {ts : List ℕ}
      → alarm t ≤ alarm u
      → Sorted alarm (u ∷ ts)
      → Sorted alarm (t ∷ u ∷ ts)

-- the timers whose alarm is later than a time
unfoldable pub later : (ℕ → ℕ) → ℕ → List ℕ → List ℕ
later alarm ct [] = []
later alarm ct (t ∷ ts) =
    let rest = later alarm ct ts in if ltb ct (alarm t) then t ∷ rest else rest

later_nil : (alarm : ℕ → ℕ) (ct : ℕ) → later alarm ct [] ≡ []
unfolding later
later_nil alarm ct = refl

later_keep :
    (alarm : ℕ → ℕ) (ct t : ℕ) (ts : List ℕ)
    → ct < alarm t
    → later alarm ct (t ∷ ts) ≡ t ∷ later alarm ct ts
unfolding later
later_keep alarm ct t ts h =
    ap (λ b. if b then t ∷ later alarm ct ts else later alarm ct ts) {x = ltb ct (alarm t)}
      {y = true} (ground arith)

later_drop :
    (alarm : ℕ → ℕ) (ct t : ℕ) (ts : List ℕ)
    → alarm t ≤ ct
    → later alarm ct (t ∷ ts) ≡ later alarm ct ts
unfolding later
later_drop alarm ct t ts h =
    ap (λ b. if b then t ∷ later alarm ct ts else later alarm ct ts) {x = ltb ct (alarm t)}
      {y = false} (ground arith)

later_all :
    (alarm : ℕ → ℕ) (ct t : ℕ) (ts : List ℕ)
    → Sorted alarm (t ∷ ts)
    → ct < alarm t
    → later alarm ct (t ∷ ts) ≡ t ∷ ts
unfolding later
later_all alarm ct t [] s h = later_keep alarm ct t [] h
later_all alarm ct t (u ∷ ts) (more_timers l s) h =
    later_keep alarm ct t (u ∷ ts) h ∙ ap (λ us. t ∷ us) (later_all alarm ct u ts s (omega arith))

pub Sorted-tail : (alarm : ℕ → ℕ) (t : ℕ) (ts : List ℕ) → Sorted alarm (t ∷ ts) → Sorted alarm ts
Sorted-tail alarm t [] s = no_timer
Sorted-tail alarm t (u ∷ ts) (more_timers l s) = s

pub update-alarm :
    (timers : ℕ → SleepTimerInner) (t u : ℕ) (inner : SleepTimerInner)
    → inner.alarm ≡ (timers t).alarm
    → (update timers t inner u).alarm ≡ (timers u).alarm
update-alarm timers t u inner e = elim (Bool-cases (u == t)) [
  | inl q ↦
      ap (λ b. (if b then inner else timers u).alarm) q
      ∙ e
      ∙ ap (λ x. (timers x).alarm) (sym (==→eq u t q))
  | inr q ↦ ap (λ b. (if b then inner else timers u).alarm) q
]

-- what one call does with the first timer
module _ (s : System) (ct t : ℕ) (ts : List ℕ) (front : s.list ≡ t ∷ ts) where
  popped : System
  popped = record s {
    timers = update s.timers t (record (s.timers t) { waker = none });
    woken = wake (s.timers t).waker s.woken;
    list = ts;
  }

  popped-list : popped.list ≡ ts
  unfolding popped
  popped-list = refl

  popped-alarm : (u : ℕ) → (popped.timers u).alarm ≡ (s.timers u).alarm
  unfolding popped
  popped-alarm u = update-alarm s.timers t u (record (s.timers t) { waker = none }) refl

  wakeup_due : (s.timers t).alarm ≤ ct → wakeup s false ct ≡ popped
  unfolding wakeup try_wake popped
  wakeup_due h = ap (wake_front s ct) front ∙ rung (ground arith)
    where
      rung : ltb ct (s.timers t).alarm ≡ false → wake_front s ct (t ∷ ts) ≡ popped
      rung q = rw (wake_front, q) refl

  wakeup_early : ct < (s.timers t).alarm → wakeup s false ct ≡ s
  unfolding wakeup try_wake
  wakeup_early h = ap (wake_front s ct) front ∙ waits (ground arith)
    where
      waits : ltb ct (s.timers t).alarm ≡ true → wake_front s ct (t ∷ ts) ≡ s
      waits q = rw (wake_front, q) refl

wakeup_none : (s : System) (ct : ℕ) → s.list ≡ [] → wakeup s false ct ≡ s
unfolding wakeup
wakeup_none s ct e = ap (wake_front s ct) e

wakeups_still : (n : ℕ) (s : System) (ct : ℕ) → wakeup s false ct ≡ s → wakeups n s ct ≡ s
unfolding wakeups
wakeups_still zero s ct e = refl
wakeups_still (suc n) s ct e = ap (λ x. wakeups n x ct) e ∙ wakeups_still n s ct e

wakeups-suc :
    (n : ℕ) (s : System) (ct : ℕ) → wakeups (suc n) s ct ≡ wakeups n (wakeup s false ct) ct
unfolding wakeups
wakeups-suc n s ct = refl

wakeups_from :
    (n : ℕ) (s : System) (ct : ℕ) (alarm : ℕ → ℕ) (ts : List ℕ)
    → s.list ≡ ts
    → ((u : ℕ) → (s.timers u).alarm ≡ alarm u)
    → Sorted alarm ts
    → length ts ≤ n
    → (wakeups n s ct).list ≡ later alarm ct ts
wakeups_from n s ct alarm [] e a o h =
    ap (λ x. x.list) (wakeups_still n s ct (wakeup_none s ct e)) ∙ e ∙ empty
  where
    empty : [] ≡ later alarm ct []
    empty = sym (later_nil alarm ct)
wakeups_from zero s ct alarm (t ∷ ts) e a o h = absurd (omega arith)
wakeups_from (suc n) s ct alarm (t ∷ ts) e a o h = elim (Bool-cases (ltb ct (alarm t))) [
  | inl q ↦
      ap (λ x. x.list) (wakeups_still (suc n) s ct (wakeup_early s ct t ts e (ground (arith, a t))))
      ∙ e
      ∙ sym (later_all alarm ct t ts o (ground arith))
  | inr q ↦
      ap (λ x. x.list) (wakeups-suc n s ct)
      ∙ ap (λ x. (wakeups n x ct).list) (wakeup_due s ct t ts e (ground (arith, a t)))
      ∙ wakeups_from n (popped s ct t ts e) ct alarm ts (popped-list s ct t ts e)
          (λ u. popped-alarm s ct t ts e u ∙ a u) (Sorted-tail alarm t ts o) (omega arith)
      ∙ sym (later_drop alarm ct t ts (ground arith))
]

-- where the list is sorted by alarm, as many calls of `wakeup` as it has timers, at one time and with the lock
-- free, leave just the timers whose alarm is later, in order
pub wakeups_lem :
    (n : ℕ) (s : System) (ct : ℕ)
    → Sorted (λ u. (s.timers u).alarm) s.list
    → length s.list ≤ n
    → (wakeups n s ct).list ≡ later (λ u. (s.timers u).alarm) ct s.list
wakeups_lem n s ct o h = wakeups_from n s ct (λ u. (s.timers u).alarm) s.list refl (λ u. refl) o h

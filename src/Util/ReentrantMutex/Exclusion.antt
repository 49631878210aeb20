-- ===== src/Util/ReentrantMutex/Exclusion.antt =====
-- kernel/src/util/mutex.rs: what a `ReentrantMutex` promises under every schedule.
use mathlib.Core.Path.{subst}
use hootux.Util.ReentrantMutex.Invariant.{Held, CpuOk, ControlOk, Inv, start-Inv}
use hootux.Util.ReentrantMutex.Steps.{run-Inv}
use hootux.Util.ReentrantMutex.{
  ReentrantMutex, new, Pc, idle, loading, storing, counting, releasing, clearing, System, Choice,
  start, run,
}
use hootux.Prelude.{
  ℕ, ◌+◌, ◌^◌, ◌<◌, ◌≡◌, refl, sym, ap, ◌∙◌, ◌≢◌, ◌⊎◌, inl, inr, Bool, false, Option, none, some,
  Option-cases, List, length, arith, eq_of_some,
}

Held-owner : (m : ReentrantMutex) (i g : ℕ) → Held m i g → 0 < g → m.owner ≡ some i
unfolding Held
Held-owner m i g (inl (o, c, p)) h = o
Held-owner m i g (inr (o, z)) h = absurd (omega arith)

CpuOk-owner :
    (h : Option ℕ) (m : ReentrantMutex) (i : ℕ) (pc : Pc) (g : ℕ)
    → CpuOk h m i pc g
    → 0 < g
    → m.owner ≡ some i
unfolding CpuOk
CpuOk-owner h m i idle g (n, k) p = Held-owner m i g k p
CpuOk-owner h m i (loading b) g (n, k) p = Held-owner m i g k p
CpuOk-owner h m i storing g (n, o, z) p = absurd (omega arith)
CpuOk-owner h m i counting g (n, o, c) p = o
CpuOk-owner h m i releasing g (n, k) p = Held-owner m i g k p
CpuOk-owner h m i clearing g (n, o, c, z) p = absurd (omega arith)

reached :
    (sched : List (ℕ × Choice)) → length sched < 2 ^ 64 → Inv (run start sched) (0 + length sched)
reached sched h = run-Inv sched start 0 (omega arith) start-Inv

-- After any schedule of fewer than 2^64 steps, no two CPUs hold a guard of the mutex at once.
pub mutual_exclusion :
    (sched : List (ℕ × Choice)) (i j : ℕ)
    → length sched < 2 ^ 64
    → 0 < ((run start sched).cpus i).guards
    → 0 < ((run start sched).cpus j).guards
    → i ≡ j
mutual_exclusion sched i j h gi gj = eq_of_some (sym (owns i gi) ∙ owns j gj)
  where
    inv : Inv (run start sched) (0 + length sched)
    inv = reached sched h

    owns : (k : ℕ) → 0 < ((run start sched).cpus k).guards → (run start sched).mutex.owner ≡ some k
    owns k p =
        CpuOk-owner inv.holder (run start sched).mutex k ((run start sched).cpus k).pc
          ((run start sched).cpus k).guards (inv.cpu_ok k) p

idle_ok :
    (s : System) (bound i : ℕ) (inv : Inv s bound)
    → (s.cpus i).pc ≡ idle
    → (inv.holder ≢ some i) × Held s.mutex i (s.cpus i).guards
unfolding CpuOk
idle_ok s bound i inv e =
    subst (λ pc. CpuOk inv.holder s.mutex i pc (s.cpus i).guards) e (inv.cpu_ok i)

-- After any schedule of fewer than 2^64 steps, a CPU that is in no operation either owns the mutex,
-- with a count of its guards of which there is one at least, or does not own it and has no guard.
pub run_owner :
    (sched : List (ℕ × Choice)) (i : ℕ)
    → length sched < 2 ^ 64
    → ((run start sched).cpus i).pc ≡ idle
    → (((run start sched).mutex.owner ≡ some i)
        × ((run start sched).mutex.lock_count ≡ ((run start sched).cpus i).guards)
        × (0 < ((run start sched).cpus i).guards))
      ⊎ (((run start sched).mutex.owner ≢ some i) × (((run start sched).cpus i).guards ≡ 0))
unfolding Held
run_owner sched i h e = (idle_ok (run start sched) (0 + length sched) i (reached sched h) e).1

no_owner :
    (s : System) (bound : ℕ) (inv : Inv s bound)
    → ((i : ℕ) → ((s.cpus i).pc ≡ idle) × ((s.cpus i).guards ≡ 0))
    → s.mutex.owner ≡ none
unfolding Held
no_owner s bound inv q = elim (Option-cases s.mutex.owner) [
  | inl e ↦ e
  | inr (i, e) ↦ elim (idle_ok s bound i inv (q i).0).1 [
    | inl (o, c, p) ↦ absurd (omega (arith, (q i).1))
    | inr (o, z) ↦ absurd (o e)
  ]
]

free_control : (h : Option ℕ) (c : Bool) → ControlOk h c → ((i : ℕ) → h ≢ some i) → c ≡ false
unfolding ControlOk
free_control none c ok q = ok
free_control (some i) c ok q = absurd (q i refl)

mutex_eq : (m : ReentrantMutex) → m.control ≡ false → m.owner ≡ none → m.lock_count ≡ 0 → m ≡ new
unfolding new
mutex_eq m c o n =
    ap (λ x. record m { control = x }) c
    ∙ ap (λ x. record { control = false; owner = x; lock_count = m.lock_count }) o
    ∙ ap (λ x. record { control = false; owner = none; lock_count = x }) n

-- After any schedule of fewer than 2^64 steps that leaves every CPU in no operation and without a
-- guard, the mutex is as it was made: no control bit, no owner and a count of 0.
pub run_released :
    (sched : List (ℕ × Choice))
    → length sched < 2 ^ 64
    → ((i : ℕ) → (((run start sched).cpus i).pc ≡ idle) × (((run start sched).cpus i).guards ≡ 0))
    → (run start sched).mutex ≡ new
run_released sched h q =
    mutex_eq (run start sched).mutex
      (free_control inv.holder (run start sched).mutex.control inv.control_ok
        (λ i. (idle_ok (run start sched) (0 + length sched) i inv (q i).0).0))
      unowned (inv.unowned unowned)
  where
    inv : Inv (run start sched) (0 + length sched)
    inv = reached sched h

    unowned : (run start sched).mutex.owner ≡ none
    unowned = no_owner (run start sched) (0 + length sched) inv q

-- ===== src/Util/ReentrantMutex/Moves.antt =====
-- kernel/src/util/mutex.rs: each step of a CPU, that of giving up the lock among them.
use mathlib.Core.Path.{subst}
use hootux.Util.ReentrantMutex.Invariant.{Held, CpuOk, ControlOk, Frame}
use hootux.Util.ReentrantMutex.{
  ReentrantMutex, Pc, idle, loading, storing, counting, releasing, clearing, Local, Choice, acquire,
  release, unlock, advance,
}
use hootux.Prelude.{
  ℕ, ◌+◌, ◌-◌, ◌^◌, ◌<◌, ◌≤◌, ◌≡◌, sym, ◌∙◌, ◌≢◌, inl, inr, Bool, Bool-cases, Option, none, some,
  arith, eq_of_some, ◌==◌, ==→eq, ==→ne, if◌then◌else◌, sub64,
}
use hootux.Util.ReentrantMutex.Locking.{
  Move, same_mutex, Move-load, Move-store, Move-count, Move-release, Move-clear, Move-acquire,
}

dropped : ReentrantMutex → ℕ → Bool → ReentrantMutex × Local
dropped m g b = if b then (m, record { pc = idle; guards = g }) else (
  record m { lock_count = sub64 m.lock_count 1 },
  record { pc = (if m.lock_count == 1 then clearing else idle); guards = g - 1 },
)

module _ (i bound : ℕ) (m : ReentrantMutex) (h : Option ℕ) (co : ControlOk h m.control)
    (un : m.owner ≡ none → m.lock_count ≡ 0) (g : ℕ) (gb : g ≤ bound)
    (b64 : bound + 1 < 2 ^ 64) where
  other_count : (j n : ℕ) → m.owner ≡ some i → j ≢ i → Frame j h m h (record m { lock_count = n })
  other_count j n o ne = record {
    keeps_holder = (λ e. e, λ e. e);
    keeps_owner = (λ e. e, λ e. e);
    keeps_count = λ e. absurd (ne (eq_of_some (sym e ∙ o)));
    keeps_none = λ e x. x;
  }

  -- `unlock` once the guard count is known
  drop_last :
      CpuOk h m i idle g
      → m.lock_count ≡ 1
      → g ≢ 0
      → Move i bound h m
          (record m { lock_count = sub64 m.lock_count 1 })
          (record { pc = clearing; guards = g - 1 })
  unfolding CpuOk Held
  drop_last (n, inr (o, z)) one ne0 = absurd (ne0 z)
  drop_last (n, inl (o, c, q)) one ne0 = record {
    holder = h;
    control_ok = co;
    unowned = λ e. absurd cc;
    own = (n, o, omega arith, omega arith);
    others = λ j ne. other_count j (sub64 m.lock_count 1) o ne;
    bounded = omega arith;
  }

  drop_one :
      CpuOk h m i idle g
      → m.lock_count ≢ 1
      → g ≢ 0
      → Move i bound h m
          (record m { lock_count = sub64 m.lock_count 1 })
          (record { pc = idle; guards = g - 1 })
  unfolding CpuOk Held
  drop_one (n, inr (o, z)) one ne0 = absurd (ne0 z)
  drop_one (n, inl (o, c, q)) one ne0 = record {
    holder = h;
    control_ok = co;
    unowned = λ e. absurd cc;
    own = (n, inl (o, omega arith, omega arith));
    others = λ j ne. other_count j (sub64 m.lock_count 1) o ne;
    bounded = omega arith;
  }

  Move-unlock : CpuOk h m i idle g → Move i bound h m (unlock m g).0 (unlock m g).1
  unfolding unlock dropped
  Move-unlock ok = elim (Bool-cases (g == 0)) [
    | inl e ↦
        subst (λ b. Move i bound h m (dropped m g b).0 (dropped m g b).1) (sym e)
          (same_mutex i bound m h co un g gb b64 idle ok)
    | inr e ↦
        subst (λ b. Move i bound h m (dropped m g b).0 (dropped m g b).1) (sym e)
          (elim (Bool-cases (m.lock_count == 1)) [
            | inl c ↦
                subst
                  (λ b.
                    Move i bound h m (record m { lock_count = sub64 m.lock_count 1 })
                      (record { pc = (if b then clearing else idle); guards = g - 1 }))
                  (sym c) (drop_last ok (==→eq m.lock_count 1 c) (==→ne g 0 e))
            | inr c ↦
                subst
                  (λ b.
                    Move i bound h m (record m { lock_count = sub64 m.lock_count 1 })
                      (record { pc = (if b then clearing else idle); guards = g - 1 }))
                  (sym c) (drop_one ok (==→ne m.lock_count 1 c) (==→ne g 0 e))
          ])
  ]

  pub advance-Move :
      (pc : Pc) (choice : Choice)
      → CpuOk h m i pc g
      → Move i bound h m (advance m i pc g choice).0 (advance m i pc g choice).1
  unfolding advance
  advance-Move idle (acquire p) ok = Move-acquire i bound m h co un g gb b64 p ok
  advance-Move idle release ok = Move-unlock ok
  advance-Move (loading p) choice ok = Move-load i bound m h co un g gb b64 p ok
  advance-Move storing choice ok = Move-store i bound m h co un g gb b64 ok
  advance-Move counting choice ok = Move-count i bound m h co un g gb b64 ok
  advance-Move releasing choice ok = Move-release i bound m h co un g gb b64 ok
  advance-Move clearing choice ok = Move-clear i bound m h co un g gb b64 ok

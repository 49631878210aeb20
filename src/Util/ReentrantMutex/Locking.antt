-- ===== src/Util/ReentrantMutex/Locking.antt =====
-- kernel/src/util/mutex.rs: each step of taking the lock, seen from the CPU that takes it and from the others.
use mathlib.Core.Path.{subst}
use hootux.Util.ReentrantMutex.Invariant.{Held, CpuOk, ControlOk, Frame}
use hootux.Util.ReentrantMutex.{
  ReentrantMutex, Pc, idle, loading, storing, counting, releasing, clearing, Local, after_load,
  try_control,
}
use hootux.Prelude.{
  ℕ, ◌+◌, ◌^◌, ◌<◌, ◌≤◌, ◌≡◌, refl, sym, ap, ◌∙◌, ◌≢◌, inl, inr, Bool, true, false, Bool-cases,
  Option, none, some, Option-cases, arith, eq_of_some, ◌==◌, ==→eq, if◌then◌else◌, add64,
}

-- A step of CPU `i` from mutex `m` to `m'`, seen from itself and from the others.
pub record Move (i bound : ℕ) (h : Option ℕ) (m m' : ReentrantMutex) (l : Local) : Type 0 where
  pub holder : Option ℕ
  pub control_ok : ControlOk holder m'.control
  pub unowned : m'.owner ≡ none → m'.lock_count ≡ 0
  pub own : CpuOk holder m' i l.pc l.guards
  pub others : (j : ℕ) → j ≢ i → Frame j h m holder m'
  pub bounded : l.guards ≤ bound + 1

-- a step that leaves the mutex as it is
pub same : (j : ℕ) (h : Option ℕ) (m : ReentrantMutex) → Frame j h m h m
same j h m = record {
  keeps_holder = (λ e. e, λ e. e);
  keeps_owner = (λ e. e, λ e. e);
  keeps_count = λ e. refl;
  keeps_none = λ e o. o;
}

pub set_and_free : (j : ℕ) {b : Bool} → ControlOk (some j) b → b ≢ false
unfolding ControlOk
set_and_free j c e = absurd cc

taken : ReentrantMutex → ℕ → Bool → Bool → ReentrantMutex × Local
taken m g p b =
    if b
    then (m, record { pc = idle; guards = g })
    else (record m { control = true }, record { pc = loading p; guards = g })

module _ (i bound : ℕ) (m : ReentrantMutex) (h : Option ℕ) (co : ControlOk h m.control)
    (un : m.owner ≡ none → m.lock_count ≡ 0) (g : ℕ) (gb : g ≤ bound)
    (b64 : bound + 1 < 2 ^ 64) where
  pub same_mutex :
      (pc : Pc) → CpuOk h m i pc g → Move i bound h m m (record { pc = pc; guards = g })
  same_mutex pc ok = record {
    holder = h;
    control_ok = co;
    unowned = un;
    own = ok;
    others = λ j ne. same j h m;
    bounded = omega arith;
  }

  load_none : (p : Bool) → CpuOk h m i (loading p) g → m.owner ≡ none → CpuOk h m i storing g
  unfolding CpuOk Held
  load_none p (n, inl (o, c, z)) e = absurd cc
  load_none p (n, inr (o, z)) e = (n, e, z)

  load_own : (p : Bool) → CpuOk h m i (loading p) g → m.owner ≡ some i → CpuOk h m i counting g
  unfolding CpuOk Held
  load_own p (n, inl (o, c, z)) e = (n, e, c)
  load_own p (n, inr (o, z)) e = absurd (o e)

  load_some :
      (p : Bool) (o : ℕ)
      → CpuOk h m i (loading p) g
      → m.owner ≡ some o
      → CpuOk h m i (after_load p i (some o)) g
  unfolding after_load CpuOk
  load_some p o ok e = elim (Bool-cases (o == i)) [
    | inl b ↦
        subst (λ t. CpuOk h m i (if t then (if p then releasing else counting) else releasing) g)
          (sym b)
          (elim p as (λ k. CpuOk h m i (if k then releasing else counting) g) [
            | true ↦ ok
            | false ↦ load_own p ok (e ∙ ap some (==→eq o i b))
          ])
    | inr b ↦
        subst (λ t. CpuOk h m i (if t then (if p then releasing else counting) else releasing) g)
          (sym b) ok
  ]

  pub Move-load :
      (p : Bool)
      → CpuOk h m i (loading p) g
      → Move i bound h m m (record { pc = after_load p i m.owner; guards = g })
  unfolding after_load
  Move-load p ok = same_mutex (after_load p i m.owner) (elim (Option-cases m.owner) [
    | inl e ↦ subst (λ x. CpuOk h m i x g) (sym (ap (after_load p i) e)) (load_none p ok e)
    | inr (o, e) ↦ subst (λ x. CpuOk h m i x g) (sym (ap (after_load p i) e)) (load_some p o ok e)
  ])

  pub Move-store :
      CpuOk h m i storing g
      → Move i bound h m (record m { owner = some i }) (record { pc = counting; guards = g })
  unfolding CpuOk
  Move-store (n, o, z) = record {
    holder = h;
    control_ok = co;
    unowned = λ e. absurd cc;
    own = (n, refl, un o ∙ sym z);
    others = λ j ne. record {
      keeps_holder = (λ e. e, λ e. e);
      keeps_owner = (λ e. absurd cc, λ e. absurd (ne (sym (eq_of_some e))));
      keeps_count = λ e. refl;
      keeps_none = λ e x. absurd (ne (eq_of_some (sym e ∙ n)));
    };
    bounded = omega arith;
  }

  pub Move-count :
      CpuOk h m i counting g
      → Move i bound h m
          (record m { lock_count = add64 m.lock_count 1 })
          (record { pc = releasing; guards = g + 1 })
  unfolding CpuOk Held
  Move-count (n, o, c) = record {
    holder = h;
    control_ok = co;
    unowned = λ e. absurd cc;
    own = (n, inl (o, omega arith, omega arith));
    others = λ j ne. record {
      keeps_holder = (λ e. e, λ e. e);
      keeps_owner = (λ e. e, λ e. e);
      keeps_count = λ e. absurd (ne (eq_of_some (sym e ∙ o)));
      keeps_none = λ e x. x;
    };
    bounded = omega arith;
  }

  pub Move-release :
      CpuOk h m i releasing g
      → Move i bound h m (record m { control = false }) (record { pc = idle; guards = g })
  unfolding CpuOk ControlOk
  Move-release (n, k) = record {
    holder = none;
    control_ok = refl;
    unowned = un;
    own = (λ e. absurd cc, k);
    others = λ j ne. record {
      keeps_holder = (λ e. absurd (ne (eq_of_some (sym e ∙ n))), λ e. absurd cc);
      keeps_owner = (λ e. e, λ e. e);
      keeps_count = λ e. refl;
      keeps_none = λ e x. x;
    };
    bounded = omega arith;
  }

  pub Move-clear :
      CpuOk h m i clearing g
      → Move i bound h m (record m { owner = none }) (record { pc = idle; guards = g })
  unfolding CpuOk Held
  Move-clear (n, o, c, z) = record {
    holder = h;
    control_ok = co;
    unowned = λ e. c;
    own = (n, inr (λ e. absurd cc, z));
    others = λ j ne. record {
      keeps_holder = (λ e. e, λ e. e);
      keeps_owner = (λ e. absurd (ne (eq_of_some (sym e ∙ o))), λ e. absurd cc);
      keeps_count = λ e. refl;
      keeps_none = λ e x. refl;
    };
    bounded = omega arith;
  }

  take :
      (p : Bool)
      → m.control ≡ false
      → CpuOk h m i idle g
      → Move i bound h m (record m { control = true }) (record { pc = loading p; guards = g })
  unfolding CpuOk ControlOk
  take p e (n, k) = record {
    holder = some i;
    control_ok = refl;
    unowned = un;
    own = (refl, k);
    others = λ j ne. record {
      keeps_holder = (λ x. absurd (free j x), λ x. absurd (ne (sym (eq_of_some x))));
      keeps_owner = (λ x. x, λ x. x);
      keeps_count = λ x. refl;
      keeps_none = λ x o. o;
    };
    bounded = omega arith;
  }
    where
      free : (j : ℕ) → h ≢ some j
      free j x = absurd (set_and_free j (subst (λ y. ControlOk y m.control) x co) e)

  pub Move-acquire :
      (p : Bool) → CpuOk h m i idle g → Move i bound h m (try_control m g p).0 (try_control m g p).1
  unfolding try_control taken
  Move-acquire p ok = elim (Bool-cases m.control) [
    | inl e ↦
        subst (λ b. Move i bound h m (taken m g p b).0 (taken m g p b).1) (sym e)
          (same_mutex idle ok)
    | inr e ↦
        subst (λ b. Move i bound h m (taken m g p b).0 (taken m g p b).1) (sym e) (take p e ok)
  ]

-- ===== src/Util/ReentrantMutex/Steps.antt =====
-- kernel/src/util/mutex.rs: every step of every CPU keeps the invariant.
use mathlib.Core.Path.{subst}
use hootux.Util.ReentrantMutex.Invariant.{CpuOk, Inv, CpuOk-Frame}
use hootux.Util.ReentrantMutex.Locking.{Move}
use hootux.Util.ReentrantMutex.Moves.{advance-Move}
use hootux.Util.ReentrantMutex.{ReentrantMutex, Local, System, Choice, advance, update, step, run}
use hootux.Prelude.{
  ℕ, ◌+◌, ◌^◌, ◌<◌, ◌≤◌, ◌≡◌, sym, ◌≢◌, inl, inr, true, false, Bool-cases, List, [], ◌∷◌, length,
  arith, ◌==◌, ==→eq, ==→ne,
}

pub update_self : (cpus : ℕ → Local) (i : ℕ) (l : Local) (j : ℕ) → j ≡ i → update cpus i l j ≡ l
unfolding update
update_self cpus i l j e = rw (same_test)
  where
    same_test : (j == i) ≡ true
    same_test = ground arith

update_other : (cpus : ℕ → Local) (i : ℕ) (l : Local) (j : ℕ) → j ≢ i → update cpus i l j ≡ cpus j
unfolding update
update_other cpus i l j ne = rw (other_test)
  where
    other_test : (j == i) ≡ false
    other_test = ground arith

pub step-Inv :
    (s : System) (bound i : ℕ) (choice : Choice)
    → bound + 1 < 2 ^ 64
    → Inv s bound
    → Inv (step s i choice) (bound + 1)
unfolding step
step-Inv s bound i choice b64 inv = record {
  holder = moved.holder;
  control_ok = moved.control_ok;
  unowned = moved.unowned;
  cpu_ok = λ j. elim (Bool-cases (j == i)) [
    | inl e ↦
        subst (λ l. CpuOk moved.holder next.0 j l.pc l.guards)
          (sym (update_self s.cpus i next.1 j (==→eq j i e)))
          (subst (λ k. CpuOk moved.holder next.0 k next.1.pc next.1.guards) (sym (==→eq j i e))
            moved.own)
    | inr e ↦
        subst (λ l. CpuOk moved.holder next.0 j l.pc l.guards)
          (sym (update_other s.cpus i next.1 j (==→ne j i e)))
          (CpuOk-Frame (moved.others j (==→ne j i e)) (s.cpus j).pc (s.cpus j).guards
            (inv.cpu_ok j))
  ];
  bounded = λ j. elim (Bool-cases (j == i)) [
    | inl e ↦
        subst (λ l. l.guards ≤ bound + 1) (sym (update_self s.cpus i next.1 j (==→eq j i e)))
          moved.bounded
    | inr e ↦
        subst (λ l. l.guards ≤ bound + 1) (sym (update_other s.cpus i next.1 j (==→ne j i e)))
          (omega (arith, inv.bounded j))
  ];
}
  where
    next : ReentrantMutex × Local
    next = advance s.mutex i (s.cpus i).pc (s.cpus i).guards choice

    moved : Move i bound inv.holder s.mutex next.0 next.1
    moved =
        advance-Move i bound s.mutex inv.holder inv.control_ok inv.unowned (s.cpus i).guards
          (inv.bounded i) b64 (s.cpus i).pc choice (inv.cpu_ok i)

pub run-Inv :
    (sched : List (ℕ × Choice)) (s : System) (bound : ℕ)
    → bound + length sched < 2 ^ 64
    → Inv s bound
    → Inv (run s sched) (bound + length sched)
unfolding run
run-Inv [] s bound h inv = subst (Inv s) (omega arith) inv
run-Inv ((i, choice) ∷ rest) s bound h inv =
    subst (Inv (run (step s i choice) rest)) (omega arith) (
      run-Inv rest (step s i choice) (bound + 1) (omega arith)
        (step-Inv s bound i choice (omega arith) inv))

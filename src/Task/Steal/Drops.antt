-- ===== src/Task/Steal/Drops.antt =====
-- kernel/src/task/kernel_scheduler.rs: what becomes of advertised work.
use hootux.Task.{System}
use hootux.Task.Steal.{
  Verdict, missing, passed, taken, verdict, advertised_loop, after_advertised, steal_work,
}
use hootux.Prelude.{ℕ, suc, ◌≡◌, ◌≢◌, refl, ap, ◌∙◌, none, some, List, [], ◌∷◌, length, get_elem?}

module _ (cpu : ℕ) (s : System) where
  next_verdict :
      (v : Verdict) (n tid : ℕ) (q : List ℕ)
      → verdict cpu s tid ≡ v
      → v ≢ taken
      → advertised_loop (suc n) cpu s (tid ∷ q) ≡ advertised_loop n cpu s q
  unfolding advertised_loop
  next_verdict missing n tid q e h = rw (advertised_loop, e) refl
  next_verdict passed n tid q e h = rw (advertised_loop, e) refl
  next_verdict taken n tid q e h = absurd (h refl)

  drop_all :
      (q : List ℕ)
      → ((i tid : ℕ) → get_elem? q i ≡ some tid → verdict cpu s tid ≢ taken)
      → advertised_loop (length q) cpu s q ≡ (none, [])
  unfolding advertised_loop
  drop_all [] h = refl
  drop_all (tid ∷ q) h =
      next_verdict (verdict cpu s tid) (length q) tid q refl (h 0 tid refl)
      ∙ drop_all q (λ i t e. h (suc i) t e)

-- A CPU that may run none of the advertised tasks throws them away: `steal_work` does just what it does
-- where nothing is advertised.
pub steal_work_drops :
    (num_cpus cpu : ℕ) (s : System)
    → ((i tid : ℕ) → get_elem? s.advertised_work i ≡ some tid → verdict cpu s tid ≢ taken)
    → steal_work num_cpus cpu s ≡ steal_work num_cpus cpu (record s { advertised_work = [] })
unfolding steal_work advertised_loop
steal_work_drops num_cpus cpu s h =
    ap (λ r. after_advertised num_cpus cpu (record s { advertised_work = r.1 }) r.0)
      (drop_all cpu s s.advertised_work h)

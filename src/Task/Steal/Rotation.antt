-- ===== src/Task/Steal/Rotation.antt =====
-- kernel/src/task/kernel_scheduler.rs: what `steal` takes, and the order that it leaves.
use hootux.Task.{LocalExecutor, System}
use hootux.Task.Queues.{push}
use hootux.Task.Steal.{Verdict, missing, passed, taken, verdict, steal_loop, steal}
use hootux.Prelude.{
  ℕ, suc, ◌<◌, ◌≤◌, ◌≡◌, refl, sym, ap, ◌∙◌, Option, none, some, List, [], ◌∷◌, ◌++◌, lt→ltb,
  length, length-append, ◌>>=◌, arith,
}

-- What is to be stolen from the queue `back`, where the tasks of `front` were passed over: the first task
-- that the CPU may run now, unless one that is gone comes before it; those behind it stay first, and those
-- passed over come last.
unfoldable pub stolen : ℕ → System → List ℕ → List ℕ → Option ℕ × List ℕ
stolen cpu s front [] = (none, front)
stolen cpu s front (tid ∷ back) = elim (verdict cpu s tid) [
  | missing ↦ (none, back ++ front)
  | passed ↦ stolen cpu s (front ++ tid ∷ []) back
  | taken ↦ (some tid, back ++ front)
]

append_assoc : (a b c : List ℕ) → (a ++ b) ++ c ≡ a ++ (b ++ c)
append_assoc [] b c = refl
append_assoc (x ∷ a) b c = ap (x ∷◌) (append_assoc a b c)

append_nil : (a : List ℕ) → a ++ [] ≡ a
append_nil [] = refl
append_nil (x ∷ a) = ap (x ∷◌) (append_nil a)

module _ (cpu : ℕ) (s : System) where
  push_room : (q : List ℕ) (tid : ℕ) → length q < 256 → push q tid ≡ some (q ++ tid ∷ [])
  unfolding push
  push_room q tid h = rw (lt→ltb (length q) 256 h) refl

  steal_loop-step :
      (back front : List ℕ) (tid : ℕ) (v : Verdict)
      → verdict cpu s tid ≡ v
      → length (back ++ front) < 256
      → steal_loop (length back) cpu s (back ++ (front ++ tid ∷ []))
        ≡ some (stolen cpu s (front ++ tid ∷ []) back)
      → steal_loop (suc (length back)) cpu s (tid ∷ (back ++ front))
        ≡ some (stolen cpu s front (tid ∷ back))
  unfolding steal_loop stolen
  steal_loop-step back front tid missing v h next = rw (steal_loop, stolen, v) refl
  steal_loop-step back front tid taken v h next = rw (steal_loop, stolen, v) refl
  steal_loop-step back front tid passed v h next =
      rw (steal_loop, stolen, v, push_room (back ++ front) tid h)
        (ap (steal_loop (length back) cpu s) (append_assoc back front (tid ∷ [])) ∙ next)

  steal_loop-stolen :
      (back front : List ℕ)
      → length (back ++ front) ≤ 256
      → steal_loop (length back) cpu s (back ++ front) ≡ some (stolen cpu s front back)
  unfolding steal_loop stolen
  steal_loop-stolen [] front h = refl
  steal_loop-stolen (tid ∷ back) front h =
      steal_loop-step back front tid (verdict cpu s tid) refl (omega arith) (
        steal_loop-stolen back (front ++ tid ∷ []) (
          omega (
            arith,
            length-append back (front ++ tid ∷ []),
            length-append front (tid ∷ []),
            length-append back front,
          )))

-- `steal` of a queue of at most 256 tasks never panics: it takes the first task that the CPU may run now,
-- unless one that is gone comes before it, and leaves those behind it, then those passed over, in order.
pub steal_lem :
    (cpu : ℕ) (s : System) (e : LocalExecutor)
    → length e.stealable_queue ≤ 256
    → steal cpu s e
      ≡ some (
        (stolen cpu s [] e.stealable_queue).0,
        record e { stealable_queue = (stolen cpu s [] e.stealable_queue).1 },
      )
unfolding steal
steal_lem cpu s e h = ap leave loop
  where
    leave : Option (Option ℕ × List ℕ) → Option (Option ℕ × LocalExecutor)
    leave o = o >>= λ x. some (x.0, record e { stealable_queue = x.1 })

    loop :
        steal_loop (length e.stealable_queue) cpu s e.stealable_queue
        ≡ some (stolen cpu s [] e.stealable_queue)
    loop =
        ap (steal_loop (length e.stealable_queue) cpu s) (sym (append_nil e.stealable_queue))
        ∙ steal_loop-stolen cpu s e.stealable_queue []
            (omega (arith, length-append e.stealable_queue []))

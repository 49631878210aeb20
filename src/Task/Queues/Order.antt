-- ===== src/Task/Queues/Order.antt =====
-- kernel/src/task/kernel_scheduler.rs: the order in which an executor takes the ids from its queues.
use mathlib.Core.Path.{subst}
use hootux.Task.{LocalExecutor}
use hootux.Task.Queues.{local_first, stealable_first, put, next_tid}
use hootux.Prelude.{
  ℕ, zero, suc, ◌+◌, ◌≤◌, ◌≡◌, refl, sym, inl, inr, Bool, true, false, Bool-cases, Option, none,
  some, List, [], ◌∷◌, leb, length, arith,
}

-- one id taken from two queues
pub data Choice : List ℕ → List ℕ → Option (ℕ × Bool) × List ℕ × List ℕ → Type 0 where
  empty : Choice [] [] (none, [], [])
  local : {t : ℕ} {l s : List ℕ} → Choice (t ∷ l) s (some (t, true), l, s)
  stealable : {t : ℕ} {l s : List ℕ} → Choice l (t ∷ s) (some (t, false), l, s)

-- one list made of two, each in its own order
pub data Interleaves : List ℕ → List ℕ → List ℕ → Type 0 where
  done : Interleaves [] [] []
  left : {x : ℕ} {xs ys zs : List ℕ} → Interleaves xs ys zs → Interleaves (x ∷ xs) ys (x ∷ zs)
  right : {y : ℕ} {xs ys zs : List ℕ} → Interleaves xs ys zs → Interleaves xs (y ∷ ys) (y ∷ zs)

-- how a list of ids grows by a choice
grow : Option (ℕ × Bool) → List ℕ → List ℕ
grow none rest = []
grow (some (t, b)) rest = t ∷ rest

-- the ids that `n` calls take
unfoldable pub drain : ℕ → LocalExecutor → List ℕ
unfolding grow
drain zero e = []
drain (suc n) e = grow (next_tid e).0 (drain n (next_tid e).1)

unfoldable pub view : Option (ℕ × Bool) × LocalExecutor → Option (ℕ × Bool) × List ℕ × List ℕ
view (o, e) = (o, e.local_queue, e.stealable_queue)

local_first-Choice : (l s : List ℕ) → Choice l s (local_first l s)
unfolding local_first
local_first-Choice (t ∷ l) s = local
local_first-Choice [] (t ∷ s) = stealable
local_first-Choice [] [] = empty

stealable_first-Choice : (l s : List ℕ) → Choice l s (stealable_first l s)
unfolding stealable_first
stealable_first-Choice l (t ∷ s) = stealable
stealable_first-Choice (t ∷ l) [] = local
stealable_first-Choice [] [] = empty

view-put :
    (e : LocalExecutor) (b : Bool) (r : Option (ℕ × Bool) × List ℕ × List ℕ) → view (put e b r) ≡ r
unfolding view put
view-put e b (o, l, s) = refl

pub next_tid-Choice :
    (e : LocalExecutor) → Choice e.local_queue e.stealable_queue (view (next_tid e))
unfolding next_tid
next_tid-Choice e = elim (Bool-cases (leb (length e.stealable_queue) (length e.local_queue))) [
  | inl t ↦ rw (t) (by_local false)
  | inr t ↦ rw (t) (elim (Bool-cases e.arbiter_local) [
    | inl a ↦ rw (a) (by_local false)
    | inr a ↦ rw (a) by_stealable
  ])
]
  where
    by_local :
        (b : Bool)
        → Choice e.local_queue e.stealable_queue
            (view (put e b (local_first e.local_queue e.stealable_queue)))
    by_local b =
        subst (Choice e.local_queue e.stealable_queue)
          (sym (view-put e b (local_first e.local_queue e.stealable_queue)))
          (local_first-Choice e.local_queue e.stealable_queue)

    by_stealable :
        Choice e.local_queue e.stealable_queue
          (view (put e true (stealable_first e.local_queue e.stealable_queue)))
    by_stealable =
        subst (Choice e.local_queue e.stealable_queue)
          (sym (view-put e true (stealable_first e.local_queue e.stealable_queue)))
          (stealable_first-Choice e.local_queue e.stealable_queue)

Choice-Interleaves :
    {l s : List ℕ} {r : Option (ℕ × Bool) × List ℕ × List ℕ} (rest : List ℕ) (n : ℕ)
    → Choice l s r
    → length l + length s ≤ suc n
    → (length r.1 + length r.2 ≤ n → Interleaves r.1 r.2 rest)
    → Interleaves l s (grow r.0 rest)
unfolding grow
Choice-Interleaves rest n empty h next = done
Choice-Interleaves rest n local h next = left (next (omega arith))
Choice-Interleaves rest n stealable h next = right (next (omega arith))

nothing : (l s : List ℕ) → length l + length s ≤ 0 → Interleaves l s []
nothing [] [] h = done
nothing (x ∷ l) s h = absurd (omega arith)
nothing [] (x ∷ s) h = absurd (omega arith)

-- As many calls as the two queues have ids, or more, take the ids of both, those of each queue in the
-- order of that queue, wherever the arbiter stands.
pub drain-Interleaves :
    (n : ℕ) (e : LocalExecutor)
    → length e.local_queue + length e.stealable_queue ≤ n
    → Interleaves e.local_queue e.stealable_queue (drain n e)
unfolding drain view
drain-Interleaves zero e h = nothing e.local_queue e.stealable_queue h
drain-Interleaves (suc n) e h =
    Choice-Interleaves (drain n (next_tid e).1) n (next_tid-Choice e) h
      (drain-Interleaves n (next_tid e).1)

-- ===== src/Util/SingleArc/Tests.antt =====
-- A block with two `Weak`s, of which one outlives the `SingleArc`; and what `set` makes of the count.
use hootux.Util.SingleArc.{
  Heap, block_of, block, new, downgrade, drop_strong, release, drop_weak, get, bind, set_to,
}
use hootux.Util.SingleArc.Handles.{
  Handles, Op, downgrade_it, drop_it, deref_it, drop_one, read_one, run, expected,
}
use hootux.Util.SingleArc.Counts.{run_safe}
use hootux.Prelude.{◌≡◌, refl, true, none, some, List, [], ◌∷◌, ok, arith}

abbrev calls : List Op
calls = downgrade_it ∷ deref_it ∷ downgrade_it ∷ drop_one ∷ drop_it ∷ read_one ∷ drop_one ∷ []

run_safe_example :
    (w : Handles) × (run
        (new [] 9).0
        (record { heap = (new [] 9).1; strong = true; weaks = 0 })
        calls
      ≡ some w)
    × (block w.heap (new [] 9).0 ≡ expected w.strong w.weaks 9)
run_safe_example = run_safe [] 9 calls (omega arith)

-- `set` leaves the count at 0
abbrev one_block : Heap
one_block = some (record { weak_count = 0; data_box = some 9 }) ∷ []

set_to_test : set_to one_block none 0 ≡ some (ok tt, some 0, one_block)
unfolding set_to bind downgrade drop_weak release block block_of
set_to_test = refl

-- so the `Weak` that was bound points to a freed block once the `SingleArc` is dropped
get-drop_strong_test : drop_strong one_block 0 ≡ some (none ∷ [])
unfolding drop_strong block block_of
get-drop_strong_test = refl

get_freed_test : get (none ∷ []) (some 0) ≡ none
unfolding get block block_of
get_freed_test = refl

-- ===== src/Util/SingleArc/Counts.antt =====
-- kernel/src/util/single_arc.rs: the count of a block and its handles.
use hootux.Util.SingleArc.{Heap, block_of, block, new}
use hootux.Prelude.{
  ℕ, ◌+◌, ◌^◌, ◌<◌, ◌≡◌, refl, ap, ◌∙◌, true, some, List, [], ◌∷◌, ◌++◌, length, get_elem?,
  get_elem?-append_right, length-append, ◌>>=◌, arith,
}
use hootux.Util.SingleArc.Handles.{Handles, Op, run, expected, Right, Steps}
use hootux.Util.SingleArc.Blocks.{step}

run-Right :
    (a d : ℕ) (w : Handles) (ops : List Op)
    → w.weaks + length ops < 2 ^ 64
    → Right a d w
    → (v : Handles) × (run a w ops ≡ some v) × Right a d v
unfolding run Steps Right
run-Right a d w [] k r = (w, refl, r)
run-Right a d w (op ∷ ops) k (e, l) =
    let (v, f, r, m) = step a d w.heap l w.strong w.weaks op (omega arith) e in
    let (u, g, last) = run-Right a d v ops (omega arith) r in
    (u, ap (λ o. o >>= λ x. run a x ops) f ∙ g, last)

-- For fewer than 2 ^ 64 calls, in any order, of `downgrade`, `take`, `drop` and `deref` of a new `SingleArc` and
-- of `drop` and `get` of the `Weak`s made of it: no freed block is accessed and nothing panics; while there are
-- handles the block counts the `Weak`s, and has its data just while the `SingleArc` is there; when the last
-- handle is gone the block is freed.
pub run_safe :
    (h : Heap) (d : ℕ) (ops : List Op)
    → length ops < 2 ^ 64
    → (w : Handles) × (run (new h d).0 (record { heap = (new h d).1; strong = true; weaks = 0 }) ops
        ≡ some w)
      × (block w.heap (new h d).0 ≡ expected w.strong w.weaks d)
unfolding new block block_of Right expected
run_safe h d ops k =
    let (w, e, (r, l)) =
      run-Right (length h) d (record { heap = (new h d).1; strong = true; weaks = 0 }) ops
        (omega arith) (there, longer) in
    (w, e, r)
  where
    there :
        block (h ++ some (record { weak_count = 0; data_box = some d }) ∷ []) (length h)
        ≡ expected true 0 d
    there = ap block_of (
        get_elem?-append_right h (some (record { weak_count = 0; data_box = some d }) ∷ [])
          (length h) (omega arith)
        ∙ ap (get_elem? (some (record { weak_count = 0; data_box = some d }) ∷ [])) {y = 0}
            (omega arith))

    longer : length h < length (h ++ some (record { weak_count = 0; data_box = some d }) ∷ [])
    longer =
        omega (arith, length-append h (some (record { weak_count = 0; data_box = some d }) ∷ []))

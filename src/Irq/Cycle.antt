-- ===== src/Irq/Cycle.antt =====
-- The life of one vector in vector_tables.rs: reserved, given a handler, freed.
use hootux.Prelude.{
  ℕ, ◌≡◌, ◌∙◌, ap, none, some, if◌then◌else◌, get_elem?, get_elem?_bound, get_elem?-set_self,
  set-set, set-get_elem?, set, ok, err,
}
use hootux.Irq.{
  InterruptHandleContainer, empty, reserved, generic, Vectors, is_empty, is_settable, reserve,
  set_handle, free_irq, alloc_irq,
}

reserve_at :
    (r : Vectors) (v : ℕ) (c : InterruptHandleContainer)
    → get_elem? r v ≡ some c
    → reserve r v ≡ some (if is_empty c then (ok tt, set r v reserved) else (err tt, r))
unfolding reserve
reserve_at r v c at = rw at

set_handle_at :
    (r : Vectors) (v : ℕ) (c h : InterruptHandleContainer)
    → get_elem? r v ≡ some c
    → set_handle r v h ≡ some (if is_settable c then (ok tt, set r v h) else (err tt, r))
unfolding set_handle
set_handle_at r v c h at = rw at

free_irq_at :
    (r : Vectors) (v : ℕ) (c : InterruptHandleContainer)
    → get_elem? r v ≡ some c
    → free_irq r v ≡ some (if is_empty c then (err tt, set r v empty) else (ok tt, set r v empty))
unfolding free_irq
free_irq_at r v c at = rw at

-- A free vector can be reserved, once; then it takes a handler, once; and freeing it gives the registry back
-- as it was. A second attempt to reserve it or to set its handler changes nothing.
pub irq_cycle :
    (r : Vectors) (v queue message : ℕ)
    → get_elem? r v ≡ some empty
    → (r1 : Vectors) × (r2 : Vectors) × (reserve r v ≡ some (ok tt, r1))
      × (reserve r1 v ≡ some (err tt, r1))
      × (alloc_irq r1 v queue message ≡ some (ok tt, r2))
      × (alloc_irq r2 v queue message ≡ some (err tt, r2))
      × (get_elem? r2 v ≡ some (generic (record { waker = none; queue = queue; vector = message })))
      × (free_irq r2 v ≡ some (ok tt, r))
unfolding alloc_irq is_empty is_settable
irq_cycle r v queue message at =
    let h : InterruptHandleContainer =
      generic (record { waker = none; queue = queue; vector = message }) in
    let r1 = set r v reserved in
    let at1 : get_elem? r1 v ≡ some reserved =
      get_elem?-set_self r v reserved (get_elem?_bound r v at) in
    let r2 = set r1 v h in
    let at2 : get_elem? r2 v ≡ some h = get_elem?-set_self r1 v h (get_elem?_bound r1 v at1) in
    let back : set r2 v empty ≡ r =
      set-set r1 v h empty ∙ set-set r v reserved empty ∙ set-get_elem? r v at in
    (
      r1,
      r2,
      reserve_at r v empty at,
      reserve_at r1 v reserved at1,
      set_handle_at r1 v reserved h at1,
      set_handle_at r2 v h h at2,
      at2,
      free_irq_at r2 v h at2 ∙ ap (λ x. some (ok tt, x)) back,
    )

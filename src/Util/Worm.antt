-- ===== src/Util/Worm.antt =====
-- kernel/src/util/worm.rs: `Worm`, a cell that is written once. A panic is `none`.
use hootux.Prelude.{
  ◌≡◌, refl, sym, ap, ◌∙◌, Bool, true, false, Option, none, some, eq_of_some, List, [], ◌∷◌, ◌>>=◌,
}

module _ {ℓ} {A : Type ℓ} where
  -- `Worm::new`
  unfoldable new : Option A
  new = none

  -- `Worm::write`
  unfoldable write : Option A → A → Option (Option A)
  write none v = some (some v)
  write (some u) v = none

  -- `Worm::read`, and `deref`, which is the same
  unfoldable read : Option A → Option A
  read none = none
  read (some v) = some v

  -- `Worm::is_set`
  unfoldable is_set : Option A → Bool
  is_set none = false
  is_set (some v) = true

  -- one write after another
  write_all : Option A → List A → Option (Option A)
  unfolding write
  write_all w [] = some w
  write_all w (v ∷ vs) = write w v >>= λ x. write_all x vs

  -- a second write panics
  write_all_twice : (u v : A) (vs : List A) → write_all new (u ∷ v ∷ vs) ≡ none
  unfolding write_all write new
  write_all_twice u v vs = refl

  -- whatever is written without a panic, a cell that has a value keeps it
  read-write_all :
      (w x : Option A) (u : A) (vs : List A)
      → read w ≡ some u
      → write_all w vs ≡ some x
      → read x ≡ some u
  unfolding write_all write read
  read-write_all w x u [] r e = ap read (sym (eq_of_some e)) ∙ r
  read-write_all none x u (v ∷ vs) r e = absurd (cc r)
  read-write_all (some y) x u (v ∷ vs) r e = absurd (cc e)

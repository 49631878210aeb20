-- ===== src/Fs/Tmpfs/Directory/Removal.antt =====
-- kernel/src/fs/tmpfs.rs: removing a file returns and keeps the invariant.
use Prim.Native.String.{String}
use mathlib.Core.Path.{subst}
use hootux.Prelude.Maps.{lookup, string_key, nat_key}
use hootux.Fs.Tmpfs.Invariant.{EntriesOk, IsDir, Inv, set-Inv, erase-Inv}
use hootux.Fs.Tmpfs.{
  IoError, not_present, not_empty, DirAccessor, TmpFsFile, dir, file, device, TmpFs, link_count,
  set_link, unlink, object_of, remove_file, fetch, dir_at,
}
use hootux.Fs.Tmpfs.Directory.{Out, occupied, remove_object, remove_id, dir_remove}
use hootux.Fs.Tmpfs.Directory.Keeps.{Keeps, dir_at-eq}
use hootux.Prelude.{
  ℕ, ◌-◌, ◌<◌, ◌≡◌, refl, sym, ap, ◌∙◌, inl, inr, Bool, true, false, Bool-cases, Option-cases,
  Option, none, some, eq_of_some, >>=-eq-some, ltb, if◌then◌else◌, get_elem?, Result, ok, err,
  ◌>>=◌, arith,
}

set_link-Ok : (n count : ℕ) (o : TmpFsFile) → EntriesOk n o → EntriesOk n (set_link o count)
unfolding EntriesOk set_link
set_link-Ok n count (dir d) e = e
set_link-Ok n count (file f) e = tt
set_link-Ok n count (device d) e = tt

set_link-IsDir : (count : ℕ) (o : TmpFsFile) → IsDir o → IsDir (set_link o count)
unfolding IsDir set_link
set_link-IsDir count (dir d) e = tt
set_link-IsDir count (file f) e = e
set_link-IsDir count (device d) e = e

unlink-Inv :
    (s : TmpFs) (id a : ℕ) (o : TmpFsFile)
    → 0 < id
    → get_elem? s.objects a ≡ some o
    → Inv s
    → Inv (unlink s id a o)
unfolding unlink
unlink-Inv s id a o pos e inv = elim (Bool-cases (ltb 1 (link_count o))) [
  | inl t ↦ rw (t) (
      set-Inv s a o (set_link o (link_count o - 1)) inv e
        (set_link-Ok s.serial_count (link_count o - 1) o (inv.entries a o e))
        (set_link-IsDir (link_count o - 1) o))
  | inr t ↦ rw (t) (erase-Inv s id pos inv)
]

unlink_count :
    (s : TmpFs) (id a : ℕ) (o : TmpFsFile) → (unlink s id a o).serial_count ≡ s.serial_count
unfolding unlink
unlink_count s id a o = elim (Bool-cases (ltb 1 (link_count o))) [ inl t ↦ rw (t) | inr t ↦ rw (t) ]

pub object_there :
    (s : TmpFs) (id a : ℕ) (o : TmpFsFile)
    → object_of s id ≡ some (a, o)
    → get_elem? s.objects a ≡ some o
unfolding object_of
object_there s id a o e =
    let (b, _, r) = >>=-eq-some (lookup id s.f_map) _ e in
    let (p, q, t) = >>=-eq-some (get_elem? s.objects b) _ r in
    let same : (b, p) ≡ (a, o) = eq_of_some t in
    sym (ap (λ x. get_elem? s.objects x.0) same) ∙ q ∙ ap (λ x. some x.1) same

module _ (s : TmpFs) (inv : Inv s) (id : ℕ) (pos : 0 < id) where
  remove_file-Keeps : Keeps s (let out : Out IoError (Unit {0}) = some (remove_file s id) in out)
  unfolding Keeps remove_file
  remove_file-Keeps = elim (Option-cases (object_of s id)) [
    | inl e ↦ rw (remove_file, e) (err not_present, s, refl, inv, omega arith)
    | inr ((a, o), e) ↦
        rw (remove_file, e)
          (
            ok tt,
            unlink s id a o,
            refl,
            unlink-Inv s id a o pos (object_there s id a o e) inv,
            omega (arith, unlink_count s id a o),
          )
  ]

  remove_object-Keeps :
      (test : Result IoError Bool)
      → Keeps s (let out : Out IoError (Unit {0}) = some (remove_object s id test) in out)
  unfolding Keeps remove_object
  remove_object-Keeps (err e) = (err e, s, refl, inv, omega arith)
  remove_object-Keeps (ok true) = (err not_empty, s, refl, inv, omega arith)
  remove_object-Keeps (ok false) = remove_file-Keeps

  remove_id-Keeps : Keeps s (let out : Out IoError (Unit {0}) = some (remove_id s id) in out)
  unfolding remove_id Keeps
  remove_id-Keeps =
      subst (λ r. Keeps s (some r))
        (sym (
          ap
            (λ x.
              if x then found (fetch s id >>= λ f. get_elem? s.objects f) else (err not_present, s))
            inv.living))
        (found-Keeps (fetch s id >>= λ f. get_elem? s.objects f))
    where
      found : Option TmpFsFile → Result IoError (Unit {0}) × TmpFs
      found o = elim o [
        | none ↦ (err not_present, s)
        | some object ↦ remove_object s id (occupied object)
      ]

      found-Keeps : (o : Option TmpFsFile) → Keeps s (some (found o))
      found-Keeps none = (err not_present, s, refl, inv, omega arith)
      found-Keeps (some o) = remove_object-Keeps (occupied o)

pub dir_remove-Keeps :
    (s : TmpFs) (a : ℕ) (d : DirAccessor) (name : String)
    → dir_at s a ≡ some d
    → Inv s
    → Keeps s (dir_remove s a name)
unfolding dir_remove EntriesOk Keeps
dir_remove-Keeps s a d name e inv = elim (Option-cases (lookup name d.map)) [
  | inl l ↦
      subst (Keeps s) (sym (rw (dir_remove, e, ◌>>=◌, l)))
        (err not_present, s, refl, inv, omega arith)
  | inr (id, l) ↦
      subst (Keeps s) (sym (rw (dir_remove, e, ◌>>=◌, l)))
        (remove_id-Keeps s inv id (inv.entries a (dir d) (dir_at-eq s a d e) name id l).0)
]

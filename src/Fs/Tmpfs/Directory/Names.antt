-- ===== src/Fs/Tmpfs/Directory/Names.antt =====
-- kernel/src/fs/tmpfs.rs: what a removal leaves of the name that it removes.
use Prim.Native.String.{String}
use mathlib.Core.Path.{subst}
use hootux.Prelude.Maps.{lookup, string_key, nat_key, lookup-erase}
use hootux.Fs.Tmpfs.{
  IoError, not_present, already_exists, DirAccessor, TmpFsFile, dir, file, device, TmpFs,
  link_count, set_link, unlink, object_of, remove_file, fetch, dir_of, dir_at,
}
use hootux.Fs.Tmpfs.Directory.{
  Source, dir_new_file, dir_new_dir, occupied, remove_object, remove_id, dir_remove,
}
use hootux.Fs.Tmpfs.Directory.Removal.{object_there}
use hootux.Prelude.{
  ℕ, ◌-◌, ◌<◌, ◌≡◌, ◌⊎◌, refl, sym, ap, ◌∙◌, inl, inr, Bool, true, false, Bool-cases, Option-cases,
  Option, none, some, eq_of_some, ltb, ltb→lt, ◌==◌, ==→eq, ==→ne, if◌then◌else◌, get_elem?, set,
  get_elem?-set_self, get_elem?-set_ne, get_elem?_bound, Result, ok, err, ◌>>=◌, arith,
}

dir_of-set_link : (o : TmpFsFile) (n : ℕ) → dir_of (some (set_link o n)) ≡ dir_of (some o)
unfolding dir_of set_link
dir_of-set_link (dir d) n = refl
dir_of-set_link (file f) n = refl
dir_of-set_link (device d) n = refl

-- What a removal leaves: every directory as it was, and the serial either gone or still the name of a file
-- with other links.
Left : TmpFs → ℕ → TmpFs → Type 0
Left s id t =
    ((b : ℕ) → dir_at t b ≡ dir_at s b)
    × ((fetch t id ≡ none)
        ⊎ ((f : ℕ) × (o : TmpFsFile) × (object_of s id ≡ some (f, o)) × (1 < link_count o)))

set_dirs :
    (s : TmpFs) (f b n : ℕ) (o : TmpFsFile)
    → get_elem? s.objects f ≡ some o
    → dir_of (get_elem? (set s.objects f (set_link o n)) b) ≡ dir_of (get_elem? s.objects b)
set_dirs s f b n o e = elim (Bool-cases (f == b)) [
  | inl t ↦
      ap (λ x. dir_of (get_elem? (set s.objects f (set_link o n)) x)) (sym (==→eq f b t))
      ∙ ap dir_of (get_elem?-set_self s.objects f (set_link o n) (get_elem?_bound s.objects f e))
      ∙ dir_of-set_link o n
      ∙ sym (ap dir_of e)
      ∙ ap (λ x. dir_of (get_elem? s.objects x)) (==→eq f b t)
  | inr t ↦ ap dir_of (get_elem?-set_ne s.objects f b (set_link o n) (==→ne f b t))
]

unlink-Left :
    (s : TmpFs) (id f : ℕ) (o : TmpFsFile)
    → object_of s id ≡ some (f, o)
    → Left s id (unlink s id f o)
unfolding Left unlink dir_at fetch
unlink-Left s id f o e = elim (Bool-cases (ltb 1 (link_count o))) [
  | inl t ↦ rw (t) (
    (λ b. set_dirs s f b (link_count o - 1) o (object_there s id f o e)),
    inr (f, o, e, ltb→lt 1 (link_count o) t),
  )
  | inr t ↦ rw (t) ((λ b. refl), inl (lookup-erase id id s.f_map ∙ same))
]
  where
    same : (if id == id then none else lookup id s.f_map) ≡ none
    same = ground arith

module _ (s t : TmpFs) (id : ℕ) where
  remove_file-Left : remove_file s id ≡ (ok tt, t) → Left s id t
  unfolding remove_file
  remove_file-Left h = elim (Option-cases (object_of s id)) [
    | inl e ↦
        let bad : (Path (Result IoError (Unit {0}) × TmpFs) (err not_present, s) (ok tt, t)) =
          sym (rw (remove_file, e)) ∙ h in
        absurd (cc)
    | inr ((f, o), e) ↦
        let there : (ok tt, unlink s id f o) ≡ (ok tt, t) = sym (rw (remove_file, e)) ∙ h in
        subst (Left s id) (ap (λ x. x.1) there) (unlink-Left s id f o e)
  ]

  remove_object-Left :
      (test : Result IoError Bool) → remove_object s id test ≡ (ok tt, t) → Left s id t
  unfolding remove_object
  remove_object-Left (err e) h = absurd (cc)
  remove_object-Left (ok true) h = absurd (cc)
  remove_object-Left (ok false) h = remove_file-Left h

  remove_id-Left : remove_id s id ≡ (ok tt, t) → Left s id t
  unfolding remove_id
  remove_id-Left h = elim (Bool-cases s.alive) [
    | inl l ↦ found-Left (fetch s id >>= λ f. get_elem? s.objects f) (sym (chosen l) ∙ h)
    | inr l ↦
        let bad : (Path (Result IoError (Unit {0}) × TmpFs) (err not_present, s) (ok tt, t)) =
          sym (chosen l) ∙ h in
        absurd (cc)
  ]
    where
      found : Option TmpFsFile → Result IoError (Unit {0}) × TmpFs
      found o = elim o [
        | none ↦ (err not_present, s)
        | some object ↦ remove_object s id (occupied object)
      ]

      chosen :
          {b : Bool}
          → s.alive ≡ b
          → remove_id s id ≡ (
              if b then found (fetch s id >>= λ f. get_elem? s.objects f) else (err not_present, s))
      chosen l =
          ap
            (λ x.
              if x then found (fetch s id >>= λ f. get_elem? s.objects f) else (err not_present, s))
            l

      found-Left : (o : Option TmpFsFile) → found o ≡ (ok tt, t) → Left s id t
      found-Left none e = absurd (cc)
      found-Left (some o) e = remove_object-Left (occupied o) e

-- A removal that succeeds, of a name that the directory at `a` links to serial `id`: the serial has left the
-- map, or the file still has other links. The directory itself still has the entry: a file or a directory
-- made under that name afterwards is refused with "already exists", and changes nothing.
pub dir_remove-dir_new_dir :
    (s t : TmpFs) (a : ℕ) (d : DirAccessor) (name : String) (id : ℕ) (source : Option Source)
    → dir_at s a ≡ some d
    → lookup name d.map ≡ some id
    → dir_remove s a name ≡ some (ok tt, t)
    → ((fetch t id ≡ none)
        ⊎ ((f : ℕ) × (o : TmpFsFile) × (object_of s id ≡ some (f, o)) × (1 < link_count o)))
      × (dir_new_dir t a name ≡ some (err already_exists, t))
      × (dir_new_file t a name source ≡ some (err (some already_exists, none), t))
unfolding Left dir_remove dir_new_dir dir_new_file
dir_remove-dir_new_dir s t a d name id source e l h =
    (left.1, rw (kept, ◌>>=◌, l), rw (kept, ◌>>=◌, l))
  where
    removed : dir_remove s a name ≡ some (remove_id s id)
    removed = rw (dir_remove, e, ◌>>=◌, l)

    left : Left s id t
    left = remove_id-Left s t id (eq_of_some (sym removed ∙ h))

    kept : dir_at t a ≡ some d
    kept = left.0 a ∙ e

-- ===== src/Fs/Tmpfs/Directory/Keeps.antt =====
-- kernel/src/fs/tmpfs.rs: every operation on a directory returns and keeps the invariant.
use Prim.Native.String.{String}
use mathlib.Core.Path.{subst}
use text.Mathlib.Text.{◌==◌ as str_eq}
use hootux.Prelude.Maps.{lookup, insert, string_key, nat_key, lookup-insert}
use hootux.Fs.Tmpfs.Invariant.{EntriesOk, IsDir, Inv, set-Inv, fresh, register-Inv}
use hootux.Fs.Tmpfs.{
  IoError, not_present, already_exists, DirAccessor, Device, TmpFsFile, dir, file, device, TmpFs,
  register, new_file, new_dir, new_accessor, new_dir_accessor, finish_dev, store_dev, dir_of,
  dir_at,
}
use hootux.Fs.Tmpfs.Directory.{
  Out, link, Source, copy_of, fill, file_of, finish_file, make_file, dir_new_file, finish_dir,
  make_dir, dir_new_dir, store_at, dir_store,
}
use hootux.Prelude.{
  ℕ, ◌+◌, ◌^◌, ◌<◌, ◌≤◌, ◌≡◌, refl, sym, ap, ◌∙◌, ◌≢◌, inl, inr, Bool-cases, Option-cases, Option,
  none, some, eq_of_some, List, [], ◌∷◌, if◌then◌else◌, length, get_elem?, get_elem?-set_ne,
  get_elem?-append_left, get_elem?-append_right, get_elem?_bound, Result, ok, err, ◌>>=◌, arith,
}

-- A call that returns and keeps the invariant, and gives out at most one serial.
unfoldable pub Keeps : {E A : Type 0} → TmpFs → Out E A → Type 0
Keeps {E = E} {A = A} s out =
    (r : Result E A) × (s' : TmpFs) × (out ≡ some (r, s'))
    × Inv s'
    × (s'.serial_count ≤ s.serial_count + 1)

dir_of-eq : (o : Option TmpFsFile) (d : DirAccessor) → dir_of o ≡ some d → o ≡ some (dir d)
unfolding dir_of
dir_of-eq none d e = absurd (cc)
dir_of-eq (some (dir x)) d e = ap (λ y. some (dir y)) (eq_of_some e)
dir_of-eq (some (file x)) d e = absurd (cc)
dir_of-eq (some (device x)) d e = absurd (cc)

pub dir_at-eq :
    (s : TmpFs) (a : ℕ) (d : DirAccessor)
    → dir_at s a ≡ some d
    → get_elem? s.objects a ≡ some (dir d)
unfolding dir_at
dir_at-eq s a d e = dir_of-eq (get_elem? s.objects a) d e

link-Inv :
    (s : TmpFs) (a : ℕ) (d : DirAccessor) (name : String) (id : ℕ)
    → Inv s
    → get_elem? s.objects a ≡ some (dir d)
    → 0 < id
    → id < s.serial_count
    → Inv (link s a d name id)
unfolding link EntriesOk IsDir
link-Inv s a d name id inv e pos lt =
    set-Inv s a (dir d) (dir (record d { map = insert name id d.map })) inv e entry (λ _. tt)
  where
    entry :
        (j : String) (k : ℕ)
        → lookup j (insert name id d.map) ≡ some k
        → (0 < k) × (k < s.serial_count)
    entry j k l = elim (Bool-cases (str_eq j name)) [
      | inl t ↦
          let same : id ≡ k = eq_of_some (sym (lookup-insert j name id d.map ∙ rw (t)) ∙ l) in
          (omega arith, omega arith)
      | inr t ↦ inv.entries a (dir d) e j k (sym (lookup-insert j name id d.map ∙ rw (t)) ∙ l)
    ]

-- what holds of a file system just after an accessor was made
module _ (s : TmpFs) (o : TmpFsFile) (b : s.serial_count + 1 < 2 ^ 64)
    (ok1 : EntriesOk (s.serial_count + 1) o) (inv : Inv s) where
  made : (register s o).0 ≡ some (length s.objects)
  unfolding register
  made = rw (register, fresh s inv)

  kept_Inv : Inv (register s o).1
  kept_Inv = register-Inv s o b ok1 inv

  counted : (register s o).1.serial_count ≡ s.serial_count + 1
  unfolding register
  counted = omega arith

  kept_object :
      (a : ℕ) (p : TmpFsFile)
      → get_elem? s.objects a ≡ some p
      → get_elem? (register s o).1.objects a ≡ some p
  unfolding register
  kept_object a p e = get_elem?-append_left s.objects (o ∷ []) a (get_elem?_bound s.objects a e) ∙ e

  new_object : get_elem? (register s o).1.objects (length s.objects) ≡ some o
  unfolding register
  new_object =
      get_elem?-append_right s.objects (o ∷ []) (length s.objects) (omega arith)
      ∙ ap (get_elem? (o ∷ [])) {y = 0} (omega arith)

  link_made :
      (a : ℕ) (d : DirAccessor) (name : String)
      → get_elem? s.objects a ≡ some (dir d)
      → Inv (link (register s o).1 a d name s.serial_count)
  link_made a d name e =
      link-Inv (register s o).1 a d name s.serial_count kept_Inv (kept_object a (dir d) e)
        inv.positive (omega (arith, counted))

module _ (s : TmpFs) (a : ℕ) (d : DirAccessor) (name : String) (e : dir_at s a ≡ some d)
    (inv : Inv s) (b : s.serial_count + 1 < 2 ^ 64) where
  refused : {E : Type 0} (A : Type 0) (x : E) → Keeps s (let out : Out E A = some (err x, s) in out)
  unfolding Keeps
  refused A x = (err x, s, refl, inv, omega arith)

  make_dir-Keeps : Keeps s (some (make_dir s a d name))
  unfolding Keeps make_dir new_dir finish_dir EntriesOk lookup new_dir_accessor link
  make_dir-Keeps = (
    ok (length s.objects),
    link (register s o).1 a d name s.serial_count,
    ap (λ x. some (finish_dir (register s o).1 a d name s.serial_count x)) (made s o b fine inv),
    link_made s o b fine inv a d name (dir_at-eq s a d e),
    counted_link,
  )
    where
      o : TmpFsFile
      o = dir (new_dir_accessor s.serial_count d.serial)

      fine : EntriesOk (s.serial_count + 1) o
      fine = λ n id k. absurd (cc)

      counted_link :
          (link (register s o).1 a d name s.serial_count).serial_count ≤ s.serial_count + 1
      counted_link = omega (arith, counted s o b fine inv)

  store_at-Keeps : (dev : Option Device) → Keeps s (store_at s a d name dev)
  unfolding Keeps store_at store_dev finish_dev EntriesOk link register
  store_at-Keeps none = (ok tt, s, refl, inv, omega arith)
  store_at-Keeps (some dev) = (
    ok tt,
    link (register s o).1 a d name s.serial_count,
    rw (inv.living, made s o b tt inv),
    link_made s o b tt inv a d name (dir_at-eq s a d e),
    counted_link,
  )
    where
      o : TmpFsFile
      o = device (record { inner = dev; link_count = 1 })

      counted_link :
          (link (register s o).1 a d name s.serial_count).serial_count ≤ s.serial_count + 1
      counted_link = omega (arith, counted s o b tt inv)

  -- the state with the new file
  abbrev with_file : TmpFs
  with_file = (register s (file (new_accessor s.serial_count))).1

  filled : List ℕ → TmpFs
  filled bytes = fill with_file (length s.objects) (new_accessor s.serial_count) bytes

  fill-Inv : (bytes : List ℕ) → Inv (filled bytes)
  unfolding filled fill EntriesOk IsDir
  fill-Inv bytes =
      set-Inv with_file (length s.objects) (file (new_accessor s.serial_count))
        (file (record (new_accessor s.serial_count) { bytes = bytes }))
        (kept_Inv s (file (new_accessor s.serial_count)) b tt inv)
        (new_object s (file (new_accessor s.serial_count)) b tt inv) tt (λ x. x)

  filled_dir : (bytes : List ℕ) → get_elem? (filled bytes).objects a ≡ some (dir d)
  unfolding filled fill EntriesOk
  filled_dir bytes =
      get_elem?-set_ne with_file.objects (length s.objects) a _ apart
      ∙ kept_object s (file (new_accessor s.serial_count)) b tt inv a (dir d) (dir_at-eq s a d e)
    where
      apart : length s.objects ≢ a
      apart q = omega (arith, get_elem?_bound s.objects a (dir_at-eq s a d e))

  finish_file-Keeps :
      (copy : Result IoError (List ℕ))
      → Keeps s (
          some
            (finish_file with_file a d name (length s.objects) (new_accessor s.serial_count) copy))
  unfolding Keeps finish_file EntriesOk link filled fill new_accessor
  finish_file-Keeps (err x) = (
    err (none, some x),
    with_file,
    refl,
    kept_Inv s (file (new_accessor s.serial_count)) b tt inv,
    omega (arith, counted s (file (new_accessor s.serial_count)) b tt inv),
  )
  finish_file-Keeps (ok bytes) = (
    ok tt,
    link (filled bytes) a d name s.serial_count,
    refl,
    link-Inv (filled bytes) a d name s.serial_count (fill-Inv bytes) (filled_dir bytes) inv.positive
        (omega (arith, counted s (file (new_accessor s.serial_count)) b tt inv)),
    omega (arith, counted s (file (new_accessor s.serial_count)) b tt inv),
  )

  make_file-Keeps :
      (source : Option Source) (copy : Result IoError (List ℕ))
      → copy_of source ≡ some copy
      → Keeps s (make_file s a d name source)
  unfolding make_file new_file file_of EntriesOk
  make_file-Keeps source copy c =
      rw
        (
          make_file,
          made s (file (new_accessor s.serial_count)) b tt inv,
          new_object s (file (new_accessor s.serial_count)) b tt inv,
          c,
        )
        (finish_file-Keeps copy)

  pub dir_new_file-Keeps :
      (source : Option Source) (copy : Result IoError (List ℕ))
      → copy_of source ≡ some copy
      → Keeps s (dir_new_file s a name source)
  unfolding dir_new_file
  dir_new_file-Keeps source copy c = elim (Option-cases (lookup name d.map)) [
    | inl l ↦
        subst (Keeps s)
          (sym (
            free_name l
            ∙ ap
                (λ x.
                  if x then make_file s a d name source else some (err (some not_present, none), s))
                inv.living))
          (make_file-Keeps source copy c)
    | inr (id, l) ↦
        subst (Keeps s) (sym (rw (dir_new_file, e, ◌>>=◌, l)))
          (refused (Unit {0}) (some already_exists, none))
  ]
    where
      free_name :
          lookup name d.map ≡ none
          → dir_new_file s a name source ≡ (
              if s.alive
              then make_file s a d name source
              else some (err (some not_present, none), s))
      free_name l = rw (dir_new_file, e, ◌>>=◌, l)

  pub dir_new_dir-Keeps : Keeps s (dir_new_dir s a name)
  unfolding dir_new_dir
  dir_new_dir-Keeps = elim (Option-cases (lookup name d.map)) [
    | inl l ↦
        subst (Keeps s)
          (sym (
            free_name l
            ∙ ap (λ x. some (if x then make_dir s a d name else (err not_present, s))) inv.living))
          make_dir-Keeps
    | inr (id, l) ↦ subst (Keeps s) (sym (rw (dir_new_dir, e, ◌>>=◌, l))) (refused ℕ already_exists)
  ]
    where
      free_name :
          lookup name d.map ≡ none
          → dir_new_dir s a name
            ≡ some (if s.alive then make_dir s a d name else (err not_present, s))
      free_name l = rw (dir_new_dir, e, ◌>>=◌, l)

  pub dir_store-Keeps : (dev : Option Device) → Keeps s (dir_store s a name dev)
  unfolding dir_store
  dir_store-Keeps dev = elim (Option-cases (lookup name d.map)) [
    | inl l ↦ subst (Keeps s) (sym (rw (dir_store, e, ◌>>=◌, l))) (store_at-Keeps dev)
    | inr (id, l) ↦
        subst (Keeps s) (sym (rw (dir_store, e, ◌>>=◌, l))) (refused (Unit {0}) already_exists)
  ]

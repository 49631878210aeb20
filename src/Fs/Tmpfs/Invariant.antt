-- ===== src/Fs/Tmpfs/Invariant.antt =====
-- kernel/src/fs/tmpfs.rs: what holds of the file system between any two operations.
use Prim.Native.String.{String}
use mathlib.Core.Path.{subst}
use hootux.Prelude.Maps.{lookup, insert, erase, string_key, nat_key, lookup-insert, lookup-erase}
use hootux.Fs.Tmpfs.{TmpFsFile, dir, file, device, TmpFs, new, register, new_dir_accessor}
use hootux.Prelude.{
  ℕ, zero, suc, ◌+◌, ◌-◌, ◌^◌, ◌<◌, ◌≤◌, ◌≡◌, refl, sym, ap, ◌∙◌, inl, inr, true, false, Bool-cases,
  Option-cases, none, some, eq_of_some, List, [], ◌∷◌, ◌++◌, ltb, ltb→lt, le_of_not-ltb, ◌==◌,
  ==→eq, ==→ne, length, length-append, length-set, get_elem?, set, get_elem?-set_self,
  get_elem?-set_ne, get_elem?_bound, get_elem?-append_left, get_elem?-append_right, add64, arith,
}

-- the entries of a directory go to serials that were given out, none of them the root's.
unfoldable pub EntriesOk : ℕ → TmpFsFile → Type 0
EntriesOk count (dir d) =
    (name : String) (id : ℕ) → lookup name d.map ≡ some id → (0 < id) × (id < count)
EntriesOk count (file f) = Unit
EntriesOk count (device d) = Unit

unfoldable pub IsDir : TmpFsFile → Type 0
IsDir (dir d) = Unit
IsDir (file f) = ⊥
IsDir (device d) = ⊥

pub record Inv (s : TmpFs) : Type 0 where
  pub living : s.alive ≡ true
  pub positive : 0 < s.serial_count
  pub keys : (k a : ℕ) → lookup k s.f_map ≡ some a → (k < s.serial_count) × (a < length s.objects)
  pub rooted : lookup 0 s.f_map ≡ some 0
  pub root_dir : (o : TmpFsFile) → get_elem? s.objects 0 ≡ some o → IsDir o
  pub entries :
      (a : ℕ) (o : TmpFsFile) → get_elem? s.objects a ≡ some o → EntriesOk s.serial_count o

EntriesOk-mono : (o : TmpFsFile) (m n : ℕ) → m ≤ n → EntriesOk m o → EntriesOk n o
unfolding EntriesOk
EntriesOk-mono (dir d) m n h e = λ name id k. ((e name id k).0, omega (arith, (e name id k).1))
EntriesOk-mono (file f) m n h e = tt
EntriesOk-mono (device d) m n h e = tt

new_key :
    (k a : ℕ) → lookup k new.f_map ≡ some a → (k < new.serial_count) × (a < length new.objects)
unfolding new lookup
new_key k a e = ground arith

new-IsDir : (o : TmpFsFile) → get_elem? new.objects 0 ≡ some o → IsDir o
unfolding new IsDir
new-IsDir o e = subst IsDir (eq_of_some e) tt

new_entry :
    (a : ℕ) (o : TmpFsFile) → get_elem? new.objects a ≡ some o → EntriesOk new.serial_count o
unfolding new EntriesOk new_dir_accessor lookup
new_entry zero o e = subst (EntriesOk 1) (eq_of_some e) (λ name id k. absurd (cc))
new_entry (suc a) o e = absurd (cc)

pub new-Inv : Inv new
unfolding new IsDir EntriesOk lookup new_dir_accessor
new-Inv = record {
  living = refl;
  positive = omega arith;
  keys = new_key;
  rooted = refl;
  root_dir = new-IsDir;
  entries = new_entry;
}

set_read :
    (xs : List TmpFsFile) (a b : ℕ) (o p : TmpFsFile)
    → a ≡ b
    → get_elem? (set xs a o) b ≡ some p
    → o ≡ p
set_read xs a b o p t l = eq_of_some (
    sym (
      get_elem?-set_self xs a o
        (omega (arith, get_elem?_bound (set xs a o) b l, length-set xs a o)))
    ∙ ap (get_elem? (set xs a o)) t
    ∙ l)

-- one object changes, and stays a directory if it was one
pub set-Inv :
    (s : TmpFs) (a : ℕ) (old o : TmpFsFile)
    → Inv s
    → get_elem? s.objects a ≡ some old
    → EntriesOk s.serial_count o
    → (IsDir old → IsDir o)
    → Inv (record s { objects = set s.objects a o })
set-Inv s a old o inv e ok is = record {
  living = inv.living;
  positive = inv.positive;
  keys = λ k b l. ((inv.keys k b l).0, omega (arith, (inv.keys k b l).1, length-set s.objects a o));
  rooted = inv.rooted;
  root_dir = λ p l. elim (Bool-cases (a == 0)) [
    | inl t ↦
        subst IsDir (set_read s.objects a 0 o p (==→eq a 0 t) l)
          (is (inv.root_dir old (ap (get_elem? s.objects) (sym (==→eq a 0 t)) ∙ e)))
    | inr t ↦ inv.root_dir p (sym (get_elem?-set_ne s.objects a 0 o (==→ne a 0 t)) ∙ l)
  ];
  entries = λ b p l. elim (Bool-cases (a == b)) [
    | inl t ↦ subst (EntriesOk s.serial_count) (set_read s.objects a b o p (==→eq a b t) l) ok
    | inr t ↦ inv.entries b p (sym (get_elem?-set_ne s.objects a b o (==→ne a b t)) ∙ l)
  ];
}

-- a serial other than the root's is taken out of the map
pub erase-Inv : (s : TmpFs) (id : ℕ) → 0 < id → Inv s → Inv (record s { f_map = erase id s.f_map })
erase-Inv s id h inv = record {
  living = inv.living;
  positive = inv.positive;
  keys = λ k a e. elim (Bool-cases (k == id)) [
    | inl t ↦ absurd (cc (sym (gone k t) ∙ e))
    | inr t ↦ inv.keys k a (sym (kept k t) ∙ e)
  ];
  rooted = kept 0 (ground arith) ∙ inv.rooted;
  root_dir = inv.root_dir;
  entries = inv.entries;
}
  where
    gone : (k : ℕ) → (k == id) ≡ true → lookup k (erase id s.f_map) ≡ none
    gone k t = lookup-erase k id s.f_map ∙ rw (t)

    kept : (k : ℕ) → (k == id) ≡ false → lookup k (erase id s.f_map) ≡ lookup k s.f_map
    kept k t = lookup-erase k id s.f_map ∙ rw (t)

-- a new serial is never in the map
pub fresh : (s : TmpFs) → Inv s → lookup s.serial_count s.f_map ≡ none
fresh s inv = elim (Option-cases (lookup s.serial_count s.f_map)) [
  | inl e ↦ e
  | inr (a, e) ↦ absurd (omega (arith, (inv.keys s.serial_count a e).0))
]

last_read :
    (xs : List TmpFsFile) (o : TmpFsFile) (a : ℕ) (p : TmpFsFile)
    → length xs ≤ a
    → get_elem? (xs ++ o ∷ []) a ≡ some p
    → o ≡ p
last_read xs o a p h l = eq_of_some (
    ap (get_elem? (o ∷ [])) {x = 0} {y = a - length xs} (omega (arith, bound))
    ∙ sym (get_elem?-append_right xs (o ∷ []) a h)
    ∙ l)
  where
    bound : a < length xs + 1
    bound = omega (arith, get_elem?_bound (xs ++ o ∷ []) a l, length-append xs (o ∷ []))

pub register-Inv :
    (s : TmpFs) (o : TmpFsFile)
    → s.serial_count + 1 < 2 ^ 64
    → EntriesOk (s.serial_count + 1) o
    → Inv s
    → Inv (register s o).1
unfolding register
register-Inv s o h ok inv = record {
  living = inv.living;
  positive = omega arith;
  keys = λ k a e. elim (Bool-cases (k == s.serial_count)) [
    | inl t ↦ (
      omega (arith, ==→eq k s.serial_count t),
      omega (arith, eq_of_some (sym (here k t) ∙ e), longer),
    )
    | inr t ↦ (
      omega (arith, (inv.keys k a (sym (there k t) ∙ e)).0),
      omega (arith, (inv.keys k a (sym (there k t) ∙ e)).1, longer),
    )
  ];
  rooted = there 0 (ground (arith, inv.positive)) ∙ inv.rooted;
  root_dir = λ p l. inv.root_dir p (sym (old_object 0 (inv.keys 0 0 inv.rooted).1) ∙ l);
  entries = λ a p l. elim (Bool-cases (ltb a (length s.objects))) [
    | inl t ↦
        subst (λ n. EntriesOk n p) (sym count)
          (EntriesOk-mono p s.serial_count (s.serial_count + 1) (omega arith)
            (inv.entries a p (sym (old_object a (ltb→lt a (length s.objects) t)) ∙ l)))
    | inr t ↦
        subst (λ n. EntriesOk n p) (sym count)
          (subst (EntriesOk (s.serial_count + 1))
            (last_read s.objects o a p (le_of_not-ltb a (length s.objects) t) l) ok)
  ];
}
  where
    count : add64 s.serial_count 1 ≡ s.serial_count + 1
    count = omega arith

    longer : length (s.objects ++ o ∷ []) ≡ length s.objects + 1
    longer = length-append s.objects (o ∷ [])

    here :
        (k : ℕ)
        → (k == s.serial_count) ≡ true
        → lookup k (insert s.serial_count (length s.objects) s.f_map) ≡ some (length s.objects)
    here k t = lookup-insert k s.serial_count (length s.objects) s.f_map ∙ rw (t)

    there :
        (k : ℕ)
        → (k == s.serial_count) ≡ false
        → lookup k (insert s.serial_count (length s.objects) s.f_map) ≡ lookup k s.f_map
    there k t = lookup-insert k s.serial_count (length s.objects) s.f_map ∙ rw (t)

    old_object :
        (a : ℕ) → a < length s.objects → get_elem? (s.objects ++ o ∷ []) a ≡ get_elem? s.objects a
    old_object a k = get_elem?-append_left s.objects (o ∷ []) a k

-- ===== src/Fs/Tmpfs/Directory/Safety.antt =====
-- kernel/src/fs/tmpfs.rs: no sequence of directory operations panics or loses the root.
use Prim.Native.String.{String}
use mathlib.Core.Path.{subst}
use hootux.Prelude.Maps.{string_key, nat_key}
use hootux.Fs.Tmpfs.Invariant.{IsDir, Inv, new-Inv}
use hootux.Fs.Tmpfs.{
  IoError, DirAccessor, Device, TmpFsFile, dir, file, device, TmpFs, new, fetch, dir_of, dir_at,
  root,
}
use hootux.Fs.Tmpfs.Directory.{
  Out, Source, copied, copy_of, dir_new_file, dir_new_dir, dir_store, dir_remove,
}
use hootux.Fs.Tmpfs.Directory.Keeps.{Keeps, dir_new_file-Keeps, dir_new_dir-Keeps, dir_store-Keeps}
use hootux.Prelude.{
  ℕ, ◌+◌, ◌-◌, ◌^◌, ◌<◌, ◌≤◌, ◌≡◌, refl, sym, ap, ◌∙◌, inl, inr, true, Option-cases, Option, none,
  some, List, [], ◌∷◌, if◌then◌else◌, length, get_elem?, leb, Result, ok, err, ◌>>=◌, arith,
}
use hootux.Fs.Tmpfs.Directory.Removal.{dir_remove-Keeps}

-- An operation on the directory at an address.
pub data Op : Type 0 where
  new_file : ℕ → String → Option Source → Op
  new_dir : ℕ → String → Op
  store : ℕ → String → Option Device → Op
  remove : ℕ → String → Op

-- the state that an operation leaves; `none` is a panic
pub after : {E A : Type 0} → Out E A → Option TmpFs
after out = out >>= λ r. some r.1

pub perform : TmpFs → Op → Option TmpFs
unfolding after
perform s (new_file a name source) = after (dir_new_file s a name source)
perform s (new_dir a name) = after (dir_new_dir s a name)
perform s (store a name dev) = after (dir_store s a name dev)
perform s (remove a name) = after (dir_remove s a name)

pub address : Op → ℕ
address (new_file a name source) = a
address (new_dir a name) = a
address (store a name dev) = a
address (remove a name) = a

-- One operation; there is no `Dir` for an address that is no directory, so nothing is called.
pub run_op : TmpFs → Op → Option TmpFs
unfolding perform address
run_op s op = elim (dir_at s (address op)) [ none ↦ some s | some d ↦ perform s op ]

pub run : TmpFs → List Op → Option TmpFs
unfolding run_op
run s [] = some s
run s (op ∷ ops) = run_op s op >>= λ t. run t ops

-- A file that can be copied: its length is one that a `Vec` can have, and its `read` gives back the buffer that
-- it was given, as the documentation of `read` has it.
pub record IsCopied (source : Source) : Type 0 where
  pub short : (len : ℕ) → source.len_chars ≡ ok len → len < 2 ^ 63
  pub given_back :
      (n : ℕ) (b : Option (List ℕ)) → source.read n ≡ ok b → (bytes : List ℕ) × (b ≡ some bytes)

unfoldable pub source_of : Op → Option Source
source_of (new_file a name source) = source
source_of (new_dir a name) = none
source_of (store a name dev) = none
source_of (remove a name) = none

-- Every file that one of the operations copies can be copied.
pub data Copied : List Op → Type 0 where
  no_call : Copied []
  call_on :
      {op : Op} {ops : List Op}
      → ((source : Source) → source_of op ≡ some source → IsCopied source)
      → Copied ops
      → Copied (op ∷ ops)

copied_lem :
    (r : Result IoError (Option (List ℕ)))
    → ((b : Option (List ℕ)) → r ≡ ok b → (bytes : List ℕ) × (b ≡ some bytes))
    → (copy : Result IoError (List ℕ)) × (copied r ≡ some copy)
unfolding copied
copied_lem (err e) h = (err e, refl)
copied_lem (ok none) h = absurd (cc (h none refl).1)
copied_lem (ok (some bytes)) h = (ok bytes, refl)

copy_of_lem :
    (o : Option Source)
    → ((source : Source) → o ≡ some source → IsCopied source)
    → (copy : Result IoError (List ℕ)) × (copy_of o ≡ some copy)
unfolding copy_of
copy_of_lem none h = (ok [], refl)
copy_of_lem (some source) h = read_from source.len_chars refl
  where
    file_copied : IsCopied source
    file_copied = h source refl

    from : Result IoError ℕ → Option (Result IoError (List ℕ))
    from r = elim r [
      | err e ↦ some (err e)
      | ok len ↦ if leb len (2 ^ 63 - 1) then copied (source.read len) else none
    ]

    read_from :
        (r : Result IoError ℕ)
        → source.len_chars ≡ r
        → (copy : Result IoError (List ℕ)) × (from source.len_chars ≡ some copy)
    read_from (err e) q = (err e, rw (q) refl)
    read_from (ok len) q =
        let small : leb len (2 ^ 63 - 1) ≡ true = fits len (file_copied.short len q) in
        let (copy, c) = copied_lem (source.read len) (file_copied.given_back len) in
        (copy, rw (q, small) c)
      where
        fits : (n : ℕ) → n < 2 ^ 63 → leb n (2 ^ 63 - 1) ≡ true
        fits n k = ground arith

Stepped : TmpFs → Option TmpFs → Type 0
Stepped s o = (t : TmpFs) × (o ≡ some t) × Inv t × (t.serial_count ≤ s.serial_count + 1)

after-Stepped : {E A : Type 0} (s : TmpFs) (out : Out E A) → Keeps s out → Stepped s (after out)
unfolding Keeps Stepped after
after-Stepped s out (r, t, e, inv, n) = (t, ap (λ o. o >>= λ x. some x.1) e, inv, n)

perform-Stepped :
    (s : TmpFs) (op : Op) (d : DirAccessor)
    → dir_at s (address op) ≡ some d
    → ((source : Source) → source_of op ≡ some source → IsCopied source)
    → s.serial_count + 1 < 2 ^ 64
    → Inv s
    → Stepped s (perform s op)
unfolding perform address source_of
perform-Stepped s (new_file a name source) d e k b inv =
    let (copy, c) = copy_of_lem source k in
    after-Stepped s (dir_new_file s a name source)
      (dir_new_file-Keeps s a d name e inv b source copy c)
perform-Stepped s (new_dir a name) d e k b inv =
    after-Stepped s (dir_new_dir s a name) (dir_new_dir-Keeps s a d name e inv b)
perform-Stepped s (store a name dev) d e k b inv =
    after-Stepped s (dir_store s a name dev) (dir_store-Keeps s a d name e inv b dev)
perform-Stepped s (remove a name) d e k b inv =
    after-Stepped s (dir_remove s a name) (dir_remove-Keeps s a d name e inv)

run_op-Stepped :
    (s : TmpFs) (op : Op)
    → ((source : Source) → source_of op ≡ some source → IsCopied source)
    → s.serial_count + 1 < 2 ^ 64
    → Inv s
    → Stepped s (run_op s op)
unfolding run_op Stepped
run_op-Stepped s op k b inv = elim (Option-cases (dir_at s (address op))) [
  | inl e ↦ (s, rw (run_op, e), inv, omega arith)
  | inr (d, e) ↦ subst (Stepped s) (sym (rw (run_op, e))) (perform-Stepped s op d e k b inv)
]

run-Inv :
    (s : TmpFs) (ops : List Op)
    → Copied ops
    → s.serial_count + length ops < 2 ^ 64
    → Inv s
    → (t : TmpFs) × (run s ops ≡ some t) × Inv t
unfolding run Stepped
run-Inv s [] k b inv = (s, refl, inv)
run-Inv s (op ∷ ops) (call_on c k) b inv =
    let (t, e, kept, n) = run_op-Stepped s op c (omega arith) inv in
    let (u, f, last) = run-Inv t ops k (omega arith) kept in
    (u, ap (λ o. o >>= λ x. run x ops) e ∙ f, last)

first_dir :
    (xs : List TmpFsFile)
    → 0 < length xs
    → ((o : TmpFsFile) → get_elem? xs 0 ≡ some o → IsDir o)
    → (d : DirAccessor) × (dir_of (get_elem? xs 0) ≡ some d)
unfolding IsDir dir_of
first_dir [] h is = absurd (omega arith)
first_dir (dir d ∷ xs) h is = (d, refl)
first_dir (file f ∷ xs) h is = absurd (is (file f) refl)
first_dir (device f ∷ xs) h is = absurd (is (device f) refl)

Inv-root : (s : TmpFs) → Inv s → root s ≡ some 0
unfolding root fetch dir_at
Inv-root s inv =
    let (d, e) = first_dir s.objects (inv.keys 0 0 inv.rooted).1 inv.root_dir in
    ap (λ o. o >>= λ a. dir_at s a >>= λ x. some a) inv.rooted ∙ ap (found 0) e
  where
    found : ℕ → Option DirAccessor → Option ℕ
    found a o = o >>= λ x. some a

-- However many files, directories and devices are made, stored and removed in whatever order, by fewer
-- than 2 ^ 64 - 1 calls on any of the directories, where every file that is copied is of a length that a `Vec`
-- can have and gives the buffer back that it reads to, no call panics, and the root is still found: serial 0
-- never leaves the map and is never given out again.
pub root_safe :
    (ops : List Op)
    → length ops + 1 < 2 ^ 64
    → Copied ops
    → (s : TmpFs) × (run new ops ≡ some s) × (root s ≡ some 0)
unfolding new
root_safe ops b k =
    let (s, e, inv) = run-Inv new ops k (omega arith) new-Inv in (s, e, Inv-root s inv)

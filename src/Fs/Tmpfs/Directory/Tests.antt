-- ===== src/Fs/Tmpfs/Directory/Tests.antt =====
-- Directories and their operations at concrete trees.
use mathlib.Core.Path.{subst}
use hootux.Prelude.Maps.{lookup, erase, string_key}
use hootux.Fs.Tmpfs.{
  IoError, already_exists, FileAccessor, DirAccessor, TmpFsFile, dir, file, TmpFs, new, root,
  dir_at, link_count, object_of, fetch, dir_of, unlink, remove_file,
}
use hootux.Fs.Tmpfs.Directory.{
  Source, dir_new_dir, dir_new_file, remove_id, remove_object, occupied, dir_remove,
}
use hootux.Fs.Tmpfs.Directory.Safety.{
  Op, new_dir, new_file, remove, run, IsCopied, source_of, Copied, no_call, call_on, root_safe,
}
use hootux.Fs.Tmpfs.Directory.Names.{dir_remove-dir_new_dir}
use hootux.Prelude.{
  ℕ, ap, sym, Option, Result, eq_of_some, true, ◌<◌, ◌≡◌, ◌⊎◌, refl, none, some, List, [], ◌∷◌, ok,
  err, arith,
}

abbrev length_of : ℕ → Result IoError ℕ → ℕ
length_of n (err e) = n
length_of n (ok len) = len

abbrev bytes_of : Option (List ℕ) → Result IoError (Option (List ℕ)) → Option (List ℕ)
bytes_of b (err e) = b
bytes_of b (ok c) = c

-- a file of three bytes that nothing has locked
abbrev three : FileAccessor
three = record { bytes = 1 ∷ 2 ∷ 3 ∷ []; lock = none; serial = 1 }

-- a file of two bytes, to be copied
abbrev two_bytes : Source
two_bytes = record { len_chars = ok 2; read = λ n. ok (some (4 ∷ 5 ∷ [])) }

two_bytes-IsCopied : IsCopied two_bytes
two_bytes-IsCopied = record {
  short = λ len e. omega (arith, ap (length_of 0) e);
  given_back = λ n b e. (4 ∷ 5 ∷ [], ap (bytes_of none) (sym e));
}

-- two names, the second in the first, and the first removed while it is not empty
abbrev calls : List Op
calls = new_dir 0 "dev" ∷ new_file 1 "null" (some two_bytes) ∷ remove 0 "dev" ∷ remove 1 "null" ∷ []

calls-Copied : Copied calls
unfolding source_of
calls-Copied =
    call_on (λ s e. absurd (cc e))
      (call_on (λ s e. subst IsCopied (eq_of_some e) two_bytes-IsCopied)
        (call_on (λ s e. absurd (cc e)) (call_on (λ s e. absurd (cc e)) no_call)))

root_safe_example : (s : TmpFs) × (run new calls ≡ some s) × (root s ≡ some 0)
root_safe_example = root_safe calls (omega arith) calls-Copied

-- the root with one file, and what is left when it is removed
abbrev one_file : TmpFs
one_file = record {
  objects =
      dir (record { map = ("null", 1) ∷ []; parent = 0; serial = 0 })
      ∷ file (record three { bytes = [] })
      ∷ [];
  f_map = (0, 0) ∷ (1, 1) ∷ [];
  serial_count = 2;
  alive = true;
}

abbrev no_file : TmpFs
no_file = record one_file { f_map = (0, 0) ∷ [] }

abbrev root_of : DirAccessor
root_of = record { map = ("null", 1) ∷ []; parent = 0; serial = 0 }

one_file_removed : dir_remove one_file 0 "null" ≡ some (ok tt, no_file)
unfolding dir_remove remove_id remove_object occupied remove_file unlink object_of link_count fetch
    dir_at dir_of lookup erase
one_file_removed = refl

dir_remove-dir_new_dir_example :
    ((fetch no_file 1 ≡ none)
      ⊎ ((f : ℕ) × (o : TmpFsFile) × (object_of one_file 1 ≡ some (f, o)) × (1 < link_count o)))
    × (dir_new_dir no_file 0 "null" ≡ some (err already_exists, no_file))
    × (dir_new_file no_file 0 "null" none ≡ some (err (some already_exists, none), no_file))
unfolding dir_at lookup
dir_remove-dir_new_dir_example =
    dir_remove-dir_new_dir one_file no_file 0 root_of "null" 1 none refl refl one_file_removed

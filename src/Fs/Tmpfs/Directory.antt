-- ===== src/Fs/Tmpfs/Directory.antt =====
-- kernel/src/fs/tmpfs.rs: `Dir`, the operations on a directory, by the address of its accessor.
-- `none` is a panic, or an address that is no directory, which no `Dir` has. The copy of another file
-- that `new_file` may make is what that file's `len_chars` and `read` give, the argument `source`.
pub mod Keeps
pub mod Removal
pub mod Safety
pub mod Names
mod Tests
use Prim.Native.String.{String}
use text.Mathlib.Text.{◌==◌ as str_eq}
use hootux.Prelude.Maps.{lookup, insert, string_key}
use hootux.Fs.Tmpfs.{
  IoError, not_present, device_error, already_exists, not_empty, is_device, parent_dir,
  FileAccessor, DirAccessor, Device, TmpFsFile, dir, file, device, TmpFs, new_file, new_dir,
  store_dev, remove_file, fetch, dir_at,
}
use hootux.Prelude.{
  ℕ, Bool, true, false, ◌&&◌, ◌-◌, ◌^◌, leb, Option, none, some, List, [], ◌∷◌, ltb, ◌==◌,
  if◌then◌else◌, length, get_elem?, set, Result, ok, err, ◌>>=◌,
}

-- The result of an operation that may panic.
abbrev pub Out : Type 0 → Type 0 → Type 0
Out E A = Option (Result E A × TmpFs)

-- the entry of a name, to the serial `id`
pub link : TmpFs → ℕ → DirAccessor → String → ℕ → TmpFs
link s a d name id = record s {
  objects = set s.objects a (dir (record d { map = insert name id d.map }));
}

-- What another file gives to be copied: the length it says, and the buffer that its `read` gives back
-- for a buffer of that length, as a `Vec` again; there is none where that fails, as for a buffer of another
-- allocator.
pub record Source : Type 0 where
  pub len_chars : Result IoError ℕ
  pub read : ℕ → Result IoError (Option (List ℕ))

-- what a read gives to the new file
pub copied : Result IoError (Option (List ℕ)) → Option (Result IoError (List ℕ))
copied (err e) = some (err e)
copied (ok none) = none
copied (ok (some bytes)) = some (ok bytes)

-- the bytes of a new file; a buffer of more than `isize::MAX` bytes is a panic
pub copy_of : Option Source → Option (Result IoError (List ℕ))
unfolding copied
copy_of none = some (ok [])
copy_of (some source) = elim source.len_chars [
  | err e ↦ some (err e)
  | ok len ↦ if leb len (2 ^ 63 - 1) then copied (source.read len) else none
]

-- the new file gets its bytes
pub fill : TmpFs → ℕ → FileAccessor → List ℕ → TmpFs
fill s f accessor bytes = record s {
  objects = set s.objects f (file (record accessor { bytes = bytes }));
}

pub file_of : Option TmpFsFile → Option FileAccessor
file_of (some (file f)) = some f
file_of (some (dir d)) = none
file_of (some (device d)) = none
file_of none = none

-- `new_file` once the accessor is made, with its copy
pub finish_file :
    TmpFs
    → ℕ
    → DirAccessor
    → String
    → ℕ
    → FileAccessor
    → Result IoError (List ℕ)
    → Result (Option IoError × Option IoError) (Unit {0}) × TmpFs
unfolding fill
finish_file s a d name f accessor (err e) = (err (none, some e), s)
finish_file s a d name f accessor (ok bytes) =
    (ok tt, link (fill s f accessor bytes) a d name accessor.serial)

-- `Directory::new_file` of a name that is free
pub make_file :
    TmpFs
    → ℕ
    → DirAccessor
    → String
    → Option Source
    → Out (Option IoError × Option IoError) (Unit {0})
unfolding finish_file
make_file s a d name source = do
  f ← (new_file s).0
  accessor ← file_of (get_elem? (new_file s).1.objects f)
  copy ← copy_of source
  some (finish_file (new_file s).1 a d name f accessor copy)

-- `Directory::new_file`
pub dir_new_file :
    TmpFs → ℕ → String → Option Source → Out (Option IoError × Option IoError) (Unit {0})
unfolding make_file
dir_new_file s a name source = do
  d ← dir_at s a
  elim (lookup name d.map) [
    | some _ ↦ some (err (some already_exists, none), s)
    | none ↦
        (if s.alive then make_file s a d name source else some (err (some not_present, none), s))
  ]

-- `new_dir` once the accessor is made
pub finish_dir : TmpFs → ℕ → DirAccessor → String → ℕ → Option ℕ → Result IoError ℕ × TmpFs
finish_dir s a d name id none = (err device_error, s)
finish_dir s a d name id (some made) = (ok made, link s a d name id)

-- `Directory::new_dir` of a name that is free: the address of the directory
pub make_dir : TmpFs → ℕ → DirAccessor → String → Result IoError ℕ × TmpFs
unfolding finish_dir
make_dir s a d name = finish_dir (new_dir s d).1 a d name s.serial_count (new_dir s d).0

-- `Directory::new_dir`
pub dir_new_dir : TmpFs → ℕ → String → Out IoError ℕ
unfolding make_dir
dir_new_dir s a name = do
  d ← dir_at s a
  elim (lookup name d.map) [
    | some _ ↦ some (err already_exists, s)
    | none ↦ some (if s.alive then make_dir s a d name else (err not_present, s))
  ]

-- `Directory::store` of a name that is free; a file that is no device is `none`, and is dropped.
pub store_at : TmpFs → ℕ → DirAccessor → String → Option Device → Out IoError (Unit {0})
store_at s a d name none = some (ok tt, s)
store_at s a d name (some dev) =
    if s.alive
    then (do stored ← store_dev s dev; some (ok tt, link stored.1 a d name stored.0))
    else none

-- `Directory::store`
pub dir_store : TmpFs → ℕ → String → Option Device → Out IoError (Unit {0})
unfolding store_at
dir_store s a name dev = do
  d ← dir_at s a
  elim (lookup name d.map) [
    | some _ ↦ some (err already_exists, s)
    | none ↦ store_at s a d name dev
  ]

-- `Directory::get_file`: the address of the file's accessor
pub dir_get_file : TmpFs → ℕ → String → Option (Result IoError ℕ)
dir_get_file s a name = do
  d ← dir_at s a
  if str_eq name parent_dir && d.parent == d.serial
      then some (err is_device)
      else elim (lookup name d.map) [
        | none ↦ some (err not_present)
        | some id ↦
            (if s.alive
              then elim (fetch s id) [ none ↦ some (err not_present) | some f ↦ some (ok f) ]
              else none)
      ]

-- the test of `remove`: a directory that holds anything, or the error of the `len` of a device
pub occupied : TmpFsFile → Result IoError Bool
occupied (dir d) = ok (ltb 0 (length d.map))
occupied (file f) = ok false
occupied (device o) = o.inner.occupied

-- `Directory::remove` of a file that is there
pub remove_object : TmpFs → ℕ → Result IoError Bool → Result IoError (Unit {0}) × TmpFs
remove_object s id (err e) = (err e, s)
remove_object s id (ok true) = (err not_empty, s)
remove_object s id (ok false) = remove_file s id

-- `Directory::remove`
pub remove_id : TmpFs → ℕ → Result IoError (Unit {0}) × TmpFs
unfolding remove_object occupied
remove_id s id =
    if s.alive
    then elim (fetch s id >>= λ f. get_elem? s.objects f) [
      | none ↦ (err not_present, s)
      | some object ↦ remove_object s id (occupied object)
    ]
    else (err not_present, s)

pub dir_remove : TmpFs → ℕ → String → Out IoError (Unit {0})
unfolding remove_id
dir_remove s a name = do
  d ← dir_at s a
  elim (lookup name d.map) [ none ↦ some (err not_present, s) | some id ↦ some (remove_id s id) ]

-- `Directory::entries`, and `len` of a directory
pub dir_entries : TmpFs → ℕ → Option ℕ
dir_entries s a = do d ← dir_at s a; some (length d.map)

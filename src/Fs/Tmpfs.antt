-- ===== src/Fs/Tmpfs.antt =====
-- kernel/src/fs/tmpfs.rs: the file system in memory, with the errors of kernel/src/fs/mod.rs.
-- An `Arc` of an accessor is an address, the position of the accessor in a list that only grows. The
-- fallible operations return the result and the state; `none` is a panic.
pub mod Contents
pub mod Invariant
pub mod Directory
use Prim.Native.String.{String}
use hootux.Prelude.Maps.{lookup, insert, erase, string_key, nat_key}
use text.Mathlib.Text.{◌==◌ as str_eq}
use hootux.Prelude.{
  ℕ, zero, suc, ◌+◌, ◌-◌, Bool, true, false, ◌&&◌, Option, none, some, List, [], ◌∷◌, ◌++◌, ltb,
  leb, ◌==◌, if◌then◌else◌, length, get_elem?, set, take, drop, min, Result, ok, err, ◌>>=◌, add64,
}

-- `IoError`
pub data IoError : Type 0 where
  not_present : IoError
  media_error : IoError
  device_error : IoError
  not_supported : IoError
  exclusive : IoError
  end_of_file : IoError
  already_exists : IoError
  not_empty : IoError
  is_device : IoError
  read_only : IoError
  busy : IoError
  not_ready : IoError
  invalid_data : IoError

-- `fs::PARENT_DIR`
abbrev pub parent_dir : String
parent_dir = ".."

-- `FileAccessor`; `lock` is the address of the locked file object, while it is alive.
pub record FileAccessor : Type 0 where
  pub bytes : List ℕ
  pub lock : Option ℕ
  pub serial : ℕ

-- `DirAccessor`
pub record DirAccessor : Type 0 where
  pub map : List (String × ℕ)
  pub parent : ℕ
  pub serial : ℕ

-- A device file, by a number, with what it says of itself as a directory: whether it is one that holds
-- anything, or the error of its `len`.
pub record Device : Type 0 where
  pub number : ℕ
  pub occupied : Result IoError Bool

-- `DeviceFileObj`
pub record DeviceFileObj : Type 0 where
  pub inner : Device
  pub link_count : ℕ

-- `dyn TmpFsFile`
pub data TmpFsFile : Type 0 where
  dir : DirAccessor → TmpFsFile
  file : FileAccessor → TmpFsFile
  device : DeviceFileObj → TmpFsFile

-- `TmpFsRootInner`, with every accessor that was made; `alive` says that the root has not been dropped.
pub record TmpFs : Type 0 where
  pub objects : List TmpFsFile
  pub f_map : List (ℕ × ℕ)
  pub serial_count : ℕ
  pub alive : Bool

-- `FileAccessor::new`
pub new_accessor : ℕ → FileAccessor
new_accessor serial = record { bytes = []; lock = none; serial = serial }

-- `DirAccessor::new`
pub new_dir_accessor : ℕ → ℕ → DirAccessor
new_dir_accessor serial parent = record { map = []; parent = parent; serial = serial }

-- `TmpFsRoot::new`
pub new : TmpFs
unfolding new_dir_accessor
new = record {
  objects = dir (new_dir_accessor 0 0) ∷ [];
  f_map = (0, 0) ∷ [];
  serial_count = 1;
  alive = true;
}

-- What `new_file`, `new_dir` and `store_dev` share: the accessor gets the next serial and is put in the
-- map under it; the address of the accessor, or `none` where the serial was in the map already.
pub register : TmpFs → TmpFsFile → Option ℕ × TmpFs
register s object = (
  elim (lookup s.serial_count s.f_map) [ none ↦ some (length s.objects) | some _ ↦ none ],
  record s {
    objects = s.objects ++ object ∷ [];
    f_map = insert s.serial_count (length s.objects) s.f_map;
    serial_count = add64 s.serial_count 1;
  },
)

-- `TmpFsRootInner::new_file`
pub new_file : TmpFs → Option ℕ × TmpFs
unfolding new_accessor
new_file s = register s (file (new_accessor s.serial_count))

-- `TmpFsRootInner::new_dir`
pub new_dir : TmpFs → DirAccessor → Option ℕ × TmpFs
unfolding new_dir_accessor
new_dir s parent = register s (dir (new_dir_accessor s.serial_count parent.serial))

-- `expect_err` of `store_dev`: the serial must not have been in the map.
pub finish_dev : ℕ → TmpFs → Option ℕ → Option (ℕ × TmpFs)
finish_dev id s none = none
finish_dev id s (some a) = some (id, s)

-- `TmpFsRootInner::store_dev`: the serial of the device.
pub store_dev : TmpFs → Device → Option (ℕ × TmpFs)
unfolding finish_dev
store_dev s dev =
    let stored = register s (device (record { inner = dev; link_count = 1 })) in
    finish_dev s.serial_count stored.1 stored.0

-- `link_count` of a file
pub link_count : TmpFsFile → ℕ
link_count (dir d) = 1
link_count (file f) = 1
link_count (device d) = d.link_count

-- `set_link` of a file
pub set_link : TmpFsFile → ℕ → TmpFsFile
set_link (dir d) count = dir d
set_link (file f) count = file f
set_link (device d) count = device (record d { link_count = count })

-- `TmpFsRootInner::remove_file` of a file that is in the map
pub unlink : TmpFs → ℕ → ℕ → TmpFsFile → TmpFs
unlink s serial a object =
    if ltb 1 (link_count object)
    then record s { objects = set s.objects a (set_link object (link_count object - 1)) }
    else record s { f_map = erase serial s.f_map }

-- the accessor of a serial, with its address
pub object_of : TmpFs → ℕ → Option (ℕ × TmpFsFile)
object_of s serial = do a ← lookup serial s.f_map; o ← get_elem? s.objects a; some (a, o)

-- `TmpFsRootInner::remove_file`
pub remove_file : TmpFs → ℕ → Result IoError (Unit {0}) × TmpFs
unfolding unlink object_of
remove_file s serial = elim (object_of s serial) [
  | none ↦ (err not_present, s)
  | some (a, object) ↦ (ok tt, unlink s serial a object)
]

-- `TmpFsRootInner::fetch` and `fetch_raw`: the address of the accessor
pub fetch : TmpFs → ℕ → Option ℕ
fetch s id = lookup id s.f_map

-- the accessor of a `Dir`, by its address
pub dir_of : Option TmpFsFile → Option DirAccessor
dir_of (some (dir d)) = some d
dir_of (some (file f)) = none
dir_of (some (device d)) = none
dir_of none = none

pub dir_at : TmpFs → ℕ → Option DirAccessor
unfolding dir_of
dir_at s a = dir_of (get_elem? s.objects a)

-- `FileSystem::root`
pub root : TmpFs → Option ℕ
unfolding fetch dir_at
root s = do a ← fetch s 0; d ← dir_at s a; some a

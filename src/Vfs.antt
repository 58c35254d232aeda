-- ===== src/Vfs.antt =====
-- The class `VFS` of computekernel_edu/vfs.py, over any implementation of the interface of file
-- systems. File systems are shared objects, so a mount holds a reference into a store of them.
pub mod Mounts
pub mod Issued
pub mod Opening
pub mod Handles
pub mod Walk
pub mod Growth
pub mod Contents
pub mod Sequential
use compute_kernel_python.Prelude.{
  ℕ, zero, suc, ◌+◌, ◌<◌, String, Bool, true, false, not, ◌&&◌, ◌||◌, Option, none, some, List, [],
  ◌∷◌, ◌++◌, ℤ, pos, negsuc, length, ltb, if◌then◌else◌,
}
use compute_kernel_python.Prelude.Eq.{◌==◌, nat_eq, string_eq}
use compute_kernel_python.Prelude.Dict.{Dict, get, put, pop, adjust, has_key}
use compute_kernel_python.Memory.Space.{has_char}
use compute_kernel_python.Paths.{
  ◌<>◌, is_empty, text_length, drop_text, starts_with, rstrip_slash, parts, parent_path, base_name,
}
use compute_kernel_python.Filesystem.{
  Inode, file, dir, is_file, is_dir, new_inode, Created, created, value_error, file_exists,
  Filesystem,
}

pub record MountPoint : Type 0 where
  pub path : String
  pub fs : ℕ
  pub source : String

pub record OpenFile : Type 0 where
  pub fd : ℕ
  pub path : String
  pub ino : ℕ
  pub flags : String
  pub position : ℕ
  pub fs_name : String

pub record Vfs (F : Type 0) : Type 0 where
  pub objects : ℕ → F
  pub mounts : List MountPoint
  pub open_files : Dict ℕ OpenFile
  pub next_fd : ℕ

-- -2 is ENOENT, and -9 is EBADF.
abbrev pub no_entry : ℤ
no_entry = negsuc 1

abbrev pub bad_descriptor : ℤ
bad_descriptor = negsuc 8

-- `list.sort` by the length of the path, the longest first, which keeps the order of equals.
abbrev pub insert_mount : MountPoint → List MountPoint → List MountPoint
insert_mount m [] = m ∷ []
insert_mount m (n ∷ ns) =
    if ltb (text_length n.path) (text_length m.path) then m ∷ n ∷ ns else n ∷ insert_mount m ns

abbrev pub sort_onto : List MountPoint → List MountPoint → List MountPoint
sort_onto sorted [] = sorted
sort_onto sorted (m ∷ ms) = sort_onto (insert_mount m sorted) ms

-- `path == mp.mountpoint or path.startswith(mp.mountpoint.rstrip("/") + "/")`
abbrev pub covers : String → MountPoint → Bool
covers path m = path == m.path || starts_with path (rstrip_slash m.path <> "/")

abbrev pub is_none {ℓ} : {A : Type ℓ} → Option A → Bool
is_none none = true
is_none (some a) = false

-- The loop over the mounts, with the best one so far.
unfoldable pub find_mount : List MountPoint → String → Option MountPoint → Option MountPoint
find_mount [] path best = best
find_mount (m ∷ ms) path best =
    let rest = find_mount ms path (if m.path == "/" && is_none best then some m else best) in
    if covers path m then some m else rest

-- What `_resolve_path` returns: no file system, a file system without the file, or an inode in one.
pub data Resolved : Type 0 where
  nowhere : Resolved
  absent : (fs : ℕ) → Resolved
  found : (fs ino : ℕ) → Resolved

abbrev pub fs_of : Resolved → Option ℕ
fs_of nowhere = none
fs_of (absent r) = some r
fs_of (found r ino) = some r

abbrev pub update {ℓ} : {F : Type ℓ} → ℕ → F → (ℕ → F) → ℕ → F
update r f objects q = if q == r then f else objects q

abbrev pub landed : ℕ → Option ℕ → Resolved
landed r none = absent r
landed r (some ino) = found r ino

-- The inode object that `create` returns stands at the number that it returns.
abbrev pub or_inode : Inode → Option Inode → Inode
or_inode old none = old
or_inode old (some i) = i

abbrev pub wants_write : String → Bool
wants_write flags = has_char b'w' flags || has_char b'a' flags

abbrev pub advance : ℕ → OpenFile → OpenFile
advance n o = record o { position = o.position + n }

-- `if n > 0: of.position += n`
abbrev pub moved : ℕ → ℤ → Dict ℕ OpenFile → Dict ℕ OpenFile
moved fd (pos n) d = if ltb 0 n then adjust fd (advance n) d else d
moved fd (negsuc n) d = d

abbrev pub succeeded : Created → Bool
succeeded (created j) = true
succeeded value_error = false
succeeded file_exists = false

abbrev pub new_open_file : ℕ → String → String → Inode → String → OpenFile
new_open_file fd path flags inode fs_name = record {
  fd = fd;
  path = path;
  ino = inode.ino;
  flags = flags;
  position = if has_char b'a' flags then inode.size else 0;
  fs_name = fs_name;
}

module _ {F : Type 0} (fs : Filesystem F) where
  unfoldable pub new_vfs : (ℕ → F) → Vfs F
  new_vfs objects = record { objects = objects; mounts = []; open_files = []; next_fd = 3 }

  unfoldable pub mount : String → ℕ → String → Vfs F → Vfs F
  mount mountpoint r source v = record v {
    mounts = sort_onto [] (v.mounts ++ record { path = mountpoint; fs = r; source = source } ∷ []);
  }

  -- The loop over the names.
  unfoldable pub walk : List String → ℕ → F → Option ℕ
  walk [] ino f = some ino
  walk (name ∷ names) ino f = elim (fs.lookup_name ino name f) [
    | none ↦ none
    | some child ↦ walk names child.ino f
  ]

  pub resolve_in : MountPoint → String → Vfs F → Resolved
  resolve_in m path v =
      let rel = drop_text (text_length m.path) path in
      let f = v.objects m.fs in
      if is_empty rel || rel == "/"
      then found m.fs (fs.root_ino f)
      else landed m.fs (walk (parts rel) (fs.root_ino f) f)

  unfoldable pub resolve : String → Vfs F → Resolved
  unfolding resolve_in
  resolve path v = elim (find_mount v.mounts path none) [
    | none ↦ nowhere
    | some m ↦ resolve_in m path v
  ]

  -- The part of `open` that makes a file in a directory; `none` is a `ValueError`, which `open`
  -- lets pass.
  make_in : ℕ → ℕ → Inode → String → Vfs F → Option (Inode × Vfs F)
  make_in r ino inode path v =
      let (result, f) = fs.create ino (base_name path) file (v.objects r) in
      elim result [
        | created j ↦
            some (or_inode inode (fs.lookup j f), record v { objects = update r f v.objects })
        | file_exists ↦ some (or_inode inode (fs.lookup_name ino (base_name path) f), v)
        | value_error ↦ none
      ]

  abbrev register : ℕ → String → String → Inode × Vfs F → ℤ × Vfs F
  register r path flags (inode, v) = (
    pos v.next_fd,
    record v {
      next_fd = v.next_fd + 1;
      open_files =
          put v.next_fd (new_open_file v.next_fd path flags inode (fs.fstype (v.objects r)))
            v.open_files;
    },
  )

  register_made : ℕ → String → String → Option (Inode × Vfs F) → Option (ℤ × Vfs F)
  register_made r path flags none = none
  register_made r path flags (some made) = some (register r path flags made)

  open_at : ℕ → ℕ → String → String → Option Inode → Vfs F → Option (ℤ × Vfs F)
  unfolding make_in register_made
  open_at r ino path flags none v = some (no_entry, v)
  open_at r ino path flags (some inode) v =
      if wants_write flags && is_dir inode.itype
      then register_made r path flags (make_in r ino inode path v)
      else some (register r path flags (inode, v))

  -- `open(path, flags)`; `none` is an exception.
  unfoldable pub open_file : String → String → Vfs F → Option (ℤ × Vfs F)
  unfolding open_at
  open_file path flags v = elim (resolve path v) [
    | nowhere ↦ some (no_entry, v)
    | absent r ↦ some (no_entry, v)
    | found r ino ↦ open_at r ino path flags (fs.lookup ino (v.objects r)) v
  ]

  read_from : ℕ → OpenFile → ℕ → Option ℕ → Vfs F → List ℕ × Vfs F
  read_from fd o size none v = ([], v)
  read_from fd o size (some r) v =
      let bytes = fs.read o.ino o.position size (v.objects r) in
      (bytes, record v { open_files = adjust fd (advance (length bytes)) v.open_files })

  unfoldable pub read : ℕ → ℕ → Vfs F → List ℕ × Vfs F
  unfolding read_from
  read fd size v = elim (get fd v.open_files) [
    | none ↦ ([], v)
    | some o ↦ read_from fd o size (fs_of (resolve o.path v)) v
  ]

  write_to : ℕ → OpenFile → List ℕ → Option ℕ → Vfs F → ℤ × Vfs F
  write_to fd o bytes none v = (no_entry, v)
  write_to fd o bytes (some r) v =
      let (n, f) = fs.write o.ino o.position bytes (v.objects r) in
      (n, record v { objects = update r f v.objects; open_files = moved fd n v.open_files })

  unfoldable pub write : ℕ → List ℕ → Vfs F → ℤ × Vfs F
  unfolding write_to
  write fd bytes v = elim (get fd v.open_files) [
    | none ↦ (bad_descriptor, v)
    | some o ↦ write_to fd o bytes (fs_of (resolve o.path v)) v
  ]

  unfoldable pub close : ℕ → Vfs F → Bool × Vfs F
  close fd v =
      if has_key fd v.open_files
      then (true, record v { open_files = pop fd v.open_files })
      else (false, v)

  unfoldable pub readdir : String → Vfs F → List (String × ℕ)
  readdir path v = elim (resolve path v) [ found r ino ↦ fs.readdir ino (v.objects r) | _ ↦ [] ]

  unfoldable pub stat : String → Vfs F → Option Inode
  stat path v = elim (resolve path v) [ found r ino ↦ fs.lookup ino (v.objects r) | _ ↦ none ]

  unfoldable pub mkdir : String → Vfs F → Bool × Vfs F
  mkdir path v = elim (resolve (parent_path path) v) [
    | found r ino ↦
        let (result, f) = fs.create ino (base_name path) dir (v.objects r) in
        (succeeded result, record v { objects = update r f v.objects })
    | _ ↦ (false, v)
  ]

  -- `if content: fs.write(...); inode.size = len(content)`
  abbrev pub fill : ℕ → List ℕ → F → F
  fill j [] f = f
  fill j (b ∷ bytes) f = fs.set_size j (length (b ∷ bytes)) (fs.write j 0 (b ∷ bytes) f).1

  abbrev filled : Created → List ℕ → F → F
  filled (created j) content f = fill j content f
  filled value_error content f = f
  filled file_exists content f = f

  unfoldable pub create_file : String → List ℕ → Vfs F → Bool × Vfs F
  create_file path content v = elim (resolve (parent_path path) v) [
    | found r ino ↦
        let (result, f) = fs.create ino (base_name path) file (v.objects r) in
        (succeeded result, record v { objects = update r (filled result content f) v.objects })
    | _ ↦ (false, v)
  ]

  read_inode : ℕ → ℕ → F → Option Inode → Option (List ℕ)
  read_inode ino size f none = none
  read_inode ino size f (some i) = if is_file i.itype then some (fs.read ino 0 size f) else none

  unfoldable pub read_path : String → ℕ → Vfs F → Option (List ℕ)
  unfolding read_inode
  read_path path size v = elim (resolve path v) [
    | found r ino ↦ read_inode ino size (v.objects r) (fs.lookup ino (v.objects r))
    | _ ↦ none
  ]

  write_new : String → List ℕ → Vfs F → ℤ × Vfs F
  write_new path bytes v =
      let (made, v') = create_file path bytes v in
      (if made then pos (length bytes) else no_entry, v')

  unfoldable pub write_path : String → List ℕ → Vfs F → ℤ × Vfs F
  unfolding write_new
  write_path path bytes v = elim (resolve path v) [
    | found r ino ↦
        let (n, f) = fs.write ino 0 bytes (v.objects r) in
        (n, record v { objects = update r f v.objects })
    | _ ↦ write_new path bytes v
  ]

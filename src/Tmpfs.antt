-- ===== src/Tmpfs.antt =====
-- computekernel_edu/fs_tmpfs.py: the file system in memory. An inode is an object that is reached
-- through its number.
pub mod Tree
pub mod Files
pub mod Refines
use compute_kernel_python.Prelude.{
  ℕ, zero, suc, ◌+◌, ◌-◌, String, Bool, true, false, not, Option, none, some, List, [], ◌∷◌, ◌++◌,
  ℤ, pos, negsuc, length, take, drop, replicate, keep, ltb, if◌then◌else◌,
}
use compute_kernel_python.Prelude.Eq.{◌==◌, nat_eq, string_eq}
use compute_kernel_python.Filesystem.{
  Created, Inode, InodeType, add_entry, block, char, created, dir, extended, fifo, file,
  file_exists, is_dir, is_file, link, new_inode, overwrite, set_content, socket, spliced,
  value_error, Filesystem, resized,
}
use compute_kernel_python.Prelude.Dict.{Dict, get, put, adjust, has_key, values}

pub record Tmpfs : Type 0 where
  pub inodes : Dict ℕ Inode
  pub next_ino : ℕ

-- The root directory, with the mode 0o755.
abbrev pub init : Tmpfs
init = record { inodes = (1, new_inode 1 dir 493) ∷ []; next_ino = 2 }

abbrev pub root_ino : ℕ
root_ino = 1

unfoldable pub lookup : ℕ → Tmpfs → Option Inode
lookup ino s = get ino s.inodes

abbrev child_of : Option ℕ → Tmpfs → Option Inode
child_of none s = none
child_of (some ino) s = get ino s.inodes

unfoldable pub lookup_name : ℕ → String → Tmpfs → Option Inode
lookup_name parent_ino name s = elim (get parent_ino s.inodes) [
  | none ↦ none
  | some p ↦ if is_dir p.itype then child_of (get name p.children) s else none
]

-- `_new_inode` with the default mode 0o644, and the entry in the parent.
abbrev pub make_child : ℕ → String → InodeType → Tmpfs → Tmpfs
make_child parent_ino name itype s = record {
  inodes =
      put s.next_ino (new_inode s.next_ino itype 420)
        (adjust parent_ino (add_entry name s.next_ino) s.inodes);
  next_ino = s.next_ino + 1;
}

unfoldable pub create : ℕ → String → InodeType → Tmpfs → Created × Tmpfs
create parent_ino name itype s = elim (get parent_ino s.inodes) [
  | none ↦ (value_error, s)
  | some p ↦
      if not (is_dir p.itype)
      then (value_error, s)
      else if has_key name p.children
      then (file_exists, s)
      else (created s.next_ino, make_child parent_ino name itype s)
]

-- Offsets and sizes are counts of bytes.
unfoldable pub read : ℕ → ℕ → ℕ → Tmpfs → List ℕ
read ino offset size s = elim (get ino s.inodes) [
  | none ↦ []
  | some i ↦ if is_file i.itype then take size (drop offset i.content) else []
]

-- -2 is ENOENT and -22 is EINVAL.
unfoldable pub write : ℕ → ℕ → List ℕ → Tmpfs → ℤ × Tmpfs
write ino offset bytes s = elim (get ino s.inodes) [
  | none ↦ (negsuc 1, s)
  | some i ↦
      if is_file i.itype
      then (pos (length bytes), record s { inodes = adjust ino (overwrite offset bytes) s.inodes })
      else (negsuc 21, s)
]

unfoldable pub readdir : ℕ → Tmpfs → List (String × ℕ)
readdir ino s = elim (get ino s.inodes) [
  | none ↦ []
  | some i ↦ if is_dir i.itype then (".", ino) ∷ ("..", ino) ∷ i.children else []
]

unfoldable pub mkdir : ℕ → String → Tmpfs → Created × Tmpfs
unfolding create
mkdir parent_ino name s = create parent_ino name dir s

-- What a caller of `create` does to the inode that it gets; an exception passes through.
abbrev then_set : (Inode → Inode) → Created × Tmpfs → Created × Tmpfs
then_set f (created ino, s) = (created ino, record s { inodes = adjust ino f s.inodes })
then_set f (value_error, s) = (value_error, s)
then_set f (file_exists, s) = (file_exists, s)

unfoldable pub symlink : ℕ → String → String → Tmpfs → Created × Tmpfs
unfolding create
symlink parent_ino name target s =
    then_set (λ i. record i { link_target = target }) (create parent_ino name link s)

unfoldable pub mknod : ℕ → String → ℕ → ℕ → InodeType → Tmpfs → Created × Tmpfs
unfolding create
mknod parent_ino name major minor itype s =
    then_set (λ i. record i { major = major; minor = minor }) (create parent_ino name itype s)

-- `inode.size = n`, through the inode object that a caller holds.
unfoldable pub set_size : ℕ → ℕ → Tmpfs → Tmpfs
set_size ino n s = record s { inodes = adjust ino (resized n) s.inodes }

-- The class as an implementation of the interface.
abbrev pub tmpfs : Filesystem Tmpfs
tmpfs = record {
  fstype = λ s. "tmpfs";
  root_ino = λ s. root_ino;
  lookup = lookup;
  lookup_name = lookup_name;
  create = create;
  read = read;
  write = write;
  readdir = readdir;
  set_size = set_size;
}

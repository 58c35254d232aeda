-- ===== src/Ext2.antt =====
-- computekernel_edu/fs_ext2.py: the model of an ext2 volume, over the same inodes.
pub mod Refines
use compute_kernel_python.Prelude.{
  ℕ, zero, suc, ◌+◌, ◌-◌, String, Bool, true, false, not, Option, none, some, List, [], ◌∷◌, ℤ, pos,
  negsuc, sub_ℕ, length, take, drop, if◌then◌else◌,
}
use compute_kernel_python.Prelude.Eq.{◌==◌, nat_eq, string_eq}
use compute_kernel_python.Prelude.Dict.{Dict, get, put, adjust, has_key}
use compute_kernel_python.Filesystem.{
  InodeType, dir, is_file, is_dir, Inode, new_inode, Created, created, value_error, file_exists,
  add_entry, overwrite, resized, Filesystem,
}

-- The count of free inodes has no lower bound in the program.
pub record Ext2Superblock : Type 0 where
  pub total_inodes : ℕ
  pub total_blocks : ℕ
  pub free_inodes : ℤ
  pub free_blocks : ℕ
  pub block_size : ℕ
  pub inodes_per_group : ℕ
  pub blocks_per_group : ℕ
  pub volume_name : String
  pub magic : ℕ

pub record Ext2BlockGroup : Type 0 where
  pub group_id : ℕ
  pub block_bitmap : ℕ
  pub inode_bitmap : ℕ
  pub inode_table : ℕ
  pub free_blocks : ℕ
  pub free_inodes : ℕ
  pub used_dirs : ℕ

pub record Ext2 : Type 0 where
  pub superblock : Ext2Superblock
  pub block_groups : List Ext2BlockGroup
  pub inodes : Dict ℕ Inode
  pub next_ino : ℕ

abbrev pub block_group : ℕ → Ext2BlockGroup
block_group i = record {
  group_id = i;
  block_bitmap = 0;
  inode_bitmap = 0;
  inode_table = 0;
  free_blocks = 1024;
  free_inodes = 128;
  used_dirs = 0;
}

-- `n - 1`
abbrev pub decrement : ℤ → ℤ
decrement (pos zero) = negsuc 0
decrement (pos (suc n)) = pos n
decrement (negsuc n) = negsuc (suc n)

abbrev pub take_inode : Ext2Superblock → Ext2Superblock
take_inode b = record b { free_inodes = decrement b.free_inodes }

abbrev pub new_superblock : String → Ext2Superblock
new_superblock volume_name = record {
  total_inodes = 1024;
  total_blocks = 8192;
  free_inodes = pos 1023;
  free_blocks = 8180;
  block_size = 4096;
  inodes_per_group = 128;
  blocks_per_group = 1024;
  volume_name = volume_name;
  magic = 0xEF53;
}

abbrev pub root_ino : ℕ
root_ino = 2

-- The number 2 is not counted on: the next inode has it as well.
abbrev pub init : String → Ext2
init volume_name = record {
  superblock = take_inode (new_superblock volume_name);
  block_groups =
      block_group 0
      ∷ block_group 1
      ∷ block_group 2
      ∷ block_group 3
      ∷ block_group 4
      ∷ block_group 5
      ∷ block_group 6
      ∷ block_group 7
      ∷ [];
  inodes = (2, new_inode 2 dir 493) ∷ [];
  next_ino = 2;
}

unfoldable pub lookup : ℕ → Ext2 → Option Inode
lookup ino s = get ino s.inodes

abbrev child_of : Option ℕ → Ext2 → Option Inode
child_of none s = none
child_of (some ino) s = get ino s.inodes

unfoldable pub lookup_name : ℕ → String → Ext2 → Option Inode
lookup_name parent_ino name s = elim (get parent_ino s.inodes) [
  | none ↦ none
  | some p ↦ if is_dir p.itype then child_of (get name p.children) s else none
]

-- The new inode takes its number's place in the table before the entry goes into the parent, which
-- the caller holds: a parent that had this number is no longer in the table.
abbrev pub make_child : ℕ → String → InodeType → Ext2 → Ext2
make_child parent_ino name itype s = record s {
  inodes =
      put s.next_ino (new_inode s.next_ino itype 420)
        (adjust parent_ino (add_entry name s.next_ino) s.inodes);
  next_ino = s.next_ino + 1;
  superblock = take_inode s.superblock;
}

unfoldable pub create : ℕ → String → InodeType → Ext2 → Created × Ext2
create parent_ino name itype s = elim (get parent_ino s.inodes) [
  | none ↦ (value_error, s)
  | some p ↦
      if not (is_dir p.itype)
      then (value_error, s)
      else if has_key name p.children
      then (file_exists, s)
      else (created s.next_ino, make_child parent_ino name itype s)
]

unfoldable pub read : ℕ → ℕ → ℕ → Ext2 → List ℕ
read ino offset size s = elim (get ino s.inodes) [
  | none ↦ []
  | some i ↦ if is_file i.itype then take size (drop offset i.content) else []
]

-- -22 is EINVAL, also for an inode that is missing.
unfoldable pub write : ℕ → ℕ → List ℕ → Ext2 → ℤ × Ext2
write ino offset bytes s = elim (get ino s.inodes) [
  | none ↦ (negsuc 21, s)
  | some i ↦
      if is_file i.itype
      then (pos (length bytes), record s { inodes = adjust ino (overwrite offset bytes) s.inodes })
      else (negsuc 21, s)
]

unfoldable pub readdir : ℕ → Ext2 → List (String × ℕ)
readdir ino s = elim (get ino s.inodes) [
  | none ↦ []
  | some i ↦ if is_dir i.itype then (".", ino) ∷ ("..", ino) ∷ i.children else []
]

unfoldable pub mkdir : ℕ → String → Ext2 → Created × Ext2
unfolding create
mkdir parent_ino name s = create parent_ino name dir s

-- `inode.size = n`, through the inode object that a caller holds.
unfoldable pub set_size : ℕ → ℕ → Ext2 → Ext2
set_size ino n s = record s { inodes = adjust ino (resized n) s.inodes }

-- The class as an implementation of the interface.
abbrev pub ext2 : Filesystem Ext2
ext2 = record {
  fstype = λ s. "ext2";
  root_ino = λ s. root_ino;
  lookup = lookup;
  lookup_name = lookup_name;
  create = create;
  read = read;
  write = write;
  readdir = readdir;
  set_size = set_size;
}

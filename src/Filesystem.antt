-- ===== src/Filesystem.antt =====
-- The inodes of computekernel_edu/vfs.py, and its class `Filesystem` as an interface: the operations
-- that a file system has, and what they do to the inodes.
pub mod Splices
use compute_kernel_python.Prelude.{
  ℕ, ◌+◌, ◌-◌, String, ◌≡◌, Bool, true, false, Option, none, some, List, [], ◌++◌, ℤ, pos,
  is_negative, length, take, drop, replicate, if◌then◌else◌,
}
use mathlib.Core.Option
use compute_kernel_python.Prelude.Eq.{◌==◌, nat_eq, string_eq}
use compute_kernel_python.Prelude.Dict.{Dict, get, put, has_key}

pub data InodeType : Type 0 where
  file dir link block char fifo socket : InodeType

abbrev pub is_file : InodeType → Bool
is_file file = true
is_file _ = false

abbrev pub is_dir : InodeType → Bool
is_dir dir = true
is_dir _ = false

pub record Inode : Type 0 where
  pub ino : ℕ
  pub itype : InodeType
  pub mode : ℕ
  pub uid : ℕ
  pub gid : ℕ
  pub size : ℕ
  pub nlink : ℕ
  pub content : List ℕ
  pub children : Dict String ℕ
  pub link_target : String
  pub major : ℕ
  pub minor : ℕ

abbrev pub new_inode : ℕ → InodeType → ℕ → Inode
new_inode ino itype mode = record {
  ino = ino;
  itype = itype;
  mode = mode;
  uid = 0;
  gid = 0;
  size = 0;
  nlink = 1;
  content = [];
  children = [];
  link_target = "";
  major = 0;
  minor = 0;
}

-- What `create` returns: the number of the new inode, or the exception that it raises.
pub data Created : Type 0 where
  created : ℕ → Created
  value_error file_exists : Created

abbrev pub add_entry : String → ℕ → Inode → Inode
add_entry name ino p = record p { children = put name ino p.children }

-- Zeros fill the gap up to an offset past the end.
abbrev pub extended : ℕ → List ℕ → List ℕ
extended offset bytes = bytes ++ replicate (offset - length bytes) 0

abbrev pub spliced : ℕ → List ℕ → List ℕ → List ℕ
spliced offset bytes old = take offset old ++ (bytes ++ drop (offset + length bytes) old)

abbrev pub set_content : List ℕ → Inode → Inode
set_content bytes i = record i { content = bytes; size = length bytes }

abbrev pub overwrite : ℕ → List ℕ → Inode → Inode
overwrite offset bytes i = set_content (spliced offset bytes (extended offset i.content)) i

-- The class `Filesystem`, for objects of type `F`. `set_size` is the assignment to the `size` of an
-- inode that a caller holds.
pub record Filesystem (F : Type 0) : Type 0 where
  pub fstype : F → String
  pub root_ino : F → ℕ
  pub lookup : ℕ → F → Option Inode
  pub lookup_name : ℕ → String → F → Option Inode
  pub create : ℕ → String → InodeType → F → Created × F
  pub read : ℕ → ℕ → ℕ → F → List ℕ
  pub write : ℕ → ℕ → List ℕ → F → ℤ × F
  pub readdir : ℕ → F → List (String × ℕ)
  pub set_size : ℕ → ℕ → F → F

-- What an inode, if there is one, holds from an offset on.
abbrev pub bytes_of : ℕ → ℕ → Option Inode → List ℕ
bytes_of offset size none = []
bytes_of offset size (some i) = if is_file i.itype then take size (drop offset i.content) else []

abbrev pub holds_file : Option Inode → Bool
holds_file none = false
holds_file (some i) = is_file i.itype

abbrev pub holds_dir : Option Inode → Bool
holds_dir none = false
holds_dir (some i) = is_dir i.itype

abbrev pub entry_of : String → Option Inode → Option ℕ
entry_of name none = none
entry_of name (some p) = if is_dir p.itype then get name p.children else none

abbrev pub follow : (ℕ → Option Inode) → Option ℕ → Option Inode
follow inodes none = none
follow inodes (some c) = inodes c

abbrev pub resized : ℕ → Inode → Inode
resized n i = record i { size = n }

-- A file system seen as a function from numbers to inodes, and what each operation does to that
-- function. `Good` is what the operations keep true of the object.
pub record IsFilesystem {F : Type 0} (fs : Filesystem F) : Type 1 where
  pub Good : F → Type 0
  pub next : F → ℕ
  pub named : (s : F) (k : ℕ) (i : Inode) → Good s → fs.lookup k s ≡ some i → i.ino ≡ k
  pub unused : (s : F) → Good s → fs.lookup (next s) s ≡ none
  pub rooted :
      (s : F)
      → Good s
      → (i : Inode) × (fs.lookup (fs.root_ino s) s ≡ some i) × (is_dir i.itype ≡ true)
  pub entries :
      (s : F) (k c : ℕ) (name : String)
      → Good s
      → entry_of name (fs.lookup k s) ≡ some c
      → (i : Inode) × (fs.lookup c s ≡ some i)
  pub lookup_name_is :
      (s : F) (k : ℕ) (name : String)
      → fs.lookup_name k name s ≡ follow (λ j. fs.lookup j s) (entry_of name (fs.lookup k s))
  pub read_is :
      (s : F) (k offset size : ℕ) → fs.read k offset size s ≡ bytes_of offset size (fs.lookup k s)
  pub write_reports :
      (s : F) (k offset : ℕ) (bytes : List ℕ)
      → holds_file (fs.lookup k s) ≡ true
      → (fs.write k offset bytes s).0 ≡ pos (length bytes)
  pub write_is :
      (s : F) (k offset : ℕ) (bytes : List ℕ) (i : Inode)
      → fs.lookup k s ≡ some i
      → is_file i.itype ≡ true
      → (j : ℕ)
      → fs.lookup j (fs.write k offset bytes s).1
        ≡ (if k == j then some (overwrite offset bytes i) else fs.lookup j s)
  pub write_refused :
      (s : F) (k offset : ℕ) (bytes : List ℕ)
      → holds_file (fs.lookup k s) ≡ false
      → (is_negative (fs.write k offset bytes s).0 ≡ true) × ((fs.write k offset bytes s).1 ≡ s)
  pub create_is :
      (s : F) (k : ℕ) (name : String) (itype : InodeType) (p : Inode)
      → fs.lookup k s ≡ some p
      → is_dir p.itype ≡ true
      → has_key name p.children ≡ false
      → ((fs.create k name itype s).0 ≡ created (next s))
        × ((j : ℕ)
            → Good s
            → fs.lookup j (fs.create k name itype s).1 ≡ (
                if k == j
                then some (add_entry name (next s) p)
                else if next s == j
                then some (new_inode (next s) itype 420)
                else fs.lookup j s))
  pub create_taken :
      (s : F) (k : ℕ) (name : String) (itype : InodeType) (p : Inode)
      → fs.lookup k s ≡ some p
      → is_dir p.itype ≡ true
      → has_key name p.children ≡ true
      → fs.create k name itype s ≡ (file_exists, s)
  pub create_nowhere :
      (s : F) (k : ℕ) (name : String) (itype : InodeType)
      → holds_dir (fs.lookup k s) ≡ false
      → fs.create k name itype s ≡ (value_error, s)
  pub set_size_is :
      (s : F) (k n j : ℕ)
      → fs.lookup j (fs.set_size k n s)
        ≡ (if k == j then Option.map (resized n) (fs.lookup j s) else fs.lookup j s)
  pub write_good :
      (s : F) (k offset : ℕ) (bytes : List ℕ) → Good s → Good (fs.write k offset bytes s).1
  pub create_good :
      (s : F) (k : ℕ) (name : String) (itype : InodeType)
      → Good s
      → Good (fs.create k name itype s).1
  pub set_size_good : (s : F) (k n : ℕ) → Good s → Good (fs.set_size k n s)
  pub write_root :
      (s : F) (k offset : ℕ) (bytes : List ℕ)
      → fs.root_ino (fs.write k offset bytes s).1 ≡ fs.root_ino s
  pub create_root :
      (s : F) (k : ℕ) (name : String) (itype : InodeType)
      → fs.root_ino (fs.create k name itype s).1 ≡ fs.root_ino s
  pub set_size_root : (s : F) (k n : ℕ) → fs.root_ino (fs.set_size k n s) ≡ fs.root_ino s

-- ===== src/Ext2/Refines.antt =====
-- The ext2 volume against the interface, and the first file that is made on it.
use compute_kernel_python.Prelude.{
  ℕ, String, ◌≡◌, refl, true, none, some, List, arith, Option-cases, Bool-cases, inl, inr, ◌⊎◌,
}
use compute_kernel_python.Prelude.Eq.{nat_eq, string_eq}
use compute_kernel_python.Prelude.Dict.{get, put, adjust, has_key, get-adjust}
use compute_kernel_python.Filesystem.{
  InodeType, dir, is_dir, is_file, new_inode, created, value_error, overwrite, resized,
  IsFilesystem,
}
use compute_kernel_python.Tmpfs
use compute_kernel_python.Tmpfs.{Tmpfs}
use compute_kernel_python.Tmpfs.Tree.{unused, get-make_child}
use compute_kernel_python.Tmpfs.Refines.{IsRooted, adjust-IsRooted, create-IsRooted, entry-exists}
use compute_kernel_python.Ext2.{
  Ext2, init, root_ino, lookup, lookup_name, create, read, write, set_size, ext2,
}

-- The inodes of the volume, as a tree of the other file system.
abbrev pub tree_of : Ext2 → Tmpfs
tree_of s = record { inodes = s.inodes; next_ino = s.next_ino }

counted-IsRooted :
    (volume_name : String)
    → IsRooted root_ino (tree_of (record (init volume_name) { next_ino = 3 }))
unfolding get has_key
counted-IsRooted volume_name = record {
  tree = record {
    named = λ k i e. ground (arith, e);
    below = λ k i e. ground (arith, e);
    entries = λ k c i name e h. absurd (ground (arith, e, h));
  };
  root = (new_inode 2 dir 493, refl, refl);
}

-- `create` does to the inodes what the other file system's `create` does.
create-tree_of :
    (k : ℕ) (name : String) (itype : InodeType) (s : Ext2)
    → (tree_of (create k name itype s).1 ≡ (Tmpfs.create k name itype (tree_of s)).1)
      × ((create k name itype s).0 ≡ (Tmpfs.create k name itype (tree_of s)).0)
unfolding create Tmpfs.create
create-tree_of k name itype s = elim (Option-cases (get k s.inodes)) [
  | inl e ↦ (rw (e, create, Tmpfs.create), rw (e, create, Tmpfs.create))
  | inr (p, e) ↦ elim (Bool-cases (is_dir p.itype)) [
    | inr d ↦ (rw (e, d, create, Tmpfs.create), rw (e, d, create, Tmpfs.create))
    | inl d ↦ elim (Bool-cases (has_key name p.children)) [
      | inl n ↦ (rw (e, d, n, create, Tmpfs.create), rw (e, d, n, create, Tmpfs.create))
      | inr n ↦ (rw (e, d, n, create, Tmpfs.create), rw (e, d, n, create, Tmpfs.create))
    ]
  ]
]

-- The volume implements the interface of file systems: its inodes, as a function from numbers, change
-- with each operation as the interface says. What the operations keep is that the inodes are a
-- well-formed tree with a root directory, and a volume whose counter had been moved past the root
-- would start with that.
pub ext2-IsFilesystem :
    (laws : IsFilesystem ext2) × ((volume_name : String)
      → laws.Good (record (init volume_name) { next_ino = 3 }))
unfolding lookup lookup_name read write create set_size
ext2-IsFilesystem = (
  record {
    Good = λ s. IsRooted root_ino (tree_of s);
    next = λ s. s.next_ino;
    named = λ s k i g e. g.tree.named k i e;
    unused = λ s g. unused (tree_of s) g.tree;
    rooted = λ s g. g.root;
    entries = λ s k c name g h. entry-exists (tree_of s) k c name g.tree h;
    lookup_name_is = λ s k name. ground arith;
    read_is = λ s k offset size. ground arith;
    write_reports = λ s k offset bytes h. ground arith;
    write_is = λ s k offset bytes i e f j.
        ground (arith, e, f, get-adjust k j (overwrite offset bytes) s.inodes);
    write_refused = λ s k offset bytes h. ground arith;
    create_is = λ s k name itype p e d n. (
      rw (e, d, n, create),
      λ j g.
          rw (e, d, n, create)
            (ground (arith, get-make_child k name itype (tree_of s) j, g.tree.below k p e, e)),
    );
    create_taken = λ s k name itype p e d n. rw (e, d, n, create);
    create_nowhere = λ s k name itype h. ground arith;
    set_size_is = λ s k n j. get-adjust k j (resized n) s.inodes;
    write_good = λ s k offset bytes g. write-kept k offset bytes s g;
    create_good = λ s k name itype g.
        let (same, result) = create-tree_of k name itype s in
        rw same (create-IsRooted root_ino k name itype (tree_of s) g);
    set_size_good =
        λ s k n g. adjust-IsRooted root_ino k (resized n) (tree_of s) (λ i. (refl, refl, refl)) g;
    write_root = λ s k offset bytes. refl;
    create_root = λ s k name itype. refl;
    set_size_root = λ s k n. refl;
  },
  λ volume_name. counted-IsRooted volume_name,
)
  where
    write-kept :
        (k offset : ℕ) (bytes : List ℕ) (s : Ext2)
        → IsRooted root_ino (tree_of s)
        → IsRooted root_ino (tree_of (write k offset bytes s).1)
    write-kept k offset bytes s g = elim (Option-cases (get k s.inodes)) [
      | inl e ↦ rw (e, write) g
      | inr (i, e) ↦ elim (Bool-cases (is_file i.itype)) [
        | inl f ↦
            rw (e, f, write)
              (adjust-IsRooted root_ino k (overwrite offset bytes) (tree_of s)
                (λ w. (refl, refl, refl)) g)
        | inr f ↦ rw (e, f, write) g
      ]
    ]

-- A new volume is not such a tree: its first file or directory takes the number of the root
-- directory and replaces it. The call succeeds, but afterwards no name leads from the root to
-- anything, and unless it made a directory, every further call of `create` in the root is refused.
pub first_create_lem :
    (volume_name name other : String) (itype again : InodeType)
    → ((create root_ino name itype (init volume_name)).0 ≡ created root_ino)
      × (lookup root_ino (create root_ino name itype (init volume_name)).1
          ≡ some (new_inode root_ino itype 420))
      × (lookup_name root_ino other (create root_ino name itype (init volume_name)).1 ≡ none)
      × ((is_dir itype ≡ true)
          ⊎ ((create root_ino other again (create root_ino name itype (init volume_name)).1).0
              ≡ value_error))
unfolding create lookup lookup_name get put adjust has_key
first_create_lem volume_name name other itype again = (
  refl,
  refl,
  ground arith,
  elim (Bool-cases (is_dir itype)) [ inl f ↦ inl f | inr f ↦ inr (rw (f, create) refl) ],
)

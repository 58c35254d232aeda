-- ===== src/Tmpfs/Refines.antt =====
-- The file system in memory does what the interface asks.
use compute_kernel_python.Prelude.{
  ℕ, String, ◌≡◌, refl, ap, sym, true, some, List, arith, ◌∙◌, Option-cases, Bool-cases, inl, inr,
}
use compute_kernel_python.Prelude.Eq.{◌==◌, nat_eq, string_eq}
use compute_kernel_python.Prelude.Dict.{
  get, adjust, has_key, get-adjust, has_key-adjust, has_key-none,
}
use compute_kernel_python.Filesystem.{
  InodeType, dir, is_dir, is_file, Inode, new_inode, add_entry, overwrite, resized, IsFilesystem,
  entry_of,
}
use compute_kernel_python.Tmpfs.{
  Tmpfs, init, root_ino, lookup, lookup_name, create, read, write, set_size, tmpfs,
}
use compute_kernel_python.Tmpfs.Tree.{
  IsValid, get-make_child, make_child-IsValid, unused, init-IsValid,
}

-- A well-formed tree with a directory as its root.
pub record IsRooted (r : ℕ) (s : Tmpfs) : Type 0 where
  pub tree : IsValid s
  pub root : (i : Inode) × (get r s.inodes ≡ some i) × (is_dir i.itype ≡ true)

pub init-IsRooted : IsRooted root_ino init
unfolding get
init-IsRooted = record { tree = init-IsValid; root = (new_inode 1 dir 493, refl, refl) }

-- A change of an inode that keeps its number, its type and its entries.
pub adjust-IsRooted :
    (r k : ℕ) (f : Inode → Inode) (s : Tmpfs)
    → ((i : Inode) → ((f i).ino ≡ i.ino) × ((f i).itype ≡ i.itype) × ((f i).children ≡ i.children))
    → IsRooted r s
    → IsRooted r (record s { inodes = adjust k f s.inodes })
adjust-IsRooted r k f s same g = record {
  tree = record {
    named = λ j i h. elim (Option-cases (get j s.inodes)) [
      | inl e ↦ absurd (ground (arith, get-adjust k j f s.inodes))
      | inr (w, e) ↦ ground (arith, get-adjust k j f s.inodes, g.tree.named j w e, same w)
    ];
    below = λ j i h. elim (Option-cases (get j s.inodes)) [
      | inl e ↦ absurd (ground (arith, get-adjust k j f s.inodes))
      | inr (w, e) ↦ g.tree.below j w e
    ];
    entries = λ j c i name h e'. elim (Option-cases (get j s.inodes)) [
      | inl e ↦ absurd (ground (arith, get-adjust k j f s.inodes))
      | inr (w, e) ↦
          let is : i.children ≡ w.children = ground (arith, get-adjust k j f s.inodes, same w) in
          has_key-adjust k c f s.inodes
          ∙ g.tree.entries j c w name e (ap (λ d. get name d) (sym is) ∙ e')
    ];
  };
  root =
      let (i, e, d) = g.root in
      elim (Bool-cases (k == r)) [
        | inl at ↦ (
          f i,
          ground (arith, get-adjust k r f s.inodes, e, at),
          let (a, b, c) = same i in ap is_dir b ∙ d,
        )
        | inr other ↦ (i, ground (arith, get-adjust k r f s.inodes, e, other), d)
      ];
}

pub create-IsRooted :
    (r k : ℕ) (name : String) (itype : InodeType) (s : Tmpfs)
    → IsRooted r s
    → IsRooted r (create k name itype s).1
unfolding create
create-IsRooted r k name itype s g = elim (Option-cases (get k s.inodes)) [
  | inl e ↦ rw (e, create) g
  | inr (p, e) ↦ elim (Bool-cases (is_dir p.itype)) [
    | inr d ↦ rw (e, d, create) g
    | inl d ↦ elim (Bool-cases (has_key name p.children)) [
      | inl n ↦ rw (e, d, n, create) g
      | inr n ↦
          rw (e, d, n, create)
            (record {
              tree = make_child-IsValid k name itype s p e g.tree;
              root =
                  let (i, at, is) = g.root in
                  let low = g.tree.below r i at in
                  let made = get-make_child k name itype s r in
                  elim (Bool-cases (k == r)) [
                    | inl same ↦
                        (add_entry name s.next_ino i, ground (arith, made, low, at, same), is)
                    | inr other ↦ (i, ground (arith, made, low, at, other), is)
                  ];
            })
    ]
  ]
]

pub write-IsRooted :
    (r k offset : ℕ) (bytes : List ℕ) (s : Tmpfs)
    → IsRooted r s
    → IsRooted r (write k offset bytes s).1
unfolding write
write-IsRooted r k offset bytes s g = elim (Option-cases (get k s.inodes)) [
  | inl e ↦ rw (e, write) g
  | inr (i, e) ↦ elim (Bool-cases (is_file i.itype)) [
    | inl f ↦
        rw (e, f, write)
          (adjust-IsRooted r k (overwrite offset bytes) s (λ w. (refl, refl, refl)) g)
    | inr f ↦ rw (e, f, write) g
  ]
]

pub entry-exists :
    (s : Tmpfs) (k c : ℕ) (name : String)
    → IsValid s
    → entry_of name (get k s.inodes) ≡ some c
    → (i : Inode) × (get c s.inodes ≡ some i)
entry-exists s k c name v h = elim (Option-cases (get k s.inodes)) [
  | inl e ↦ absurd (ground arith)
  | inr (p, e) ↦ elim (Option-cases (get c s.inodes)) [
    | inr found ↦ found
    | inl e' ↦ absurd (ground (arith, e, v.entries k c p name e, has_key-none c s.inodes e'))
  ]
]

-- The file system in memory implements the interface of file systems: its inodes, as a function from
-- numbers, change with each operation as the interface says. What the operations keep is that the
-- inodes are a well-formed tree with a root directory, and a new file system starts with that.
pub tmpfs-IsFilesystem : (laws : IsFilesystem tmpfs) × laws.Good init
unfolding lookup lookup_name read write create set_size
tmpfs-IsFilesystem = (
  record {
    Good = IsRooted root_ino;
    next = λ s. s.next_ino;
    named = λ s k i g e. g.tree.named k i e;
    unused = λ s g. unused s g.tree;
    rooted = λ s g. g.root;
    entries = λ s k c name g h. entry-exists s k c name g.tree h;
    lookup_name_is = λ s k name. ground arith;
    read_is = λ s k offset size. ground arith;
    write_reports = λ s k offset bytes h. ground arith;
    write_is = λ s k offset bytes i e f j.
        ground (arith, e, f, get-adjust k j (overwrite offset bytes) s.inodes);
    write_refused = λ s k offset bytes h. ground arith;
    create_is = λ s k name itype p e d n. (
      rw (e, d, n, create),
      λ j g.
          rw (e, d, n, create)
            (ground (arith, get-make_child k name itype s j, g.tree.below k p e, e)),
    );
    create_taken = λ s k name itype p e d n. rw (e, d, n, create);
    create_nowhere = λ s k name itype h. ground arith;
    set_size_is = λ s k n j. get-adjust k j (resized n) s.inodes;
    write_good = λ s k offset bytes g. write-IsRooted root_ino k offset bytes s g;
    create_good = λ s k name itype g. create-IsRooted root_ino k name itype s g;
    set_size_good = λ s k n g. adjust-IsRooted root_ino k (resized n) s (λ i. (refl, refl, refl)) g;
    write_root = λ s k offset bytes. refl;
    create_root = λ s k name itype. refl;
    set_size_root = λ s k n. refl;
  },
  init-IsRooted,
)

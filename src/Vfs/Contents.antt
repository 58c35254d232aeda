-- ===== src/Vfs/Contents.antt =====
-- `create_file` and `read_path`: what a path holds after a file was made, and that the other paths
-- lead where they led before.
use compute_kernel_python.Prelude.{
  ℕ, String, ◌≡◌, refl, sym, ap, ◌∙◌, true, false, some, List, [], ◌∷◌, ◌++◌, take, arith,
  Bool-cases, Option-cases, inl, inr,
}
use mathlib.Core.Path.{subst}
use compute_kernel_python.Prelude.Eq.{nat_eq, string_eq, test_refl}
use compute_kernel_python.Prelude.Dict.{has_key, get-put_self}
use compute_kernel_python.Filesystem.{
  Inode, is_dir, is_file, file, Filesystem, IsFilesystem, add_entry,
}
use compute_kernel_python.Paths.{or_root}
use compute_kernel_python.Paths.Names.{IsName, AreNames, path_of, AreNames-snoc, base_name-path_of}
use compute_kernel_python.Vfs.{
  Vfs, Resolved, nowhere, absent, found, walk, landed, resolve, create_file, read_path, update,
  read_inode,
}
use compute_kernel_python.Vfs.Walk.{
  OnlyRoot, resolve-path_of, walk-append, walk-Grown, to_found, walk_found,
}
use compute_kernel_python.Vfs.Growth.{
  some-injective, after, lookup-after_next, lookup-after_parent, Grown-after, root_ino-after,
  good-after,
}

or_root-snoc :
    (ns : List String) (n : String) → or_root (path_of (ns ++ n ∷ [])) ≡ path_of (ns ++ n ∷ [])
or_root-snoc [] n = refl
or_root-snoc (m ∷ ns) n = refl

module _ {F : Type 0} (fs : Filesystem F) (laws : IsFilesystem fs) where
  read_path-found :
      (path : String) (size : ℕ) (v : Vfs F) (r j : ℕ) (i : Inode)
      → resolve fs path v ≡ found r j
      → fs.lookup j (v.objects r) ≡ some i
      → is_file i.itype ≡ true
      → read_path fs path size v ≡ some (take size i.content)
  unfolding read_path read_inode
  read_path-found path size v r j i e l h =
      rw (read_path, e, l, read_inode, h, laws.read_is, l, h) refl

  -- What a successful read of a path goes through.
  found_file :
      (path : String) (size : ℕ) (v : Vfs F) (bytes : List ℕ) (x : Resolved)
      → resolve fs path v ≡ x
      → read_path fs path size v ≡ some bytes
      → (r j : ℕ) × (x ≡ found r j)
        × ((i : Inode) × (fs.lookup j (v.objects r) ≡ some i)
            × (is_file i.itype ≡ true)
            × (bytes ≡ take size i.content))
  unfolding read_path read_inode
  found_file path size v bytes nowhere e h = absurd (cc)
  found_file path size v bytes (absent r) e h = absurd (cc)
  found_file path size v bytes (found r j) e h = elim (Option-cases (fs.lookup j (v.objects r))) [
    | inl l ↦ absurd (ground (arith, h, e, l))
    | inr (i, l) ↦ elim (Bool-cases (is_file i.itype)) [
      | inl f ↦ (
        r,
        j,
        refl,
        (
          i,
          l,
          f,
          some-injective bytes (take size i.content)
              (sym h ∙ read_path-found path size v r j i e l f),
        ),
      )
      | inr f ↦ absurd (ground (arith, h, e, l, f))
    ]
  ]

module _ {F : Type 0} (fs : Filesystem F) (laws : IsFilesystem fs) where
  -- The VFS has one file system, at `/`, in which the names `ns` lead to a directory.
  module _ (v : Vfs F) (r : ℕ) (source : String) (mounted : OnlyRoot fs r source v)
      (good : laws.Good (v.objects r)) (ns : List String) (n : String) (are_names : AreNames ns)
      (is_name : IsName n) (d : ℕ) (p : Inode)
      (leads : walk fs ns (fs.root_ino (v.objects r)) (v.objects r) ≡ some d)
      (at : fs.lookup d (v.objects r) ≡ some p) (is_a_dir : is_dir p.itype ≡ true)
      (free : has_key n p.children ≡ false) (content : List ℕ) where
    abbrev path : String
    path = path_of (ns ++ n ∷ [])

    abbrev s : F
    s = v.objects r

    abbrev t : F
    t = after fs laws s good d n p at is_a_dir free content

    create_file-is :
        create_file fs path content v ≡ (true, record v { objects = update r t v.objects })
    unfolding create_file
    create_file-is =
        let (base, parent) = base_name-path_of ns n are_names is_name in
        let q = resolve-path_of fs ns r source v mounted are_names in
        let c = (laws.create_is s d n file p at is_a_dir free).0 in
        rw (create_file, parent, q, leads, base, c) refl

    pub create_file_lem : (create_file fs path content v).0 ≡ true
    create_file_lem = ap (λ x. x.0) create_file-is

    abbrev w : Vfs F
    w = record v { objects = update r t v.objects }

    objects-w : w.objects r ≡ t
    objects-w = rw (test_refl r) refl

    resolve-w :
        (ms : List String) (j : ℕ)
        → AreNames ms
        → walk fs ms (fs.root_ino s) t ≡ some j
        → resolve fs (or_root (path_of ms)) w ≡ found r j
    resolve-w ms j h q =
        resolve-path_of fs ms r source w mounted h
        ∙ ap (λ f. landed r (walk fs ms (fs.root_ino f) f)) objects-w
        ∙ ap (λ k. landed r (walk fs ms k t))
            (root_ino-after fs laws s good d n p at is_a_dir free content)
        ∙ ap (landed r) q

    walk-new : walk fs (ns ++ n ∷ []) (fs.root_ino s) t ≡ some (laws.next s)
    unfolding walk
    walk-new =
        let (x, e, (f, number, c)) =
          lookup-after_next fs laws s good d n p at is_a_dir free content in
        let up = lookup-after_parent fs laws s good d n p at is_a_dir free content in
        let q =
          to_found fs d n (laws.next s) (add_entry n (laws.next s) p) x t up is_a_dir
            (get-put_self n (laws.next s) p.children) e in
        walk-append fs ns (n ∷ []) (fs.root_ino s) d t (
          walk-Grown fs ns (fs.root_ino s) d s t laws
            (Grown-after fs laws s good d n p at is_a_dir free content) leads)
        ∙ rw (walk, laws.lookup_name_is t d n ∙ q) (ap some number)

    -- On a VFS with one file system, at `/`, that does what the interface says and is as its
    -- operations leave it: if the names `ns` lead to a directory without an entry `n`, then after
    -- `create_file` of the path made of `ns` and `n`, where names are not empty and have no slash,
    -- `read_path` of this path returns the content given, up to the size asked for.
    pub read_path-create_file :
        (size : ℕ)
        → read_path fs path size (create_file fs path content v).1 ≡ some (take size content)
    read_path-create_file size =
        let (x, e, (f, number, c)) =
          lookup-after_next fs laws s good d n p at is_a_dir free content in
        ap (λ y. read_path fs path size y.1) create_file-is
        ∙ read_path-found fs laws path size w r (laws.next s) x
            (ap (λ y. resolve fs y w) (sym (or_root-snoc ns n))
              ∙ resolve-w (ns ++ n ∷ []) (laws.next s) (AreNames-snoc ns n are_names is_name)
                  walk-new)
            (ap (fs.lookup (laws.next s)) objects-w ∙ e) f
        ∙ ap (λ l. some (take size l)) c

    walk-old :
        (ms : List String) (j : ℕ)
        → AreNames ms
        → walk fs ms (fs.root_ino s) s ≡ some j
        → resolve fs (or_root (path_of ms)) w ≡ found r j
    walk-old ms j h q = resolve-w ms j h (
        walk-Grown fs ms (fs.root_ino s) j s t laws
          (Grown-after fs laws s good d n p at is_a_dir free content) q)

    -- Under the conditions of that theorem, every path of names that `read_path` could read before
    -- the file was made reads the same afterwards.
    pub read_path-create_file_other :
        (ms : List String) (size : ℕ) (bytes : List ℕ)
        → AreNames ms
        → read_path fs (or_root (path_of ms)) size v ≡ some bytes
        → read_path fs (or_root (path_of ms)) size (create_file fs path content v).1 ≡ some bytes
    read_path-create_file_other ms size bytes h e =
        let m = or_root (path_of ms) in
        let (q, j, f, (i, l, k, b)) = found_file fs laws m size v bytes (resolve fs m v) refl e in
        let (same, u) =
          walk_found (walk fs ms (fs.root_ino s) s) r q j
            (sym (resolve-path_of fs ms r source v mounted h) ∙ f) in
        let (x, a, (same_type, same_ino, same_content, same_names)) =
          Grown-after fs laws s good d n p at is_a_dir free content j i
            (ap (λ y. fs.lookup j (v.objects y)) same ∙ l) in
        ap (λ y. read_path fs m size y.1) create_file-is
        ∙ read_path-found fs laws m size w r j x (walk-old ms j h u)
            (ap (fs.lookup j) objects-w ∙ a) (ap is_file same_type ∙ k)
        ∙ ap (λ y. some (take size y)) same_content
        ∙ ap some (sym b)

    -- What the theorems of this section ask of the VFS holds again.
    pub create_file-Good :
        laws.Good ((create_file fs path content v).1.objects r)
        × OnlyRoot fs r source (create_file fs path content v).1
    create_file-Good = (
      subst (λ y. laws.Good (y.1.objects r)) (sym create_file-is)
          (subst laws.Good (sym objects-w)
            (good-after fs laws s good d n p at is_a_dir free content)),
      subst (λ y. OnlyRoot fs r source y.1) (sym create_file-is) mounted,
    )

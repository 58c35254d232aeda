-- ===== src/Vfs/Sequential.antt =====
-- Two writes through one descriptor, one after the other.
use compute_kernel_python.Prelude.{
  ℕ, zero, suc, ◌+◌, String, ◌≡◌, refl, sym, ap, ◌∙◌, true, Option, none, some, List, ◌++◌, pos,
  length, length-append, ltb, if◌then◌else◌, arith, Bool-cases, Option-cases, inl, inr,
}
use mathlib.Core.Option
use compute_kernel_python.Prelude.Eq.{◌==◌, nat_eq, string_eq, test_refl}
use compute_kernel_python.Prelude.Dict.{Dict, get, get-adjust}
use compute_kernel_python.Filesystem.{Inode, is_file, Filesystem, IsFilesystem, overwrite}
use compute_kernel_python.Filesystem.Splices.{overwrite-overwrite}
use compute_kernel_python.Paths.{drop_text, text_length, parts}
use compute_kernel_python.Vfs.{
  walk, MountPoint, OpenFile, Vfs, find_mount, fs_of, landed, resolve_in, resolve, update, advance,
  moved, write, write_to,
}

fs_of-landed : (r : ℕ) (x : Option ℕ) → fs_of (landed r x) ≡ some r
fs_of-landed r none = refl
fs_of-landed r (some ino) = refl

advance-advance : (m n : ℕ) (o : OpenFile) → advance n (advance m o) ≡ advance (m + n) o
advance-advance m n o =
    let e : (o.position + m) + n ≡ o.position + (m + n) = omega arith in
    ap (λ p. record o { position = p }) e

get-moved :
    (fd n : ℕ) (o : OpenFile) (d : Dict ℕ OpenFile)
    → get fd d ≡ some o
    → get fd (moved fd (pos n) d) ≡ some (advance n o)
get-moved fd zero o d h =
    let e : o.position ≡ o.position + 0 = omega arith in
    h ∙ ap (λ p. some (record o { position = p })) e
get-moved fd (suc n) o d h =
    let q : ltb 0 (suc n) ≡ true = ground arith in
    rw (q, get-adjust fd fd (advance (suc n)) d, test_refl fd, h) refl

module _ {F : Type 0} (fs : Filesystem F) where
  fs_of-resolve_in :
      (m : MountPoint) (path : String) (v : Vfs F) → fs_of (resolve_in fs m path v) ≡ some m.fs
  unfolding resolve_in
  fs_of-resolve_in m path v = ground (
    arith,
    fs_of-landed m.fs (
        walk fs (parts (drop_text (text_length m.path) path)) (fs.root_ino (v.objects m.fs))
          (v.objects m.fs)),
  )

  fs_of-resolve :
      (path : String) (v : Vfs F)
      → fs_of (resolve fs path v) ≡ Option.map (λ m. m.fs) (find_mount v.mounts path none)
  unfolding resolve
  fs_of-resolve path v = elim (Option-cases (find_mount v.mounts path none)) [
    | inl e ↦ rw (resolve, e) refl
    | inr (m, e) ↦ rw (resolve, e) (fs_of-resolve_in m path v)
  ]

module _ {F : Type 0} (fs : Filesystem F) (laws : IsFilesystem fs) where
  -- A descriptor that is open on a file.
  abbrev pub OpenOn : ℕ → OpenFile → ℕ → Inode → Vfs F → Type 0
  OpenOn fd o r i v =
      (get fd v.open_files ≡ some o)
      × (fs_of (resolve fs o.path v) ≡ some r)
      × (fs.lookup o.ino (v.objects r) ≡ some i)
      × (is_file i.itype ≡ true)

  abbrev written : ℕ → OpenFile → ℕ → List ℕ → Vfs F → Vfs F
  written fd o r bytes v = record v {
    objects = update r (fs.write o.ino o.position bytes (v.objects r)).1 v.objects;
    open_files = moved fd (pos (length bytes)) v.open_files;
  }

  write-OpenOn :
      (fd : ℕ) (o : OpenFile) (r : ℕ) (i : Inode) (bytes : List ℕ) (v : Vfs F)
      → OpenOn fd o r i v
      → write fs fd bytes v ≡ (pos (length bytes), written fd o r bytes v)
  unfolding write write_to
  write-OpenOn fd o r i bytes v (g, m, l, f) =
      let n = laws.write_reports (v.objects r) o.ino o.position bytes (rw (l) f) in
      rw (write, g, m, write_to, n) refl

  lookup-written :
      (fd : ℕ) (o : OpenFile) (r : ℕ) (i : Inode) (bytes : List ℕ) (v : Vfs F)
      → OpenOn fd o r i v
      → (j : ℕ)
      → fs.lookup j ((written fd o r bytes v).objects r)
        ≡ (if o.ino == j then some (overwrite o.position bytes i) else fs.lookup j (v.objects r))
  lookup-written fd o r i bytes v (g, m, l, f) j =
      rw (test_refl r) (laws.write_is (v.objects r) o.ino o.position bytes i l f j)

  OpenOn-written :
      (fd : ℕ) (o : OpenFile) (r : ℕ) (i : Inode) (bytes : List ℕ) (v : Vfs F)
      → OpenOn fd o r i v
      → OpenOn fd
          (advance (length bytes) o)
          r
          (overwrite o.position bytes i)
          (written fd o r bytes v)
  OpenOn-written fd o r i bytes v (g, m, l, f) = (
    get-moved fd (length bytes) o v.open_files g,
    fs_of-resolve fs o.path (written fd o r bytes v) ∙ sym (fs_of-resolve fs o.path v) ∙ m,
    lookup-written fd o r i bytes v (g, m, l, f) o.ino ∙ rw (test_refl o.ino) refl,
    f,
  )

  abbrev twice : ℕ → OpenFile → ℕ → List ℕ → List ℕ → Vfs F → Vfs F
  twice fd o r xs ys v = written fd (advance (length xs) o) r ys (written fd o r xs v)

  lookup-twice :
      (fd : ℕ) (o : OpenFile) (r : ℕ) (i : Inode) (xs ys : List ℕ) (v : Vfs F)
      → OpenOn fd o r i v
      → (j : ℕ)
      → fs.lookup j ((twice fd o r xs ys v).objects r)
        ≡ fs.lookup j ((written fd o r (xs ++ ys) v).objects r)
  lookup-twice fd o r i xs ys v h j =
      let second =
        lookup-written fd (advance (length xs) o) r (overwrite o.position xs i) ys
          (written fd o r xs v) (OpenOn-written fd o r i xs v h) j in
      let first = lookup-written fd o r i xs v h j in
      let whole = lookup-written fd o r i (xs ++ ys) v h j in
      second
      ∙ elim (Bool-cases (o.ino == j)) [
        | inl e ↦ rw (e) (ap some (overwrite-overwrite o.position xs ys i))
        | inr e ↦ rw (e) (first ∙ rw (e) refl)
      ]
      ∙ sym whole

  lookup-twice_everywhere :
      (fd : ℕ) (o : OpenFile) (r : ℕ) (i : Inode) (xs ys : List ℕ) (v : Vfs F)
      → OpenOn fd o r i v
      → (q j : ℕ)
      → fs.lookup j ((twice fd o r xs ys v).objects q)
        ≡ fs.lookup j ((written fd o r (xs ++ ys) v).objects q)
  lookup-twice_everywhere fd o r i xs ys v h q j = elim (Bool-cases (q == r)) [
    | inl e ↦
        let same = (nat_eq.test_iff q r).0 e in
        ap (λ z. fs.lookup j ((twice fd o r xs ys v).objects z)) same
        ∙ lookup-twice fd o r i xs ys v h j
        ∙ sym (ap (λ z. fs.lookup j ((written fd o r (xs ++ ys) v).objects z)) same)
    | inr e ↦ rw (e) refl
  ]

  write-twice :
      (fd : ℕ) (o : OpenFile) (r : ℕ) (i : Inode) (xs ys : List ℕ) (v : Vfs F)
      → OpenOn fd o r i v
      → write fs fd ys (write fs fd xs v).1 ≡ (pos (length ys), twice fd o r xs ys v)
  write-twice fd o r i xs ys v h =
      ap (λ x. write fs fd ys x.1) (write-OpenOn fd o r i xs v h)
      ∙ write-OpenOn fd (advance (length xs) o) r (overwrite o.position xs i) ys
          (written fd o r xs v) (OpenOn-written fd o r i xs v h)

  get-twice :
      (fd : ℕ) (o : OpenFile) (r : ℕ) (i : Inode) (xs ys : List ℕ) (v : Vfs F)
      → OpenOn fd o r i v
      → get fd (twice fd o r xs ys v).open_files ≡ get fd (written fd o r (xs ++ ys) v).open_files
  get-twice fd o r i xs ys v h =
      get-moved fd (length ys) (advance (length xs) o) (written fd o r xs v).open_files
        (get-moved fd (length xs) o v.open_files h.0)
      ∙ ap some (advance-advance (length xs) (length ys) o)
      ∙ ap (λ n. some (advance n o)) (sym (length-append xs ys))
      ∙ sym (get-moved fd (length (xs ++ ys)) o v.open_files h.0)

  -- Over any file system that does what the interface says: for a descriptor that is open on a path
  -- under a mount, with the number of a file, two writes through it, one after the other, report the
  -- numbers of bytes given; and they leave every inode of every file system, and the open file with
  -- its position, as one write of all the bytes leaves them.
  pub write-write :
      (fd : ℕ) (o : OpenFile) (r : ℕ) (i : Inode) (xs ys : List ℕ) (v : Vfs F)
      → OpenOn fd o r i v
      → ((write fs fd xs v).0 ≡ pos (length xs))
        × ((write fs fd ys (write fs fd xs v).1).0 ≡ pos (length ys))
        × ((q j : ℕ)
            → fs.lookup j ((write fs fd ys (write fs fd xs v).1).1.objects q)
              ≡ fs.lookup j ((write fs fd (xs ++ ys) v).1.objects q))
        × (get fd (write fs fd ys (write fs fd xs v).1).1.open_files
            ≡ get fd (write fs fd (xs ++ ys) v).1.open_files)
  write-write fd o r i xs ys v h =
      let one = write-OpenOn fd o r i xs v h in
      let two = write-twice fd o r i xs ys v h in
      let whole = write-OpenOn fd o r i (xs ++ ys) v h in
      (
        ap (λ x. x.0) one,
        ap (λ x. x.0) two,
        λ q j.
            ap (λ x. fs.lookup j (x.1.objects q)) two
            ∙ lookup-twice_everywhere fd o r i xs ys v h q j
            ∙ sym (ap (λ x. fs.lookup j (x.1.objects q)) whole),
        ap (λ x. get fd x.1.open_files) two
            ∙ get-twice fd o r i xs ys v h
            ∙ sym (ap (λ x. get fd x.1.open_files) whole),
      )

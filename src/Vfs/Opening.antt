-- ===== src/Vfs/Opening.antt =====
-- What `open` does: it returns, and it hands out the next descriptor or changes nothing.
use compute_kernel_python.Prelude.{
  ℕ, ◌+◌, String, ◌≡◌, refl, sym, ap, ◌∙◌, true, false, ◌&&◌, Option, none, some, ℤ, pos, arith,
  Bool-cases, Option-cases, inl, inr, ◌⊎◌,
}
use compute_kernel_python.Prelude.Eq.{nat_eq, string_eq}
use compute_kernel_python.Prelude.Dict.{get, put, has_key}
use compute_kernel_python.Filesystem.{Inode, is_dir, file, Filesystem, IsFilesystem}
use compute_kernel_python.Paths.{base_name}
use compute_kernel_python.Vfs.{
  no_entry, is_none, new_open_file, OpenFile, Vfs, resolve, open_file, register, register_made,
  make_in, open_at, wants_write,
}
use compute_kernel_python.Vfs.Issued.{
  AreIssued-put, SameFiles, IsValid, IsValid-SameFiles, Resolved-cases, Created-cases,
}

-- Nothing is found and nothing changes, or a descriptor is handed out.
abbrev pub Opens : {F : Type 0} → String → Vfs F → ℤ × Vfs F → Type 0
Opens path v (n, w) =
    ((n ≡ no_entry) × (w ≡ v))
    ⊎ ((n ≡ pos v.next_fd)
        × (w.next_fd ≡ v.next_fd + 1)
        × ((o : OpenFile) × (w.open_files ≡ put v.next_fd o v.open_files)
            × (o.fd ≡ v.next_fd)
            × (o.path ≡ path)))

abbrev MadeFrom : {F : Type 0} → Vfs F → Option (Inode × Vfs F) → Type 0
MadeFrom v none = Unit
MadeFrom v (some (i, u)) = SameFiles v u

abbrev pub OpensSome : {F : Type 0} → String → Vfs F → Option (ℤ × Vfs F) → Type 0
OpensSome path v none = Unit
OpensSome path v (some x) = Opens path v x

pub IsValid-Opens :
    {F : Type 0} (path : String) (v : Vfs F) (n : ℤ) (w : Vfs F)
    → Opens path v (n, w)
    → IsValid v
    → IsValid w
IsValid-Opens path v n w (inl (e, f)) i =
    IsValid-SameFiles v w (ap (λ u. u.next_fd) f, ap (λ u. u.open_files) f) i
IsValid-Opens path v n w (inr (e, k, (o, f, g, h))) i =
    let issued = AreIssued-put v.next_fd v.open_files o i.0 g i.1 in
    (
      ground (arith, k, i.0),
      λ fd x q. let p = issued fd x (ap (get fd) (sym f) ∙ q) in ground (arith, k, p),
    )

module _ {F : Type 0} (fs : Filesystem F) where
  register-Opens :
      (r : ℕ) (path flags : String) (i : Inode) (u v : Vfs F)
      → SameFiles v u
      → Opens path v (register fs r path flags (i, u))
  register-Opens r path flags i u v s =
      let (e, f) = s in
      let o = new_open_file u.next_fd path flags i (fs.fstype (u.objects r)) in
      inr (
        ap pos e,
        ap (λ n. n + 1) e,
        (o, ap (λ k. put k o u.open_files) e ∙ ap (put v.next_fd o) f, e, refl),
      )

  register_made-Opens :
      (r : ℕ) (path flags : String) (made : Option (Inode × Vfs F)) (v : Vfs F)
      → MadeFrom v made
      → OpensSome path v (register_made fs r path flags made)
  unfolding register_made
  register_made-Opens r path flags none v h = tt
  register_made-Opens r path flags (some (i, u)) v h = register-Opens r path flags i u v h

  make_in-MadeFrom :
      (r ino : ℕ) (i : Inode) (path : String) (v : Vfs F) → MadeFrom v (make_in fs r ino i path v)
  unfolding make_in
  make_in-MadeFrom r ino i path v =
      elim (Created-cases (fs.create ino (base_name path) file (v.objects r)).0) [
        | inl (j, e) ↦ rw (e, make_in) (refl, refl)
        | inr (inl e) ↦ rw (e, make_in) tt
        | inr (inr e) ↦ rw (e, make_in) (refl, refl)
      ]

  open_at-Opens :
      (r ino : ℕ) (path flags : String) (o : Option Inode) (v : Vfs F)
      → OpensSome path v (open_at fs r ino path flags o v)
  unfolding open_at
  open_at-Opens r ino path flags none v = inl (refl, refl)
  open_at-Opens r ino path flags (some i) v =
      elim (Bool-cases (wants_write flags && is_dir i.itype)) [
        | inl e ↦
            rw (e, open_at)
              (register_made-Opens r path flags (make_in fs r ino i path v) v
                (make_in-MadeFrom r ino i path v))
        | inr e ↦ rw (e, open_at) (register-Opens r path flags i v v (refl, refl))
      ]

  pub open_file-Opens :
      (path flags : String) (v : Vfs F) → OpensSome path v (open_file fs path flags v)
  unfolding open_file
  open_file-Opens path flags v = elim (Resolved-cases (resolve fs path v)) [
    | inl e ↦ rw (e, open_file) (inl (refl, refl))
    | inr (inl (r, e)) ↦ rw (e, open_file) (inl (refl, refl))
    | inr (inr (r, ino, e)) ↦
        rw (e, open_file) (open_at-Opens r ino path flags (fs.lookup ino (v.objects r)) v)
  ]

module _ {F : Type 0} (fs : Filesystem F) (laws : IsFilesystem fs) where
  make_in-returns :
      (r ino : ℕ) (i p : Inode) (path : String) (v : Vfs F)
      → fs.lookup ino (v.objects r) ≡ some p
      → is_dir p.itype ≡ true
      → is_none (make_in fs r ino i path v) ≡ false
  unfolding make_in
  make_in-returns r ino i p path v e d = elim (Bool-cases (has_key (base_name path) p.children)) [
    | inl k ↦
        let q = ap (λ x. x.0) (laws.create_taken (v.objects r) ino (base_name path) file p e d k) in
        rw (q, make_in) refl
    | inr k ↦
        let q = (laws.create_is (v.objects r) ino (base_name path) file p e d k).0 in
        rw (q, make_in) refl
  ]

  register_made-returns :
      (r : ℕ) (path flags : String) (made : Option (Inode × Vfs F))
      → is_none made ≡ false
      → is_none (register_made fs r path flags made) ≡ false
  unfolding register_made
  register_made-returns r path flags none h = absurd (cc)
  register_made-returns r path flags (some x) h = refl

  open_at-returns :
      (r ino : ℕ) (path flags : String) (v : Vfs F)
      → is_none (open_at fs r ino path flags (fs.lookup ino (v.objects r)) v) ≡ false
  unfolding open_at
  open_at-returns r ino path flags v = elim (Option-cases (fs.lookup ino (v.objects r))) [
    | inl e ↦ rw (e, open_at) refl
    | inr (i, e) ↦ elim (Bool-cases (wants_write flags && is_dir i.itype)) [
      | inl w ↦
          rw (e, open_at, w)
            (register_made-returns r path flags (make_in fs r ino i path v)
              (make_in-returns r ino i i path v e (ground (arith, w))))
      | inr w ↦ rw (e, open_at, w) refl
    ]
  ]

  open_file-returns :
      (path flags : String) (v : Vfs F) → is_none (open_file fs path flags v) ≡ false
  unfolding open_file
  open_file-returns path flags v = elim (Resolved-cases (resolve fs path v)) [
    | inl e ↦ rw (e, open_file) refl
    | inr (inl (r, e)) ↦ rw (e, open_file) refl
    | inr (inr (r, ino, e)) ↦ rw (e, open_file) (open_at-returns r ino path flags v)
  ]

  -- Over file systems that do what the interface says, `open` never lets an exception pass,
  -- whatever the path and the flags. Either it returns -2 and changes nothing, or it returns the
  -- next descriptor, moves the counter on by one, and adds an open file for the path under that
  -- descriptor to the open files.
  pub open_file_lem :
      (path flags : String) (v : Vfs F)
      → (x : ℤ × Vfs F) × (open_file fs path flags v ≡ some x) × Opens path v x
  open_file_lem path flags v = elim (Option-cases (open_file fs path flags v)) [
    | inl e ↦ absurd (ground (arith, e, open_file-returns path flags v))
    | inr (x, e) ↦ (x, e, rw e at (open_file-Opens fs path flags v))
  ]

-- ===== src/Vfs/Issued.antt =====
-- What is true of the open descriptors, and that the operations keep it true.
use compute_kernel_python.Prelude.{
  ℕ, ◌+◌, ◌≤◌, ◌<◌, String, ◌≡◌, refl, sym, ap, ◌∙◌, Option, none, some, false, List, [], ℤ, pos,
  negsuc, length, ltb, arith, Bool-cases, Option-cases, inl, inr, ◌⊎◌,
}
use compute_kernel_python.Prelude.Eq.{◌==◌, nat_eq, string_eq}
use compute_kernel_python.Prelude.Dict.{
  Dict, get, put, pop, adjust, has_key, get-put, get-pop, get-adjust, has_key-adjust, has_key-pop,
}
use compute_kernel_python.Filesystem.{Created, created, value_error, file_exists, Filesystem}
use compute_kernel_python.Vfs.{
  OpenFile, Vfs, Resolved, nowhere, absent, found, fs_of, advance, moved, resolve, read, write,
  close, mkdir, create_file, write_path, write_new, read_from, write_to,
}

-- A descriptor stands under its own number, which is at least 3 and was handed out already.
abbrev pub AreIssued : ℕ → Dict ℕ OpenFile → Type 0
AreIssued next d =
    (fd : ℕ) (o : OpenFile) → get fd d ≡ some o → (3 ≤ fd) × (fd < next) × (o.fd ≡ fd)

pub AreIssued-none : (next : ℕ) → AreIssued next []
unfolding get
AreIssued-none next fd o e = absurd (cc)

pub AreIssued-put :
    (next : ℕ) (d : Dict ℕ OpenFile) (o : OpenFile)
    → 3 ≤ next
    → o.fd ≡ next
    → AreIssued next d
    → AreIssued (next + 1) (put next o d)
AreIssued-put next d o h e all fd x g = elim (Bool-cases (next == fd)) [
  | inl c ↦ ground (arith, get-put next fd o d)
  | inr c ↦ let p = all fd x (ground (arith, get-put next fd o d)) in ground (arith, p)
]

AreIssued-pop : (next k : ℕ) (d : Dict ℕ OpenFile) → AreIssued next d → AreIssued next (pop k d)
AreIssued-pop next k d all fd x g = all fd x (ground (arith, get-pop k fd d))

AreIssued-advance :
    (next k n : ℕ) (d : Dict ℕ OpenFile)
    → AreIssued next d
    → AreIssued next (adjust k (advance n) d)
AreIssued-advance next k n d all fd x g = elim (Option-cases (get fd d)) [
  | inl e ↦ absurd (ground (arith, get-adjust k fd (advance n) d))
  | inr (o, e) ↦ let p = all fd o e in ground (arith, p, get-adjust k fd (advance n) d)
]

AreIssued-moved :
    (next k : ℕ) (n : ℤ) (d : Dict ℕ OpenFile) → AreIssued next d → AreIssued next (moved k n d)
AreIssued-moved next k (pos n) d all = elim (Bool-cases (ltb 0 n)) [
  | inl e ↦ rw e (AreIssued-advance next k n d all)
  | inr e ↦ rw e all
]
AreIssued-moved next k (negsuc n) d all = all

-- What can be the case of a path.
pub Resolved-cases :
    (x : Resolved)
    → (x ≡ nowhere) ⊎ (((r : ℕ) × (x ≡ absent r)) ⊎ ((r ino : ℕ) × (x ≡ found r ino)))
Resolved-cases nowhere = inl refl
Resolved-cases (absent r) = inr (inl (r, refl))
Resolved-cases (found r ino) = inr (inr (r, ino, refl))

pub Created-cases :
    (x : Created) → ((j : ℕ) × (x ≡ created j)) ⊎ ((x ≡ value_error) ⊎ (x ≡ file_exists))
Created-cases (created j) = inl (j, refl)
Created-cases value_error = inr (inl refl)
Created-cases file_exists = inr (inr refl)

abbrev pub IsValid : {F : Type 0} → Vfs F → Type 0
IsValid v = (3 ≤ v.next_fd) × AreIssued v.next_fd v.open_files

-- What is the same before and after a call that opens and closes nothing.
abbrev pub SameFiles : {F : Type 0} → Vfs F → Vfs F → Type 0
SameFiles v w = (w.next_fd ≡ v.next_fd) × (w.open_files ≡ v.open_files)

pub IsValid-SameFiles : {F : Type 0} (v w : Vfs F) → SameFiles v w → IsValid v → IsValid w
IsValid-SameFiles v w s h = (
  rw (s.0) (h.0),
  λ fd o g. let p = h.1 fd o (ap (get fd) (sym s.1) ∙ g) in ground (arith, p, s.0),
)

module _ {F : Type 0} (fs : Filesystem F) where
  pub mkdir-SameFiles : (path : String) (v : Vfs F) → SameFiles v (mkdir fs path v).1
  unfolding mkdir
  mkdir-SameFiles path v = ground arith

  pub create_file-SameFiles :
      (path : String) (bytes : List ℕ) (v : Vfs F) → SameFiles v (create_file fs path bytes v).1
  unfolding create_file
  create_file-SameFiles path bytes v = ground arith

  pub write_path-SameFiles :
      (path : String) (bytes : List ℕ) (v : Vfs F) → SameFiles v (write_path fs path bytes v).1
  unfolding write_path write_new
  write_path-SameFiles path bytes v = ground (arith, create_file-SameFiles path bytes v)

  pub close-IsValid : (fd : ℕ) (v : Vfs F) → IsValid v → IsValid (close fs fd v).1
  unfolding close
  close-IsValid fd v h = elim (Bool-cases (has_key fd v.open_files)) [
    | inl e ↦ rw e (h.0, AreIssued-pop v.next_fd fd v.open_files h.1)
    | inr e ↦ rw e h
  ]

  read_from-IsValid :
      (fd : ℕ) (o : OpenFile) (size : ℕ) (r : Option ℕ) (v : Vfs F)
      → IsValid v
      → IsValid (read_from fs fd o size r v).1
  unfolding read_from
  read_from-IsValid fd o size none v h = h
  read_from-IsValid fd o size (some r) v h = (
    h.0,
    AreIssued-advance v.next_fd fd (length (fs.read o.ino o.position size (v.objects r)))
        v.open_files h.1,
  )

  pub read-IsValid : (fd size : ℕ) (v : Vfs F) → IsValid v → IsValid (read fs fd size v).1
  unfolding read
  read-IsValid fd size v h = elim (Option-cases (get fd v.open_files)) [
    | inl e ↦ rw (e, read) h
    | inr (o, e) ↦ rw (e, read) (read_from-IsValid fd o size (fs_of (resolve fs o.path v)) v h)
  ]

  write_to-IsValid :
      (fd : ℕ) (o : OpenFile) (bytes : List ℕ) (r : Option ℕ) (v : Vfs F)
      → IsValid v
      → IsValid (write_to fs fd o bytes r v).1
  unfolding write_to
  write_to-IsValid fd o bytes none v h = h
  write_to-IsValid fd o bytes (some r) v h = (
    h.0,
    AreIssued-moved v.next_fd fd (fs.write o.ino o.position bytes (v.objects r)).0 v.open_files h.1,
  )

  pub write-IsValid :
      (fd : ℕ) (bytes : List ℕ) (v : Vfs F) → IsValid v → IsValid (write fs fd bytes v).1
  unfolding write
  write-IsValid fd bytes v h = elim (Option-cases (get fd v.open_files)) [
    | inl e ↦ rw (e, write) h
    | inr (o, e) ↦ rw (e, write) (write_to-IsValid fd o bytes (fs_of (resolve fs o.path v)) v h)
  ]

  has_key-moved : (k fd : ℕ) (n : ℤ) (d : Dict ℕ OpenFile) → has_key k (moved fd n d) ≡ has_key k d
  has_key-moved k fd (pos n) d = ground (arith, has_key-adjust fd k (advance n) d)
  has_key-moved k fd (negsuc n) d = refl

  -- Reading and writing open and close nothing.
  pub has_key-read :
      (k fd size : ℕ) (v : Vfs F)
      → has_key k (read fs fd size v).1.open_files ≡ has_key k v.open_files
  unfolding read read_from
  has_key-read k fd size v = elim (Option-cases (get fd v.open_files)) [
    | inl e ↦ rw (read, e) refl
    | inr (o, e) ↦ elim (Option-cases (fs_of (resolve fs o.path v))) [
      | inl q ↦ rw (read, e, read_from, q) refl
      | inr (r, q) ↦
          rw (read, e, read_from, q)
            (has_key-adjust fd k (advance (length (fs.read o.ino o.position size (v.objects r))))
              v.open_files)
    ]
  ]

  pub has_key-write :
      (k fd : ℕ) (bytes : List ℕ) (v : Vfs F)
      → has_key k (write fs fd bytes v).1.open_files ≡ has_key k v.open_files
  unfolding write write_to
  has_key-write k fd bytes v = elim (Option-cases (get fd v.open_files)) [
    | inl e ↦ rw (write, e) refl
    | inr (o, e) ↦ elim (Option-cases (fs_of (resolve fs o.path v))) [
      | inl q ↦ rw (write, e, write_to, q) refl
      | inr (r, q) ↦
          rw (write, e, write_to, q)
            (has_key-moved k fd (fs.write o.ino o.position bytes (v.objects r)).0 v.open_files)
    ]
  ]

  pub has_key-close_other :
      (k fd : ℕ) (v : Vfs F)
      → (fd == k) ≡ false
      → has_key k (close fs fd v).1.open_files ≡ has_key k v.open_files
  unfolding close
  has_key-close_other k fd v other = elim (Bool-cases (has_key fd v.open_files)) [
    | inl e ↦ rw e (has_key-pop fd k v.open_files ∙ rw other refl)
    | inr e ↦ rw e refl
  ]

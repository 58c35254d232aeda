-- ===== src/Syscall/Dispatch/Private.antt =====
-- Which process has which descriptor, over runs of system calls.
use compute_kernel_python.Prelude.{
  ℕ, ◌<◌, ◌≡◌, refl, sym, ap, ◌∙◌, String, true, false, ◌||◌, ◌&&◌, ◌⊎◌, Option, none, some, [],
  pos, arith, Bool-cases, Option-cases, inl, inr,
}
use compute_kernel_python.Prelude.Eq.{◌==◌, nat_eq}
use compute_kernel_python.Prelude.Dict.{
  get, put, pop, adjust, has_key, get-adjust, has_key-put, has_key-pop, has_key-none,
}
use compute_kernel_python.Process.{Process, close_fd}
use compute_kernel_python.Filesystem.{Filesystem}
use compute_kernel_python.Vfs
use compute_kernel_python.Vfs.{Vfs, OpenFile, open_file, moved, advance}
use compute_kernel_python.Vfs.Issued.{IsValid, close-IsValid, has_key-close_other}
use compute_kernel_python.Vfs.Opening.{Opens, IsValid-Opens}
use compute_kernel_python.Syscall.Dispatch.{set_entry, drop_entry}
use compute_kernel_python.Syscall.Dispatch.Inherits.{Files, Processes, Inherits}

-- Every descriptor of a process is open in the VFS, and no other process has it.
pub record IsPrivate {F : Type 0} (d : Processes) (v : Vfs F) : Type 0 where
  pub valid : IsValid v
  pub backed :
      (pid : ℕ) (p : Process) (fd : ℕ)
      → get pid d ≡ some p
      → has_key fd p.fdt.table ≡ true
      → has_key fd v.open_files ≡ true
  pub alone :
      (pid qid : ℕ) (p q : Process) (fd : ℕ)
      → get pid d ≡ some p
      → get qid d ≡ some q
      → has_key fd p.fdt.table ≡ true
      → has_key fd q.fdt.table ≡ true
      → pid ≡ qid

nothing_at : (fd : ℕ) → has_key {V = String × String} fd [] ≡ true → ⊥
unfolding has_key
nothing_at fd h = cc

-- Where a process has its descriptor from.
inherited :
    (d e : Processes) (k fd : ℕ) (q : Process)
    → Inherits d e
    → get k e ≡ some q
    → has_key fd q.fdt.table ≡ true
    → (p : Process) × (get k d ≡ some p) × (has_key fd p.fdt.table ≡ true)
inherited d e k fd q i at h = elim (i k q at) [
  | inl empty ↦ absurd (nothing_at fd (sym (ap (has_key fd) empty) ∙ h))
  | inr (p, was, same) ↦ (p, was, sym (ap (has_key fd) same) ∙ h)
]

-- What `openat` and `close` do to the table of one process.
entry_put :
    (d : Processes) (pid k fd new : ℕ) (entry : String × String) (q : Process)
    → get k (adjust pid (set_entry new entry) d) ≡ some q
    → has_key fd q.fdt.table ≡ true
    → ((pid ≡ k) × (new ≡ fd))
      ⊎ ((p : Process) × (get k d ≡ some p) × (has_key fd p.fdt.table ≡ true))
entry_put d pid k fd new entry q at h = elim (Option-cases (get k d)) [
  | inl e ↦ absurd (ground (arith, at, e, get-adjust pid k (set_entry new entry) d))
  | inr (p, e) ↦ elim (Bool-cases (pid == k)) [
    | inl same ↦
        let files : q.fdt.table ≡ put new entry p.fdt.table =
          ground (arith, at, e, same, get-adjust pid k (set_entry new entry) d) in
        elim (Bool-cases (new == fd)) [
          | inl n ↦ inl ((nat_eq.test_iff pid k).0 same, (nat_eq.test_iff new fd).0 n)
          | inr n ↦ inr (
            p,
            e,
            ground
                (arith, n, has_key-put new fd entry p.fdt.table, sym (ap (has_key fd) files) ∙ h),
          )
        ]
    | inr other ↦
        let files : q.fdt.table ≡ p.fdt.table =
          ground (arith, at, e, other, get-adjust pid k (set_entry new entry) d) in
        inr (p, e, sym (ap (has_key fd) files) ∙ h)
  ]
]

dropped_files :
    (fd f : ℕ) (p : Process)
    → has_key f (drop_entry fd p).fdt.table ≡ true
    → (has_key f p.fdt.table ≡ true) × ((fd == f) ≡ false)
unfolding close_fd
dropped_files fd f p h = elim (Bool-cases (has_key fd p.fdt.table)) [
  | inl there ↦
      let k : has_key f (pop fd p.fdt.table) ≡ true = rw there at h in
      ground (arith, k, has_key-pop fd f p.fdt.table)
  | inr missing ↦
      let k : has_key f p.fdt.table ≡ true = rw missing at h in (k, not_same fd f p missing k)
]
  where
    not_same :
        (fd f : ℕ) (p : Process)
        → has_key fd p.fdt.table ≡ false
        → has_key f p.fdt.table ≡ true
        → (fd == f) ≡ false
    not_same fd f p m k = elim (Bool-cases (fd == f)) [
      | inl e ↦
          let same = (nat_eq.test_iff fd f).0 e in
          absurd (ground (arith, m, k, ap (λ x. has_key x p.fdt.table) same))
      | inr e ↦ e
    ]

abbrev files_of : Option Process → Files
files_of none = []
files_of (some p) = p.fdt.table

entry_drop :
    (d : Processes) (pid k fd f : ℕ) (q : Process)
    → get k (adjust pid (drop_entry fd) d) ≡ some q
    → has_key f q.fdt.table ≡ true
    → (p : Process) × (get k d ≡ some p)
      × (has_key f p.fdt.table ≡ true)
      × (((pid == k) && (fd == f)) ≡ false)
entry_drop d pid k fd f q at h = elim (Option-cases (get k d)) [
  | inl e ↦ absurd (ground (arith, at, e, get-adjust pid k (drop_entry fd) d))
  | inr (p, e) ↦ elim (Bool-cases (pid == k)) [
    | inl same ↦
        let there : some q ≡ some (drop_entry fd p) =
          sym at ∙ get-adjust pid k (drop_entry fd) d ∙ rw (same, e) refl in
        let (had, other) =
          dropped_files fd f p (sym (ap (λ o. has_key f (files_of o)) there) ∙ h) in
        (p, e, had, rw (same, other) refl)
    | inr other ↦
        let files : q.fdt.table ≡ p.fdt.table =
          ground (arith, at, e, other, get-adjust pid k (drop_entry fd) d) in
        (p, e, sym (ap (has_key f) files) ∙ h, rw other refl)
  ]
]

module _ {F : Type 0} where
  pub IsPrivate-Inherits :
      (d e : Processes) (v : Vfs F) → Inherits d e → IsPrivate d v → IsPrivate e v
  IsPrivate-Inherits d e v i s = record {
    valid = s.valid;
    backed = λ pid p fd at h.
        let (o, was, has) = inherited d e pid fd p i at h in s.backed pid o fd was has;
    alone = λ pid qid p q fd at bt h k.
        let (o, was, has) = inherited d e pid fd p i at h in
        let (r, was', has') = inherited d e qid fd q i bt k in
        s.alone pid qid o r fd was was' has has';
  }

  -- A change of the VFS that opens and closes nothing.
  pub IsPrivate-keys :
      (d : Processes) (v w : Vfs F)
      → IsValid w
      → ((fd : ℕ) → has_key fd w.open_files ≡ has_key fd v.open_files)
      → IsPrivate d v
      → IsPrivate d w
  IsPrivate-keys d v w valid same s = record {
    valid = valid;
    backed = λ pid p fd at h. same fd ∙ s.backed pid p fd at h;
    alone = s.alone;
  }

  has_key-issued :
      (v : Vfs F) (fd : ℕ) → IsValid v → has_key fd v.open_files ≡ true → fd < v.next_fd
  has_key-issued v fd valid h = elim (Option-cases (get fd v.open_files)) [
    | inl e ↦ absurd (ground (arith, h, has_key-none fd v.open_files e))
    | inr (o, e) ↦ (valid.1 fd o e).1
  ]

  -- A process gets the descriptor that `open` has just handed out.
  pub IsPrivate-open :
      (pid : ℕ) (entry : String × String) (path : String) (fd : ℕ) (d : Processes) (v w : Vfs F)
      → Opens path v (pos fd, w)
      → IsPrivate d v
      → IsPrivate (adjust pid (set_entry fd entry) d) w
  IsPrivate-open pid entry path fd d v w (inl (e, f)) s = absurd (ground (arith, e))
  IsPrivate-open pid entry path fd d v w (inr (e, n, (o, files, same, at))) s =
      let is_next : fd ≡ v.next_fd = ground (arith, e) in
      let keys : (f : ℕ) → has_key f w.open_files ≡ (v.next_fd == f || has_key f v.open_files) =
        λ f. ap (has_key f) files ∙ has_key-put v.next_fd f o v.open_files in
      let free : (k f : ℕ) (p : Process)
          → get k d ≡ some p
          → has_key f p.fdt.table ≡ true
          → f < v.next_fd =
        λ k f p a h. has_key-issued v f s.valid (s.backed k p f a h) in
      record {
        valid = IsValid-Opens path v (pos fd) w (inr (e, n, (o, files, same, at))) s.valid;
        backed = λ k q f a h. elim (entry_put d pid k f fd entry q a h) [
          | inl (mine, is) ↦ keys f ∙ ground (arith, is, is_next)
          | inr (p, b, g) ↦ keys f ∙ ground (arith, s.backed k p f b g)
        ];
        alone = λ k l q r f a b g h. elim (entry_put d pid k f fd entry q a g) [
          | inl (mine, is) ↦ elim (entry_put d pid l f fd entry r b h) [
            | inl (mine', is') ↦ sym mine ∙ mine'
            | inr (p, c, j) ↦ absurd (omega (arith, is, is_next, free l f p c j))
          ]
          | inr (p, c, j) ↦ elim (entry_put d pid l f fd entry r b h) [
            | inl (mine, is) ↦ absurd (omega (arith, is, is_next, free k f p c j))
            | inr (p', c', j') ↦ s.alone k l p p' f c c' j j'
          ]
        ];
      }

  module _ (fs : Filesystem F) where
    -- A process gives up a descriptor that it has.
    pub IsPrivate-close :
        (pid fd : ℕ) (o : Process) (d : Processes) (v : Vfs F)
        → get pid d ≡ some o
        → has_key fd o.fdt.table ≡ true
        → IsPrivate d v
        → IsPrivate (adjust pid (drop_entry fd) d) (Vfs.close fs fd v).1
    IsPrivate-close pid fd o d v mine has s = record {
      valid = close-IsValid fs fd v s.valid;
      backed = λ k q f a h.
          let (p, b, g, other) = entry_drop d pid k fd f q a h in
          elim (Bool-cases (fd == f)) [
            | inl same ↦
                let is = (nat_eq.test_iff fd f).0 same in
                let owner =
                  s.alone pid k o p f mine b (ap (λ x. has_key x o.fdt.table) (sym is) ∙ has) g in
                absurd (ground (arith, other, same, owner))
            | inr differs ↦ has_key-close_other fs f fd v differs ∙ s.backed k p f b g
          ];
      alone = λ k l q r f a b g h.
          let (p, c, j, other) = entry_drop d pid k fd f q a g in
          let (p', c', j', other') = entry_drop d pid l fd f r b h in s.alone k l p p' f c c' j j';
    }

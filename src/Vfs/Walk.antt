-- ===== src/Vfs/Walk.antt =====
-- Paths on a VFS whose one mount is `/`, and how the file system below may grow without a path
-- leading elsewhere.
use compute_kernel_python.Prelude.{
  ℕ, String, ◌≡◌, refl, sym, ap, ◌∙◌, true, false, ◌||◌, Option, none, some, List, [], ◌∷◌, ◌++◌,
  arith, Bool-cases, Option-cases, inl, inr,
}
use compute_kernel_python.Prelude.Eq.{◌==◌, nat_eq, string_eq}
use compute_kernel_python.Prelude.Dict.{get}
use compute_kernel_python.Filesystem.{Inode, is_dir, entry_of, follow, Filesystem, IsFilesystem}
use compute_kernel_python.Paths.{is_empty, text_length, drop_text, parts, or_root}
use compute_kernel_python.Paths.Names.{AreNames, path_of, parts-drop_text}
use compute_kernel_python.Vfs.{
  MountPoint, Vfs, nowhere, found, find_mount, walk, landed, resolve_in, resolve, stat,
}

-- One file system, at `/`.
abbrev pub root_mount : ℕ → String → MountPoint
root_mount r source = record { path = "/"; fs = r; source = source }

-- What growth keeps of an inode: all but the size, and the entries that a directory has.
abbrev pub Kept : Inode → Inode → Type 0
Kept i j =
    (j.itype ≡ i.itype)
    × (j.ino ≡ i.ino)
    × (j.content ≡ i.content)
    × ((name : String) (c : ℕ) → get name i.children ≡ some c → get name j.children ≡ some c)

nowhere_is : (r j : ℕ) → nowhere ≡ found r j → ⊥
nowhere_is r j h = cc

some_number : {a b : ℕ} → some a ≡ some b → b ≡ a
some_number h = ground (arith, h)

nothing_is : (d : ℕ) → none ≡ some d → ⊥
nothing_is d h = cc

slash_part : (n : String) (ns : List String) → parts "/" ≡ n ∷ ns → ⊥
slash_part n ns e = cc

is_below :
    (rel n : String) (ns : List String) → parts rel ≡ n ∷ ns → (is_empty rel || rel == "/") ≡ false
is_below String.[] n ns e = absurd (cc)
is_below (String.◌∷◌ c s) n ns e = elim (Bool-cases (String.◌∷◌ c s == "/")) [
  | inl q ↦
      absurd (slash_part n ns (ap parts (sym ((string_eq.test_iff (String.◌∷◌ c s) "/").0 q)) ∙ e))
  | inr q ↦ q
]

pub walk_found : (o : Option ℕ) (r q j : ℕ) → landed r o ≡ found q j → (r ≡ q) × (o ≡ some j)
walk_found none r q j e = absurd (cc)
walk_found (some k) r q j e = ground (arith, e)

module _ {F : Type 0} (fs : Filesystem F) where
  abbrev pub OnlyRoot : ℕ → String → Vfs F → Type 0
  OnlyRoot r source v = v.mounts ≡ root_mount r source ∷ []

  -- Every inode is still there with what growth keeps of it.
  abbrev pub Grown : F → F → Type 0
  Grown s t =
      (j : ℕ) (i : Inode)
      → fs.lookup j s ≡ some i
      → (k : Inode) × (fs.lookup j t ≡ some k) × Kept i k

  pub find_mount-root :
      (ns : List String) (r : ℕ) (source : String)
      → find_mount (root_mount r source ∷ []) (or_root (path_of ns)) none
        ≡ some (root_mount r source)
  unfolding find_mount
  find_mount-root [] r source = refl
  find_mount-root (n ∷ ns) r source = ground arith

  resolve_in-names :
      (ns : List String) (r : ℕ) (source : String) (v : Vfs F)
      → AreNames ns
      → resolve_in fs (root_mount r source) (or_root (path_of ns)) v
        ≡ landed r (walk fs ns (fs.root_ino (v.objects r)) (v.objects r))
  unfolding resolve_in walk
  resolve_in-names [] r source v h = refl
  resolve_in-names (n ∷ ns) r source v h =
      let q = parts-drop_text n ns h in
      rw (resolve_in, is_below (drop_text 1 (path_of (n ∷ ns))) n ns q, q) refl

  -- A path of names leads where following the names from the root leads.
  pub resolve-path_of :
      (ns : List String) (r : ℕ) (source : String) (v : Vfs F)
      → OnlyRoot r source v
      → AreNames ns
      → resolve fs (or_root (path_of ns)) v
        ≡ landed r (walk fs ns (fs.root_ino (v.objects r)) (v.objects r))
  unfolding resolve
  resolve-path_of ns r source v o h =
      rw (o, resolve, find_mount-root ns r source) (resolve_in-names ns r source v h)

  pub walk-append :
      (ns ms : List String) (k d : ℕ) (f : F)
      → walk fs ns k f ≡ some d
      → walk fs (ns ++ ms) k f ≡ walk fs ms d f
  unfolding walk
  walk-append [] ms k d f h = cc
  walk-append (n ∷ ns) ms k d f h = elim (Option-cases (fs.lookup_name k n f)) [
    | inl e ↦ absurd (ground (arith, e))
    | inr (c, e) ↦ rw (e, walk) (walk-append ns ms c.ino d f (rw (e, walk) at h))
  ]

  -- What a successful lookup of a name goes through.
  found_by :
      (k : ℕ) (n : String) (c : Inode) (s : F)
      → follow (λ j. fs.lookup j s) (entry_of n (fs.lookup k s)) ≡ some c
      → (i : Inode) × (fs.lookup k s ≡ some i)
        × (is_dir i.itype ≡ true)
        × ((x : ℕ) × (get n i.children ≡ some x) × (fs.lookup x s ≡ some c))
  found_by k n c s h = elim (Option-cases (fs.lookup k s)) [
    | inl e ↦ absurd (ground (arith, e))
    | inr (i, e) ↦ elim (Bool-cases (is_dir i.itype)) [
      | inl d ↦ elim (Option-cases (get n i.children)) [
        | inl q ↦ absurd (ground (arith, e, d, q))
        | inr (x, q) ↦ (i, e, d, (x, q, (rw (e, d, q) at h)))
      ]
      | inr d ↦ absurd (ground (arith, e, d))
    ]
  ]

  pub to_found :
      (k : ℕ) (n : String) (x : ℕ) (i c : Inode) (s : F)
      → fs.lookup k s ≡ some i
      → is_dir i.itype ≡ true
      → get n i.children ≡ some x
      → fs.lookup x s ≡ some c
      → follow (λ j. fs.lookup j s) (entry_of n (fs.lookup k s)) ≡ some c
  to_found k n x i c s e d q l = rw (e, d, q) l

  -- A name that is found in a directory is still found there.
  lookup_name-Grown :
      (k : ℕ) (n : String) (c : Inode) (s t : F)
      → IsFilesystem fs
      → Grown s t
      → fs.lookup_name k n s ≡ some c
      → (x : Inode) × (fs.lookup_name k n t ≡ some x) × (x.ino ≡ c.ino)
  lookup_name-Grown k n c s t laws g h =
      let (i, e, d, (x, q, l)) = found_by k n c s (sym (laws.lookup_name_is s k n) ∙ h) in
      let (i', e', (same_type, same_ino, same_content, same_entries)) = g k i e in
      let (x', l', (same_kind, ino_same, same_bytes, same_names)) = g x c l in
      (
        x',
        laws.lookup_name_is t k n
            ∙ to_found k n x i' x' t e' (ap is_dir same_type ∙ d) (same_entries n x q) l',
        ino_same,
      )

  pub walk-Grown :
      (ns : List String) (k d : ℕ) (s t : F)
      → IsFilesystem fs
      → Grown s t
      → walk fs ns k s ≡ some d
      → walk fs ns k t ≡ some d
  unfolding walk
  walk-Grown [] k d s t laws g h = h
  walk-Grown (n ∷ ns) k d s t laws g h = elim (Option-cases (fs.lookup_name k n s)) [
    | inl e ↦ absurd (nothing_is d (rw (e, walk) at h))
    | inr (c, e) ↦
        let (x, q, f) = lookup_name-Grown k n c s t laws g e in
        rw (q, walk, f) (walk-Grown ns c.ino d s t laws g (rw (e, walk) at h))
  ]

  lookup_at : F → Option ℕ → Option Inode
  lookup_at s none = none
  lookup_at s (some k) = fs.lookup k s

  walk-exists :
      (ns : List String) (k j : ℕ) (i : Inode) (s : F) (laws : IsFilesystem fs)
      → laws.Good s
      → fs.lookup k s ≡ some i
      → walk fs ns k s ≡ some j
      → (x : Inode) × (fs.lookup j s ≡ some x)
  unfolding walk lookup_at
  walk-exists [] k j i s laws good e h = (i, ap (λ o. lookup_at s o) (sym h) ∙ e)
  walk-exists (n ∷ ns) k j i s laws good e h = elim (Option-cases (fs.lookup_name k n s)) [
    | inl q ↦ absurd (nothing_is j (rw (q, walk) at h))
    | inr (c, q) ↦
        let (p, l, d, (x, g, m)) = found_by k n c s (sym (laws.lookup_name_is s k n) ∙ q) in
        walk-exists ns c.ino j c s laws good (ap (λ y. fs.lookup y s) (laws.named s x c good m) ∙ m)
          (rw (q, walk) at h)
  ]

  resolve_in-exists :
      (laws : IsFilesystem fs) (m : MountPoint) (path : String) (v : Vfs F) (r j : ℕ)
      → laws.Good (v.objects r)
      → resolve_in fs m path v ≡ found r j
      → (i : Inode) × (fs.lookup j (v.objects r) ≡ some i)
  unfolding resolve_in
  resolve_in-exists laws m path v r j good e =
      let rel = drop_text (text_length m.path) path in
      elim (Bool-cases (is_empty rel || rel == "/")) [
        | inl c ↦
            let (a, b) =
              walk_found (some (fs.root_ino (v.objects m.fs))) m.fs r j (rw (resolve_in, c) at e) in
            let (i, l, d) = laws.rooted (v.objects r) good in
            (
              i,
              ap (λ k. fs.lookup k (v.objects r))
                    (some_number (ap (λ q. some (fs.root_ino (v.objects q))) (sym a) ∙ b))
                  ∙ l,
            )
        | inr c ↦
            let (a, b) =
              walk_found (walk fs (parts rel) (fs.root_ino (v.objects m.fs)) (v.objects m.fs)) m.fs
                r j (rw (resolve_in, c) at e) in
            let (i, l, d) = laws.rooted (v.objects r) good in
            walk-exists (parts rel) (fs.root_ino (v.objects r)) j i (v.objects r) laws good l
              (ap (λ q. walk fs (parts rel) (fs.root_ino (v.objects q)) (v.objects q)) (sym a) ∙ b)
      ]

  -- Over file systems that do what the interface says and are as their operations leave them, with
  -- any mounts: where path resolution gives an inode number, there is an inode at that number, it
  -- carries that number, and `stat` returns it.
  pub stat-resolve :
      (laws : IsFilesystem fs) (path : String) (v : Vfs F) (r j : ℕ)
      → laws.Good (v.objects r)
      → resolve fs path v ≡ found r j
      → (i : Inode) × (stat fs path v ≡ some i) × (i.ino ≡ j)
  unfolding stat resolve
  stat-resolve laws path v r j good e = elim (Option-cases (find_mount v.mounts path none)) [
    | inl q ↦ absurd (nowhere_is r j (rw (q, resolve) at e))
    | inr (m, q) ↦
        let (i, l) = resolve_in-exists laws m path v r j good (rw (q, resolve) at e) in
        (i, rw (e, stat) l, laws.named (v.objects r) j i good l)
  ]

-- ===== src/Tmpfs/Tree.antt =====
-- The tree of directories: what `create` adds, and what every sequence of calls keeps.
use compute_kernel_python.Prelude.{
  ℕ, ◌<◌, String, ◌≡◌, refl, true, false, none, some, [], if◌then◌else◌, arith, Option-cases,
  Bool-cases, inl, inr,
}
use mathlib.Core.Option
use compute_kernel_python.Prelude.Eq.{◌==◌, nat_eq, string_eq}
use compute_kernel_python.Prelude.Dict.{
  adjust, get, has_key, get-put, get-adjust, has_key-get, has_key-none,
}
use compute_kernel_python.Filesystem.{
  InodeType, is_dir, Inode, new_inode, created, value_error, file_exists, add_entry,
}
use compute_kernel_python.Tmpfs.{Tmpfs, init, lookup_name, make_child, create}

-- Every inode stands at its own number, below the next one, and every entry of a directory leads to
-- an inode.
pub record IsValid (s : Tmpfs) : Type 0 where
  pub named : (k : ℕ) (i : Inode) → get k s.inodes ≡ some i → i.ino ≡ k
  pub below : (k : ℕ) (i : Inode) → get k s.inodes ≡ some i → k < s.next_ino
  pub entries :
      (k c : ℕ) (i : Inode) (name : String)
      → get k s.inodes ≡ some i
      → get name i.children ≡ some c
      → has_key c s.inodes ≡ true

pub init-IsValid : IsValid init
unfolding get
init-IsValid = record {
  named = λ k i h. ground arith;
  below = λ k i h. ground arith;
  entries = λ k c i name h g. absurd (ground arith);
}

get-nothing : (n : String) → get {V = ℕ} n [] ≡ none
unfolding get
get-nothing n = refl

pub unused : (s : Tmpfs) → IsValid s → get s.next_ino s.inodes ≡ none
unused s v = elim (Option-cases (get s.next_ino s.inodes)) [
  | inl e ↦ e
  | inr (i, e) ↦ absurd (omega (arith, v.below s.next_ino i e))
]

module _ (parent_ino : ℕ) (name : String) (itype : InodeType) (s : Tmpfs) where
  abbrev after : Tmpfs
  after = make_child parent_ino name itype s

  abbrev fresh : Inode
  fresh = new_inode s.next_ino itype 420

  pub get-make_child :
      (k : ℕ)
      → get k after.inodes ≡ (
          if s.next_ino == k
          then some fresh
          else if parent_ino == k
          then Option.map (add_entry name s.next_ino) (get k s.inodes)
          else get k s.inodes)
  get-make_child k = ground (
    arith,
    get-adjust parent_ino k (add_entry name s.next_ino) s.inodes,
    get-put s.next_ino k fresh (adjust parent_ino (add_entry name s.next_ino) s.inodes),
  )

  keeps_keys : (k : ℕ) → has_key k s.inodes ≡ true → has_key k after.inodes ≡ true
  keeps_keys k h = elim (Option-cases (get k s.inodes)) [
    | inl e ↦ absurd (ground (arith, has_key-none k s.inodes e))
    | inr (i, e) ↦ elim (Option-cases (get k after.inodes)) [
      | inl e' ↦ absurd (ground (arith, get-make_child k))
      | inr (i', e') ↦ has_key-get k i' after.inodes e'
    ]
  ]

  has_fresh : has_key s.next_ino after.inodes ≡ true
  has_fresh = elim (Option-cases (get s.next_ino after.inodes)) [
    | inl e ↦ absurd (ground (arith, get-make_child s.next_ino))
    | inr (i, e) ↦ has_key-get s.next_ino i after.inodes e
  ]

  pub make_child-IsValid :
      (p : Inode) → get parent_ino s.inodes ≡ some p → IsValid s → IsValid after
  make_child-IsValid p e v = record {
    named = λ k i h. elim (Option-cases (get k s.inodes)) [
      | inl gone ↦ ground (arith, get-make_child k)
      | inr (w, there) ↦ ground (arith, get-make_child k, v.named k w there, v.below k w there)
    ];
    below = λ k i h. elim (Option-cases (get k s.inodes)) [
      | inl gone ↦ ground (arith, get-make_child k)
      | inr (w, there) ↦ ground (arith, get-make_child k, v.below k w there)
    ];
    entries = λ k c i n h g. elim (Bool-cases (s.next_ino == c)) [
      | inl same ↦ ground (arith, has_fresh)
      | inr other ↦ elim (Option-cases (get k s.inodes)) [
        | inl gone ↦
            absurd (ground (arith, get-make_child k, get-nothing n, e, v.below parent_ino p e))
        | inr (w, there) ↦ keeps_keys c (
            v.entries k c w n there (
              ground
                (arith, get-make_child k, v.below k w there, get-put name n s.next_ino w.children)))
      ]
    ];
  }

-- In a well-formed tree, a call of `create` with a parent that is a directory and a name that it
-- does not have gives an inode of the type asked for, at a number that no inode has, under that
-- name; every other name of the directory leads to the inode to which it led, but where that is
-- the directory itself, whose entries have changed. If the parent is missing or no directory, or
-- the name is taken, `create` raises ValueError or FileExistsError and changes nothing. The tree
-- stays well-formed.
pub create_lem :
    (parent_ino : ℕ) (name : String) (itype : InodeType) (s : Tmpfs)
    → IsValid s
    → ((p : Inode)
        → get parent_ino s.inodes ≡ some p
        → is_dir p.itype ≡ true
        → has_key name p.children ≡ false
        → ((create parent_ino name itype s).0 ≡ created s.next_ino)
          × (get s.next_ino s.inodes ≡ none)
          × (lookup_name parent_ino name (create parent_ino name itype s).1
              ≡ some (new_inode s.next_ino itype 420))
          × ((other : String) (c : ℕ)
              → (name == other) ≡ false
              → get other p.children ≡ some c
              → (parent_ino == c) ≡ false
              → lookup_name parent_ino other (create parent_ino name itype s).1
                ≡ lookup_name parent_ino other s))
      × ((p : Inode)
          → get parent_ino s.inodes ≡ some p
          → is_dir p.itype ≡ true
          → has_key name p.children ≡ true
          → create parent_ino name itype s ≡ (file_exists, s))
      × ((p : Inode)
          → get parent_ino s.inodes ≡ some p
          → is_dir p.itype ≡ false
          → create parent_ino name itype s ≡ (value_error, s))
      × (get parent_ino s.inodes ≡ none → create parent_ino name itype s ≡ (value_error, s))
      × IsValid (create parent_ino name itype s).1
unfolding create lookup_name
create_lem parent_ino name itype s v = (
  λ p e d n.
      let made = get-make_child parent_ino name itype s in
      let low = v.below parent_ino p e in
      let nobody = unused s v in
      (
        rw (e, d, n, create),
        nobody,
        rw (e, d, n, create)
            (ground (
              arith,
              e,
              d,
              low,
              made parent_ino,
              made s.next_ino,
              get-put name name s.next_ino p.children,
              string_eq.test_iff name name,
            )),
        λ other c ne g nc.
            rw (e, d, n, create)
              (ground (
                arith,
                e,
                d,
                low,
                made parent_ino,
                made c,
                get-put name other s.next_ino p.children,
                g,
                ne,
                v.entries parent_ino c p other e g,
                has_key-none c s.inodes,
                nobody,
              )),
      ),
  λ p e d n. rw (e, d, n, create),
  λ p e d. rw (e, d, create),
  λ e. rw (e, create),
  elim (Option-cases (get parent_ino s.inodes)) [
    | inl e ↦ rw (e, create) v
    | inr (p, e) ↦ elim (Bool-cases (is_dir p.itype)) [
      | inr d ↦ rw (e, d, create) v
      | inl d ↦ elim (Bool-cases (has_key name p.children)) [
        | inl n ↦ rw (e, d, n, create) v
        | inr n ↦ rw (e, d, n, create) (make_child-IsValid parent_ino name itype s p e v)
      ]
    ]
  ],
)

-- ===== src/Vfs/Growth.antt =====
-- What a file system holds after a new file was made in a directory and filled: the other inodes
-- keep what they had.
use compute_kernel_python.Prelude.{
  ℕ, zero, suc, ◌+◌, String, ◌≡◌, refl, sym, ap, ◌∙◌, true, false, none, some, List, [], ◌∷◌, ◌++◌,
  drop, length, if◌then◌else◌, arith, Bool-cases, inl, inr,
}
use compute_kernel_python.Prelude.Eq.{◌==◌, nat_eq, string_eq, test_refl}
use compute_kernel_python.Prelude.Dict.{Dict, get, put, has_key, get-put, has_key-get}
use compute_kernel_python.Filesystem.{
  Inode, is_dir, is_file, file, Filesystem, IsFilesystem, overwrite, spliced, extended, resized,
  add_entry, new_inode,
}
use compute_kernel_python.Vfs.{fill}
use compute_kernel_python.Vfs.Walk.{Kept, Grown}

-- A file with the given content, at its number.
abbrev pub Holds : ℕ → List ℕ → Inode → Type 0
Holds k content i = (is_file i.itype ≡ true) × (i.ino ≡ k) × (i.content ≡ content)

append_nothing {ℓ} : {A : Type ℓ} (xs : List A) → xs ++ [] ≡ xs
append_nothing [] = refl
append_nothing (x ∷ xs) = ap (λ l. x ∷ l) (append_nothing xs)

drop_nothing {ℓ} : {A : Type ℓ} (n : ℕ) → drop {A = A} n [] ≡ []
drop_nothing zero = refl
drop_nothing (suc n) = refl

spliced-nothing : (bytes : List ℕ) → spliced 0 bytes (extended 0 []) ≡ bytes
spliced-nothing bytes =
    ap (λ l. bytes ++ l) (drop_nothing (0 + length bytes)) ∙ append_nothing bytes

pub some-injective {ℓ} : {A : Type ℓ} (a b : A) → some a ≡ some b → a ≡ b
some-injective a b e = ap (λ o. elim o [ none ↦ a | some x ↦ x ]) e

get-put_free :
    (n name : String) (k c : ℕ) (d : Dict String ℕ)
    → has_key n d ≡ false
    → get name d ≡ some c
    → get name (put n k d) ≡ some c
get-put_free n name k c d free h = elim (Bool-cases (n == name)) [
  | inl q ↦
      let same = (string_eq.test_iff n name).0 q in
      absurd (ground (arith, has_key-get name c d h, ap (λ x. has_key x d) same))
  | inr q ↦ get-put n name k d ∙ rw q h
]

Kept-add_entry :
    (n : String) (k : ℕ) (p i : Inode)
    → p ≡ i
    → has_key n p.children ≡ false
    → Kept i (add_entry n k p)
Kept-add_entry n k p i e free = (
  ap (λ x. x.itype) e,
  ap (λ x. x.ino) e,
  ap (λ x. x.content) e,
  λ name c h. get-put_free n name k c p.children free (ap (λ x. get name x.children) e ∙ h),
)

module _ {F : Type 0} (fs : Filesystem F) (laws : IsFilesystem fs) where
  lookup-fill_other :
      (j k : ℕ) (content : List ℕ) (i : Inode) (f : F)
      → fs.lookup j f ≡ some i
      → is_file i.itype ≡ true
      → (j == k) ≡ false
      → fs.lookup k (fill fs j content f) ≡ fs.lookup k f
  lookup-fill_other j k [] i f e h q = refl
  lookup-fill_other j k (b ∷ bytes) i f e h q =
      rw (laws.set_size_is, q, laws.write_is f j 0 (b ∷ bytes) i e h k, q) refl

  lookup-fill :
      (j : ℕ) (content : List ℕ) (i : Inode) (f : F)
      → fs.lookup j f ≡ some i
      → Holds j [] i
      → (x : Inode) × (fs.lookup j (fill fs j content f) ≡ some x) × Holds j content x
  lookup-fill j [] i f e h = (i, e, h)
  lookup-fill j (b ∷ bytes) i f e (is_regular, number, nothing) = (
    resized (length (b ∷ bytes)) (overwrite 0 (b ∷ bytes) i),
    rw (laws.set_size_is, laws.write_is f j 0 (b ∷ bytes) i e is_regular j, test_refl j) refl,
    (
      is_regular,
      number,
      ap (λ l. spliced 0 (b ∷ bytes) (extended 0 l)) nothing ∙ spliced-nothing (b ∷ bytes),
    ),
  )

  root_ino-fill :
      (j : ℕ) (content : List ℕ) (f : F) → fs.root_ino (fill fs j content f) ≡ fs.root_ino f
  root_ino-fill j [] f = refl
  root_ino-fill j (b ∷ bytes) f =
      laws.set_size_root (fs.write j 0 (b ∷ bytes) f).1 j (length (b ∷ bytes))
      ∙ laws.write_root f j 0 (b ∷ bytes)

  good-fill : (j : ℕ) (content : List ℕ) (f : F) → laws.Good f → laws.Good (fill fs j content f)
  good-fill j [] f g = g
  good-fill j (b ∷ bytes) f g =
      laws.set_size_good (fs.write j 0 (b ∷ bytes) f).1 j (length (b ∷ bytes))
        (laws.write_good f j 0 (b ∷ bytes) g)

  -- A file `n` is made in a directory that has no such name, and filled.
  module _ (s : F) (good : laws.Good s) (d : ℕ) (n : String) (p : Inode)
      (at : fs.lookup d s ≡ some p) (is_a_dir : is_dir p.itype ≡ true)
      (free : has_key n p.children ≡ false) (content : List ℕ) where
    abbrev made : F
    made = (fs.create d n file s).1

    abbrev pub after : F
    after = fill fs (laws.next s) content made

    not_next : (k : ℕ) (i : Inode) → fs.lookup k s ≡ some i → (laws.next s == k) ≡ false
    not_next k i e = ground (arith, e, laws.unused s good)

    lookup-made :
        (k : ℕ)
        → fs.lookup k made ≡ (
            if d == k
            then some (add_entry n (laws.next s) p)
            else if laws.next s == k
            then some (new_inode (laws.next s) file 420)
            else fs.lookup k s)
    lookup-made k = (laws.create_is s d n file p at is_a_dir free).1 k good

    lookup-made_next : fs.lookup (laws.next s) made ≡ some (new_inode (laws.next s) file 420)
    lookup-made_next = lookup-made (laws.next s) ∙ ground (arith, not_next d p at)

    pub lookup-after_next :
        (x : Inode) × (fs.lookup (laws.next s) after ≡ some x) × Holds (laws.next s) content x
    lookup-after_next =
        lookup-fill (laws.next s) content (new_inode (laws.next s) file 420) made lookup-made_next
          (refl, refl, refl)

    lookup-after_other : (k : ℕ) → (laws.next s == k) ≡ false → fs.lookup k after ≡ fs.lookup k made
    lookup-after_other k q =
        lookup-fill_other (laws.next s) k content (new_inode (laws.next s) file 420) made
          lookup-made_next refl q

    pub lookup-after_parent : fs.lookup d after ≡ some (add_entry n (laws.next s) p)
    lookup-after_parent =
        lookup-after_other d (not_next d p at) ∙ lookup-made d ∙ rw (test_refl d) refl

    pub Grown-after : Grown fs s after
    Grown-after j i e = elim (Bool-cases (d == j)) [
      | inl q ↦
          let same = (nat_eq.test_iff d j).0 q in
          let p_is = some-injective p i (sym at ∙ ap (λ k. fs.lookup k s) same ∙ e) in
          (
            add_entry n (laws.next s) p,
            ap (λ k. fs.lookup k after) (sym same) ∙ lookup-after_parent,
            Kept-add_entry n (laws.next s) p i p_is free,
          )
      | inr q ↦ (
        i,
        lookup-after_other j (not_next j i e) ∙ lookup-made j ∙ rw (q, not_next j i e) e,
        (refl, refl, refl, λ name c h. h),
      )
    ]

    pub root_ino-after : fs.root_ino after ≡ fs.root_ino s
    root_ino-after = root_ino-fill (laws.next s) content made ∙ laws.create_root s d n file

    pub good-after : laws.Good after
    good-after = good-fill (laws.next s) content made (laws.create_good s d n file good)

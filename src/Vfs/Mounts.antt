-- ===== src/Vfs/Mounts.antt =====
-- Which mount serves a path.
use compute_kernel_python.Prelude.{
  ℕ, ◌≤◌, String, ◌≡◌, refl, sym, ◌∙◌, Bool, true, false, ◌&&◌, ◌||◌, Option, none, some, List, [],
  ◌∷◌, ◌++◌, any, find, All, ltb, if◌then◌else◌, arith, Bool-cases, inl, inr, ◌⊎◌,
}
use compute_kernel_python.Prelude.Eq.{◌==◌, string_eq}
use compute_kernel_python.Paths.{text_length, starts_with}
use compute_kernel_python.Filesystem.{Filesystem}
use compute_kernel_python.Vfs.{
  MountPoint, Vfs, insert_mount, sort_onto, covers, is_none, find_mount, new_vfs, mount,
}

abbrev pub NoLonger : MountPoint → MountPoint → Type 0
NoLonger m n = text_length n.path ≤ text_length m.path

-- The longest paths stand first.
abbrev pub Sorted : List MountPoint → Type 0
Sorted [] = Unit
Sorted (m ∷ ms) = All (NoLonger m) ms × Sorted ms

All-insert :
    (a m : MountPoint) (ms : List MountPoint)
    → NoLonger a m
    → All (NoLonger a) ms
    → All (NoLonger a) (insert_mount m ms)
All-insert a m [] h all = (h, tt)
All-insert a m (n ∷ ns) h all = elim (Bool-cases (ltb (text_length n.path) (text_length m.path))) [
  | inl e ↦ rw e (h, all)
  | inr e ↦ rw e (all.0, All-insert a m ns h all.1)
]

All-below :
    (m n : MountPoint) (ms : List MountPoint)
    → NoLonger m n
    → All (NoLonger n) ms
    → All (NoLonger m) ms
All-below m n [] h all = tt
All-below m n (x ∷ ms) h all = (omega (arith, h, all.0), All-below m n ms h all.1)

Sorted-insert : (m : MountPoint) (ms : List MountPoint) → Sorted ms → Sorted (insert_mount m ms)
Sorted-insert m [] h = (tt, tt)
Sorted-insert m (n ∷ ns) h = elim (Bool-cases (ltb (text_length n.path) (text_length m.path))) [
  | inl e ↦ rw e (((ground arith), All-below m n ns (ground arith) h.0), h)
  | inr e ↦ rw e (All-insert n m ns (ground arith) h.0, Sorted-insert m ns h.1)
]

Sorted-sort_onto : (sorted ms : List MountPoint) → Sorted sorted → Sorted (sort_onto sorted ms)
Sorted-sort_onto sorted [] h = h
Sorted-sort_onto sorted (m ∷ ms) h =
    Sorted-sort_onto (insert_mount m sorted) ms (Sorted-insert m sorted h)

any-insert :
    (p : MountPoint → Bool) (m : MountPoint) (ms : List MountPoint)
    → any p (insert_mount m ms) ≡ (p m || any p ms)
any-insert p m [] = refl
any-insert p m (n ∷ ns) = ground (arith, any-insert p m ns)

any-sort_onto :
    (p : MountPoint → Bool) (sorted ms : List MountPoint)
    → any p (sort_onto sorted ms) ≡ (any p sorted || any p ms)
any-sort_onto p sorted [] = ground arith
any-sort_onto p sorted (m ∷ ms) =
    ground (arith, any-sort_onto p (insert_mount m sorted) ms, any-insert p m sorted)

any-snoc :
    (p : MountPoint → Bool) (ms : List MountPoint) (m : MountPoint)
    → any p (ms ++ m ∷ []) ≡ (p m || any p ms)
any-snoc p [] m = refl
any-snoc p (n ∷ ms) m = ground (arith, any-snoc p ms m)

abbrev Best : String → MountPoint → List MountPoint → Type 0
Best path m ms = All (λ n. covers path n ≡ true → NoLonger m n) ms

Best-below :
    (path : String) (m : MountPoint) (ms : List MountPoint) → All (NoLonger m) ms → Best path m ms
Best-below path m [] all = tt
Best-below path m (n ∷ ms) all = ((λ c. all.0), Best-below path m ms all.1)

find_mount-covered :
    (path : String) (ms : List MountPoint) (best : Option MountPoint)
    → Sorted ms
    → any (covers path) ms ≡ true
    → (m : MountPoint) × (find_mount ms path best ≡ some m)
      × (covers path m ≡ true)
      × Best path m ms
unfolding find_mount
find_mount-covered path [] best s h = absurd (cc)
find_mount-covered path (m ∷ ms) best s h = elim (Bool-cases (covers path m)) [
  | inl c ↦ (m, rw c refl, c, ((λ d. omega arith), Best-below path m ms s.0))
  | inr c ↦
      let next = if m.path == "/" && is_none best then some m else best in
      let (x, e, d, b) = find_mount-covered path ms next s.1 (ground (arith, c)) in
      (x, rw c e, d, ((λ d'. absurd (ground (arith, c, d'))), b))
]

abbrev or_first : Option MountPoint → Option MountPoint → Option MountPoint
or_first none o = o
or_first (some m) o = some m

abbrev pub is_root : MountPoint → Bool
is_root m = m.path == "/"

find_mount-uncovered :
    (path : String) (ms : List MountPoint) (best : Option MountPoint)
    → any (covers path) ms ≡ false
    → find_mount ms path best ≡ or_first best (find is_root ms)
unfolding find_mount
find_mount-uncovered path [] none h = refl
find_mount-uncovered path [] (some b) h = refl
find_mount-uncovered path (m ∷ ms) best h = ground (
  arith,
  find_mount-uncovered path ms (if m.path == "/" && is_none best then some m else best),
  h,
)

abbrev mount_point : String × ℕ × String → MountPoint
mount_point (path, r, source) = record { path = path; fs = r; source = source }

module _ {F : Type 0} (fs : Filesystem F) where
  abbrev pub mount_all : List (String × ℕ × String) → Vfs F → Vfs F
  mount_all [] v = v
  mount_all ((path, r, source) ∷ xs) v = mount_all xs (mount fs path r source v)

  abbrev pub requested : List (String × ℕ × String) → List MountPoint
  requested [] = []
  requested (x ∷ xs) = mount_point x ∷ requested xs

  Sorted-mount_all :
      (xs : List (String × ℕ × String)) (v : Vfs F)
      → Sorted v.mounts
      → Sorted (mount_all xs v).mounts
  unfolding mount
  Sorted-mount_all [] v h = h
  Sorted-mount_all ((path, r, source) ∷ xs) v h =
      Sorted-mount_all xs (mount fs path r source v)
        (Sorted-sort_onto [] (v.mounts ++ mount_point (path, r, source) ∷ []) tt)

  any-mount_all :
      (p : MountPoint → Bool) (xs : List (String × ℕ × String)) (v : Vfs F)
      → any p (mount_all xs v).mounts ≡ (any p v.mounts || any p (requested xs))
  unfolding mount
  any-mount_all p [] v = ground arith
  any-mount_all p ((path, r, source) ∷ xs) v =
      let m = mount_point (path, r, source) in
      ground (
        arith,
        any-mount_all p xs (mount fs path r source v),
        any-sort_onto p [] (v.mounts ++ m ∷ []),
        any-snoc p v.mounts m,
      )

abbrev pub closer : String → MountPoint → MountPoint → Bool
closer path m n = covers path n && ltb (text_length m.path) (text_length n.path)

none_closer :
    (path : String) (m : MountPoint) (ms : List MountPoint)
    → Best path m ms
    → any (closer path m) ms ≡ false
none_closer path m [] b = refl
none_closer path m (n ∷ ms) b = elim (Bool-cases (covers path n)) [
  | inl c ↦ let h = b.0 c in ground (arith, c, h, none_closer path m ms b.1)
  | inr c ↦ ground (arith, c, none_closer path m ms b.1)
]

starts_with_slash :
    (path : String)
    → starts_with path "/" ≡ true
    → (m : MountPoint) → is_root m ≡ true
    → covers path m ≡ true
starts_with_slash path h m r =
    let e = (string_eq.test_iff m.path "/").0 r in rw e (ground (arith, h))

none_root :
    (path : String) (ms : List MountPoint)
    → starts_with path "/" ≡ true
    → any (covers path) ms ≡ false
    → find is_root ms ≡ none
none_root path [] h u = refl
none_root path (m ∷ ms) h u = ground (arith, starts_with_slash path h m, none_root path ms h)

module _ {F : Type 0} (fs : Filesystem F) where
  -- After any mounts on a new VFS, in any order, a path that starts with a slash is served by a
  -- mount that covers it, such that no mount with a longer path covers it, or by none if no mount
  -- covers it.
  pub find_mount-mount_all :
      (objects : ℕ → F) (xs : List (String × ℕ × String)) (path : String)
      → starts_with path "/" ≡ true
      → ((m : MountPoint) × (find_mount (mount_all fs xs (new_vfs fs objects)).mounts path none
            ≡ some m)
          × (covers path m ≡ true)
          × (any (closer path m) (requested fs xs) ≡ false))
        ⊎ ((any (covers path) (requested fs xs) ≡ false)
            × (find_mount (mount_all fs xs (new_vfs fs objects)).mounts path none ≡ none))
  unfolding new_vfs
  find_mount-mount_all objects xs path h =
      let v = new_vfs fs objects in
      let ms = (mount_all fs xs v).mounts in
      let e = any-mount_all fs (covers path) xs v in
      elim (Bool-cases (any (covers path) ms)) [
        | inl c ↦
            let (m, f, d, b) = find_mount-covered path ms none (Sorted-mount_all fs xs v tt) c in
            inl (m, f, d, sym (any-mount_all fs (closer path m) xs v) ∙ none_closer path m ms b)
        | inr c ↦ inr (sym e ∙ c, find_mount-uncovered path ms none c ∙ none_root path ms h c)
      ]

-- ===== src/Process/Laws.antt =====
-- The children lists agree with the parents' PIDs, and what `spawn` and `remove` do to the table.
use compute_kernel_python.Prelude.{
  ℕ, String, ◌≡◌, refl, true, false, Option, none, some, List, [], ◌∷◌, if◌then◌else◌, arith,
  Option-cases, inl, inr, ◌∙◌,
}
use compute_kernel_python.Prelude.Eq.{◌==◌, nat_eq}
use compute_kernel_python.Prelude.Ids.{has, Distinct, Distinct-snoc, has-snoc}
use compute_kernel_python.Prelude.Dict.{Dict, get, put, pop, adjust, get-put, get-pop, get-adjust}
use compute_kernel_python.Process.{
  Process, ProcessTable, alloc_pid, remove_first, add_child, drop_child, newborn, spawn, remove,
}
use compute_kernel_python.Process.Pids.{IsValid, spawn-fresh}

abbrev pub parent_of : Option Process → Option ℕ
parent_of none = none
parent_of (some p) = some p.ppid

-- Whoever stands in a list of children is a process whose parent is that list's process, and
-- stands there once.
pub record IsFamily (d : Dict ℕ Process) : Type 0 where
  pub listed :
      (k c : ℕ) (p : Process)
      → get k d ≡ some p
      → has c p.children ≡ true
      → parent_of (get c d) ≡ some k
  pub once : (k : ℕ) (p : Process) → get k d ≡ some p → Distinct p.children

IsFamily-put :
    (pid : ℕ) (p : Process) (d : Dict ℕ Process)
    → get pid d ≡ none
    → p.children ≡ []
    → IsFamily d
    → IsFamily (put pid p d)
IsFamily-put pid p d fresh none' f = record {
  listed = λ k c q h m. ground (arith, get-put pid k p d, get-put pid c p d, f.listed k c q);
  once = λ k q h. ground (arith, get-put pid k p d, f.once k q);
}

pub unlisted :
    (pid k : ℕ) (d : Dict ℕ Process) (p : Process)
    → IsFamily d
    → get pid d ≡ none
    → get k d ≡ some p
    → has pid p.children ≡ false
unlisted pid k d p f fresh h = ground (arith, f.listed k pid p h)

IsFamily-add_child :
    (pid ppid : ℕ) (d : Dict ℕ Process)
    → parent_of (get pid d) ≡ some ppid
    → ((p : Process) → get ppid d ≡ some p → has pid p.children ≡ false)
    → IsFamily d
    → IsFamily (adjust ppid (add_child pid) d)
IsFamily-add_child pid ppid d own free f = record {
  listed = λ k c q h m. elim (Option-cases (get k d)) [
    | inl e ↦ absurd (ground (arith, get-adjust ppid k (add_child pid) d))
    | inr (p, e) ↦ ground (
      arith,
      get-adjust ppid k (add_child pid) d,
      get-adjust ppid c (add_child pid) d,
      has-snoc c pid p.children,
      f.listed k c p,
    )
  ];
  once = λ k q h. elim (Option-cases (get k d)) [
    | inl e ↦ absurd (ground (arith, get-adjust ppid k (add_child pid) d))
    | inr (p, e) ↦ ground (
      arith,
      get-adjust ppid k (add_child pid) d,
      f.once k p,
      free p,
      Distinct-snoc pid p.children,
    )
  ];
}

-- `spawn` keeps the children lists right.
pub spawn-IsFamily :
    (name : String) (ppid uid gid : ℕ) (cmdline : String) (s : ProcessTable)
    → IsValid s
    → IsFamily s.table
    → IsFamily (spawn name ppid uid gid cmdline s).1.table
unfolding spawn
spawn-IsFamily name ppid uid gid cmdline s v f =
    let pid = (alloc_pid s.pids).0 in
    let p = newborn pid name ppid uid gid cmdline in
    let fresh : get pid s.table ≡ none = (spawn-fresh name ppid uid gid cmdline s v).0 in
    IsFamily-add_child pid ppid (put pid p s.table) (ground (arith, get-put pid pid p s.table))
      (λ q h. ground (arith, get-put pid ppid p s.table, unlisted pid ppid s.table q f fresh))
      (IsFamily-put pid p s.table fresh refl f)

has-remove_first :
    (c x : ℕ) (xs : List ℕ)
    → Distinct xs
    → has c (remove_first x xs) ≡ (if x == c then false else has c xs)
unfolding remove_first
has-remove_first c x [] d = ground arith
has-remove_first c x (y ∷ xs) d = ground (arith, has-remove_first c x xs)

Distinct-remove_first : (x : ℕ) (xs : List ℕ) → Distinct xs → Distinct (remove_first x xs)
unfolding remove_first
Distinct-remove_first x [] d = tt
Distinct-remove_first x (y ∷ xs) d =
    ground (arith, Distinct-remove_first x xs, has-remove_first y x xs)

children-drop_child :
    (c pid : ℕ) (p : Process)
    → Distinct p.children
    → (has c (drop_child pid p).children ≡ (if pid == c then false else has c p.children))
      × Distinct (drop_child pid p).children
children-drop_child c pid p d =
    ground (arith, has-remove_first c pid p.children, Distinct-remove_first pid p.children)

drop_child-ppid : (pid : ℕ) (p : Process) → (drop_child pid p).ppid ≡ p.ppid
drop_child-ppid pid p = ground arith

parent_of-adjust :
    (k c : ℕ) (f : Process → Process) (d : Dict ℕ Process)
    → ((p : Process) → (f p).ppid ≡ p.ppid)
    → parent_of (get c (adjust k f d)) ≡ parent_of (get c d)
parent_of-adjust k c f d same = elim (Option-cases (get c d)) [
  | inl e ↦ ground (arith, get-adjust k c f d)
  | inr (p, e) ↦ ground (arith, get-adjust k c f d, same p)
]

IsFamily-remove :
    (pid : ℕ) (p : Process) (d : Dict ℕ Process)
    → get pid d ≡ some p
    → IsFamily d
    → IsFamily (adjust p.ppid (drop_child pid) (pop pid d))
IsFamily-remove pid p d here f = record {
  listed = λ k c q h m. elim (Option-cases (get k d)) [
    | inl e ↦
        absurd (ground (arith, get-adjust p.ppid k (drop_child pid) (pop pid d), get-pop pid k d))
    | inr (r, e) ↦
        parent_of-adjust p.ppid c (drop_child pid) (pop pid d) (drop_child-ppid pid)
        ∙ ground (
          arith,
          get-adjust p.ppid k (drop_child pid) (pop pid d),
          get-pop pid k d,
          get-pop pid c d,
          f.listed k c r,
          f.once k r,
          children-drop_child c pid r,
        )
  ];
  once = λ k q h. elim (Option-cases (get k d)) [
    | inl e ↦
        absurd (ground (arith, get-adjust p.ppid k (drop_child pid) (pop pid d), get-pop pid k d))
    | inr (r, e) ↦ ground (
      arith,
      get-adjust p.ppid k (drop_child pid) (pop pid d),
      get-pop pid k d,
      f.once k r,
      children-drop_child 0 pid r,
    )
  ];
}

-- `remove` keeps the children lists right.
pub remove-IsFamily :
    (pid : ℕ) (s : ProcessTable) → IsFamily s.table → IsFamily (remove pid s).table
unfolding remove
remove-IsFamily pid s f = elim (Option-cases (get pid s.table)) [
  | inl e ↦ rw (e, remove) f
  | inr (p, e) ↦ rw (e, remove) (IsFamily-remove pid p s.table e f)
]

-- After `remove` the process is gone.
pub lookup-remove : (pid : ℕ) (s : ProcessTable) → get pid (remove pid s).table ≡ none
unfolding remove
lookup-remove pid s = elim (Option-cases (get pid s.table)) [
  | inl e ↦ ground arith
  | inr (p, e) ↦
      ground
        (arith, get-adjust p.ppid pid (drop_child pid) (pop pid s.table), get-pop pid pid s.table)
]

-- A change of the fields that do not say who belongs to whom.
pub IsFamily-adjust :
    (pid : ℕ) (f : Process → Process) (d : Dict ℕ Process)
    → ((p : Process) → (f p).ppid ≡ p.ppid)
    → ((p : Process) → (f p).children ≡ p.children)
    → IsFamily d
    → IsFamily (adjust pid f d)
IsFamily-adjust pid f d same_parent same_children v = record {
  listed = λ k c q h m. elim (Option-cases (get k d)) [
    | inl e ↦ absurd (ground (arith, get-adjust pid k f d))
    | inr (p, e) ↦ elim (Option-cases (get c d)) [
      | inl g ↦ absurd (ground (arith, get-adjust pid k f d, same_children p, v.listed k c p e))
      | inr (r, g) ↦ ground (
        arith,
        get-adjust pid k f d,
        get-adjust pid c f d,
        same_children p,
        same_parent r,
        v.listed k c p e,
      )
    ]
  ];
  once = λ k q h. elim (Option-cases (get k d)) [
    | inl e ↦ absurd (ground (arith, get-adjust pid k f d))
    | inr (p, e) ↦ ground (arith, get-adjust pid k f d, same_children p, v.once k p e)
  ];
}

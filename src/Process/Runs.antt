-- ===== src/Process/Runs.antt =====
-- The process table over whole runs, and the round trip of a process through it.
use compute_kernel_python.Prelude.{
  ℕ, ◌≤◌, String, ◌≡◌, refl, true, false, none, some, List, [], ◌∷◌, ◌++◌, if◌then◌else◌, arith,
  Option-cases, inl, inr,
}
use compute_kernel_python.Prelude.Eq.{◌==◌, nat_eq}
use compute_kernel_python.Prelude.Ids.{has}
use compute_kernel_python.Prelude.Dict.{get, put, pop, adjust, get-put, get-pop, get-adjust}
use compute_kernel_python.Process.{
  Process, ProcessTable, init, remove_first, add_child, drop_child, newborn, spawn, remove,
}
use compute_kernel_python.Process.Pids.{
  IsValid, init-IsValid, spawn-fresh, spawn-IsValid, remove-IsValid,
}
use compute_kernel_python.Process.Laws.{
  IsFamily, unlisted, spawn-IsFamily, remove-IsFamily, lookup-remove,
}

-- One call on the table by some part of the kernel.
pub data Call : Type 0 where
  do_spawn : (name : String) (ppid uid gid : ℕ) (cmdline : String) → Call
  do_remove : (pid : ℕ) → Call

abbrev pub perform : Call → ProcessTable → ProcessTable
perform (do_spawn name ppid uid gid cmdline) s = (spawn name ppid uid gid cmdline s).1
perform (do_remove pid) s = remove pid s

abbrev pub run : List Call → ProcessTable → ProcessTable
run [] s = s
run (c ∷ cs) s = run cs (perform c s)

perform-IsValid :
    (c : Call) (s : ProcessTable)
    → IsValid s
    → IsFamily s.table
    → IsValid (perform c s) × IsFamily (perform c s).table
perform-IsValid (do_spawn name ppid uid gid cmdline) s v f =
    (spawn-IsValid name ppid uid gid cmdline s v, spawn-IsFamily name ppid uid gid cmdline s v f)
perform-IsValid (do_remove pid) s v f = (remove-IsValid pid s v, remove-IsFamily pid s f)

pub init-IsFamily : IsFamily init.table
unfolding get
init-IsFamily = record { listed = λ k c p h m. absurd (ground arith); once = λ k p h. ground arith }

run_lem :
    (cs : List Call) (s : ProcessTable)
    → IsValid s
    → IsFamily s.table
    → IsValid (run cs s) × IsFamily (run cs s).table
run_lem [] s v f = (v, f)
run_lem (c ∷ cs) s v f = let (v', f') = perform-IsValid c s v f in run_lem cs _ v' f'

-- After any calls of `spawn` and `remove` on a new table: PIDs from 2 on are in use or wait to be
-- used again, never both and none lost; every process stands at its own PID; and every list of
-- children names, once each, processes whose parent is that list's process.
pub run-IsValid : (cs : List Call) → IsValid (run cs init) × IsFamily (run cs init).table
run-IsValid cs = run_lem cs init init-IsValid init-IsFamily

remove_first-snoc : (x : ℕ) (xs : List ℕ) → has x xs ≡ false → remove_first x (xs ++ x ∷ []) ≡ xs
unfolding remove_first
remove_first-snoc x [] h = ground arith
remove_first-snoc x (y ∷ xs) h = ground (arith, remove_first-snoc x xs)

has_self : (x : ℕ) (xs : List ℕ) → has x (xs ++ x ∷ []) ≡ true
has_self x [] = ground arith
has_self x (y ∷ xs) = ground (arith, has_self x xs)

drop_child-add_child :
    (pid : ℕ) (p : Process) → has pid p.children ≡ false → drop_child pid (add_child pid p) ≡ p
drop_child-add_child pid p h =
    ground (arith, has_self pid p.children, remove_first-snoc pid p.children h)

module _ (name : String) (ppid uid gid : ℕ) (cmdline : String) (s : ProcessTable) where
  abbrev spawned : ProcessTable
  spawned = (spawn name ppid uid gid cmdline s).1

  abbrev pid_of : ℕ
  pid_of = (spawn name ppid uid gid cmdline s).0

  abbrev pub born : Process
  born = newborn pid_of name ppid uid gid cmdline

  -- Which process stands at a PID after `spawn`.
  get-spawn :
      (k : ℕ)
      → get k spawned.table ≡ get k (adjust ppid (add_child pid_of) (put pid_of born s.table))
  unfolding spawn
  get-spawn k = refl

-- In a table as runs leave it, `spawn` gives a PID from 2 on that no process has, at which the new
-- process then stands with the parent and user that were asked for; every process but the parent
-- is as before.
pub spawn_lem :
    (name : String) (ppid uid gid : ℕ) (cmdline : String) (s : ProcessTable)
    → IsValid s
    → (get (spawn name ppid uid gid cmdline s).0 s.table ≡ none)
      × (2 ≤ (spawn name ppid uid gid cmdline s).0)
      × (get (spawn name ppid uid gid cmdline s).0 (spawn name ppid uid gid cmdline s).1.table
          ≡ some (
              if ppid == (spawn name ppid uid gid cmdline s).0
              then add_child
                  (spawn name ppid uid gid cmdline s).0
                  (born name ppid uid gid cmdline s)
              else born name ppid uid gid cmdline s))
      × ((k : ℕ)
          → (k == (spawn name ppid uid gid cmdline s).0) ≡ false
          → (k == ppid) ≡ false
          → get k (spawn name ppid uid gid cmdline s).1.table ≡ get k s.table)
spawn_lem name ppid uid gid cmdline s v =
    let (fresh, high) = spawn-fresh name ppid uid gid cmdline s v in
    let p = born name ppid uid gid cmdline s in
    let pid = (spawn name ppid uid gid cmdline s).0 in
    (
      fresh,
      high,
      ground (
        arith,
        get-spawn name ppid uid gid cmdline s pid,
        get-adjust ppid pid (add_child pid) (put pid p s.table),
        get-put pid pid p s.table,
      ),
      λ k n m. ground (
        arith,
        get-spawn name ppid uid gid cmdline s k,
        get-adjust ppid k (add_child pid) (put pid p s.table),
        get-put pid k p s.table,
      ),
    )

-- Which process stands at a PID after `remove` of another one.
get-remove :
    (pid k : ℕ) (q : Process) (s : ProcessTable)
    → get pid s.table ≡ some q
    → get k (remove pid s).table ≡ get k (adjust q.ppid (drop_child pid) (pop pid s.table))
unfolding remove
get-remove pid k q s e = rw (e, remove)

-- In a table as runs leave it, removing the process that was just spawned gives back every process
-- as it was, the parent's list of children included.
pub remove-spawn :
    (name : String) (ppid uid gid : ℕ) (cmdline : String) (s : ProcessTable)
    → IsValid s
    → IsFamily s.table
    → (k : ℕ)
    → get k
        (remove (spawn name ppid uid gid cmdline s).0 (spawn name ppid uid gid cmdline s).1).table
      ≡ get k s.table
remove-spawn name ppid uid gid cmdline s v f k =
    let pid = (spawn name ppid uid gid cmdline s).0 in
    let s' = (spawn name ppid uid gid cmdline s).1 in
    let p = born name ppid uid gid cmdline s in
    let (fresh, high, here, others) = spawn_lem name ppid uid gid cmdline s v in
    let q = if ppid == pid then add_child pid p else p in
    let q-ppid : q.ppid ≡ ppid = ground arith in
    let removed = get-remove pid k q s' here in
    elim (Option-cases (get k s.table)) [
      | inl e ↦ ground (
        arith,
        e,
        removed,
        q-ppid,
        lookup-remove pid s',
        fresh,
        get-adjust q.ppid k (drop_child pid) (pop pid s'.table),
        get-pop pid k s'.table,
        get-spawn name ppid uid gid cmdline s k,
        get-adjust ppid k (add_child pid) (put pid p s.table),
        get-put pid k p s.table,
      )
      | inr (r, e) ↦ ground (
        arith,
        e,
        removed,
        q-ppid,
        lookup-remove pid s',
        fresh,
        get-adjust q.ppid k (drop_child pid) (pop pid s'.table),
        get-pop pid k s'.table,
        get-spawn name ppid uid gid cmdline s k,
        get-adjust ppid k (add_child pid) (put pid p s.table),
        get-put pid k p s.table,
        drop_child-add_child pid r (unlisted pid k s.table r f fresh e),
      )
    ]

-- ===== src/Syscall/Tasks.antt =====
-- Processes that fork, exit and are waited for.
use compute_kernel_python.Prelude.{
  ◌⊎◌, ℕ, ◌≤◌, ◌≡◌, refl, ap, true, false, none, some, List, [], ◌∷◌, pos, arith, Bool-cases, inl,
  inr,
}
use compute_kernel_python.Prelude.Eq.{◌==◌, nat_eq}
use compute_kernel_python.Prelude.Ids.{has}
use compute_kernel_python.Prelude.Dict.{get, put, get-put, get-adjust}
use compute_kernel_python.Process
use compute_kernel_python.Process.{Process, ProcessTable, add_child}
use compute_kernel_python.Process.Pids.{IsValid, remove-IsValid, adjust-IsValid, spawn-IsValid}
use compute_kernel_python.Process.Runs.{spawn_lem, born}
use compute_kernel_python.Process.Laws.{lookup-remove}
use compute_kernel_python.Memory.Vmm.{default_space, create_address_space}
use compute_kernel_python.Syscall.{
  Kernel, set_cwd, spawn_child, sys_fork, is_zombie, reap, sys_wait4,
}

-- No child in the list is a zombie, and the answer is 0; or the answer is such a child.
reap_lem :
    (cs : List ℕ) (t : ProcessTable)
    → IsValid t
    → ((reap cs t ≡ (pos 0, t)) × ((c : ℕ) → has c cs ≡ true → is_zombie (get c t.table) ≡ false))
      ⊎ ((c : ℕ) × (has c cs ≡ true)
          × (is_zombie (get c t.table) ≡ true)
          × (reap cs t ≡ (pos c, Process.remove c t)))
unfolding reap
reap_lem [] t v = inl (refl, λ c h. absurd (cc))
reap_lem (c ∷ cs) t v = elim (Bool-cases (is_zombie (get c t.table))) [
  | inl z ↦ inr (c, ground arith, z, rw (z, reap))
  | inr z ↦ elim (reap_lem cs t v) [
    | inl (e, all) ↦ inl (rw (z, reap) e, λ k h. ground (arith, all k, z))
    | inr (k, h, zk, e) ↦ inr (k, ground arith, zk, rw (z, reap) e)
  ]
]

-- For a live caller in a well-formed process table, `sys_wait4` either returns 0, changes nothing,
-- and no child is a zombie; or it returns a child that is a zombie, which is then gone from a
-- process table that is still well-formed.
pub sys_wait4_lem :
    (pid : ℕ) (s : Kernel) (parent : Process)
    → IsValid s.processes
    → get pid s.processes.table ≡ some parent
    → ((sys_wait4 pid s ≡ (pos 0, s))
        × ((c : ℕ) → has c parent.children ≡ true → is_zombie (get c s.processes.table) ≡ false))
      ⊎ ((c : ℕ) × (has c parent.children ≡ true)
          × (is_zombie (get c s.processes.table) ≡ true)
          × ((sys_wait4 pid s).0 ≡ pos c)
          × (get c (sys_wait4 pid s).1.processes.table ≡ none)
          × IsValid (sys_wait4 pid s).1.processes)
unfolding sys_wait4
sys_wait4_lem pid s parent v e = elim (reap_lem parent.children s.processes v) [
  | inl (r, all) ↦ inl (rw (e, sys_wait4) (ap (λ x. (x.0, record s { processes = x.1 })) r), all)
  | inr (c, h, z, r) ↦ inr (
    c,
    h,
    z,
    rw (e, sys_wait4) (ap (λ x. x.0) r),
    rw (e, sys_wait4) (rw r (lookup-remove c s.processes)),
    rw (e, sys_wait4) (rw r (remove-IsValid c s.processes v)),
  )
]

module _ (pid : ℕ) (s : Kernel) (parent : Process) (v : IsValid s.processes)
    (e : get pid s.processes.table ≡ some parent) where
  abbrev child : ℕ
  child = (spawn_child pid parent s.processes).0

  abbrev pub newborn_of : Process
  newborn_of = born parent.name pid parent.creds.uid parent.creds.gid parent.cmdline s.processes

  -- For a live caller in a well-formed process table, `sys_fork` returns a PID from 2 on that no
  -- process has; at that PID then stands a new process with the name, the user, the command line
  -- and the working directory of the caller and with the caller as its parent, which has a fresh
  -- address space; the caller has it as its last child; every other process is as before, and the
  -- table is well-formed.
  pub sys_fork_lem :
      ((sys_fork pid s).0 ≡ pos child)
      × (get child s.processes.table ≡ none)
      × (2 ≤ child)
      × (get child (sys_fork pid s).1.processes.table ≡ some (set_cwd parent.cwd newborn_of))
      × (get child (sys_fork pid s).1.vmm.address_spaces ≡ some (default_space child))
      × (get pid (sys_fork pid s).1.processes.table ≡ some (add_child child parent))
      × ((k : ℕ)
          → (k == child) ≡ false
          → (k == pid) ≡ false
          → get k (sys_fork pid s).1.processes.table ≡ get k s.processes.table)
      × IsValid (sys_fork pid s).1.processes
  unfolding sys_fork create_address_space
  sys_fork_lem =
      let (fresh, high, here, others) =
        spawn_lem parent.name pid parent.creds.uid parent.creds.gid parent.cmdline s.processes v in
      let t = (spawn_child pid parent s.processes).1 in
      let apart : (pid == child) ≡ false = ground (arith, fresh, e) in
      let set = λ (k : ℕ). get-adjust child k (set_cwd parent.cwd) t.table in
      (
        rw (e, sys_fork),
        fresh,
        high,
        rw (e, sys_fork) (ground (arith, set child, here, apart)),
        rw (e, sys_fork)
            (ground (arith, get-put child child (default_space child) s.vmm.address_spaces)),
        rw (e, sys_fork) (ground (arith, set pid, apart, parent_after)),
        λ k n m. rw (e, sys_fork) (ground (arith, set k, others k n m, n)),
        rw (e, sys_fork)
            (adjust-IsValid child (set_cwd parent.cwd) t (λ p. refl)
              (spawn-IsValid parent.name pid parent.creds.uid parent.creds.gid parent.cmdline
                s.processes v)),
      )
    where
      parent_after :
          get pid (spawn_child pid parent s.processes).1.table ≡ some (add_child child parent)
      parent_after =
          let (fresh, high, here, others) =
            spawn_lem parent.name pid parent.creds.uid parent.creds.gid parent.cmdline s.processes
              v in
          unfold Process.spawn in
          ground (
            arith,
            e,
            fresh,
            get-adjust pid pid (add_child child) (put child newborn_of s.processes.table),
            get-put child pid newborn_of s.processes.table,
          )

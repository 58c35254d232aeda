-- ===== src/Syscall/Dispatch/Inherits.antt =====
-- Calls on processes open and close nothing: what they do to the tables of descriptors.
use compute_kernel_python.Prelude.{
  ℕ, zero, suc, ◌≡◌, refl, sym, ap, ◌∙◌, String, ◌||◌, ◌⊎◌, leb, any, none, some, List, [], ◌∷◌, ℤ,
  pos, negsuc, arith, Bool-cases, Option-cases, inl, inr,
}
use compute_kernel_python.Prelude.Eq.{◌==◌, nat_eq}
use compute_kernel_python.Prelude.Dict.{
  Dict, get, put, pop, adjust, has_key, get-put, get-pop, get-adjust,
}
use compute_kernel_python.Process
use compute_kernel_python.Process.{
  Process, ProcessTable, FileDescriptorTable, get_fd, close_fd, add_child, drop_child, newborn,
}
use compute_kernel_python.Ipc.{number}
use compute_kernel_python.Syscall.{
  Kernel, current_break, spawn_child, set_cwd, name_of, die, signals, reap, is_zombie, sys_mmap,
  sys_munmap, sys_brk, sys_fork, fork_from, sys_execve, sys_exit, sys_wait4, reap_children,
  sys_kill,
}

abbrev pub Processes : Type 0
Processes = Dict ℕ Process

abbrev pub Files : Type 0
Files = Dict ℕ (String × String)

-- Every process is new, without open files, or has the open files that it had.
abbrev pub Inherits : Processes → Processes → Type 0
Inherits d e =
    (k : ℕ) (q : Process)
    → get k e ≡ some q
    → (q.fdt.table ≡ []) ⊎ ((p : Process) × (get k d ≡ some p) × (q.fdt.table ≡ p.fdt.table))

pub Inherits-refl : (d : Processes) → Inherits d d
Inherits-refl d k q h = inr (q, h, refl)

-- A change that keeps the open files.
Inherits-adjust :
    (pid : ℕ) (f : Process → Process) (d e : Processes)
    → ((p : Process) → (f p).fdt.table ≡ p.fdt.table)
    → Inherits d e
    → Inherits d (adjust pid f e)
Inherits-adjust pid f d e same i k q h = elim (Option-cases (get k e)) [
  | inl n ↦ absurd (ground (arith, h, n, get-adjust pid k f e))
  | inr (p, g) ↦
      let files : q.fdt.table ≡ p.fdt.table = ground (arith, h, g, get-adjust pid k f e, same p) in
      elim (i k p g) [
        | inl none_open ↦ inl (files ∙ none_open)
        | inr (o, at, kept) ↦ inr (o, at, files ∙ kept)
      ]
]

Inherits-put : (pid : ℕ) (p : Process) (d : Processes) → p.fdt.table ≡ [] → Inherits d (put pid p d)
Inherits-put pid p d empty k q h = elim (Bool-cases (pid == k)) [
  | inl e ↦
      inl (ap (λ x. x.fdt.table) (some_inj q p (sym h ∙ get-put pid k p d ∙ rw e refl)) ∙ empty)
  | inr e ↦ inr (q, sym (get-put pid k p d ∙ rw e refl) ∙ h, refl)
]
  where
    some_inj : (a b : Process) → some a ≡ some b → a ≡ b
    some_inj a b e = ap (λ o. elim o [ none ↦ a | some x ↦ x ]) e

Inherits-pop : (pid : ℕ) (d : Processes) → Inherits d (pop pid d)
Inherits-pop pid d k q h = inr (q, ground (arith, h, get-pop pid k d), refl)

drop_child_files : (pid : ℕ) (p : Process) → (drop_child pid p).fdt.table ≡ p.fdt.table
drop_child_files pid p = ground arith

pub Inherits-spawn :
    (name : String) (ppid uid gid : ℕ) (cmdline : String) (s : ProcessTable)
    → Inherits s.table (Process.spawn name ppid uid gid cmdline s).1.table
unfolding Process.spawn
Inherits-spawn name ppid uid gid cmdline s =
    Inherits-adjust ppid (add_child _) s.table (put _ (newborn _ name ppid uid gid cmdline) s.table)
      (λ p. refl) (Inherits-put _ (newborn _ name ppid uid gid cmdline) s.table refl)

pub Inherits-remove : (pid : ℕ) (s : ProcessTable) → Inherits s.table (Process.remove pid s).table
unfolding Process.remove
Inherits-remove pid s = elim (Option-cases (get pid s.table)) [
  | inl e ↦ rw (Process.remove, e) (Inherits-refl s.table)
  | inr (p, e) ↦
      rw (Process.remove, e)
        (Inherits-adjust p.ppid (drop_child pid) s.table (pop pid s.table) (drop_child_files pid)
          (Inherits-pop pid s.table))
]

-- The process table after a call.
abbrev pub after : ℤ × Kernel → Processes
after (n, s) = s.processes.table

module _ (pid : ℕ) (s : Kernel) where
  pub Inherits-mmap :
      (addr : ℕ) (size : ℤ) (flags name : String)
      → Inherits s.processes.table (after (sys_mmap pid addr size flags name s))
  unfolding sys_mmap
  Inherits-mmap addr (negsuc n) flags name = Inherits-refl s.processes.table
  Inherits-mmap addr (pos zero) flags name = Inherits-refl s.processes.table
  Inherits-mmap addr (pos (suc n)) flags name = elim (Bool-cases (has_key pid s.processes.table)) [
    | inl e ↦ rw e (Inherits-refl s.processes.table)
    | inr e ↦ rw e (Inherits-refl s.processes.table)
  ]

  pub Inherits-munmap : (addr : ℕ) → Inherits s.processes.table (after (sys_munmap pid addr s))
  unfolding sys_munmap
  Inherits-munmap addr = elim (Bool-cases (addr == 0)) [
    | inl e ↦ rw e (Inherits-refl s.processes.table)
    | inr e ↦ rw e (Inherits-refl s.processes.table)
  ]

  pub Inherits-brk : (new_brk : ℕ) → Inherits s.processes.table (after (sys_brk pid new_brk s))
  unfolding sys_brk
  Inherits-brk new_brk = elim (Bool-cases (new_brk == 0 || leb new_brk (current_break pid s))) [
    | inl e ↦ rw e (Inherits-refl s.processes.table)
    | inr e ↦ rw e (Inherits-refl s.processes.table)
  ]

  pub Inherits-fork : Inherits s.processes.table (after (sys_fork pid s))
  unfolding sys_fork fork_from
  Inherits-fork = elim (Option-cases (get pid s.processes.table)) [
    | inl e ↦ rw (sys_fork, e) (Inherits-refl s.processes.table)
    | inr (p, e) ↦
        rw (sys_fork, e)
          (Inherits-adjust (spawn_child pid p s.processes).0 (set_cwd p.cwd) s.processes.table
            (spawn_child pid p s.processes).1.table (λ q. refl)
            (Inherits-spawn p.name pid p.creds.uid p.creds.gid p.cmdline s.processes))
  ]

  pub Inherits-execve : (path : String) → Inherits s.processes.table (after (sys_execve pid path s))
  unfolding sys_execve
  Inherits-execve path = elim (Bool-cases (has_key pid s.processes.table)) [
    | inl e ↦ rw e (
        Inherits-adjust pid (λ p. record p { name = name_of path p.name; cmdline = path })
          s.processes.table s.processes.table (λ p. refl) (Inherits-refl s.processes.table))
    | inr e ↦ rw e (Inherits-refl s.processes.table)
  ]

  pub Inherits-exit : (code : ℤ) → Inherits s.processes.table (after (sys_exit pid code s))
  unfolding sys_exit
  Inherits-exit code = elim (Bool-cases (has_key pid s.processes.table)) [
    | inl e ↦ rw e (
        Inherits-adjust pid (die code) s.processes.table s.processes.table (λ p. refl)
          (Inherits-refl s.processes.table))
    | inr e ↦ rw e (Inherits-refl s.processes.table)
  ]

  pub Inherits-kill :
      (target signum : ℕ) → Inherits s.processes.table (after (sys_kill pid target signum s))
  unfolding sys_kill
  Inherits-kill target signum = elim (Bool-cases (has_key target s.processes.table)) [
    | inl e ↦ elim (Bool-cases (any (λ sig. number sig == signum) signals)) [
      | inl k ↦ rw (e, k) (Inherits-refl s.processes.table)
      | inr k ↦ rw (e, k) (Inherits-refl s.processes.table)
    ]
    | inr e ↦ rw e (Inherits-refl s.processes.table)
  ]

Inherits-reap : (cs : List ℕ) (t : ProcessTable) → Inherits t.table (reap cs t).1.table
unfolding reap
Inherits-reap [] t = Inherits-refl t.table
Inherits-reap (c ∷ cs) t = elim (Bool-cases (is_zombie (get c t.table))) [
  | inl e ↦ rw (reap, e) (Inherits-remove c t)
  | inr e ↦ rw (reap, e) (Inherits-reap cs t)
]

pub Inherits-wait4 : (pid : ℕ) (s : Kernel) → Inherits s.processes.table (after (sys_wait4 pid s))
unfolding sys_wait4 reap_children
Inherits-wait4 pid s = elim (Option-cases (get pid s.processes.table)) [
  | inl e ↦ rw (sys_wait4, e) (Inherits-refl s.processes.table)
  | inr (p, e) ↦ rw (sys_wait4, e) (Inherits-reap p.children s.processes)
]

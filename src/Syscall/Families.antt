-- ===== src/Syscall/Families.antt =====
-- System calls keep the process table well-formed.
use compute_kernel_python.Prelude.{
  ℕ, zero, suc, String, ◌≡◌, refl, List, [], ◌∷◌, ℤ, pos, negsuc, arith, Bool-cases, Option-cases,
  inl, inr,
}
use compute_kernel_python.Prelude.Eq.{nat_eq}
use compute_kernel_python.Prelude.Dict.{get, adjust, has_key}
use compute_kernel_python.Process.{Process, ProcessTable}
use compute_kernel_python.Process.Pids.{IsValid, spawn-IsValid, remove-IsValid, adjust-IsValid}
use compute_kernel_python.Process.Laws.{IsFamily, spawn-IsFamily, remove-IsFamily, IsFamily-adjust}
use compute_kernel_python.Syscall.{
  Kernel, name_of, die, set_cwd, is_zombie, reap, sys_mmap, sys_fork, fork_from, sys_execve,
  sys_exit, sys_wait4, reap_children, spawn_child,
}

-- A table in which PIDs and families are as they should be.
abbrev pub IsTended : ProcessTable → Type 0
IsTended t = IsValid t × IsFamily t.table

-- A change of the fields that say neither who a process is nor whose.
pub IsTended-adjust :
    (pid : ℕ) (f : Process → Process) (t : ProcessTable)
    → ((p : Process) → (f p).pid ≡ p.pid)
    → ((p : Process) → (f p).ppid ≡ p.ppid)
    → ((p : Process) → (f p).children ≡ p.children)
    → IsTended t
    → IsTended (record t { table = adjust pid f t.table })
IsTended-adjust pid f t same_pid same_parent same_children (v, w) =
    (adjust-IsValid pid f t same_pid v, IsFamily-adjust pid f t.table same_parent same_children w)

pub processes-mmap :
    (pid addr : ℕ) (size : ℤ) (flags name : String) (s : Kernel)
    → (sys_mmap pid addr size flags name s).1.processes ≡ s.processes
unfolding sys_mmap
processes-mmap pid addr (negsuc n) flags name s = refl
processes-mmap pid addr (pos zero) flags name s = refl
processes-mmap pid addr (pos (suc n)) flags name s = ground arith

pub IsTended-fork :
    (pid : ℕ) (s : Kernel) → IsTended s.processes → IsTended (sys_fork pid s).1.processes
unfolding sys_fork fork_from
IsTended-fork pid s (v, w) = elim (Option-cases (get pid s.processes.table)) [
  | inl e ↦ rw (sys_fork, e) (v, w)
  | inr (p, e) ↦
      let t = spawn_child pid p s.processes in
      rw (sys_fork, e)
        (IsTended-adjust t.0 (set_cwd p.cwd) t.1 (λ q. refl) (λ q. refl) (λ q. refl)
          (
            spawn-IsValid p.name pid p.creds.uid p.creds.gid p.cmdline s.processes v,
            spawn-IsFamily p.name pid p.creds.uid p.creds.gid p.cmdline s.processes v w,
          ))
]

pub IsTended-execve :
    (pid : ℕ) (path : String) (s : Kernel)
    → IsTended s.processes
    → IsTended (sys_execve pid path s).1.processes
unfolding sys_execve
IsTended-execve pid path s h = elim (Bool-cases (has_key pid s.processes.table)) [
  | inl e ↦
      rw (sys_execve, e)
        (IsTended-adjust pid (λ p. record p { name = name_of path p.name; cmdline = path })
          s.processes (λ q. refl) (λ q. refl) (λ q. refl) h)
  | inr e ↦ rw (sys_execve, e) h
]

pub IsTended-exit :
    (pid : ℕ) (code : ℤ) (s : Kernel)
    → IsTended s.processes
    → IsTended (sys_exit pid code s).1.processes
unfolding sys_exit
IsTended-exit pid code s h = elim (Bool-cases (has_key pid s.processes.table)) [
  | inl e ↦
      rw (sys_exit, e)
        (IsTended-adjust pid (die code) s.processes (λ q. refl) (λ q. refl) (λ q. refl) h)
  | inr e ↦ rw (sys_exit, e) h
]

IsTended-reap : (cs : List ℕ) (t : ProcessTable) → IsTended t → IsTended (reap cs t).1
unfolding reap
IsTended-reap [] t h = h
IsTended-reap (c ∷ cs) t h = elim (Bool-cases (is_zombie (get c t.table))) [
  | inl e ↦ rw (reap, e) (remove-IsValid c t h.0, remove-IsFamily c t h.1)
  | inr e ↦ rw (reap, e) (IsTended-reap cs t h)
]

pub IsTended-wait4 :
    (pid : ℕ) (s : Kernel) → IsTended s.processes → IsTended (sys_wait4 pid s).1.processes
unfolding sys_wait4 reap_children
IsTended-wait4 pid s h = elim (Option-cases (get pid s.processes.table)) [
  | inl e ↦ rw (sys_wait4, e) h
  | inr (p, e) ↦ rw (sys_wait4, e) (IsTended-reap p.children s.processes h)
]

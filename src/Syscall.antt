-- ===== src/Syscall.antt =====
-- computekernel_edu/syscall.py: the system calls on processes and memory. A negated error number is
-- the result of a call that fails; PIDs, addresses, exit codes and signal numbers are not negative.
pub mod Tasks
pub mod Break
pub mod Families
pub mod Dispatch
use Prim.Native.Char.{code}
use compute_kernel_python.Prelude.{
  ℕ, zero, suc, ◌+◌, ◌-◌, String, Bool, true, false, not, ◌||◌, Option, none, some, List, [], ◌∷◌,
  ℤ, pos, negsuc, leb, any, map, if◌then◌else◌,
}
use compute_kernel_python.Prelude.Eq.{◌==◌, nat_eq}
use compute_kernel_python.Prelude.Dict.{Dict, get, put, adjust, has_key}
use compute_kernel_python.Process
use compute_kernel_python.Process.{Process, ProcessTable, zombie, state_eq}
use compute_kernel_python.Memory.Space.{has_char}
use compute_kernel_python.Memory.Vmm.{Vmm, map_pages, unmap_pages, create_address_space}
use compute_kernel_python.Ipc.{
  Signal, number, sighup, sigterm, sigkill, sigchld, sigusr1, sigusr2, sigsegv, sigint, sigstop,
}

-- -3 is ESRCH, -12 is ENOMEM, and -22 is EINVAL.
abbrev pub no_process : ℤ
no_process = negsuc 2

abbrev pub no_memory : ℤ
no_memory = negsuc 11

abbrev pub invalid : ℤ
invalid = negsuc 21

-- The parts that the dispatcher is wired to, and its own program breaks.
pub record Kernel : Type 0 where
  pub processes : ProcessTable
  pub vmm : Vmm
  pub breaks : Dict ℕ ℕ

abbrev pub with_process : ℕ → (Process → Process) → Kernel → Kernel
with_process pid f s = record s {
  processes = record s.processes { table = adjust pid f s.processes.table };
}

abbrev mmap_addr : ℕ → ℕ
mmap_addr addr = if addr == 0 then 0x7f0000000000 else addr

mmap_at : ℕ → ℕ → ℕ → String → String → Kernel → ℤ × Kernel
mmap_at pid addr length flags name s =
    let (ok, vmm) = map_pages pid addr length flags name s.vmm in
    (if ok then pos addr else no_memory, record s { vmm = vmm })

-- `sys_mmap(addr, length, flags, name)`
unfoldable pub sys_mmap : ℕ → ℕ → ℤ → String → String → Kernel → ℤ × Kernel
unfolding mmap_at
sys_mmap pid addr (negsuc n) flags name s = (invalid, s)
sys_mmap pid addr (pos zero) flags name s = (invalid, s)
sys_mmap pid addr (pos (suc n)) flags name s =
    if has_key pid s.processes.table
    then mmap_at pid (mmap_addr addr) (suc n) flags name s
    else (invalid, s)

unfoldable pub sys_munmap : ℕ → ℕ → Kernel → ℤ × Kernel
sys_munmap pid addr s =
    if addr == 0
    then (invalid, s)
    else let (ok, vmm) = unmap_pages pid addr s.vmm in
      (if ok then pos 0 else invalid, record s { vmm = vmm })

abbrev break_or : Option ℕ → ℕ
break_or none = 0x601000
break_or (some b) = b

unfoldable pub current_break : ℕ → Kernel → ℕ
current_break pid s = break_or (get pid s.breaks)

unfoldable pub sys_brk : ℕ → ℕ → Kernel → ℤ × Kernel
unfolding current_break
sys_brk pid new_brk s =
    let current = current_break pid s in
    if new_brk == 0 || leb new_brk current then (pos current, s) else (
      pos new_brk,
      record s {
        vmm = (map_pages pid current (new_brk - current) "rw-" "[heap]" s.vmm).1;
        breaks = put pid new_brk s.breaks;
      },
    )

unfoldable pub sys_nanosleep : ℕ → ℕ → ℕ → Kernel → ℤ × Kernel
sys_nanosleep pid seconds nanos s = (pos 0, s)

unfoldable pub sys_getpid : ℕ → Kernel → ℤ × Kernel
sys_getpid pid s = (pos pid, s)

abbrev pub set_cwd : String → Process → Process
set_cwd cwd p = record p { cwd = cwd }

abbrev pub spawn_child : ℕ → Process → ProcessTable → ℕ × ProcessTable
spawn_child pid parent t =
    Process.spawn parent.name pid parent.creds.uid parent.creds.gid parent.cmdline t

fork_from : ℕ → Process → Kernel → ℤ × Kernel
fork_from pid parent s =
    let (child, processes) = spawn_child pid parent s.processes in
    (
      pos child,
      record s {
        processes = record processes { table = adjust child (set_cwd parent.cwd) processes.table };
        vmm = create_address_space child s.vmm;
      },
    )

unfoldable pub sys_fork : ℕ → Kernel → ℤ × Kernel
unfolding fork_from
sys_fork pid s = elim (get pid s.processes.table) [
  | none ↦ (invalid, s)
  | some parent ↦ fork_from pid parent s
]

-- `path.split("/")[-1]`
unfoldable pub last_part : String → String
last_part String.[] = String.[]
last_part (String.◌∷◌ c path) =
    let rest = last_part path in
    if has_char b'/' (String.◌∷◌ c path) then rest else String.◌∷◌ c path

abbrev pub name_of : String → String → String
name_of String.[] old = old
name_of (String.◌∷◌ c path) old = last_part (String.◌∷◌ c path)

unfoldable pub sys_execve : ℕ → String → Kernel → ℤ × Kernel
sys_execve pid path s =
    if has_key pid s.processes.table
    then (pos 0, with_process pid (λ p. record p { name = name_of path p.name; cmdline = path }) s)
    else (invalid, s)

abbrev pub die : ℤ → Process → Process
die exit_code p = record p { state = zombie; exit_code = exit_code }

unfoldable pub sys_exit : ℕ → ℤ → Kernel → ℤ × Kernel
sys_exit pid exit_code s =
    if has_key pid s.processes.table
    then (pos 0, with_process pid (die exit_code) s)
    else (invalid, s)

abbrev pub is_zombie : Option Process → Bool
is_zombie none = false
is_zombie (some p) = state_eq p.state zombie

-- The loop of `sys_wait4` over the children: the first zombie is reaped.
unfoldable pub reap : List ℕ → ProcessTable → ℤ × ProcessTable
reap [] t = (pos 0, t)
reap (c ∷ cs) t =
    let rest = reap cs t in if is_zombie (get c t.table) then (pos c, Process.remove c t) else rest

reap_children : Option Process → Kernel → ℤ × Kernel
reap_children none s = (invalid, s)
reap_children (some parent) s =
    let (result, processes) = reap parent.children s.processes in
    (result, record s { processes = processes })

unfoldable pub sys_wait4 : ℕ → Kernel → ℤ × Kernel
unfolding reap_children
sys_wait4 pid s = reap_children (get pid s.processes.table) s

abbrev pub signals : List Signal
signals = sighup ∷ sigterm ∷ sigkill ∷ sigchld ∷ sigusr1 ∷ sigusr2 ∷ sigsegv ∷ sigint ∷ sigstop ∷ []

-- The signal is only logged.
unfoldable pub sys_kill : ℕ → ℕ → ℕ → Kernel → ℤ × Kernel
sys_kill pid target_pid signum s =
    if not (has_key target_pid s.processes.table)
    then (no_process, s)
    else if any (λ sig. number sig == signum) signals
    then (pos 0, s)
    else (invalid, s)

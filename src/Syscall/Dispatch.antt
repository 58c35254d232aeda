-- ===== src/Syscall/Dispatch.antt =====
-- The system calls on files of computekernel_edu/syscall.py, and the dispatch by number.
pub mod Inherits
pub mod Private
pub mod Keeps
pub mod Runs
pub mod Opened
use compute_kernel_python.Prelude.{
  ℕ, zero, suc, String, Bool, true, false, ◌||◌, Option, none, some, List, [], ◌∷◌, ℤ, pos, negsuc,
  length, get_elem?, if◌then◌else◌,
}
use compute_kernel_python.Prelude.Eq.{◌==◌, nat_eq}
use compute_kernel_python.Prelude.Dict.{Dict, get, put, has_key}
use compute_kernel_python.Process.{Process, FileDescriptorTable, get_fd, close_fd}
use compute_kernel_python.Paths.{is_empty}
use compute_kernel_python.Filesystem.{Filesystem}
use compute_kernel_python.Vfs
use compute_kernel_python.Vfs.{Vfs, bad_descriptor}
use compute_kernel_python.Syscall.{
  Kernel, invalid, no_process, current_break, with_process, sys_mmap, sys_munmap, sys_brk,
  sys_nanosleep, sys_getpid, sys_fork, sys_execve, sys_exit, sys_wait4, sys_kill,
}

-- The dispatcher is wired to the VFS too.
pub record Dispatcher (F : Type 0) : Type 0 where
  pub kernel : Kernel
  pub vfs : Vfs F

-- -38 is ENOSYS.
abbrev pub not_implemented : ℤ
not_implemented = negsuc 37

pub data Syscall : Type 0 where
  read write openat close mmap munmap brk nanosleep getpid fork execve exit wait4 kill : Syscall

abbrev pub table : Dict ℕ Syscall
table =
    (0, read)
    ∷ (1, write)
    ∷ (2, openat)
    ∷ (3, close)
    ∷ (9, mmap)
    ∷ (11, munmap)
    ∷ (12, brk)
    ∷ (35, nanosleep)
    ∷ (39, getpid)
    ∷ (57, fork)
    ∷ (59, execve)
    ∷ (60, exit)
    ∷ (61, wait4)
    ∷ (62, kill)
    ∷ []

-- The arguments of a call after the PID, of the types that its handler declares and with its defaults
-- put in. An address, and a size to read, is not negative. `execve` only logs `argv` and `envp`.
abbrev pub Params : Syscall → Type 0
Params read = ℤ × ℕ
Params write = ℤ × List ℕ
Params openat = ℤ × String × String
Params close = ℤ
Params mmap = ℕ × ℤ × String × String
Params munmap = ℕ × ℤ
Params brk = ℤ
Params nanosleep = ℤ × ℤ
Params getpid = Unit
Params fork = Unit
Params execve = String
Params exit = ℤ
Params wait4 = ℤ × ℤ
Params kill = ℤ × ℤ

-- A number without a handler takes no notice of its arguments.
abbrev pub Arguments : Option Syscall → Type 0
Arguments none = Unit
Arguments (some call) = Params call

abbrev pub set_entry : ℕ → String × String → Process → Process
set_entry fd entry p = record p { fdt = record p.fdt { table = put fd entry p.fdt.table } }

abbrev pub drop_entry : ℕ → Process → Process
drop_entry fd p = record p { fdt = (close_fd fd p.fdt).1 }

module _ {F : Type 0} (fs : Filesystem F) where
  abbrev process : ℕ → Dispatcher F → Option Process
  process pid s = get pid s.kernel.processes.table

  read_entry : ℕ → ℕ → Option (String × String) → Dispatcher F → ℤ × Dispatcher F
  read_entry fd size none s = (bad_descriptor, s)
  read_entry fd size (some entry) s =
      let (taken, vfs) = Vfs.read fs fd size s.vfs in (pos (length taken), record s { vfs = vfs })

  unfoldable pub sys_read : ℕ → ℕ → ℕ → Dispatcher F → ℤ × Dispatcher F
  unfolding read_entry
  sys_read pid fd size s = elim (process pid s) [
    | none ↦ (invalid, s)
    | some p ↦ read_entry fd size (get_fd fd p.fdt) s
  ]

  write_entry : ℕ → List ℕ → Option (String × String) → Dispatcher F → ℤ × Dispatcher F
  write_entry fd content none s = (bad_descriptor, s)
  write_entry fd content (some entry) s =
      let (n, vfs) = Vfs.write fs fd content s.vfs in (n, record s { vfs = vfs })

  -- What goes to the standard output or error is only logged.
  unfoldable pub sys_write : ℕ → ℕ → List ℕ → Dispatcher F → ℤ × Dispatcher F
  unfolding write_entry
  sys_write pid fd content s = elim (process pid s) [
    | none ↦ (invalid, s)
    | some p ↦
        if fd == 1 || fd == 2
        then (pos (length content), s)
        else write_entry fd content (get_fd fd p.fdt) s
  ]

  -- `none` is an exception that `open` lets pass.
  opened : ℕ → String → String → Dispatcher F → Option (ℤ × Vfs F) → Option (ℤ × Dispatcher F)
  opened pid path flags s none = none
  opened pid path flags s (some (pos fd, vfs)) = some (
    pos fd,
    record { kernel = with_process pid (set_entry fd (path, flags)) s.kernel; vfs = vfs },
  )
  opened pid path flags s (some (negsuc e, vfs)) = some (negsuc e, record s { vfs = vfs })

  -- The directory descriptor is not used.
  unfoldable pub sys_openat : ℕ → String → String → Dispatcher F → Option (ℤ × Dispatcher F)
  unfolding opened
  sys_openat pid path flags s = elim (process pid s) [
    | none ↦ some (invalid, s)
    | some p ↦
        if is_empty path
        then some (invalid, s)
        else opened pid path flags s (Vfs.open_file fs path flags s.vfs)
  ]

  unfoldable pub sys_close : ℕ → ℕ → Dispatcher F → ℤ × Dispatcher F
  sys_close pid fd s = elim (process pid s) [
    | none ↦ (invalid, s)
    | some p ↦
        if (close_fd fd p.fdt).0
        then (
          pos 0,
          record {
            kernel = with_process pid (drop_entry fd) s.kernel;
            vfs = (Vfs.close fs fd s.vfs).1;
          },
        )
        else (bad_descriptor, s)
  ]

  abbrev pub on_kernel : (Kernel → ℤ × Kernel) → Dispatcher F → Option (ℤ × Dispatcher F)
  on_kernel f s = let (n, kernel) = f s.kernel in some (n, record s { kernel = kernel })

  -- A negative number is no descriptor, and neither 1 nor 2.
  unfoldable pub no_descriptor : ℕ → Dispatcher F → ℤ
  no_descriptor pid s = elim (process pid s) [ none ↦ invalid | some p ↦ bad_descriptor ]

  unfoldable pub handle :
      (call : Syscall) → ℕ → Params call → Dispatcher F → Option (ℤ × Dispatcher F)
  handle read pid (pos fd, size) s = some (sys_read pid fd size s)
  handle read pid (negsuc n, size) s = some (no_descriptor pid s, s)
  handle write pid (pos fd, content) s = some (sys_write pid fd content s)
  handle write pid (negsuc n, content) s = some (no_descriptor pid s, s)
  handle openat pid (dirfd, path, flags) s = sys_openat pid path flags s
  handle close pid (pos fd) s = some (sys_close pid fd s)
  handle close pid (negsuc n) s = some (no_descriptor pid s, s)
  handle mmap pid (addr, size, flags, name) s = on_kernel (sys_mmap pid addr size flags name) s
  handle munmap pid (addr, size) s = on_kernel (sys_munmap pid addr) s
  handle brk pid (pos new_brk) s = on_kernel (sys_brk pid new_brk) s
  handle brk pid (negsuc n) s = some (pos (current_break pid s.kernel), s)
  handle nanosleep pid (seconds, nanos) s = some (pos 0, s)
  handle getpid pid args s = on_kernel (sys_getpid pid) s
  handle fork pid args s = on_kernel (sys_fork pid) s
  handle execve pid path s = on_kernel (sys_execve pid path) s
  handle exit pid exit_code s = on_kernel (sys_exit pid exit_code) s
  handle wait4 pid args s = on_kernel (sys_wait4 pid) s
  handle kill pid (pos target, pos signum) s = on_kernel (sys_kill pid target signum) s
  handle kill pid (pos target, negsuc n) s =
      some (if has_key target s.kernel.processes.table then invalid else no_process, s)
  handle kill pid (negsuc n, signum) s = some (no_process, s)

  unfoldable pub handle_found :
      (call : Option Syscall) → ℕ → Arguments call → Dispatcher F → Option (ℤ × Dispatcher F)
  handle_found none pid args s = some (not_implemented, s)
  handle_found (some call) pid args s = handle call pid args s

  unfoldable pub dispatch :
      ℕ → (nr : ℕ) → Arguments (get nr table) → Dispatcher F → Option (ℤ × Dispatcher F)
  dispatch pid nr args s = handle_found (get nr table) pid args s

-- ===== src/Syscall/Dispatch/Keeps.antt =====
-- Each system call keeps descriptors private.
use mathlib.Core.Path.{subst}
use compute_kernel_python.Prelude.{
  ℕ, ◌≡◌, sym, ◌∙◌, String, ◌||◌, Option, none, some, List, ℤ, pos, negsuc, arith, Bool-cases,
  Option-cases, inl, inr, ◌≢◌,
}
use compute_kernel_python.Prelude.Eq.{◌==◌, nat_eq}
use compute_kernel_python.Prelude.Dict.{get, has_key}
use compute_kernel_python.Process.{FileDescriptorTable, get_fd, close_fd}
use compute_kernel_python.Paths.{is_empty}
use compute_kernel_python.Filesystem.{Filesystem, IsFilesystem}
use compute_kernel_python.Vfs
use compute_kernel_python.Vfs.{Vfs, bad_descriptor, OpenFile, open_file, moved, advance}
use compute_kernel_python.Vfs.Issued.{read-IsValid, write-IsValid, has_key-read, has_key-write}
use compute_kernel_python.Vfs.Opening.{OpensSome, open_file-Opens, open_file_lem}
use compute_kernel_python.Syscall.{
  Kernel, sys_mmap, sys_munmap, sys_brk, sys_getpid, sys_fork, sys_execve, sys_exit, sys_wait4,
  sys_kill,
}
use compute_kernel_python.Syscall.Dispatch.{
  Dispatcher, Syscall, Params, Arguments, handle_found, openat, mmap, munmap, brk, nanosleep,
  getpid, fork, execve, exit, wait4, kill, table, dispatch, handle, sys_read, sys_write, sys_openat,
  sys_close, opened, read_entry, write_entry,
}
use compute_kernel_python.Syscall.Dispatch.Inherits.{
  after, Inherits-mmap, Inherits-munmap, Inherits-brk, Inherits-fork, Inherits-execve,
  Inherits-exit, Inherits-wait4, Inherits-kill, Inherits,
}
use compute_kernel_python.Syscall.Dispatch.Private.{
  IsPrivate, IsPrivate-Inherits, IsPrivate-keys, IsPrivate-open, IsPrivate-close,
}

pub close_fd-has_key : (fd : ℕ) (t : FileDescriptorTable) → (close_fd fd t).0 ≡ has_key fd t.table
unfolding close_fd
close_fd-has_key fd t = ground arith

module _ {F : Type 0} (fs : Filesystem F) where
  abbrev pub Keeps : Dispatcher F → Type 0
  Keeps s = IsPrivate s.kernel.processes.table s.vfs

  abbrev pub KeepsSome : Option (ℤ × Dispatcher F) → Type 0
  KeepsSome none = Unit
  KeepsSome (some (n, s)) = Keeps s

  sys_read-Keeps :
      (pid fd size : ℕ) (s : Dispatcher F) → Keeps s → Keeps (sys_read fs pid fd size s).1
  unfolding sys_read read_entry
  sys_read-Keeps pid fd size s h = elim (Option-cases (get pid s.kernel.processes.table)) [
    | inl e ↦ rw (sys_read, e) h
    | inr (p, e) ↦ elim (Option-cases (get_fd fd p.fdt)) [
      | inl q ↦ rw (sys_read, e, read_entry, q) h
      | inr (entry, q) ↦
          rw (sys_read, e, read_entry, q)
            (IsPrivate-keys s.kernel.processes.table s.vfs (Vfs.read fs fd size s.vfs).1
              (read-IsValid fs fd size s.vfs h.valid) (λ f. has_key-read fs f fd size s.vfs) h)
    ]
  ]

  sys_write-Keeps :
      (pid fd : ℕ) (content : List ℕ) (s : Dispatcher F)
      → Keeps s
      → Keeps (sys_write fs pid fd content s).1
  unfolding sys_write write_entry
  sys_write-Keeps pid fd content s h = elim (Option-cases (get pid s.kernel.processes.table)) [
    | inl e ↦ rw (sys_write, e) h
    | inr (p, e) ↦ elim (Bool-cases (fd == 1 || fd == 2)) [
      | inl std ↦ rw (sys_write, e, std) h
      | inr std ↦ elim (Option-cases (get_fd fd p.fdt)) [
        | inl q ↦ rw (sys_write, e, std, write_entry, q) h
        | inr (entry, q) ↦
            rw (sys_write, e, std, write_entry, q)
              (IsPrivate-keys s.kernel.processes.table s.vfs (Vfs.write fs fd content s.vfs).1
                (write-IsValid fs fd content s.vfs h.valid)
                (λ f. has_key-write fs f fd content s.vfs) h)
      ]
    ]
  ]

  opened-Keeps :
      (pid : ℕ) (path flags : String) (s : Dispatcher F) (x : Option (ℤ × Vfs F))
      → OpensSome path s.vfs x
      → Keeps s
      → KeepsSome (opened fs pid path flags s x)
  unfolding opened
  opened-Keeps pid path flags s none o h = tt
  opened-Keeps pid path flags s (some (pos fd, w)) o h =
      IsPrivate-open pid (path, flags) path fd s.kernel.processes.table s.vfs w o h
  opened-Keeps pid path flags s (some (negsuc e, w)) (inl (a, same)) h =
      subst (IsPrivate s.kernel.processes.table) (sym same) h
  opened-Keeps pid path flags s (some (negsuc e, w)) (inr (a, b, c)) h = absurd (cc)

  pub sys_openat-Keeps :
      (pid : ℕ) (path flags : String) (s : Dispatcher F)
      → Keeps s
      → KeepsSome (sys_openat fs pid path flags s)
  unfolding sys_openat
  sys_openat-Keeps pid path flags s h = elim (Option-cases (get pid s.kernel.processes.table)) [
    | inl e ↦ rw (sys_openat, e) h
    | inr (p, e) ↦ elim (Bool-cases (is_empty path)) [
      | inl q ↦ rw (sys_openat, e, q) h
      | inr q ↦
          rw (sys_openat, e, q)
            (opened-Keeps pid path flags s (open_file fs path flags s.vfs)
              (open_file-Opens fs path flags s.vfs) h)
    ]
  ]

  sys_close-Keeps : (pid fd : ℕ) (s : Dispatcher F) → Keeps s → Keeps (sys_close fs pid fd s).1
  unfolding sys_close
  sys_close-Keeps pid fd s h = elim (Option-cases (get pid s.kernel.processes.table)) [
    | inl e ↦ rw (sys_close, e) h
    | inr (p, e) ↦ elim (Bool-cases (close_fd fd p.fdt).0) [
      | inl q ↦
          rw (sys_close, e, q)
            (IsPrivate-close fs pid fd p s.kernel.processes.table s.vfs e
              (sym (close_fd-has_key fd p.fdt) ∙ q) h)
      | inr q ↦ rw (sys_close, e, q) h
    ]
  ]

  on_kernel-Keeps :
      (s : Dispatcher F) (x : ℤ × Kernel)
      → Inherits s.kernel.processes.table (after x)
      → Keeps s
      → KeepsSome (some (x.0, record s { kernel = x.1 }))
  on_kernel-Keeps s x i h = IsPrivate-Inherits s.kernel.processes.table (after x) s.vfs i h

  handle-Keeps :
      (call : Syscall) (pid : ℕ) (args : Params call) (s : Dispatcher F)
      → Keeps s
      → KeepsSome (handle fs call pid args s)
  unfolding handle sys_getpid
  handle-Keeps Syscall.read pid (pos fd, size) s h = sys_read-Keeps pid fd size s h
  handle-Keeps Syscall.read pid (negsuc n, size) s h = h
  handle-Keeps Syscall.write pid (pos fd, content) s h = sys_write-Keeps pid fd content s h
  handle-Keeps Syscall.write pid (negsuc n, content) s h = h
  handle-Keeps openat pid (dirfd, path, flags) s h = sys_openat-Keeps pid path flags s h
  handle-Keeps Syscall.close pid (pos fd) s h = sys_close-Keeps pid fd s h
  handle-Keeps Syscall.close pid (negsuc n) s h = h
  handle-Keeps mmap pid (addr, size, flags, name) s h =
      on_kernel-Keeps s (sys_mmap pid addr size flags name s.kernel)
        (Inherits-mmap pid s.kernel addr size flags name) h
  handle-Keeps munmap pid (addr, size) s h =
      on_kernel-Keeps s (sys_munmap pid addr s.kernel) (Inherits-munmap pid s.kernel addr) h
  handle-Keeps brk pid (pos new_brk) s h =
      on_kernel-Keeps s (sys_brk pid new_brk s.kernel) (Inherits-brk pid s.kernel new_brk) h
  handle-Keeps brk pid (negsuc n) s h = h
  handle-Keeps nanosleep pid args s h = h
  handle-Keeps getpid pid args s h = h
  handle-Keeps fork pid args s h =
      on_kernel-Keeps s (sys_fork pid s.kernel) (Inherits-fork pid s.kernel) h
  handle-Keeps execve pid path s h =
      on_kernel-Keeps s (sys_execve pid path s.kernel) (Inherits-execve pid s.kernel path) h
  handle-Keeps exit pid code s h =
      on_kernel-Keeps s (sys_exit pid code s.kernel) (Inherits-exit pid s.kernel code) h
  handle-Keeps wait4 pid args s h =
      on_kernel-Keeps s (sys_wait4 pid s.kernel) (Inherits-wait4 pid s.kernel) h
  handle-Keeps kill pid (pos target, pos signum) s h =
      on_kernel-Keeps s (sys_kill pid target signum s.kernel)
        (Inherits-kill pid s.kernel target signum) h
  handle-Keeps kill pid (pos target, negsuc n) s h = h
  handle-Keeps kill pid (negsuc n, signum) s h = h

  handle_found-Keeps :
      (call : Option Syscall) (pid : ℕ) (args : Arguments call) (s : Dispatcher F)
      → Keeps s
      → KeepsSome (handle_found fs call pid args s)
  unfolding handle_found
  handle_found-Keeps none pid args s h = h
  handle_found-Keeps (some call) pid args s h = handle-Keeps call pid args s h

  pub dispatch-Keeps :
      (pid nr : ℕ) (args : Arguments (get nr table)) (s : Dispatcher F)
      → Keeps s
      → KeepsSome (dispatch fs pid nr args s)
  unfolding dispatch
  dispatch-Keeps pid nr args s h = handle_found-Keeps (get nr table) pid args s h

  opened_returns :
      (pid : ℕ) (path flags : String) (s : Dispatcher F) (x : ℤ × Vfs F)
      → opened fs pid path flags s (some x) ≢ none
  unfolding opened
  opened_returns pid path flags s (pos fd, w) e = absurd (cc)
  opened_returns pid path flags s (negsuc n, w) e = absurd (cc)

  sys_openat_returns :
      (laws : IsFilesystem fs) (pid : ℕ) (path flags : String) (s : Dispatcher F)
      → sys_openat fs pid path flags s ≢ none
  unfolding sys_openat
  sys_openat_returns laws pid path flags s =
      elim (Option-cases (get pid s.kernel.processes.table)) [
        | inl e ↦ rw (sys_openat, e) (λ q. absurd (cc))
        | inr (p, e) ↦ elim (Bool-cases (is_empty path)) [
          | inl q ↦ rw (sys_openat, e, q) (λ r. absurd (cc))
          | inr q ↦
              let (x, known, opens) = open_file_lem fs laws path flags s.vfs in
              rw (sys_openat, e, q, known) (opened_returns pid path flags s x)
        ]
      ]

  handle_returns :
      (laws : IsFilesystem fs) (call : Syscall) (pid : ℕ) (args : Params call) (s : Dispatcher F)
      → handle fs call pid args s ≢ none
  unfolding handle
  handle_returns laws Syscall.read pid (pos fd, size) s e = absurd (cc)
  handle_returns laws Syscall.read pid (negsuc n, size) s e = absurd (cc)
  handle_returns laws Syscall.write pid (pos fd, content) s e = absurd (cc)
  handle_returns laws Syscall.write pid (negsuc n, content) s e = absurd (cc)
  handle_returns laws openat pid (dirfd, path, flags) s e =
      sys_openat_returns laws pid path flags s e
  handle_returns laws Syscall.close pid (pos fd) s e = absurd (cc)
  handle_returns laws Syscall.close pid (negsuc n) s e = absurd (cc)
  handle_returns laws mmap pid args s e = absurd (cc)
  handle_returns laws munmap pid args s e = absurd (cc)
  handle_returns laws brk pid (pos n) s e = absurd (cc)
  handle_returns laws brk pid (negsuc n) s e = absurd (cc)
  handle_returns laws nanosleep pid args s e = absurd (cc)
  handle_returns laws getpid pid args s e = absurd (cc)
  handle_returns laws fork pid args s e = absurd (cc)
  handle_returns laws execve pid args s e = absurd (cc)
  handle_returns laws exit pid args s e = absurd (cc)
  handle_returns laws wait4 pid args s e = absurd (cc)
  handle_returns laws kill pid (pos target, pos signum) s e = absurd (cc)
  handle_returns laws kill pid (pos target, negsuc n) s e = absurd (cc)
  handle_returns laws kill pid (negsuc n, signum) s e = absurd (cc)

  handle_found_returns :
      (laws : IsFilesystem fs) (call : Option Syscall) (pid : ℕ) (args : Arguments call)
      (s : Dispatcher F)
      → handle_found fs call pid args s ≢ none
  unfolding handle_found
  handle_found_returns laws none pid args s e = absurd (cc)
  handle_found_returns laws (some call) pid args s e = handle_returns laws call pid args s e

  pub dispatch_returns :
      (laws : IsFilesystem fs) (pid nr : ℕ) (args : Arguments (get nr table)) (s : Dispatcher F)
      → dispatch fs pid nr args s ≢ none
  unfolding dispatch
  dispatch_returns laws pid nr args s = handle_found_returns laws (get nr table) pid args s

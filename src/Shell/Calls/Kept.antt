-- ===== src/Shell/Calls/Kept.antt =====
-- What the command `syscall` keeps true of the parts that it acts on.
use compute_kernel_python.Prelude.{
  ℕ, String, ◌≡◌, sym, Option, none, some, List, [], ◌∷◌, ℤ, pos, negsuc, get_elem?, arith,
  Bool-cases, Option-cases, inl, inr,
}
use mathlib.Core.Path.{subst}
use compute_kernel_python.Prelude.Eq.{nat_eq}
use compute_kernel_python.Prelude.Dict.{get}
use compute_kernel_python.Memory.Pmm.{alloc_pages}
use compute_kernel_python.Memory.Vmm.{pages_needed}
use compute_kernel_python.Tmpfs.{Tmpfs, tmpfs}
use compute_kernel_python.Syscall.{
  Kernel, sys_mmap, sys_fork, sys_execve, sys_exit, sys_wait4, sys_kill, sys_nanosleep, sys_getpid,
}
use compute_kernel_python.Syscall.Families.{
  IsTended, processes-mmap, IsTended-fork, IsTended-execve, IsTended-exit, IsTended-wait4,
}
use compute_kernel_python.Syscall.Dispatch.{
  Dispatcher, Syscall, read, write, openat, close, mmap, munmap, brk, nanosleep, getpid, fork,
  execve, exit, wait4, kill, sys_openat,
}
use compute_kernel_python.Syscall.Dispatch.Inherits.{
  Inherits, after, Inherits-mmap, Inherits-fork, Inherits-execve, Inherits-exit, Inherits-wait4,
}
use compute_kernel_python.Syscall.Dispatch.Private.{IsPrivate, IsPrivate-Inherits}
use compute_kernel_python.Syscall.Dispatch.Keeps.{KeepsSome, sys_openat-Keeps}
use compute_kernel_python.Syscall.Dispatch.Opened.{TendedSome, sys_openat-IsTended}
use compute_kernel_python.Shell.Calls.{
  Result, on_descriptor, map_at_text, is_nil, is_process, mmap_text, kill_text, word_or, text_code,
  handle_text, handle_stranger, dispatch_found, call_named, dispatch_text,
}

abbrev pub IsKept : Dispatcher Tmpfs → Type 0
IsKept d = IsTended d.kernel.processes × IsPrivate d.kernel.processes.table d.vfs

abbrev pub KeepsResult : Result → Type 0
KeepsResult none = Unit
KeepsResult (some (n, d)) = IsKept d

on_kernel-IsKept :
    (d : Dispatcher Tmpfs) (x : ℤ × Kernel)
    → IsTended x.1.processes
    → Inherits d.kernel.processes.table (after x)
    → IsKept d
    → IsKept (record d { kernel = x.1 })
on_kernel-IsKept d x t i h = (t, IsPrivate-Inherits d.kernel.processes.table (after x) d.vfs i h.1)

both : (x : Option (ℤ × Dispatcher Tmpfs)) → TendedSome tmpfs x → KeepsSome tmpfs x → KeepsResult x
both none t k = tt
both (some (n, d)) t k = (t, k)

kernel-kill : (pid : ℕ) (k : Kernel) → (sys_kill pid 0 15 k).1 ≡ k
unfolding sys_kill
kernel-kill pid k = ground arith

on_descriptor-KeepsResult :
    (pid : ℕ) (args : List String) (d : Dispatcher Tmpfs)
    → IsKept d
    → KeepsResult (on_descriptor pid args d)
unfolding on_descriptor
on_descriptor-KeepsResult pid [] d h = tt
on_descriptor-KeepsResult pid (fd ∷ args) d h = h

map_at_text-KeepsResult :
    (pid : ℕ) (d : Dispatcher Tmpfs) → IsKept d → KeepsResult (map_at_text pid d)
unfolding map_at_text
map_at_text-KeepsResult pid d h = elim (Option-cases (get pid d.kernel.vmm.address_spaces)) [
  | inl e ↦ rw (map_at_text, e) h
  | inr (space, e) ↦
      elim (Bool-cases (is_nil (alloc_pages (pages_needed 4096) pid d.kernel.vmm.pmm).0)) [
        | inl q ↦ rw (map_at_text, e, q) h
        | inr q ↦ rw (map_at_text, e, q) tt
      ]
]

exit-IsKept :
    (pid : ℕ) (code : ℤ) (d : Dispatcher Tmpfs)
    → IsKept d
    → IsKept (record d { kernel = (sys_exit pid code d.kernel).1 })
exit-IsKept pid code d h =
    on_kernel-IsKept d (sys_exit pid code d.kernel) (IsTended-exit pid code d.kernel h.0)
      (Inherits-exit pid d.kernel code) h

mmap-IsKept :
    (pid : ℕ) (d : Dispatcher Tmpfs)
    → IsKept d
    → IsKept (record d { kernel = (sys_mmap pid 0 (pos 4096) "rw-" "[mmap]" d.kernel).1 })
mmap-IsKept pid d h =
    on_kernel-IsKept d (sys_mmap pid 0 (pos 4096) "rw-" "[mmap]" d.kernel)
      (subst IsTended (sym (processes-mmap pid 0 (pos 4096) "rw-" "[mmap]" d.kernel)) h.0)
      (Inherits-mmap pid d.kernel 0 (pos 4096) "rw-" "[mmap]") h

mmap_text-KeepsResult :
    (pid : ℕ) (addr : String) (d : Dispatcher Tmpfs)
    → IsKept d
    → KeepsResult (mmap_text pid (addr ∷ []) d)
unfolding mmap_text
mmap_text-KeepsResult pid addr d h = elim (Bool-cases (is_process pid d)) [
  | inl e ↦ rw e (map_at_text-KeepsResult pid d h)
  | inr e ↦ rw e h
]

kill-KeepsResult : (pid : ℕ) (d : Dispatcher Tmpfs) → IsKept d → KeepsResult (kill_text pid [] d)
unfolding kill_text
kill-KeepsResult pid d h =
    let same : (sys_kill pid 0 15 d.kernel).1 ≡ d.kernel = kernel-kill pid d.kernel in
    subst (λ k. IsKept (record d { kernel = k })) (sym same) h

handle_text-KeepsResult :
    (call : Syscall) (pid : ℕ) (args : List String) (d : Dispatcher Tmpfs)
    → IsKept d
    → KeepsResult (handle_text call pid args d)
unfolding handle_text sys_nanosleep sys_getpid
handle_text-KeepsResult read pid args d h = on_descriptor-KeepsResult pid args d h
handle_text-KeepsResult write pid args d h = on_descriptor-KeepsResult pid args d h
handle_text-KeepsResult openat pid args d h =
    let path = word_or "" (get_elem? args 1) in
    let flags = word_or "r" (get_elem? args 2) in
    both (sys_openat tmpfs pid path flags d) (sys_openat-IsTended tmpfs pid path flags d h.0)
      (sys_openat-Keeps tmpfs pid path flags d h.1)
handle_text-KeepsResult close pid args d h = on_descriptor-KeepsResult pid args d h
handle_text-KeepsResult mmap pid [] d h = mmap-IsKept pid d h
handle_text-KeepsResult mmap pid (addr ∷ []) d h = mmap_text-KeepsResult pid addr d h
handle_text-KeepsResult mmap pid (addr ∷ size ∷ args) d h = tt
handle_text-KeepsResult munmap pid args d h = h
handle_text-KeepsResult brk pid [] d h = h
handle_text-KeepsResult brk pid (new_brk ∷ args) d h = tt
handle_text-KeepsResult nanosleep pid args d h = h
handle_text-KeepsResult getpid pid args d h = h
handle_text-KeepsResult fork pid args d h =
    on_kernel-IsKept d (sys_fork pid d.kernel) (IsTended-fork pid d.kernel h.0)
      (Inherits-fork pid d.kernel) h
handle_text-KeepsResult execve pid args d h =
    let path = word_or "" (get_elem? args 0) in
    on_kernel-IsKept d (sys_execve pid path d.kernel) (IsTended-execve pid path d.kernel h.0)
      (Inherits-execve pid d.kernel path) h
handle_text-KeepsResult exit pid [] d h = exit-IsKept pid (pos 0) d h
handle_text-KeepsResult exit pid (code ∷ args) d h = exit-IsKept pid (pos (text_code code)) d h
handle_text-KeepsResult wait4 pid args d h =
    on_kernel-IsKept d (sys_wait4 pid d.kernel) (IsTended-wait4 pid d.kernel h.0)
      (Inherits-wait4 pid d.kernel) h
handle_text-KeepsResult kill pid [] d h = kill-KeepsResult pid d h
handle_text-KeepsResult kill pid (target ∷ args) d h = h

handle_stranger-KeepsResult :
    (call : Syscall) (n : ℕ) (args : List String) (d : Dispatcher Tmpfs)
    → IsKept d
    → KeepsResult (handle_stranger call n args d)
unfolding handle_stranger
handle_stranger-KeepsResult read n [] d h = tt
handle_stranger-KeepsResult read n (a ∷ args) d h = h
handle_stranger-KeepsResult write n [] d h = tt
handle_stranger-KeepsResult write n (a ∷ args) d h = h
handle_stranger-KeepsResult close n [] d h = tt
handle_stranger-KeepsResult close n (a ∷ args) d h = h
handle_stranger-KeepsResult openat n args d h = h
handle_stranger-KeepsResult mmap n [] d h = h
handle_stranger-KeepsResult mmap n (a ∷ []) d h = h
handle_stranger-KeepsResult mmap n (a ∷ b ∷ args) d h = tt
handle_stranger-KeepsResult munmap n args d h = h
handle_stranger-KeepsResult brk n [] d h = h
handle_stranger-KeepsResult brk n (a ∷ args) d h = tt
handle_stranger-KeepsResult nanosleep n args d h = h
handle_stranger-KeepsResult getpid n args d h = h
handle_stranger-KeepsResult fork n args d h = h
handle_stranger-KeepsResult execve n args d h = h
handle_stranger-KeepsResult exit n args d h = h
handle_stranger-KeepsResult wait4 n args d h = h
handle_stranger-KeepsResult kill n [] d h = kill-KeepsResult n d h
handle_stranger-KeepsResult kill n (a ∷ args) d h = h

dispatch_found-KeepsResult :
    (call : Option Syscall) (pid : ℤ) (args : List String) (d : Dispatcher Tmpfs)
    → IsKept d
    → KeepsResult (dispatch_found call pid args d)
unfolding dispatch_found
dispatch_found-KeepsResult none pid args d h = h
dispatch_found-KeepsResult (some call) (pos pid) args d h =
    handle_text-KeepsResult call pid args d h
dispatch_found-KeepsResult (some call) (negsuc n) args d h =
    handle_stranger-KeepsResult call n args d h

pub dispatch_text-KeepsResult :
    (pid nr : ℤ) (args : List String) (d : Dispatcher Tmpfs)
    → IsKept d
    → KeepsResult (dispatch_text pid nr args d)
unfolding dispatch_text
dispatch_text-KeepsResult pid nr args d h = dispatch_found-KeepsResult (call_named nr) pid args d h

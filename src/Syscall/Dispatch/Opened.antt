-- ===== src/Syscall/Dispatch/Opened.antt =====
-- Opening a file keeps the process table well-formed.
use compute_kernel_python.Prelude.{
  ℕ, String, refl, Option, none, some, ℤ, pos, negsuc, Bool-cases, Option-cases, inl, inr,
}
use compute_kernel_python.Prelude.Eq.{nat_eq}
use compute_kernel_python.Prelude.Dict.{get}
use compute_kernel_python.Paths.{is_empty}
use compute_kernel_python.Filesystem.{Filesystem}
use compute_kernel_python.Vfs
use compute_kernel_python.Vfs.{Vfs}
use compute_kernel_python.Syscall.Families.{IsTended, IsTended-adjust}
use compute_kernel_python.Syscall.Dispatch.{Dispatcher, sys_openat, opened, set_entry}

module _ {F : Type 0} (fs : Filesystem F) where
  abbrev pub TendedSome : Option (ℤ × Dispatcher F) → Type 0
  TendedSome none = Unit
  TendedSome (some (n, d)) = IsTended d.kernel.processes

  opened-IsTended :
      (pid : ℕ) (path flags : String) (d : Dispatcher F) (x : Option (ℤ × Vfs F))
      → IsTended d.kernel.processes
      → TendedSome (opened fs pid path flags d x)
  unfolding opened
  opened-IsTended pid path flags d none h = tt
  opened-IsTended pid path flags d (some (pos fd, v)) h =
      IsTended-adjust pid (set_entry fd (path, flags)) d.kernel.processes (λ p. refl) (λ p. refl)
        (λ p. refl) h
  opened-IsTended pid path flags d (some (negsuc e, v)) h = h

  pub sys_openat-IsTended :
      (pid : ℕ) (path flags : String) (d : Dispatcher F)
      → IsTended d.kernel.processes
      → TendedSome (sys_openat fs pid path flags d)
  unfolding sys_openat opened
  sys_openat-IsTended pid path flags d h = elim (Option-cases (get pid d.kernel.processes.table)) [
    | inl e ↦ rw (sys_openat, e) h
    | inr (p, e) ↦ elim (Bool-cases (is_empty path)) [
      | inl q ↦ rw (sys_openat, e, q) h
      | inr q ↦
          rw (sys_openat, e, q)
            (opened-IsTended pid path flags d (Vfs.open_file fs path flags d.vfs) h)
    ]
  ]

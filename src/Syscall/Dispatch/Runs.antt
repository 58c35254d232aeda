-- ===== src/Syscall/Dispatch/Runs.antt =====
-- Runs of system calls: a descriptor stays with the process that opened it.
use compute_kernel_python.Prelude.{
  ℕ, ◌≤◌, ◌≡◌, ◌≢◌, refl, sym, ap, ◌∙◌, true, false, ◌||◌, Option, none, some, List, [], ◌∷◌, ℤ,
  arith, Bool-cases, Option-cases, inl, inr,
}
use compute_kernel_python.Prelude.Eq.{◌==◌, nat_eq}
use compute_kernel_python.Prelude.Dict.{get, has_key, has_key-none, get-none}
use compute_kernel_python.Process.{Process, get_fd}
use compute_kernel_python.Filesystem.{Filesystem, IsFilesystem}
use compute_kernel_python.Vfs.{Vfs, bad_descriptor}
use compute_kernel_python.Vfs.Issued.{IsValid}
use compute_kernel_python.Syscall.Dispatch.{
  Dispatcher, Arguments, table, dispatch, sys_read, sys_write, sys_close, read_entry, write_entry,
}
use compute_kernel_python.Syscall.Dispatch.Inherits.{Files}
use compute_kernel_python.Syscall.Dispatch.Private.{IsPrivate}
use compute_kernel_python.Syscall.Dispatch.Keeps.{
  Keeps, KeepsSome, dispatch-Keeps, dispatch_returns, close_fd-has_key,
}

-- A process, a number, and the arguments of the call that has the number.
abbrev pub Request : Type 0
Request = (pid : ℕ) × (nr : ℕ) × Arguments (get nr table)

no_file : (fd : ℕ) (t : Files) → t ≡ [] → has_key fd t ≡ true → ⊥
unfolding has_key
no_file fd t e h = ground (arith, sym (ap (has_key fd) e) ∙ h)

module _ {F : Type 0} where
  not_both :
      (s : Dispatcher F) (pid qid fd : ℕ) (p q : Process)
      → IsPrivate s.kernel.processes.table s.vfs
      → get pid s.kernel.processes.table ≡ some p
      → has_key fd p.fdt.table ≡ true
      → get qid s.kernel.processes.table ≡ some q
      → pid ≢ qid
      → has_key fd q.fdt.table ≡ false
  not_both s pid qid fd p q private at h other differ = elim (Bool-cases (has_key fd q.fdt.table)) [
    | inl k ↦ absurd (differ (private.alone pid qid p q fd at other h k))
    | inr k ↦ k
  ]

  least : (fd : ℕ) (v : Vfs F) → IsValid v → has_key fd v.open_files ≡ true → 3 ≤ fd
  least fd v valid h = elim (Option-cases (get fd v.open_files)) [
    | inl e ↦ absurd (ground (arith, h, has_key-none fd v.open_files e))
    | inr (o, e) ↦ (valid.1 fd o e).0
  ]

module _ {F : Type 0} (fs : Filesystem F) where
  abbrev pub after_call : Dispatcher F → Option (ℤ × Dispatcher F) → Dispatcher F
  after_call s none = s
  after_call s (some (n, t)) = t

  -- Calls by number, each for a process.
  unfoldable pub run : List Request → Dispatcher F → Dispatcher F
  run [] s = s
  run ((pid, nr, args) ∷ calls) s = run calls (after_call s (dispatch fs pid nr args s))

  -- None of the calls raises an exception.
  abbrev pub AllReturn : List Request → Dispatcher F → Type 0
  AllReturn [] s = Unit
  AllReturn ((pid, nr, args) ∷ calls) s =
      (dispatch fs pid nr args s ≢ none)
      × AllReturn calls (after_call s (dispatch fs pid nr args s))

  run-AllReturn :
      (laws : IsFilesystem fs) (calls : List Request) (s : Dispatcher F) → AllReturn calls s
  run-AllReturn laws [] s = tt
  run-AllReturn laws ((pid, nr, args) ∷ calls) s = (
    dispatch_returns fs laws pid nr args s,
    run-AllReturn laws calls (after_call s (dispatch fs pid nr args s)),
  )

  after_call-Keeps :
      (s : Dispatcher F) (x : Option (ℤ × Dispatcher F))
      → KeepsSome fs x
      → Keeps fs s
      → Keeps fs (after_call s x)
  after_call-Keeps s none k h = h
  after_call-Keeps s (some (n, t)) k h = k

  run-Keeps : (calls : List Request) (s : Dispatcher F) → Keeps fs s → Keeps fs (run calls s)
  unfolding run
  run-Keeps [] s h = h
  run-Keeps ((pid, nr, args) ∷ calls) s h =
      let next = after_call s (dispatch fs pid nr args s) in
      run-Keeps calls next
        (after_call-Keeps s (dispatch fs pid nr args s) (dispatch-Keeps fs pid nr args s h) h)

  -- On a VFS whose open descriptors are as its calls leave them, and with processes that have no
  -- files open: whatever system calls follow, by any processes, with any numbers, arguments of the
  -- types that the handlers declare (addresses and sizes to read not negative) and over file
  -- systems that do what the interface says, none of them raises an exception; and then every descriptor in the table of a process
  -- is open in the VFS, no two processes have the same one, and the open descriptors of the VFS are
  -- again as its calls leave them.
  pub run-IsPrivate :
      (laws : IsFilesystem fs) (calls : List Request) (s : Dispatcher F)
      → IsValid s.vfs
      → ((pid : ℕ) (p : Process) → get pid s.kernel.processes.table ≡ some p → p.fdt.table ≡ [])
      → AllReturn calls s × IsPrivate (run calls s).kernel.processes.table (run calls s).vfs
  run-IsPrivate laws calls s valid empty = (
    run-AllReturn laws calls s,
    run-Keeps calls s (record {
      valid = valid;
      backed = λ pid p fd at h. absurd (no_file fd p.fdt.table (empty pid p at) h);
      alone = λ pid qid p q fd at b h k. absurd (no_file fd p.fdt.table (empty pid p at) h);
    }),
  )

  -- Where every descriptor of a process is open in the VFS and no two processes have the same one,
  -- as system calls keep it: if a process has a descriptor, then `sys_read`, `sys_write` and
  -- `sys_close` of it by any other process return -9 (EBADF) and change nothing.
  pub strangers_refused :
      (s : Dispatcher F) (pid qid fd size : ℕ) (content : List ℕ) (p q : Process)
      → IsPrivate s.kernel.processes.table s.vfs
      → get pid s.kernel.processes.table ≡ some p
      → has_key fd p.fdt.table ≡ true
      → get qid s.kernel.processes.table ≡ some q
      → pid ≢ qid
      → (sys_read fs qid fd size s ≡ (bad_descriptor, s))
        × (sys_write fs qid fd content s ≡ (bad_descriptor, s))
        × (sys_close fs qid fd s ≡ (bad_descriptor, s))
  unfolding sys_read sys_write sys_close read_entry write_entry get_fd
  strangers_refused s pid qid fd size content p q private at h other differ =
      let absent = not_both s pid qid fd p q private at h other differ in
      let nothing = get-none fd q.fdt.table absent in
      let low = least fd s.vfs private.valid (private.backed pid p fd at h) in
      let standard : (fd == 1 || fd == 2) ≡ false = ground (arith, low) in
      (
        rw (sys_read, other, read_entry, nothing) refl,
        rw (sys_write, other, standard, write_entry, nothing) refl,
        rw (sys_close, other, close_fd-has_key fd q.fdt ∙ absent) refl,
      )

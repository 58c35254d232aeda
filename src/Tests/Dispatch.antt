-- ===== src/Tests/Dispatch.antt =====
-- System calls on files at concrete inputs.
use compute_kernel_python.Prelude.{ℕ, ◌≡◌, ◌≢◌, refl, true, some, List, [], ◌∷◌, negsuc, arith}
use compute_kernel_python.Prelude.Eq.{string_eq, nat_eq}
use compute_kernel_python.Prelude.Dict.{get, put, adjust, has_key}
use compute_kernel_python.Memory.Pmm
use compute_kernel_python.Memory.Vmm
use compute_kernel_python.Memory.Space.{has_char}
use compute_kernel_python.Process
use compute_kernel_python.Process.{Process, swapper, newborn, alloc_pid, get_fd, close_fd, no_files}
use compute_kernel_python.Filesystem.{file}
use compute_kernel_python.Tmpfs
use compute_kernel_python.Tmpfs.{Tmpfs, tmpfs, create, lookup, lookup_name}
use compute_kernel_python.Tmpfs.Refines.{tmpfs-IsFilesystem}
use compute_kernel_python.Vfs.{Vfs, bad_descriptor, open_file, resolve, walk, find_mount}
use compute_kernel_python.Vfs.Issued.{IsValid, AreIssued-none}
use compute_kernel_python.Vfs.Walk.{root_mount}
use compute_kernel_python.Syscall.{sys_fork}
use compute_kernel_python.Syscall.Dispatch.{
  Dispatcher, dispatch, handle, handle_found, sys_openat, sys_read, sys_write, sys_close,
}
use compute_kernel_python.Syscall.Dispatch.Private.{IsPrivate}
use compute_kernel_python.Syscall.Dispatch.Runs.{
  Request, run, AllReturn, run-IsPrivate, strangers_refused,
}

abbrev motd : Tmpfs
motd = (create 1 "motd" file Tmpfs.init).1

abbrev v : Vfs Tmpfs
v = record { objects = λ q. motd; mounts = root_mount 0 "tmpfs" ∷ []; open_files = []; next_fd = 3 }

abbrev s : Dispatcher Tmpfs
s = record {
  kernel = record { processes = Process.init; vmm = Vmm.init (Pmm.init 4); breaks = [] };
  vfs = v;
}

-- The process 0 opens a file and forks the process 2.
calls : List Request
unfolding get
calls = (0, 2, (negsuc 99, "/motd", "r")) ∷ (0, 57, tt) ∷ []

abbrev t : Dispatcher Tmpfs
t = run tmpfs calls s

v-IsValid : IsValid v
v-IsValid = ((omega arith), AreIssued-none 3)

no_open_files :
    (pid : ℕ) (p : Process) → get pid s.kernel.processes.table ≡ some p → p.fdt.table ≡ []
unfolding get
no_open_files pid p at = ground (arith, at)

run-IsPrivate_example : AllReturn tmpfs calls s × IsPrivate t.kernel.processes.table t.vfs
run-IsPrivate_example = run-IsPrivate tmpfs tmpfs-IsFilesystem.0 calls s v-IsValid no_open_files

abbrev parent : Process
parent = record swapper {
  fdt = record no_files { table = (3, ("/motd", "r")) ∷ [] };
  children = 2 ∷ [];
}

parent-get : get 0 t.kernel.processes.table ≡ some parent
unfolding run dispatch handle handle_found sys_openat sys_fork open_file resolve walk find_mount
    create lookup lookup_name get put adjust has_key has_char Process.spawn alloc_pid calls
parent-get = refl

abbrev child : Process
child = newborn 2 "swapper/0" 0 0 0 ""

child-get : get 2 t.kernel.processes.table ≡ some child
unfolding run dispatch handle handle_found sys_openat sys_fork open_file resolve walk find_mount
    create lookup lookup_name get put adjust has_key has_char Process.spawn alloc_pid calls
child-get = refl

parent_has : has_key 3 parent.fdt.table ≡ true
unfolding has_key
parent_has = refl

different : (the_parent the_child : ℕ) → the_parent ≡ 0 → the_child ≡ 2 → the_parent ≢ the_child
different a b e f g = omega (arith, e, f, g)

strangers_refused_example :
    (sys_read tmpfs 2 3 16 t ≡ (bad_descriptor, t))
    × (sys_write tmpfs 2 3 [] t ≡ (bad_descriptor, t))
    × (sys_close tmpfs 2 3 t ≡ (bad_descriptor, t))
strangers_refused_example =
    strangers_refused tmpfs t 0 2 3 16 [] parent child
      (run-IsPrivate tmpfs tmpfs-IsFilesystem.0 calls s v-IsValid no_open_files).1 parent-get
      parent_has child-get (different 0 2 refl refl)

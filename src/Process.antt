-- ===== src/Process.antt =====
-- computekernel_edu/process.py: credentials, descriptor tables, processes, the PID allocator and
-- the process table.
pub mod Laws
pub mod Pids
pub mod Runs
use compute_kernel_python.Prelude.{
  ℕ, zero, suc, ◌+◌, String, Bool, true, false, ◌&&◌, ◌||◌, Option, none, some, List, [], ◌∷◌, ◌++◌,
  ℤ, pos, ltb, leb, keep, if◌then◌else◌,
}
use compute_kernel_python.Prelude.Eq.{◌==◌, nat_eq, string_eq}
use compute_kernel_python.Prelude.Ids.{has}
use compute_kernel_python.Prelude.Dict.{Dict, get, put, pop, adjust, has_key, values}

pub data TaskState : Type 0 where
  new runnable running sleep_int sleep_unint zombie dead : TaskState

abbrev pub state_eq : TaskState → TaskState → Bool
state_eq new new = true
state_eq runnable runnable = true
state_eq running running = true
state_eq sleep_int sleep_int = true
state_eq sleep_unint sleep_unint = true
state_eq zombie zombie = true
state_eq dead dead = true
state_eq _ _ = false

pub record Credentials : Type 0 where
  pub uid : ℕ
  pub gid : ℕ
  pub euid : ℕ
  pub egid : ℕ

unfoldable pub is_root : Credentials → Bool
is_root c = c.euid == 0

pub record FileDescriptorTable : Type 0 where
  pub table : Dict ℕ (String × String)
  pub next_fd : ℕ

abbrev pub no_files : FileDescriptorTable
no_files = record { table = []; next_fd = 3 }

-- The operations of `FileDescriptorTable`.
unfoldable pub alloc_fd : String → String → FileDescriptorTable → ℕ × FileDescriptorTable
alloc_fd path flags t =
    (t.next_fd, record { table = put t.next_fd (path, flags) t.table; next_fd = t.next_fd + 1 })

unfoldable pub get_fd : ℕ → FileDescriptorTable → Option (String × String)
get_fd fd t = get fd t.table

unfoldable pub close_fd : ℕ → FileDescriptorTable → Bool × FileDescriptorTable
close_fd fd t =
    if has_key fd t.table then (true, record t { table = pop fd t.table }) else (false, t)

pub record Process : Type 0 where
  pub pid : ℕ
  pub ppid : ℕ
  pub name : String
  pub state : TaskState
  pub creds : Credentials
  pub fdt : FileDescriptorTable
  pub exit_code : ℤ
  pub cwd : String
  pub cmdline : String
  pub children : List ℕ

unfoldable pub is_kernel_process : Process → Bool
is_kernel_process p = p.pid == 0 || (p.ppid == 0 && leb p.pid 2)

pub record PidAllocator : Type 0 where
  pub next_pid : ℕ
  pub free_pids : List ℕ

alloc_from : List ℕ → PidAllocator → ℕ × PidAllocator
alloc_from [] a = (a.next_pid, record a { next_pid = a.next_pid + 1 })
alloc_from (pid ∷ rest) a = (pid, record a { free_pids = rest })

-- `PidAllocator.alloc` and `PidAllocator.free`.
unfoldable pub alloc_pid : PidAllocator → ℕ × PidAllocator
unfolding alloc_from
alloc_pid a = alloc_from a.free_pids a

unfoldable pub free_pid : ℕ → PidAllocator → PidAllocator
free_pid pid a = if ltb 1 pid then record a { free_pids = a.free_pids ++ pid ∷ [] } else a

pub record ProcessTable : Type 0 where
  pub table : Dict ℕ Process
  pub pids : PidAllocator

abbrev pub swapper : Process
swapper = record {
  pid = 0;
  ppid = 0;
  name = "swapper/0";
  state = runnable;
  creds = record { uid = 0; gid = 0; euid = 0; egid = 0 };
  fdt = no_files;
  exit_code = pos 0;
  cwd = "/";
  cmdline = "";
  children = [];
}

abbrev pub init : ProcessTable
init = record { table = (0, swapper) ∷ []; pids = record { next_pid = 2; free_pids = [] } }

abbrev pub add_child : ℕ → Process → Process
add_child pid p = record p { children = p.children ++ pid ∷ [] }

-- `list.remove` of the first occurrence; the callers test that there is one.
pub remove_first : ℕ → List ℕ → List ℕ
remove_first k [] = []
remove_first k (x ∷ xs) = if x == k then xs else x ∷ remove_first k xs

abbrev pub drop_child : ℕ → Process → Process
drop_child pid p =
    if has pid p.children then record p { children = remove_first pid p.children } else p

abbrev pub newborn : ℕ → String → ℕ → ℕ → ℕ → String → Process
newborn pid name ppid uid gid cmdline = record {
  pid = pid;
  ppid = ppid;
  name = name;
  state = new;
  creds = record { uid = uid; gid = gid; euid = uid; egid = gid };
  fdt = no_files;
  exit_code = pos 0;
  cwd = "/";
  cmdline = cmdline;
  children = [];
}

-- `spawn(name, ppid, uid, gid, cmdline)`: the new PID, which is the new process's key.
unfoldable pub spawn : String → ℕ → ℕ → ℕ → String → ProcessTable → ℕ × ProcessTable
spawn name ppid uid gid cmdline s =
    let (pid, pids) = alloc_pid s.pids in
    (
      pid,
      record {
        table =
            adjust ppid (add_child pid) (put pid (newborn pid name ppid uid gid cmdline) s.table);
        pids = pids;
      },
    )

unfoldable pub lookup : ℕ → ProcessTable → Option Process
lookup pid s = get pid s.table

unfoldable pub remove : ℕ → ProcessTable → ProcessTable
unfolding remove_first
remove pid s = elim (get pid s.table) [
  | none ↦ s
  | some p ↦ record {
    table = adjust p.ppid (drop_child pid) (pop pid s.table);
    pids = free_pid pid s.pids;
  }
]

unfoldable pub zombies : ProcessTable → List Process
zombies s = keep (λ p. state_eq p.state zombie) (values s.table)

unfoldable pub by_name : String → ProcessTable → List Process
by_name name s = keep (λ p. string_eq.test p.name name) (values s.table)

-- ===== src/Thread.antt =====
-- computekernel_edu/thread.py: register contexts, threads, the TID allocator and the thread table.
-- Threads are shared objects, so a thread is a reference into a store that the scheduler also uses.
pub mod Table
use compute_kernel_python.Prelude.{
  ℕ, zero, suc, ◌+◌, ◌*◌, String, Bool, true, false, ◌&&◌, Option, none, some, List, [], ◌∷◌, ◌++◌,
  ℤ, pos, negsuc, sub_ℕ, keep, if◌then◌else◌,
}
use compute_kernel_python.Prelude.Eq.{◌==◌, nat_eq, string_eq}
use compute_kernel_python.Prelude.Dict.{Dict, get, put, pop, values}
use compute_kernel_python.Process.{TaskState, new, state_eq}

pub record CpuContext : Type 0 where
  pub rax : ℕ
  pub rbx : ℕ
  pub rcx : ℕ
  pub rdx : ℕ
  pub rsi : ℕ
  pub rdi : ℕ
  pub rsp : ℤ
  pub rbp : ℕ
  pub rip : ℕ
  pub rflags : ℕ
  pub cs : ℕ
  pub ss : ℕ

abbrev pub cpu_context : CpuContext
cpu_context = record {
  rax = 0;
  rbx = 0;
  rcx = 0;
  rdx = 0;
  rsi = 0;
  rdi = 0;
  rsp = pos 0;
  rbp = 0;
  rip = 0;
  rflags = 0x202;
  cs = 0x08;
  ss = 0x10;
}

pub record Thread : Type 0 where
  pub tid : ℕ
  pub pid : ℕ
  pub name : String
  pub state : TaskState
  pub context : CpuContext
  pub timeslice : ℕ
  pub remaining_ticks : ℕ
  pub wait_reason : String
  pub is_kernel_thread : Bool
  pub cpu_affinity : ℤ
  pub priority : ℕ

abbrev int_eq : ℤ → ℤ → Bool
int_eq (pos a) (pos b) = a == b
int_eq (negsuc a) (negsuc b) = a == b
int_eq _ _ = false

abbrev bool_eq : Bool → Bool → Bool
bool_eq true true = true
bool_eq false false = true
bool_eq _ _ = false

context_eq : CpuContext → CpuContext → Bool
context_eq a b =
    a.rax == b.rax
    && a.rbx == b.rbx
    && a.rcx == b.rcx
    && a.rdx == b.rdx
    && a.rsi == b.rsi
    && a.rdi == b.rdi
    && int_eq a.rsp b.rsp
    && a.rbp == b.rbp
    && a.rip == b.rip
    && a.rflags == b.rflags
    && a.cs == b.cs
    && a.ss == b.ss

-- `==` on two threads, which `@dataclass` defines field by field.
unfoldable pub thread_eq : Thread → Thread → Bool
unfolding context_eq
thread_eq a b =
    a.tid == b.tid
    && a.pid == b.pid
    && string_eq.test a.name b.name
    && state_eq a.state b.state
    && context_eq a.context b.context
    && a.timeslice == b.timeslice
    && a.remaining_ticks == b.remaining_ticks
    && string_eq.test a.wait_reason b.wait_reason
    && bool_eq a.is_kernel_thread b.is_kernel_thread
    && int_eq a.cpu_affinity b.cpu_affinity
    && a.priority == b.priority

-- The thread objects, by reference.
abbrev pub Store : Type 0
Store = ℕ → Thread

abbrev pub update : ℕ → (Thread → Thread) → Store → Store
update r f objects q = if q == r then f (objects q) else objects q

pub record TidAllocator : Type 0 where
  pub next_tid : ℕ
  pub free_tids : List ℕ

alloc_from : List ℕ → TidAllocator → ℕ × TidAllocator
alloc_from [] a = (a.next_tid, record a { next_tid = a.next_tid + 1 })
alloc_from (tid ∷ rest) a = (tid, record a { free_tids = rest })

-- `TidAllocator.alloc` and `TidAllocator.free`.
unfoldable pub alloc_tid : TidAllocator → ℕ × TidAllocator
unfolding alloc_from
alloc_tid a = alloc_from a.free_tids a

unfoldable pub free_tid : ℕ → TidAllocator → TidAllocator
free_tid tid a = record a { free_tids = a.free_tids ++ tid ∷ [] }

-- `_threads` maps a TID to its object; `next_ref` is where the next object is made.
pub record ThreadTable : Type 0 where
  pub threads : Dict ℕ ℕ
  pub tids : TidAllocator
  pub next_ref : ℕ

abbrev pub init : ThreadTable
init = record { threads = []; tids = record { next_tid = 1; free_tids = [] }; next_ref = 0 }

abbrev pub entry_context : ℕ → Bool → CpuContext
entry_context tid is_kernel_thread =
    if is_kernel_thread
    then record cpu_context { cs = 0x08; ss = 0x10; rsp = pos (0xFFFF800000000000 + tid * 0x10000) }
    else record cpu_context { cs = 0x2B; ss = 0x23; rsp = sub_ℕ 0x00007fff00000000 (tid * 0x10000) }

abbrev pub newborn : ℕ → ℕ → String → ℕ → Bool → Thread
newborn tid pid name timeslice is_kernel_thread = record {
  tid = tid;
  pid = pid;
  name = name;
  state = new;
  context = entry_context tid is_kernel_thread;
  timeslice = timeslice;
  remaining_ticks = timeslice;
  wait_reason = "";
  is_kernel_thread = is_kernel_thread;
  cpu_affinity = negsuc 0;
  priority = 0;
}

pub record Spawned : Type 0 where
  pub thread : ℕ
  pub table : ThreadTable
  pub objects : Store

-- `spawn(pid, name, timeslice, is_kernel_thread)`: the reference of the new thread.
unfoldable pub spawn : ℕ → String → ℕ → Bool → ThreadTable → Store → Spawned
spawn pid name timeslice is_kernel_thread t objects =
    let (tid, tids) = alloc_tid t.tids in
    record {
      thread = t.next_ref;
      table = record {
        threads = put tid t.next_ref t.threads;
        tids = tids;
        next_ref = t.next_ref + 1;
      };
      objects = update t.next_ref (λ _. newborn tid pid name timeslice is_kernel_thread) objects;
    }

unfoldable pub lookup : ℕ → ThreadTable → Option ℕ
lookup tid t = get tid t.threads

unfoldable pub by_pid : ℕ → ThreadTable → Store → List ℕ
by_pid pid t objects = keep (λ r. (objects r).pid == pid) (values t.threads)

unfoldable pub remove : ℕ → ThreadTable → ThreadTable
remove tid t = elim (get tid t.threads) [
  | none ↦ t
  | some r ↦ record t { threads = pop tid t.threads; tids = free_tid tid t.tids }
]

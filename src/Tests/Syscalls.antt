-- ===== src/Tests/Syscalls.antt =====
-- Runs of the system calls and of the program loader at concrete inputs.
use compute_kernel_python.Prelude.{
  ◌≢◌, ℕ, ◌+◌, ◌<◌, ◌++◌, map, All, arith, ◌≤◌, ◌≡◌, ◌⊎◌, refl, true, false, none, some, List, [],
  ◌∷◌, pos, negsuc,
}
use compute_kernel_python.Prelude.Eq.{◌==◌, nat_eq}
use compute_kernel_python.Prelude.Ids.{has}
use compute_kernel_python.Prelude.Dict
use compute_kernel_python.Prelude.Dict.{get, put}
use compute_kernel_python.Process
use compute_kernel_python.Process.{Process, ProcessTable, alloc_pid, add_child}
use compute_kernel_python.Process.Pids.{IsValid}
use compute_kernel_python.Process.Runs
use compute_kernel_python.Process.Runs.{do_spawn, run-IsValid}
use compute_kernel_python.Memory.Pmm
use compute_kernel_python.Memory.Pmm.{free_pages, fresh_pages}
use compute_kernel_python.Memory.Pmm.Frames
use compute_kernel_python.Memory.Vmm
use compute_kernel_python.Memory.Vmm.{Vmm, default_space, pages_needed}
use compute_kernel_python.Memory.Space.{AddressSpace, VirtualMemoryArea}
use compute_kernel_python.Elf.{ElfSegment, FakeElf, make_simple, load}
use compute_kernel_python.Elf.Load.{area_at, load_lem, pages_of, segment_area, stack_area}
use compute_kernel_python.Syscall.{Kernel, set_cwd, spawn_child, is_zombie, sys_fork, sys_wait4}
use compute_kernel_python.Syscall.Tasks.{newborn_of, sys_wait4_lem, sys_fork_lem}

abbrev calls : List Runs.Call
calls = do_spawn "init" 0 0 0 "/sbin/init" ∷ do_spawn "sh" 2 1000 1000 "sh" ∷ []

-- A shell under the first process, and four frames.
abbrev kernel : Kernel
kernel = record {
  processes = Runs.run calls Process.init;
  vmm = Vmm.init (Pmm.init 4);
  breaks = [];
}

kernel-IsValid : IsValid kernel.processes
kernel-IsValid = (run-IsValid calls).0

abbrev first : Process
first = add_child 3 (Process.newborn 2 "init" 0 0 0 "/sbin/init")

first_there : get 2 kernel.processes.table ≡ some first
unfolding Process.spawn alloc_pid get put Dict.adjust
first_there = refl

sys_fork_lem_example :
    ((sys_fork 2 kernel).0 ≡ pos (spawn_child 2 first kernel.processes).0)
    × (get (spawn_child 2 first kernel.processes).0 kernel.processes.table ≡ none)
    × (2 ≤ (spawn_child 2 first kernel.processes).0)
    × (get (spawn_child 2 first kernel.processes).0 (sys_fork 2 kernel).1.processes.table
        ≡ some (set_cwd first.cwd (newborn_of 2 kernel first kernel-IsValid first_there)))
    × (get (spawn_child 2 first kernel.processes).0 (sys_fork 2 kernel).1.vmm.address_spaces
        ≡ some (default_space (spawn_child 2 first kernel.processes).0))
    × (get 2 (sys_fork 2 kernel).1.processes.table
        ≡ some (add_child (spawn_child 2 first kernel.processes).0 first))
    × ((k : ℕ)
        → (k == (spawn_child 2 first kernel.processes).0) ≡ false
        → (k == 2) ≡ false
        → get k (sys_fork 2 kernel).1.processes.table ≡ get k kernel.processes.table)
    × IsValid (sys_fork 2 kernel).1.processes
sys_fork_lem_example = sys_fork_lem 2 kernel first kernel-IsValid first_there

sys_wait4_lem_example :
    ((sys_wait4 2 kernel ≡ (pos 0, kernel))
      × ((c : ℕ) → has c first.children ≡ true → is_zombie (get c kernel.processes.table) ≡ false))
    ⊎ ((c : ℕ) × (has c first.children ≡ true)
        × (is_zombie (get c kernel.processes.table) ≡ true)
        × ((sys_wait4 2 kernel).0 ≡ pos c)
        × (get c (sys_wait4 2 kernel).1.processes.table ≡ none)
        × IsValid (sys_wait4 2 kernel).1.processes)
sys_wait4_lem_example = sys_wait4_lem 2 kernel first kernel-IsValid first_there

abbrev shell : FakeElf
shell = make_simple "sh" 0x400000

-- The process 3 has an address space, and there are 300 frames, of which the program needs 259.
abbrev vmm : Vmm
vmm = Vmm.create_address_space 3 (Vmm.init (Pmm.init 300))

load_lem_example :
    (get 3 vmm.address_spaces ≡ none → load shell 3 vmm ≡ (negsuc 0, vmm))
    × ((space : AddressSpace)
        → get 3 vmm.address_spaces ≡ some space
        → (load shell 3 vmm).0 ≡ pos shell.entry_point)
    × ((space : AddressSpace)
        → get 3 vmm.address_spaces ≡ some space
        → Frames.IsValid vmm.pmm
        → All (λ (seg : ElfSegment). 0 < seg.size) shell.segments
        → pages_of shell.segments + pages_needed 0x100000 ≤ free_pages vmm.pmm
        → (after : AddressSpace) × (get 3 (load shell 3 vmm).1.address_spaces ≡ some after)
          × (after.areas ≡ space.areas ++ map segment_area shell.segments ++ stack_area ∷ []))
    × ((addr : ℕ) (a : VirtualMemoryArea)
        → area_at addr (get 3 vmm.address_spaces) ≡ some a
        → area_at addr (get 3 (load shell 3 vmm).1.address_spaces) ≡ some a)
    × ((other : ℕ)
        → 3 ≢ other
        → get other (load shell 3 vmm).1.address_spaces ≡ get other vmm.address_spaces)
load_lem_example = load_lem shell 3 vmm

vmm-known : get 3 vmm.address_spaces ≡ some (default_space 3)
unfolding Vmm.create_address_space Vmm.init get put
vmm-known = refl

vmm-IsValid : Frames.IsValid vmm.pmm
unfolding Vmm.create_address_space Vmm.init
vmm-IsValid = Frames.init-IsValid 300

vmm-room : pages_of shell.segments + pages_needed 0x100000 ≤ free_pages vmm.pmm
unfolding Vmm.create_address_space Vmm.init pages_needed free_pages Pmm.init fresh_pages
vmm-room = omega arith

loaded_areas :
    (after : AddressSpace) × (get 3 (load shell 3 vmm).1.address_spaces ≡ some after)
    × (after.areas ≡ (default_space 3).areas ++ map segment_area shell.segments ++ stack_area ∷ [])
loaded_areas =
    (load_lem shell 3 vmm).2 (default_space 3) vmm-known vmm-IsValid
      (omega arith, (omega arith, (omega arith, tt))) vmm-room

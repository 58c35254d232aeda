-- ===== src/Tests/Memory.antt =====
-- Runs of the memory subsystem of computekernel_edu/memory.py on small inputs.
use compute_kernel_python.Prelude.{
  ℕ, ◌+◌, ◌≤◌, ◌<◌, ◌%◌, ◌≡◌, refl, true, false, some, List, [], ◌∷◌, pos, negsuc, leb,
  if◌then◌else◌, arith,
}
use compute_kernel_python.Prelude.Eq.{nat_eq}
use compute_kernel_python.Prelude.Dict
use compute_kernel_python.Prelude.Dict.{get, put}
use compute_kernel_python.Memory.Pmm
use compute_kernel_python.Memory.Pmm.{
  Page, Pmm, page_size, fresh_pages, first_free, free_pages, used_pages, release, alloc_page,
  free_page, alloc_pages,
}
use compute_kernel_python.Memory.Pmm.Frames.{init-IsValid}
use compute_kernel_python.Memory.Pmm.Frames
use compute_kernel_python.Memory.Pmm.Loop.{chosen, claimed, alloc_pages_lem}
use compute_kernel_python.Memory.Pmm.Runs
use compute_kernel_python.Memory.Pmm.Runs.{do_alloc, do_free, run, run-accounted}
use compute_kernel_python.Memory.Space
use compute_kernel_python.Memory.Space.{
  VirtualMemoryArea, AddressSpace, area, contains, has_char, lookup, check_access,
}
use compute_kernel_python.Memory.Vmm
use compute_kernel_python.Memory.Vmm.{
  Vmm, create_address_space, destroy_address_space, default_space, pages_needed, map_pages,
  unmap_pages, simulate_page_fault,
}
use compute_kernel_python.Memory.Vmm.Laws.{map_pages_lem}
use compute_kernel_python.Memory.Kmalloc
use compute_kernel_python.Memory.Kmalloc.{Kmalloc, alloc, free}
use compute_kernel_python.Memory.Kmalloc.Laws.{
  do_alloc as take, do_free as give, live_disjoint, alloc_lem, free-alloc,
}
use compute_kernel_python.Memory.Kmalloc.Laws

-- Four frames, of which the second is given back after three were taken.
abbrev script : List Runs.Call
script = do_alloc 3 7 ∷ do_free (pos 1) ∷ do_free (pos 9) ∷ do_alloc 5 8 ∷ []

run-accounted_example :
    Frames.IsValid (run script (Pmm.init 4))
    × (free_pages (run script (Pmm.init 4)) + used_pages (run script (Pmm.init 4)) ≡ 4)
run-accounted_example = run-accounted 4 script

abbrev pmm : Pmm
pmm = Pmm.init 4

pmm-IsValid : Frames.IsValid pmm
pmm-IsValid = init-IsValid 4

alloc_pages_example : alloc_pages 5 7 pmm ≡ (
    if leb 5 (free_pages pmm)
    then (chosen 7 5 pmm.pages, record pmm { pages = claimed 7 5 pmm.pages })
    else ([], pmm))
alloc_pages_example = alloc_pages_lem 5 7 pmm pmm-IsValid

alloc_pages_short : alloc_pages 5 7 pmm ≡ ([], pmm)
unfolding alloc_pages alloc_page free_page release first_free fresh_pages Pmm.init
alloc_pages_short = refl

abbrev space : AddressSpace
space = default_space 3

-- Process 3 has an address space, and there are four frames.
abbrev vmm : Vmm
vmm = create_address_space 3 (Vmm.init pmm)

vmm-space : get 3 vmm.address_spaces ≡ some space
unfolding create_address_space Vmm.init get put
vmm-space = refl

vmm-IsValid : Frames.IsValid vmm.pmm
unfolding create_address_space Vmm.init
vmm-IsValid = pmm-IsValid

too_big : (map_pages 3 0x800000 20000 "rw-" "[heap]" vmm).0 ≡ false
unfolding map_pages pages_needed create_address_space Vmm.init get put alloc_pages alloc_page
    free_page release first_free fresh_pages Pmm.init
too_big = refl

fits : (map_pages 3 0x800000 5000 "rw-" "[heap]" vmm).0 ≡ true
unfolding map_pages pages_needed create_address_space Vmm.init get put alloc_pages alloc_page
    free_page release first_free fresh_pages Pmm.init
fits = refl

map_pages_example : map_pages 3 0x800000 5000 "rw-" "[heap]" vmm ≡ (
    if leb (pages_needed 5000) (free_pages vmm.pmm)
    then (
      true,
      record {
        pmm = record vmm.pmm { pages = claimed 3 (pages_needed 5000) vmm.pmm.pages };
        address_spaces = put 3 (Space.map 0x800000 5000 "rw-" "[heap]" space) vmm.address_spaces;
      },
    )
    else (false, vmm))
map_pages_example =
    map_pages_lem 3 0x800000 5000 "rw-" "[heap]" vmm vmm-IsValid space vmm-space (omega arith)

-- Two blocks that stay live, one that is freed twice, and a size that is refused.
abbrev calls : List Kmalloc.Laws.Call
calls =
    take (pos 512)
    ∷ take (pos 100)
    ∷ take (pos 256)
    ∷ give 0xFFFF800001000000
    ∷ give 0xFFFF800001000000
    ∷ take (negsuc 4)
    ∷ []

second_live : get 0xFFFF800001000200 (Kmalloc.Laws.run calls Kmalloc.init).allocations ≡ some 100
unfolding alloc free get put Dict.pop
second_live = refl

first_address : (alloc (pos 512) Kmalloc.init).0 ≡ some 0xFFFF800001000000
unfolding alloc
first_address = refl

live_disjoint_example :
    (0xFFFF800001000200 % 16 ≡ 0)
    × (0 < 100)
    × (Kmalloc.init.next_addr ≤ 0xFFFF800001000200)
    × ((b m : ℕ)
        → get b (Kmalloc.Laws.run calls Kmalloc.init).allocations ≡ some m
        → 0xFFFF800001000200 < b
        → 0xFFFF800001000200 + 100 ≤ b)
live_disjoint_example = live_disjoint calls 0xFFFF800001000200 100 second_live

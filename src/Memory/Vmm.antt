-- ===== src/Memory/Vmm.antt =====
-- `VirtualMemoryManager` of computekernel_edu/memory.py, with the frame manager that it owns.
pub mod Laws
use compute_kernel_python.Prelude.{
  ℕ, ◌+◌, ◌-◌, ◌/◌, String, Bool, true, false, not, ◌&&◌, Option, none, some, List, [], ◌∷◌,
  if◌then◌else◌,
}
use compute_kernel_python.Prelude.Eq.{nat_eq}
use compute_kernel_python.Prelude.Dict.{Dict, get, put, pop}
use compute_kernel_python.Memory.Pmm.{Page, Pmm, page_size, alloc_pages}
use compute_kernel_python.Memory.Space
use compute_kernel_python.Memory.Space.{VirtualMemoryArea, AddressSpace, may_write}

pub record Vmm : Type 0 where
  pub pmm : Pmm
  pub address_spaces : Dict ℕ AddressSpace

unfoldable pub init : Pmm → Vmm
init pmm = record { pmm = pmm; address_spaces = [] }

-- The three areas of a new address space.
unfoldable pub default_space : ℕ → AddressSpace
unfolding Space.empty Space.map
default_space pid = Space.map 0x7fff00000000 0x100000 "rw-" "[stack]" (
    Space.map 0x600000 0x1000 "rw-" "[data]"
      (Space.map 0x400000 0x1000 "r-x" "[text]" (Space.empty pid)))

unfoldable pub create_address_space : ℕ → Vmm → Vmm
create_address_space pid s = record s {
  address_spaces = put pid (default_space pid) s.address_spaces;
}

unfoldable pub destroy_address_space : ℕ → Vmm → Vmm
destroy_address_space pid s = record s { address_spaces = pop pid s.address_spaces }

unfoldable pub pages_needed : ℕ → ℕ
pages_needed size = (size + page_size - 1) / page_size

abbrev pub is_empty {ℓ} : {A : Type ℓ} → List A → Bool
is_empty [] = true
is_empty (x ∷ xs) = false

unfoldable pub map_pages : ℕ → ℕ → ℕ → String → String → Vmm → Bool × Vmm
map_pages pid vaddr size flags name s = elim (get pid s.address_spaces) [
  | none ↦ (false, s)
  | some space ↦
      let taken = alloc_pages (pages_needed size) pid s.pmm in
      if is_empty taken.0 then (false, record s { pmm = taken.1 }) else (
        true,
        record {
          pmm = taken.1;
          address_spaces = put pid (Space.map vaddr size flags name space) s.address_spaces;
        },
      )
]

unfoldable pub unmap_pages : ℕ → ℕ → Vmm → Bool × Vmm
unmap_pages pid vaddr s = elim (get pid s.address_spaces) [
  | none ↦ (false, s)
  | some space ↦ (
    (Space.unmap vaddr space).0,
    record s { address_spaces = put pid (Space.unmap vaddr space).1 s.address_spaces },
  )
]

-- One constructor for each message of `simulate_page_fault`.
pub data Fault : Type 0 where
  unhandled no_area : Fault
  protection satisfied : VirtualMemoryArea → Fault

unfoldable pub simulate_page_fault : ℕ → ℕ → Bool → Vmm → Fault
simulate_page_fault pid addr write s = elim (get pid s.address_spaces) [
  | none ↦ unhandled
  | some space ↦ elim (Space.lookup addr space) [
    | none ↦ no_area
    | some a ↦ if write && not (may_write a) then protection a else satisfied a
  ]
]

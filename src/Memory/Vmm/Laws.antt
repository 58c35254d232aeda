-- ===== src/Memory/Vmm/Laws.antt =====
-- What `map_pages` does to frames and areas, and what it leaves alone.
use compute_kernel_python.Prelude.{
  ℕ, zero, suc, ◌+◌, ◌-◌, ◌*◌, ◌≤◌, ◌<◌, String, ◌≡◌, Bool, true, false, none, some, List, [], ◌∷◌,
  leb, if◌then◌else◌, arith, ◌≢◌,
}
use compute_kernel_python.Prelude.Eq.{nat_eq}
use compute_kernel_python.Prelude.Dict.{get, put, get-put}
use compute_kernel_python.Memory.Pmm.{Page, page_size, count_free, free_pages}
use compute_kernel_python.Memory.Pmm.Frames.{IsValid}
use compute_kernel_python.Memory.Pmm.Loop.{chosen, claimed, alloc_pages_lem}
use compute_kernel_python.Memory.Space
use compute_kernel_python.Memory.Space.{AddressSpace, check_access}
use compute_kernel_python.Memory.Vmm.{
  Vmm, destroy_address_space, pages_needed, map_pages, unmap_pages, Fault, satisfied,
  simulate_page_fault,
}

-- The frames asked for cover the size, and one frame less would not.
pub pages_needed_bounds :
    (size : ℕ)
    → (size ≤ pages_needed size * page_size) × (pages_needed size * page_size < size + page_size)
unfolding pages_needed
pages_needed_bounds size = omega arith

count_free-claimed :
    (pid n : ℕ) (ps : List Page)
    → n ≤ count_free ps
    → count_free (claimed pid n ps) + n ≡ count_free ps
count_free-claimed pid zero ps h = omega arith
count_free-claimed pid (suc n) [] h = absurd (omega arith)
count_free-claimed pid (suc n) (p ∷ ps) h =
    ground (arith, count_free-claimed pid (suc n) ps, count_free-claimed pid n ps)

chosen-ne-nil : (pid n : ℕ) (ps : List Page) → suc n ≤ count_free ps → chosen pid (suc n) ps ≢ []
chosen-ne-nil pid n [] h e = omega arith
chosen-ne-nil pid n (p ∷ ps) h e = ground (arith, chosen-ne-nil pid n ps)

pages_needed-pos : (size : ℕ) → 0 < size → pages_needed size ≡ suc (pages_needed size - 1)
unfolding pages_needed
pages_needed-pos size h = omega arith

module _ (pid vaddr size : ℕ) (flags name : String) (s : Vmm) (v : IsValid s.pmm) where
  -- With frames as calls leave them, for a process that has an address space, a mapping of at
  -- least one byte succeeds exactly if enough frames are free. Then it claims the lowest ones and
  -- adds its area; else nothing changes.
  pub map_pages_lem :
      (space : AddressSpace)
      → get pid s.address_spaces ≡ some space
      → 0 < size
      → map_pages pid vaddr size flags name s ≡ (
          if leb (pages_needed size) (free_pages s.pmm)
          then (
            true,
            record {
              pmm = record s.pmm { pages = claimed pid (pages_needed size) s.pmm.pages };
              address_spaces = put pid (Space.map vaddr size flags name space) s.address_spaces;
            },
          )
          else (false, s))
  unfolding map_pages free_pages
  map_pages_lem space known h = ground (
    arith,
    alloc_pages_lem (pages_needed size) pid s.pmm v,
    chosen-ne-nil pid (pages_needed size - 1) s.pmm.pages,
    pages_needed-pos size h,
  )

  -- With frames as calls leave them, a mapping that is refused, whatever the reason, changes
  -- neither frames nor areas.
  pub map_pages-refused :
      (map_pages pid vaddr size flags name s).0 ≡ false
      → (map_pages pid vaddr size flags name s).1 ≡ s
  unfolding map_pages free_pages
  map_pages-refused h = ground (
    arith,
    alloc_pages_lem (pages_needed size) pid s.pmm v,
    chosen-ne-nil pid (pages_needed size - 1) s.pmm.pages,
  )

  -- A successful mapping takes exactly the frames that its size needs.
  pub free_pages-map_pages :
      (map_pages pid vaddr size flags name s).0 ≡ true
      → free_pages (map_pages pid vaddr size flags name s).1.pmm + pages_needed size
        ≡ free_pages s.pmm
  unfolding map_pages free_pages
  free_pages-map_pages h = ground (
    arith,
    alloc_pages_lem (pages_needed size) pid s.pmm v,
    count_free-claimed pid (pages_needed size) s.pmm.pages,
  )

  -- With frames as calls leave them, a successful mapping takes exactly the frames that its size
  -- needs, and neither unmapping the area nor destroying the address space gives one of them back.
  frames_stay_taken :
      (map_pages pid vaddr size flags name s).0 ≡ true
      → (free_pages (map_pages pid vaddr size flags name s).1.pmm + pages_needed size
          ≡ free_pages s.pmm)
        × (free_pages (unmap_pages pid vaddr (map_pages pid vaddr size flags name s).1).1.pmm
              + pages_needed size
            ≡ free_pages s.pmm)
        × (free_pages (destroy_address_space pid (map_pages pid vaddr size flags name s).1).pmm
              + pages_needed size
            ≡ free_pages s.pmm)
  unfolding unmap_pages destroy_address_space
  frames_stay_taken h = let taken = free_pages-map_pages h in (taken, ground (arith, taken), taken)

-- Mapping, successful or not, leaves the areas of every other process alone.
pub map_pages-other :
    (pid vaddr size other : ℕ) (flags name : String) (s : Vmm)
    → pid ≢ other
    → get other (map_pages pid vaddr size flags name s).1.address_spaces
      ≡ get other s.address_spaces
unfolding map_pages
map_pages-other pid vaddr size other flags name s ne = grind (arith, get-put)

abbrev pub is_satisfied : Fault → Bool
is_satisfied (satisfied a) = true
is_satisfied _ = false

-- A page fault is satisfied exactly where the process has an address space whose access check
-- passes for the same address and right.
pub page_fault-check_access :
    (pid addr : ℕ) (write : Bool) (s : Vmm)
    → is_satisfied (simulate_page_fault pid addr write s) ≡ elim (get pid s.address_spaces) [
      | none ↦ false
      | some space ↦ check_access addr write false space
    ]
unfolding simulate_page_fault check_access
page_fault-check_access pid addr write s = ground arith

-- ===== src/Memory/Pmm.antt =====
-- `Page` and `PhysicalMemoryManager` of computekernel_edu/memory.py.
pub mod Frames
pub mod Loop
pub mod Runs
use compute_kernel_python.Prelude.{
  ℕ, zero, suc, ◌+◌, ◌*◌, Bool, true, false, not, Option, none, some, List, [], ◌∷◌, ◌++◌, ℤ, pos,
  negsuc, ltb, length, modify, if◌then◌else◌,
}

abbrev pub page_size : ℕ
page_size = 4096

pub record Page : Type 0 where
  pub pfn : ℕ
  pub in_use : Bool
  pub owner_pid : ℕ

unfoldable pub phys_addr : Page → ℕ
phys_addr p = p.pfn * page_size

pub record Pmm : Type 0 where
  pub total_pages : ℕ
  pub pages : List Page

-- `Page(pfn=i) for i in range(...)`, for the `n` frames from `i` on.
unfoldable pub fresh_pages : ℕ → ℕ → List Page
fresh_pages i zero = []
fresh_pages i (suc n) = record { pfn = i; in_use = false; owner_pid = 0 } ∷ fresh_pages (suc i) n

unfoldable pub init : ℕ → Pmm
unfolding fresh_pages
init total = record { total_pages = total; pages = fresh_pages 0 total }

abbrev pub count_free : List Page → ℕ
count_free [] = 0
count_free (p ∷ ps) = if p.in_use then count_free ps else suc (count_free ps)

abbrev pub count_used : List Page → ℕ
count_used [] = 0
count_used (p ∷ ps) = if p.in_use then suc (count_used ps) else count_used ps

unfoldable pub free_pages : Pmm → ℕ
free_pages s = count_free s.pages

unfoldable pub used_pages : Pmm → ℕ
used_pages s = count_used s.pages

abbrev pub claim : ℕ → Page → Page
claim pid p = record p { in_use = true; owner_pid = pid }

abbrev pub clear : Page → Page
clear p = record p { in_use = false; owner_pid = 0 }

-- The `for` loop of `alloc_page`: the frame that is claimed, and the frames after it.
unfoldable pub first_free : ℕ → List Page → Option Page × List Page
first_free pid [] = (none, [])
first_free pid (p ∷ ps) =
    let rest = first_free pid ps in
    if p.in_use then (rest.0, p ∷ rest.1) else (some (claim pid p), claim pid p ∷ ps)

unfoldable pub alloc_page : ℕ → Pmm → Option Page × Pmm
unfolding first_free
alloc_page pid s = let found = first_free pid s.pages in (found.0, record s { pages = found.1 })

-- A frame number is an `int` that the caller gives: out of range, nothing changes.
unfoldable pub free_page : ℤ → Pmm → Pmm
free_page (pos pfn) s =
    if ltb pfn s.total_pages then record s { pages = modify s.pages pfn clear } else s
free_page (negsuc n) s = s

-- `for already in result: self.free_page(already.pfn)`
unfoldable pub release : List Page → Pmm → Pmm
release [] s = s
release (p ∷ ps) s = release ps (free_page (pos p.pfn) s)

-- The `for` loop of `alloc_pages`, with `n` rounds left and the frames taken so far.
unfoldable pub alloc_loop : ℕ → ℕ → List Page → Pmm → List Page × Pmm
alloc_loop zero pid result s = (result, s)
alloc_loop (suc n) pid result s = elim (alloc_page pid s).0 [
  | none ↦ ([], release result (alloc_page pid s).1)
  | some p ↦ alloc_loop n pid (result ++ p ∷ []) (alloc_page pid s).1
]

unfoldable pub alloc_pages : ℕ → ℕ → Pmm → List Page × Pmm
unfolding alloc_loop
alloc_pages n pid s = alloc_loop n pid [] s

pub record Stats : Type 0 where
  pub total : ℕ
  pub free : ℕ
  pub used : ℕ
  pub total_bytes : ℕ
  pub free_bytes : ℕ

unfoldable pub stats : Pmm → Stats
unfolding free_pages used_pages
stats s = record {
  total = s.total_pages;
  free = free_pages s;
  used = used_pages s;
  total_bytes = s.total_pages * page_size;
  free_bytes = free_pages s * page_size;
}

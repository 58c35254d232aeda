-- ===== src/Elf/Load.antt =====
-- Loading a program only adds to the areas of the one process.
use compute_kernel_python.Prelude.{
  ℕ, map, Bool-cases, ◌+◌, ◌≤◌, ◌<◌, ◌++◌, leb, true, sym, ap, All, String, ◌≡◌, ◌≢◌, refl, Option,
  none, some, List, [], ◌∷◌, pos, negsuc, arith, ◌∙◌, Option-cases, inl, inr,
}
use compute_kernel_python.Prelude.Eq.{nat_eq}
use compute_kernel_python.Prelude.Dict.{get, get-put}
use compute_kernel_python.Memory.Space.{AddressSpace, VirtualMemoryArea}
use compute_kernel_python.Memory.Space
use compute_kernel_python.Memory.Space.Laws.{lookup-map}
use compute_kernel_python.Memory.Vmm.{Vmm, map_pages, pages_needed, is_empty}
use mathlib.Core.Path.{subst}
use mathlib.Core.List.{append-nil, append_assoc}
use compute_kernel_python.Memory.Pmm.{free_pages, alloc_pages}
use compute_kernel_python.Memory.Pmm.Runs.{alloc_pages-IsValid}
use compute_kernel_python.Memory.Pmm.Frames.{IsValid}
use compute_kernel_python.Memory.Vmm.Laws.{map_pages-other, map_pages_lem, free_pages-map_pages}
use compute_kernel_python.Elf.{ElfSegment, FakeElf, bracketed, load_segments, load}

-- The area that holds an address of a process.
abbrev pub area_at : ℕ → Option AddressSpace → Option VirtualMemoryArea
area_at addr none = none
area_at addr (some space) = Space.lookup addr space

map_pages-keeps :
    (pid vaddr size : ℕ) (flags name : String) (s : Vmm) (addr : ℕ) (a : VirtualMemoryArea)
    → area_at addr (get pid s.address_spaces) ≡ some a
    → area_at addr (get pid (map_pages pid vaddr size flags name s).1.address_spaces) ≡ some a
unfolding map_pages
map_pages-keeps pid vaddr size flags name s addr a h =
    elim (Option-cases (get pid s.address_spaces)) [
      | inl e ↦ absurd (ground arith)
      | inr (space, e) ↦ ground (
        arith,
        e,
        h,
        lookup-map addr vaddr size flags name space,
        get-put pid pid (Space.map vaddr size flags name space) s.address_spaces,
      )
    ]

load_segments_lem :
    (pid : ℕ) (segs : List ElfSegment) (s : Vmm)
    → ((addr : ℕ) (a : VirtualMemoryArea)
        → area_at addr (get pid s.address_spaces) ≡ some a
        → area_at addr (get pid (load_segments pid segs s).address_spaces) ≡ some a)
      × ((other : ℕ)
          → pid ≢ other
          → get other (load_segments pid segs s).address_spaces ≡ get other s.address_spaces)
unfolding load_segments
load_segments_lem pid [] s = (λ addr a h. h, λ other ne. refl)
load_segments_lem pid (seg ∷ segs) s =
    let (keeps, others) = load_segments_lem pid segs _ in
    (
      λ addr a h.
          keeps addr a
            (map_pages-keeps pid seg.vaddr seg.size seg.flags (bracketed seg.name) s addr a h),
      λ other ne.
          others other ne
          ∙ map_pages-other pid seg.vaddr seg.size other seg.flags (bracketed seg.name) s ne,
    )

-- The area of a segment, and the areas and the frames of a whole list of them.
abbrev pub segment_area : ElfSegment → VirtualMemoryArea
segment_area seg = Space.area seg.vaddr seg.size seg.flags (bracketed seg.name)

abbrev pub pages_of : List ElfSegment → ℕ
pages_of [] = 0
pages_of (seg ∷ segs) = pages_needed seg.size + pages_of segs

abbrev pub stack_area : VirtualMemoryArea
stack_area = Space.area 0x00007fff00000000 0x100000 "rw-" "[stack]"

-- A process with these areas, and at least this many free frames.
record IsLaid (pid pages : ℕ) (areas : List VirtualMemoryArea) (s : Vmm) : Type 0 where
  valid : IsValid s.pmm
  room : pages ≤ free_pages s.pmm
  space : AddressSpace
  known : get pid s.address_spaces ≡ some space
  same : space.areas ≡ areas

map_pages-IsValid :
    (pid vaddr size : ℕ) (flags name : String) (s : Vmm)
    → IsValid s.pmm
    → IsValid (map_pages pid vaddr size flags name s).1.pmm
unfolding map_pages
map_pages-IsValid pid vaddr size flags name s v =
    let after = alloc_pages-IsValid (pages_needed size) pid s.pmm v in
    elim (Option-cases (get pid s.address_spaces)) [
      | inl e ↦ rw (map_pages, e) v
      | inr (space, e) ↦
          elim (Bool-cases (is_empty (alloc_pages (pages_needed size) pid s.pmm).0)) [
            | inl q ↦ rw (map_pages, e, q) after
            | inr q ↦ rw (map_pages, e, q) after
          ]
    ]

map_pages-IsLaid :
    (pid vaddr size pages : ℕ) (flags name : String) (areas : List VirtualMemoryArea) (s : Vmm)
    → 0 < size
    → IsLaid pid (pages_needed size + pages) areas s
    → IsLaid pid pages
        (areas ++ Space.area vaddr size flags name ∷ [])
        (map_pages pid vaddr size flags name s).1
unfolding Space.map
map_pages-IsLaid pid vaddr size pages flags name areas s h l =
    let fits : leb (pages_needed size) (free_pages s.pmm) ≡ true = ground (arith, l.room) in
    let mapped = map_pages_lem pid vaddr size flags name s l.valid l.space l.known h in
    let taken = free_pages-map_pages pid vaddr size flags name s l.valid (rw (mapped, fits) refl) in
    let put_there = get-put pid pid (Space.map vaddr size flags name l.space) s.address_spaces in
    record {
      valid = map_pages-IsValid pid vaddr size flags name s l.valid;
      room = omega (arith, taken, l.room);
      space = Space.map vaddr size flags name l.space;
      known = rw (mapped, fits) (ground (arith, put_there));
      same = ap (λ l. l ++ Space.area vaddr size flags name ∷ []) l.same;
    }

load_segments-IsLaid :
    (pid pages : ℕ) (segs : List ElfSegment) (areas : List VirtualMemoryArea) (s : Vmm)
    → All (λ (seg : ElfSegment). 0 < seg.size) segs
    → IsLaid pid (pages_of segs + pages) areas s
    → IsLaid pid pages (areas ++ map segment_area segs) (load_segments pid segs s)
unfolding load_segments
load_segments-IsLaid pid pages [] areas s h l = record {
  valid = l.valid;
  room = omega (arith, l.room);
  space = l.space;
  known = l.known;
  same = l.same ∙ sym (append-nil areas);
}
load_segments-IsLaid pid pages (seg ∷ segs) areas s (here, later) l =
    let sum : pages_needed seg.size + pages_of segs + pages
        ≡ pages_needed seg.size + (pages_of segs + pages) =
      omega arith in
    let first =
      map_pages-IsLaid pid seg.vaddr seg.size (pages_of segs + pages) seg.flags (bracketed seg.name)
        areas s here (subst (λ n. IsLaid pid n areas s) sum l) in
    let rest = load_segments-IsLaid pid pages segs (areas ++ segment_area seg ∷ []) _ later first in
    subst (λ l. IsLaid pid pages l (load_segments pid (seg ∷ segs) s))
      (append_assoc areas (segment_area seg ∷ []) (map segment_area segs)) rest

load-IsLaid :
    (elf : FakeElf) (pid : ℕ) (space : AddressSpace) (s : Vmm)
    → IsValid s.pmm
    → get pid s.address_spaces ≡ some space
    → All (λ (seg : ElfSegment). 0 < seg.size) elf.segments
    → pages_of elf.segments + pages_needed 0x100000 ≤ free_pages s.pmm
    → IsLaid pid 0
        (space.areas ++ map segment_area elf.segments ++ stack_area ∷ [])
        (load elf pid s).1
unfolding load
load-IsLaid elf pid space s v known sized room =
    let segs =
      load_segments-IsLaid pid (pages_needed 0x100000) elf.segments space.areas s sized
        (record { valid = v; room = room; space = space; known = known; same = refl }) in
    let more : pages_needed 0x100000 ≡ pages_needed 0x100000 + 0 = omega arith in
    let all =
      map_pages-IsLaid pid 0x00007fff00000000 0x100000 0 "rw-" "[stack]"
        (space.areas ++ map segment_area elf.segments) _ (omega arith)
        (subst
          (λ n.
            IsLaid pid n (space.areas ++ map segment_area elf.segments)
              (load_segments pid elf.segments s))
          more segs) in
    rw (load, known) all

pub load_lem :
    (elf : FakeElf) (pid : ℕ) (s : Vmm)
    → (get pid s.address_spaces ≡ none → load elf pid s ≡ (negsuc 0, s))
      × ((space : AddressSpace)
          → get pid s.address_spaces ≡ some space
          → (load elf pid s).0 ≡ pos elf.entry_point)
      × ((space : AddressSpace)
          → get pid s.address_spaces ≡ some space
          → IsValid s.pmm
          → All (λ (seg : ElfSegment). 0 < seg.size) elf.segments
          → pages_of elf.segments + pages_needed 0x100000 ≤ free_pages s.pmm
          → (after : AddressSpace) × (get pid (load elf pid s).1.address_spaces ≡ some after)
            × (after.areas ≡ space.areas ++ map segment_area elf.segments ++ stack_area ∷ []))
      × ((addr : ℕ) (a : VirtualMemoryArea)
          → area_at addr (get pid s.address_spaces) ≡ some a
          → area_at addr (get pid (load elf pid s).1.address_spaces) ≡ some a)
      × ((other : ℕ)
          → pid ≢ other
          → get other (load elf pid s).1.address_spaces ≡ get other s.address_spaces)
unfolding load
load_lem elf pid s =
    let (keeps, others) = load_segments_lem pid elf.segments s in
    let loaded = load_segments pid elf.segments s in
    (
      λ e. rw (e, load),
      λ space e. rw (e, load),
      λ space e v sized room.
          let l = load-IsLaid elf pid space s v e sized room in (l.space, l.known, l.same),
      λ addr a h. elim (Option-cases (get pid s.address_spaces)) [
        | inl e ↦ absurd (ground arith)
        | inr (space, e) ↦
            rw (e, load)
              (map_pages-keeps pid 0x00007fff00000000 0x100000 "rw-" "[stack]" loaded addr a
                (keeps addr a h))
      ],
      λ other ne. elim (Option-cases (get pid s.address_spaces)) [
        | inl e ↦ rw (e, load)
        | inr (space, e) ↦
            rw (e, load)
              (map_pages-other pid 0x00007fff00000000 0x100000 other "rw-" "[stack]" loaded ne
                ∙ others other ne)
      ],
    )

-- ===== src/Memory/Space.antt =====
-- `VirtualMemoryArea` and `AddressSpace` of computekernel_edu/memory.py.
pub mod Laws
use Prim.Native.Char.{code}
use compute_kernel_python.Prelude.{
  ℕ, ◌+◌, ◌-◌, String, Bool, true, false, not, ◌&&◌, ◌||◌, Option, none, some, List, [], ◌∷◌, ◌++◌,
  ltb, leb, length, keep, find, if◌then◌else◌,
}
use compute_kernel_python.Prelude.Eq.{◌==◌, nat_eq}

-- `c in s` for a one-character text.
unfoldable pub has_char : ℕ → String → Bool
has_char c String.[] = false
has_char c (String.◌∷◌ d s) = code d == c || has_char c s

pub record VirtualMemoryArea : Type 0 where
  pub start : ℕ
  pub end : ℕ
  pub flags : String
  pub name : String

unfoldable pub size : VirtualMemoryArea → ℕ
size a = a.end - a.start

unfoldable pub contains : ℕ → VirtualMemoryArea → Bool
contains addr a = leb a.start addr && ltb addr a.end

pub record AddressSpace : Type 0 where
  pub pid : ℕ
  pub areas : List VirtualMemoryArea

unfoldable pub empty : ℕ → AddressSpace
empty pid = record { pid = pid; areas = [] }

abbrev pub area : ℕ → ℕ → String → String → VirtualMemoryArea
area start size flags name = record {
  start = start;
  end = start + size;
  flags = flags;
  name = name;
}

unfoldable pub map : ℕ → ℕ → String → String → AddressSpace → AddressSpace
map start size flags name s = record s { areas = s.areas ++ area start size flags name ∷ [] }

unfoldable pub unmap : ℕ → AddressSpace → Bool × AddressSpace
unmap start s =
    let areas = keep (λ a. not (a.start == start)) s.areas in
    (ltb (length areas) (length s.areas), record s { areas = areas })

unfoldable pub lookup : ℕ → AddressSpace → Option VirtualMemoryArea
unfolding contains
lookup addr s = find (contains addr) s.areas

abbrev pub may_write : VirtualMemoryArea → Bool
may_write a = has_char b'w' a.flags

abbrev pub may_exec : VirtualMemoryArea → Bool
may_exec a = has_char b'x' a.flags

-- `check_access(addr, write, exec)`
unfoldable pub check_access : ℕ → Bool → Bool → AddressSpace → Bool
check_access addr write exec s = elim (lookup addr s) [
  | none ↦ false
  | some a ↦
      if write && not (may_write a) then false else if exec && not (may_exec a) then false else true
]

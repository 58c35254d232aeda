-- ===== src/Elf.antt =====
-- computekernel_edu/elfloader.py: programs as lists of segments, and loading them.
pub mod Load
use Prim.Native.String.{◌++◌}
use compute_kernel_python.Prelude.{
  ℕ, ◌+◌, String, Option, none, some, List, [], ◌∷◌, ℤ, pos, negsuc,
}
use compute_kernel_python.Prelude.Eq.{nat_eq}
use compute_kernel_python.Prelude.Dict.{get}
use compute_kernel_python.Memory.Vmm.{Vmm, map_pages}

pub record ElfSegment : Type 0 where
  pub seg_type : String
  pub vaddr : ℕ
  pub size : ℕ
  pub file_size : ℕ
  pub flags : String
  pub name : String

pub record FakeElf : Type 0 where
  pub name : String
  pub entry_point : ℕ
  pub segments : List ElfSegment
  pub interpreter : String
  pub arch : String

abbrev pub load_segment : ℕ → ℕ → ℕ → String → String → ElfSegment
load_segment vaddr size file_size flags name = record {
  seg_type = "PT_LOAD";
  vaddr = vaddr;
  size = size;
  file_size = file_size;
  flags = flags;
  name = name;
}

abbrev pub make_simple : String → ℕ → FakeElf
make_simple name base = record {
  name = name;
  entry_point = base;
  segments =
      load_segment base 0x1000 0x1000 "r-x" "text"
      ∷ load_segment (base + 0x200000) 0x1000 0x800 "rw-" "data"
      ∷ load_segment (base + 0x201000) 0x1000 0 "rw-" "bss"
      ∷ [];
  interpreter = "/lib64/ld-linux-x86-64.so.2";
  arch = "x86_64";
}

abbrev bracketed : String → String
bracketed name = "[" ++ name ++ "]"

-- The loop over the segments. Whether a mapping succeeds is not looked at.
unfoldable pub load_segments : ℕ → List ElfSegment → Vmm → Vmm
load_segments pid [] s = s
load_segments pid (seg ∷ segs) s =
    load_segments pid segs (map_pages pid seg.vaddr seg.size seg.flags (bracketed seg.name) s).1

unfoldable pub load : FakeElf → ℕ → Vmm → ℤ × Vmm
unfolding load_segments
load elf pid s = elim (get pid s.address_spaces) [
  | none ↦ (negsuc 0, s)
  | some space ↦ (
    pos elf.entry_point,
    (map_pages pid 0x00007fff00000000 0x100000 "rw-" "[stack]"
        (load_segments pid elf.segments s)).1,
  )
]

-- ===== src/Arch.antt =====
-- computekernel_edu/arch.py: the tables that the x86_64 layer sets up. The descriptions of entries
-- are only printed and are left out.
pub mod Vectors
use compute_kernel_python.Prelude.{
  ℕ, zero, suc, ◌+◌, ◌*◌, Bool, true, false, ◌&&◌, Option, none, some, List, [], ◌∷◌, ltb, leb,
  if◌then◌else◌,
}
use compute_kernel_python.Prelude.Eq.{◌==◌, nat_eq}

pub record CpuFeatures : Type 0 where
  pub has_nx : Bool
  pub has_sse2 : Bool
  pub has_avx2 : Bool
  pub has_rdrand : Bool
  pub has_pae : Bool
  pub has_smep : Bool
  pub has_smap : Bool
  pub has_pcid : Bool
  pub cores : ℕ
  pub threads_per_core : ℕ

abbrev pub cpu_features : CpuFeatures
cpu_features = record {
  has_nx = true;
  has_sse2 = true;
  has_avx2 = true;
  has_rdrand = true;
  has_pae = true;
  has_smep = true;
  has_smap = true;
  has_pcid = true;
  cores = 4;
  threads_per_core = 2;
}

pub record GdtEntry : Type 0 where
  pub base : ℕ
  pub limit : ℕ
  pub access : ℕ
  pub flags : ℕ

pub record TssDescriptor : Type 0 where
  pub base : ℕ
  pub limit : ℕ
  pub rsp0 : ℕ

pub record IdtEntry : Type 0 where
  pub offset : ℕ
  pub selector : ℕ
  pub gate_type : ℕ
  pub dpl : ℕ
  pub vector : ℕ

-- The state of the layer: the features, once they are detected.
pub record Arch : Type 0 where
  pub features : Option CpuFeatures

abbrev pub init : Arch
init = record { features = none }

unfoldable pub detect_cpu_features : Arch → CpuFeatures × Arch
detect_cpu_features s = (cpu_features, record { features = some cpu_features })

abbrev gdt_entry : ℕ → ℕ → ℕ → GdtEntry
gdt_entry limit access flags = record { base = 0; limit = limit; access = access; flags = flags }

unfoldable pub setup_gdt : List GdtEntry
setup_gdt =
    gdt_entry 0 0x00 0x0
    ∷ gdt_entry 0xFFFFF 0x9A 0xA
    ∷ gdt_entry 0xFFFFF 0x92 0xC
    ∷ gdt_entry 0xFFFFF 0xFA 0xA
    ∷ gdt_entry 0xFFFFF 0xF2 0xC
    ∷ gdt_entry 0xFFFFF 0xFA 0xA
    ∷ []

unfoldable pub setup_tss : TssDescriptor
setup_tss = record { base = 0xFFFF800000008000; limit = 0x67; rsp0 = 0xFFFF800000010000 }

-- The number of `exception_names`.
abbrev exceptions : ℕ
exceptions = 20

-- The privilege level from which a vector can be raised by software.
abbrev pub vector_dpl : ℕ → ℕ
vector_dpl vec =
    if ltb vec exceptions
    then if vec == 3 then 3 else 0
    else if leb 32 vec && leb vec 47
    then 0
    else if vec == 0x80
    then 3
    else 0

abbrev pub idt_entry : ℕ → IdtEntry
idt_entry vec = record {
  offset = 0xFFFF800000100000 + vec * 0x20;
  selector = 0x08;
  gate_type = 0xE;
  dpl = vector_dpl vec;
  vector = vec;
}

-- `for vec in range(first, first + count)`
unfoldable pub idt_entries : ℕ → ℕ → List IdtEntry
idt_entries first zero = []
idt_entries first (suc count) = idt_entry first ∷ idt_entries (first + 1) count

unfoldable pub setup_idt : List IdtEntry
unfolding idt_entries
setup_idt = idt_entries 0 256

abbrev or_features : Option CpuFeatures → CpuFeatures
or_features none = cpu_features
or_features (some f) = f

-- The counts in `get_cpu_info`.
unfoldable pub logical_cpus : Arch → ℕ
logical_cpus s = (or_features s.features).cores * (or_features s.features).threads_per_core

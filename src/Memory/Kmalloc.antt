-- ===== src/Memory/Kmalloc.antt =====
-- `KmallocAllocator` of computekernel_edu/memory.py.
pub mod Laws
use compute_kernel_python.Prelude.{
  ℕ, zero, suc, ◌+◌, ◌*◌, ◌/◌, Bool, Option, none, some, List, [], ◌∷◌, ℤ, pos, negsuc,
}
use compute_kernel_python.Prelude.Eq.{nat_eq}
use compute_kernel_python.Prelude.Dict.{Dict, get, put, pop}

pub record Kmalloc : Type 0 where
  pub allocations : Dict ℕ ℕ
  pub next_addr : ℕ

abbrev pub kernel_base : ℕ
kernel_base = 0xFFFF800000000000

abbrev pub init : Kmalloc
init = record { allocations = []; next_addr = kernel_base + 0x1000000 }

-- `(size + 15) & ~15`
abbrev pub rounded : ℕ → ℕ
rounded size = (size + 15) / 16 * 16

-- `none` is the `ValueError` that a size below 1 raises, before anything changes.
unfoldable pub alloc : ℤ → Kmalloc → Option ℕ × Kmalloc
alloc (negsuc n) s = (none, s)
alloc (pos zero) s = (none, s)
alloc (pos (suc n)) s = (
  some s.next_addr,
  record {
    next_addr = s.next_addr + rounded (suc n);
    allocations = put s.next_addr (suc n) s.allocations;
  },
)

-- An address that is not live is only reported.
unfoldable pub free : ℕ → Kmalloc → Kmalloc
free addr s = elim (get addr s.allocations) [
  | none ↦ s
  | some size ↦ record s { allocations = pop addr s.allocations }
]

abbrev pub total : Dict ℕ ℕ → ℕ
total [] = 0
total ((addr, size) ∷ d) = size + total d

abbrev pub count : Dict ℕ ℕ → ℕ
count [] = 0
count (entry ∷ d) = suc (count d)

pub record Usage : Type 0 where
  pub allocations : ℕ
  pub bytes_allocated : ℕ
  pub next_addr : ℕ

unfoldable pub usage : Kmalloc → Usage
usage s = record {
  allocations = count s.allocations;
  bytes_allocated = total s.allocations;
  next_addr = s.next_addr;
}

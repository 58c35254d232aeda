-- ===== src/Arch/Vectors.antt =====
-- The interrupt descriptor table.
use compute_kernel_python.Prelude.{
  ℕ, zero, suc, ◌+◌, ◌^◌, ◌<◌, ◌≤◌, ◌≡◌, refl, ◌∙◌, ◌↔◌, ◌⊎◌, some, get_elem?, length, arith, ap,
}
use compute_kernel_python.Prelude.Eq.{nat_eq}
use compute_kernel_python.Arch.{IdtEntry, vector_dpl, idt_entry, idt_entries, setup_idt}

get-idt_entries :
    (first count i : ℕ)
    → i < count
    → get_elem? (idt_entries first count) i ≡ some (idt_entry (first + i))
unfolding idt_entries
get-idt_entries first zero i h = absurd (omega (arith, h))
get-idt_entries first (suc count) zero h = ap (λ k. some (idt_entry k)) (omega arith)
get-idt_entries first (suc count) (suc i) h =
    get-idt_entries (first + 1) count i (omega (arith, h))
    ∙ ap (λ k. some (idt_entry k)) (omega arith)

length-idt_entries : (first count : ℕ) → length (idt_entries first count) ≡ count
unfolding idt_entries
length-idt_entries first zero = refl
length-idt_entries first (suc count) = ap suc (length-idt_entries (first + 1) count)

vector_dpl_iff : (vec : ℕ) → (vector_dpl vec ≡ 3) ↔ ((vec ≡ 3) ⊎ (vec ≡ 0x80))
vector_dpl_iff vec = ground arith

-- The interrupt table has 256 entries. The one at any index below 256 is for that vector, its
-- handler lies within the 64-bit kernel half of the address space, 32 bytes for it included, and
-- software in ring 3 may raise it exactly if it is the breakpoint, 3, or the legacy system call,
-- 0x80.
setup_idt_lem :
    (vec : ℕ)
    → vec < 256
    → (length setup_idt ≡ 256)
      × ((e : IdtEntry) × (get_elem? setup_idt vec ≡ some e)
          × (e.vector ≡ vec)
          × (e.offset + 0x20 ≤ 2 ^ 64)
          × (0xFFFF800000000000 ≤ e.offset)
          × ((e.dpl ≡ 3) ↔ ((vec ≡ 3) ⊎ (vec ≡ 0x80))))
unfolding setup_idt
setup_idt_lem vec h = (
  length-idt_entries 0 256,
  (
    idt_entry vec,
    get-idt_entries 0 256 vec h ∙ ap (λ k. some (idt_entry k)) (omega arith),
    refl,
    omega (arith, h),
    omega arith,
    vector_dpl_iff vec,
  ),
)

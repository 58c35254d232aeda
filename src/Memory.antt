-- ===== src/Memory.antt =====
-- computekernel_edu/memory.py: physical frames, address spaces, the virtual memory manager and
-- the kernel allocator.
pub mod Pmm
pub mod Space
pub mod Vmm
pub mod Kmalloc

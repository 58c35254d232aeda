-- ===== src/Syscall/Break.antt =====
-- The program break only grows.
use compute_kernel_python.Prelude.{ℕ, ◌≡◌, refl, false, pos, arith}
use Prim.Native.Nat.{max}
use compute_kernel_python.Prelude.Eq.{◌==◌, nat_eq}
use compute_kernel_python.Prelude.Dict.{get-put}
use compute_kernel_python.Syscall.{Kernel, current_break, sys_brk}

-- `sys_brk` returns the larger one of the present break and the one asked for, which is the break
-- from then on, whether or not there were frames for the heap; no other process's break changes, and
-- a call with 0 only reports the break.
sys_brk_lem :
    (pid new_brk : ℕ) (s : Kernel)
    → ((sys_brk pid new_brk s).0 ≡ pos (max (current_break pid s) new_brk))
      × (current_break pid (sys_brk pid new_brk s).1 ≡ max (current_break pid s) new_brk)
      × ((other : ℕ)
          → (pid == other) ≡ false
          → current_break other (sys_brk pid new_brk s).1 ≡ current_break other s)
      × (sys_brk pid 0 s ≡ (pos (current_break pid s), s))
unfolding sys_brk current_break
sys_brk_lem pid new_brk s = (
  ground arith,
  ground (arith, get-put pid pid new_brk s.breaks),
  λ other ne. ground (arith, get-put pid other new_brk s.breaks),
  refl,
)

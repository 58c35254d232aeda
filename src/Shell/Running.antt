-- ===== src/Shell/Running.antt =====
-- What is true of the kernel behind the shell, and that each command keeps it.
use compute_kernel_python.Prelude.{String, ◌≡◌, refl, none, some}
use compute_kernel_python.Boot.{current_stage}
use compute_kernel_python.Boot.Stages.{Machine}
use compute_kernel_python.KernelState.Booted.{IsOrderly}
use compute_kernel_python.KernelState.{Subsystems}
use compute_kernel_python.KernelState.Up.{IsSound, IsUp}
use compute_kernel_python.Shell.Replies.{
  Session, Reply, on_parts, with_parts, with_machine, on_found,
}

abbrev pub IsRunning : Session → Type 0
IsRunning s = IsUp s.kernel

-- A command that has parts to work on.
pub on_parts-IsRunning :
    (missing : String) (f : Subsystems → Reply) (s : Session)
    → IsRunning s
    → ((parts : Subsystems)
        → s.kernel.subsystems ≡ some parts
        → IsSound parts s.kernel.profile
        → IsRunning (f parts).session)
    → IsRunning (on_parts missing f s).session
on_parts-IsRunning missing f s (up, (parts, e, sound)) g = rw e (g parts e sound)

-- The parts that a command leaves behind.
pub with_parts-IsRunning :
    (parts : Subsystems) (s : Session)
    → IsRunning s
    → IsSound parts s.kernel.profile
    → IsRunning (with_parts parts s)
with_parts-IsRunning parts s h sound = (h.0, (parts, refl, sound))

-- A command that only shows something.
pub on_parts-same :
    (missing : String) (f : Subsystems → Reply) (s : Session)
    → ((parts : Subsystems) → (f parts).session ≡ s)
    → (on_parts missing f s).session ≡ s
on_parts-same missing f s g =
    elim s.kernel.subsystems as (λ o. (on_found missing f s o).session ≡ s) [
      | none ↦ refl
      | some parts ↦ g parts
    ]

-- A change of a part that the order does not speak of.
pub with_machine-IsSound :
    (m : Machine) (parts : Subsystems) (s : Session)
    → IsOrderly m
    → IsSound parts s.kernel.profile
    → IsSound (with_machine m parts) s.kernel.profile
unfolding current_stage
with_machine-IsSound m parts s o h = record {
  finished = h.finished;
  orderly = o;
  closed = h.closed;
  no_tables = h.no_tables;
  safe_mode_is = h.safe_mode_is;
  modules_follow = h.modules_follow;
}

-- ===== src/Power.antt =====
-- computekernel_edu/power.py: the power states and their transitions.
pub mod Resume
use compute_kernel_python.Prelude.{
  String, Bool, true, false, List, [], ◌∷◌, ◌++◌, ℕ, length, if◌then◌else◌,
}

pub data PowerState : Type 0 where
  running suspended hibernated off rebooting : PowerState

pub record Transition : Type 0 where
  pub old : PowerState
  pub new_state : PowerState
  pub reason : String

pub record PowerManager : Type 0 where
  pub state : PowerState
  pub transitions : List Transition

abbrev pub init : PowerManager
init = record { state = running; transitions = [] }

unfoldable pub transition : PowerState → String → PowerManager → PowerManager
transition new_state reason s = record {
  state = new_state;
  transitions =
      s.transitions ++ record { old = s.state; new_state = new_state; reason = reason } ∷ [];
}

unfoldable pub suspend : PowerManager → PowerManager
unfolding transition
suspend s = transition suspended "suspend requested" s

abbrev pub is_suspended : PowerState → Bool
is_suspended suspended = true
is_suspended _ = false

unfoldable pub resume : PowerManager → PowerManager
unfolding transition
resume s = if is_suspended s.state then transition running "resume from S3" s else s

unfoldable pub shutdown : PowerManager → PowerManager
unfolding transition
shutdown s = transition off "shutdown requested" s

unfoldable pub reboot : PowerManager → PowerManager
unfolding transition
reboot s = transition rebooting "reboot requested" s

-- ===== src/Shell/Replies.antt =====
-- What the commands of computekernel_edu/shell.py work on, and what they answer.
use compute_kernel_python.Prelude.{
  ℕ, String, Bool, false, Option, none, some, List, [], ◌∷◌, if◌then◌else◌,
}
use compute_kernel_python.Prelude.Eq.{string_eq}
use compute_kernel_python.Prelude.Dict.{Dict, get}
use compute_kernel_python.Logger.{LogLevel}
use compute_kernel_python.Profiles.{KernelProfile, debug_profile}
use compute_kernel_python.Boot.{BootStageResult}
use compute_kernel_python.Boot.Stages.{Machine}
use compute_kernel_python.KernelState.{Subsystems, KernelState}
use compute_kernel_python.Utils.{red, green}

-- What is printed. `grid` is a table with its headers and rows, `content` the text of the bytes of a
-- file. What stands elsewhere, such as the lessons, is named and not spelled out.
pub data Printed : Type 0 where
  text : String → Printed
  grid : List String → List (List String) → Printed
  content : List ℕ → Printed
  stage_line : BootStageResult → Printed
  log_from : LogLevel → Printed
  lesson matches help_on description_of : String → Printed
  topics roadmap network_status disclaimer cpu_info screen_cleared : Printed

-- The kernel that the shell refers to, and the profiles, of which `--quiet` changes one.
pub record Session : Type 0 where
  pub kernel : KernelState
  pub profiles : Dict String KernelProfile

-- What is printed, whether the shell stops, and the session after the command.
pub record Reply : Type 0 where
  pub printed : List Printed
  pub stops : Bool
  pub session : Session

abbrev pub says : List Printed → Session → Reply
says printed s = record { printed = printed; stops = false; session = s }

abbrev pub says_text : String → Session → Reply
says_text t s = says (text t ∷ []) s

-- The parts of the kernel, or a line that says that there is none.
abbrev pub on_found : String → (Subsystems → Reply) → Session → Option Subsystems → Reply
on_found missing f s none = says_text missing s
on_found missing f s (some parts) = f parts

abbrev pub on_parts : String → (Subsystems → Reply) → Session → Reply
on_parts missing f s = on_found missing f s s.kernel.subsystems

abbrev pub machine_of : Subsystems → Machine
machine_of parts = parts.boot_pipeline.machine

abbrev pub with_parts : Subsystems → Session → Session
with_parts parts s = record s { kernel = record s.kernel { subsystems = some parts } }

abbrev pub with_machine : Machine → Subsystems → Subsystems
with_machine m parts = record parts { boot_pipeline = record parts.boot_pipeline { machine = m } }

-- A line in green if something worked, else another one in red.
abbrev pub verdict : Bool → String → String → Session → Reply
verdict ok good bad s = says_text (if ok then green good else red bad) s

abbrev or_debug : Dict String KernelProfile → Option KernelProfile → KernelProfile
or_debug d none = elim (get "debug" d) [ none ↦ debug_profile | some p ↦ p ]
or_debug d (some p) = p

-- `PROFILES.get(name, DEBUG_PROFILE)`, where `DEBUG_PROFILE` is the object under `debug`.
unfoldable pub profile_in : String → Dict String KernelProfile → KernelProfile
profile_in name d = or_debug d (get name d)

-- `args[0] if args else default`
abbrev pub first_or : String → List String → String
first_or default [] = default
first_or default (w ∷ ws) = w

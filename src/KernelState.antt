-- ===== src/KernelState.antt =====
-- computekernel_edu/kernel.py: the kernel as a whole. The console is reached through the
-- terminal. The credential manager, which keeps nothing, and the lessons are left out, and the log is
-- only its switch for printing.
pub mod Boots
pub mod Booted
pub mod Up
use compute_kernel_python.Prelude.{
  ℕ, String, Bool, true, false, Option, none, some, List, [], ◌∷◌, if◌then◌else◌,
}
use compute_kernel_python.Memory.Pmm
use compute_kernel_python.Memory.Vmm
use compute_kernel_python.Memory.Kmalloc
use compute_kernel_python.Process
use compute_kernel_python.Process.{new}
use compute_kernel_python.Thread
use compute_kernel_python.Thread.{Store, cpu_context, newborn}
use compute_kernel_python.Scheduler
use compute_kernel_python.Tmpfs
use compute_kernel_python.Tmpfs.{tmpfs}
use compute_kernel_python.Vfs
use compute_kernel_python.Arch
use compute_kernel_python.Modules.{
  KernelModule, ModuleLoader, new_loader, register, make_default_modules,
}
use compute_kernel_python.Ipc
use compute_kernel_python.Ipc.{IpcManager}
use compute_kernel_python.Power
use compute_kernel_python.Power.{PowerManager}
use compute_kernel_python.Console
use compute_kernel_python.Console.{Tty, new_tty}
use compute_kernel_python.Profiles.{KernelProfile, debug_profile, profile_named}
use compute_kernel_python.Boot.{BootStageResult, BootPipeline, new_pipeline, step, run_all}
use compute_kernel_python.Boot.Stages.{Machine}

-- What `init` makes. Safe mode has no state but its profile.
pub record Subsystems : Type 0 where
  pub module_loader : ModuleLoader
  pub ipc : IpcManager
  pub power : PowerManager
  pub tty : Tty
  pub safe_mode : KernelProfile
  pub boot_pipeline : BootPipeline

-- The parts are there once `_init_complete` is set. The log is one object that outlives every
-- kernel; its sink stands here because `init` sets it, and its entries are left out.
pub record KernelState : Type 0 where
  pub booted : Bool
  pub profile : KernelProfile
  pub serial_sink : Bool
  pub subsystems : Option Subsystems

abbrev pub new_kernel : KernelState
new_kernel = record {
  booted = false;
  profile = debug_profile;
  serial_sink = true;
  subsystems = none;
}

-- Where no thread object has been made yet.
abbrev no_threads : Store
no_threads r = newborn 0 0 "" 0 true

abbrev default_phys_pages : ℕ
default_phys_pages = 1024

unfoldable pub new_machine : Machine
new_machine = record {
  arch = Arch.init;
  vmm = Vmm.init (Pmm.init default_phys_pages);
  kmalloc = Kmalloc.init;
  processes = Process.init;
  threads = Thread.init;
  scheduler = Scheduler.new_scheduler no_threads;
  vfs = Vfs.new_vfs tmpfs (λ r. Tmpfs.init);
  next_fs = 0;
  registries = record { devices = []; drivers = [] };
}

abbrev register_all : List KernelModule → ModuleLoader → ModuleLoader
register_all [] s = s
register_all (m ∷ ms) s = register_all ms (register m s)

unfoldable pub new_subsystems : KernelProfile → Subsystems
unfolding new_machine
new_subsystems profile = record {
  module_loader = register_all make_default_modules (new_loader profile.modules_enabled);
  ipc = Ipc.init;
  power = Power.init;
  tty = new_tty "tty0" Console.init;
  safe_mode = profile;
  boot_pipeline = new_pipeline new_machine;
}

abbrev or_profile : KernelProfile → Option KernelProfile → KernelProfile
or_profile old none = old
or_profile old (some profile) = profile

-- `init(profile)`
unfoldable pub init : Option KernelProfile → KernelState → KernelState
unfolding new_subsystems
init given s =
    let profile = or_profile s.profile given in
    record s {
      profile = profile;
      serial_sink = profile.serial_log;
      subsystems = some (new_subsystems profile);
    }

-- `if not self._init_complete: self.init()`
unfoldable pub initialised : KernelState → KernelState
unfolding init
initialised s = elim s.subsystems [ none ↦ init none s | some parts ↦ s ]

abbrev pub set_pipeline : BootPipeline → Subsystems → Subsystems
set_pipeline p parts = record parts { boot_pipeline = p }

boot_with : Option Subsystems → KernelState → Bool × KernelState
boot_with none s = (false, s)
boot_with (some parts) s =
    let (success, p) = run_all parts.boot_pipeline in
    (success, record s { booted = success; subsystems = some (set_pipeline p parts) })

unfoldable pub boot : KernelState → Bool × KernelState
unfolding boot_with initialised
boot s = let s' = initialised s in boot_with s'.subsystems s'

step_with : Option Subsystems → KernelState → Option BootStageResult × KernelState
step_with none s = (none, s)
step_with (some parts) s =
    let (result, p) = step parts.boot_pipeline in
    (result, record s { subsystems = some (set_pipeline p parts) })

unfoldable pub boot_step : KernelState → Option BootStageResult × KernelState
unfolding step_with initialised
boot_step s = let s' = initialised s in step_with s'.subsystems s'

unfoldable pub kmain : String → KernelState
unfolding boot init
kmain profile_name = (boot (init (some (profile_named profile_name)) new_kernel)).1

-- ===== src/Tests/Services.antt =====
-- Runs of the module loader, the power manager and the access checks at concrete inputs.
use compute_kernel_python.Prelude.{
  Bool, String, Option, none, some, ◌≡◌, true, false, not, List, [], ◌∷◌, arith,
}
use compute_kernel_python.Prelude.Dict.{get}
use compute_kernel_python.Process.{Credentials}
use compute_kernel_python.Modules.{KernelModule, ModuleLoader, make_module}
use compute_kernel_python.Modules.Laws.{Closed, do_load, do_unload, run-Closed}
use compute_kernel_python.Modules.Laws
use compute_kernel_python.Devices.{Device, Driver, Registries, input}
use compute_kernel_python.Devices.Binding.{Linked, do_bind, do_unbind, do_probe_all, run-Linked}
use compute_kernel_python.Devices.Binding
use compute_kernel_python.Power
use compute_kernel_python.Power.Resume
use compute_kernel_python.Power.Resume.{do_suspend, do_resume, do_reboot, IsValid, transitions_lem}
use compute_kernel_python.Security.{
  check_permission, check_vfs_open, check_syscall, is_one_of, restricted, privileged_syscalls,
  drop_privileges,
}
use compute_kernel_python.Security.Laws.{drop_privileges_lem}

-- A bus driver, a disk driver that needs it, and one whose dependency nobody has.
abbrev bus : KernelModule
bus = make_module "bus" "1.0" "" ("bus_scan" ∷ [])

abbrev disk : KernelModule
disk = record (make_module "disk" "1.0" "" ("disk_read" ∷ [])) { dependencies = "bus" ∷ [] }

abbrev stray : KernelModule
stray = record (make_module "stray" "1.0" "" []) { dependencies = "gone" ∷ [] }

abbrev loader : ModuleLoader
loader = record {
  modules_enabled = true;
  available = ("bus", bus) ∷ ("disk", disk) ∷ ("stray", stray) ∷ [];
  symbols = [];
}

nothing_loaded : Closed loader.available
unfolding get
nothing_loaded k m h l = absurd (ground arith)

abbrev calls : List Laws.Call
calls = do_load "disk" ∷ do_load "bus" ∷ do_load "disk" ∷ do_unload "bus" ∷ do_load "stray" ∷ []

run-Closed_example : Closed (Laws.run calls loader).available
run-Closed_example = run-Closed calls loader nothing_loaded

transitions_lem_example :
    IsValid (Resume.run (do_resume ∷ do_suspend ∷ do_resume ∷ do_reboot ∷ []) Power.init)
transitions_lem_example = transitions_lem (do_resume ∷ do_suspend ∷ do_resume ∷ do_reboot ∷ [])

abbrev root : Credentials
root = record { uid = 0; gid = 5; euid = 0; egid = 5 }

drop_privileges_lem_example :
    (check_permission (drop_privileges root 1000) 21 ≡ false)
    × (check_vfs_open (drop_privileges root 1000) "/dev/mem" true
        ≡ not (is_one_of "/dev/mem" restricted))
    × (check_syscall (drop_privileges root 1000) "reboot"
        ≡ not (is_one_of "reboot" privileged_syscalls))
    × ((drop_privileges root 1000).gid ≡ root.gid)
    × ((drop_privileges root 1000).egid ≡ root.egid)
drop_privileges_lem_example =
    drop_privileges_lem root 1000 21 "/dev/mem" "reboot" true (omega arith)

-- A keyboard and a clock, a driver for the one by its name, and one whose probe raises.
abbrev device : String → Device
device name = record {
  name = name;
  device_class = input;
  major = 0;
  minor = 0;
  description = "";
  is_virtual = false;
  bound_driver = "";
  properties = [];
}

abbrev driver : String → Option (Device → Option Bool) → Driver
driver name probe = record {
  name = name;
  description = "";
  supported_devices = "keyboard" ∷ [];
  probe = probe;
  is_loaded = true;
  bound_devices = [];
}

abbrev registries : Registries
registries = record {
  devices = ("keyboard", device "keyboard") ∷ ("clock", device "clock") ∷ [];
  drivers = ("broken", driver "broken" (some (λ d. none))) ∷ ("kbd", driver "kbd" none) ∷ [];
}

nothing_bound : Linked registries
unfolding get
nothing_bound k d h ne = absurd (ground (arith, ne))

abbrev binding_calls : List Binding.Call
binding_calls = do_probe_all ∷ do_bind "broken" "clock" ∷ do_unbind "kbd" "keyboard" ∷ []

run-Linked_example : Linked (Binding.run binding_calls registries)
run-Linked_example = run-Linked binding_calls registries nothing_bound

-- ===== src/Tests/Boots.antt =====
-- Booting, and the console, at concrete inputs.
use compute_kernel_python.Prelude.{
  ℕ, String, ◌≡◌, refl, true, Option, none, some, List, [], ◌∷◌, map,
}
use compute_kernel_python.Prelude.Eq.{string_eq, nat_eq}
use compute_kernel_python.Prelude.Dict.{get, put, adjust, has_key, values}
use mathlib.Core.Option
use compute_kernel_python.Memory.Kmalloc
use compute_kernel_python.Process
use compute_kernel_python.Process.{alloc_pid}
use compute_kernel_python.Thread
use compute_kernel_python.Thread.{alloc_tid}
use compute_kernel_python.Scheduler
use compute_kernel_python.Devices.{
  probe_all, probe_one, probe_names, probe_device, claims, default_probe, bind, bind_driver,
  register_device, register_driver,
}
use compute_kernel_python.Paths.{parent_path, base_name}
use compute_kernel_python.Tmpfs.{tmpfs, create, lookup, lookup_name, write, read, set_size}
use compute_kernel_python.Vfs.{
  new_vfs, mount, mkdir, create_file, read_path, resolve, walk, find_mount,
}
use compute_kernel_python.Boot.Stages.{
  vfs_device_init, memory_bringup, userspace_init, scheduler_start, arch_early_init,
}
use compute_kernel_python.Boot.{
  run_stages, run_next, run_stage, BootPipeline, stages, current_stage, new_pipeline, run_all,
}
use compute_kernel_python.Boot.Runs.{passed}
use compute_kernel_python.Profiles.{profile_named}
use compute_kernel_python.KernelState.{
  Subsystems, new_kernel, new_machine, new_subsystems, init, initialised, boot, kmain,
}
use compute_kernel_python.KernelState.Boots.{boot_steps, kmain_lem, boot-boot_steps}

-- A pipeline of which the first two stages have run.
abbrev halfway : BootPipeline
halfway = record (new_pipeline new_machine) { stage_index = 2 }

kmain_lem_example :
    (parts : Subsystems) × ((kmain "safe_mode").subsystems ≡ some parts)
    × ((kmain "safe_mode").booted ≡ true)
    × (parts.boot_pipeline.booted ≡ true)
    × (parts.boot_pipeline.results ≡ map passed stages)
    × (parts.safe_mode ≡ profile_named "safe_mode")
    × (parts.module_loader.modules_enabled ≡ (profile_named "safe_mode").modules_enabled)
kmain_lem_example = kmain_lem "safe_mode"

boot-boot_steps_example :
    (boot (boot_steps 3 new_kernel) ≡ boot new_kernel)
    × ((boot_steps 3 new_kernel).booted ≡ new_kernel.booted)
boot-boot_steps_example = boot-boot_steps 3 new_kernel

abbrev syscall_vector : ℕ
syscall_vector = 0x80

abbrev booted : Option Subsystems
booted = (kmain "debug").subsystems

abbrev read_booted : Option Subsystems → Option (List ℕ)
read_booted none = none
read_booted (some parts) = read_path tmpfs "/etc/hostname" 4 parts.boot_pipeline.machine.vfs

read_booted-booted : read_booted booted ≡ some (99 ∷ 111 ∷ 109 ∷ 112 ∷ [])
unfolding kmain boot init initialised new_subsystems new_machine run_all run_stages run_next
    current_stage run_stage vfs_device_init new_vfs mount mkdir create_file read_path resolve walk
    find_mount parent_path base_name create lookup lookup_name write read set_size get put adjust
    has_key Kmalloc.alloc memory_bringup userspace_init scheduler_start arch_early_init
read_booted-booted = refl

-- The driver of the disk, and the name of the process 2.
abbrev disk_driver : Option Subsystems → Option String
disk_driver none = none
disk_driver (some parts) =
    Option.map (λ d. d.bound_driver) (get "sda" parts.boot_pipeline.machine.registries.devices)

abbrev second_process : Option Subsystems → Option String
second_process none = none
second_process (some parts) =
    Option.map (λ p. p.name) (get 2 parts.boot_pipeline.machine.processes.table)

disk_driver-booted : (disk_driver booted ≡ some "ahci") × (second_process booted ≡ some "init")
unfolding kmain boot init initialised new_subsystems new_machine run_all run_stages run_next
    current_stage run_stage vfs_device_init new_vfs mount mkdir create_file read_path resolve walk
    find_mount parent_path base_name create lookup lookup_name write read set_size get put adjust
    has_key Kmalloc.alloc memory_bringup userspace_init scheduler_start arch_early_init
    Process.spawn alloc_pid probe_all probe_one probe_names probe_device claims default_probe bind
    bind_driver register_device register_driver values Thread.spawn alloc_tid Scheduler.init
disk_driver-booted = (refl, refl)

abbrev line : List ℕ
line = 108 ∷ 115 ∷ 10 ∷ []

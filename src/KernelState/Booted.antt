-- ===== src/KernelState/Booted.antt =====
-- What the parts of the kernel are like after the boot.
use compute_kernel_python.Prelude.{
  ℕ, ◌≡◌, refl, sym, ap, ◌∙◌, true, none, some, [], ◌∷◌, arith, inl, inr, Bool-cases, All,
}
use mathlib.Core.Path.{subst}
use compute_kernel_python.Prelude.Eq.{Eq, ◌==◌, nat_eq, string_eq}
use compute_kernel_python.Prelude.Dict.{Dict, get, put, adjust, has_key}
use compute_kernel_python.Memory.Kmalloc
use compute_kernel_python.Process
use compute_kernel_python.Process.{Process, ProcessTable, alloc_pid}
use compute_kernel_python.Paths.{parent_path, base_name}
use compute_kernel_python.Tmpfs.{create, lookup, lookup_name, write, set_size}
use compute_kernel_python.Vfs.{
  OpenFile, new_vfs, mount, mkdir, create_file, resolve, walk, find_mount,
}
use compute_kernel_python.Devices.{Registries, probe_all}
use compute_kernel_python.Boot.Stages.{
  Machine, vfs_device_init, memory_bringup, userspace_init, scheduler_start, arch_early_init, ready,
  devices, drivers, register_devices, register_drivers,
}
use compute_kernel_python.Boot.{
  run_stages, run_next, run_stage, current_stage, new_pipeline, run_all,
}
use compute_kernel_python.Process.Pids.{IsValid, init-IsValid, spawn-IsValid, adjust-IsValid}
use compute_kernel_python.Process.Laws.{IsFamily, spawn-IsFamily, IsFamily-adjust}
use compute_kernel_python.Process.Runs.{init-IsFamily}
use compute_kernel_python.Devices.{Device, register_device}
use compute_kernel_python.Devices.Binding.{Linked, run-Linked, do_probe_all}
use compute_kernel_python.Syscall.Dispatch.Private.{IsPrivate}
use compute_kernel_python.KernelState.{new_machine}

abbrev pub booted_machine : Machine
booted_machine = (run_all (new_pipeline new_machine)).1.machine

abbrev spawned : ProcessTable
spawned = (Process.spawn "init" 0 0 0 "/sbin/init" Process.init).1

processes_is : booted_machine.processes ≡ record spawned { table = adjust 2 ready spawned.table }
unfolding new_machine run_all run_stages run_next run_stage current_stage userspace_init
    Process.spawn alloc_pid memory_bringup Kmalloc.alloc vfs_device_init scheduler_start
    arch_early_init
processes_is = refl

no_files_open : booted_machine.vfs.open_files ≡ []
unfolding new_machine run_all run_stages run_next run_stage current_stage userspace_init
    vfs_device_init memory_bringup Kmalloc.alloc new_vfs mount mkdir create_file resolve walk
    find_mount parent_path base_name create lookup lookup_name write set_size get put adjust has_key
    scheduler_start arch_early_init
no_files_open = refl

first_descriptor : booted_machine.vfs.next_fd ≡ 3
unfolding new_machine run_all run_stages run_next run_stage current_stage userspace_init
    vfs_device_init memory_bringup Kmalloc.alloc new_vfs mount mkdir create_file resolve walk
    find_mount parent_path base_name create lookup lookup_name write set_size get put adjust has_key
    scheduler_start arch_early_init
first_descriptor = refl

registries_is :
    booted_machine.registries
    ≡ probe_all
        (record { devices = register_devices devices []; drivers = register_drivers drivers [] })
unfolding new_machine run_all run_stages run_next run_stage current_stage userspace_init
    vfs_device_init memory_bringup Kmalloc.alloc scheduler_start arch_early_init
registries_is = refl

-- The processes have PIDs and parents as they should, no descriptor is shared, and a device that
-- has a driver stands in its list.
pub record IsOrderly (m : Machine) : Type 0 where
  pub pids : IsValid m.processes
  pub family : IsFamily m.processes.table
  pub private_files : IsPrivate m.processes.table m.vfs
  pub linked : Linked m.registries

spawned-IsValid : IsValid spawned
spawned-IsValid = spawn-IsValid "init" 0 0 0 "/sbin/init" Process.init init-IsValid

spawned-IsFamily : IsFamily spawned.table
spawned-IsFamily = spawn-IsFamily "init" 0 0 0 "/sbin/init" Process.init init-IsValid init-IsFamily

-- What holds of every entry of a dictionary.
module _ {K : Type 0} {V : Type 0} ⦃e : Eq K⦄ (P : V → Type 0) where
  pub get-All : (k : K) (v : V) (d : Dict K V) → All (λ x. P x.1) d → get k d ≡ some v → P v
  unfolding get
  get-All k v [] h g = absurd (cc)
  get-All k v ((j, w) ∷ d) (here, h) g = elim (Bool-cases (j == k)) [
    | inl q ↦
        let same : some w ≡ some v = ground (arith, g, q) in
        subst P (ap (λ o. elim o [ none ↦ w | some x ↦ x ]) same) here
    | inr q ↦ let later : get k d ≡ some v = ground (arith, g, q) in get-All k v d h later
  ]

abbrev HasNoFiles : Process → Type 0
HasNoFiles p = p.fdt.table ≡ []

spawned-HasNoFiles : All (λ x. HasNoFiles x.1) (adjust 2 ready spawned.table)
unfolding Process.spawn alloc_pid put adjust
spawned-HasNoFiles = (refl, (refl, tt))

no_files : (pid : ℕ) (p : Process) → get pid booted_machine.processes.table ≡ some p → HasNoFiles p
no_files pid p h =
    get-All HasNoFiles pid p (adjust 2 ready spawned.table) spawned-HasNoFiles
      (ap (λ t. get pid t.table) (sym processes_is) ∙ h)

-- No device has a driver before the drivers are probed.
abbrev IsUnbound : Device → Type 0
IsUnbound d = d.bound_driver ≡ ""

devices-IsUnbound : All (λ x. IsUnbound x.1) (register_devices devices [])
unfolding register_device put has_key
devices-IsUnbound = (refl, (refl, (refl, (refl, (refl, (refl, (refl, (refl, tt))))))))

abbrev unprobed : Registries
unprobed = record { devices = register_devices devices []; drivers = register_drivers drivers [] }

unprobed-Linked : Linked unprobed
unprobed-Linked k d h bound =
    absurd (bound (get-All IsUnbound k d (register_devices devices []) devices-IsUnbound h))

none_open : (fd : ℕ) (o : OpenFile) → get fd booted_machine.vfs.open_files ≡ some o → ⊥
unfolding get
none_open fd o h = cc (ap (get fd) no_files_open, h, get-nil fd)
  where
    get-nil : (fd : ℕ) → get {V = OpenFile} fd [] ≡ none
    get-nil fd = refl

no_file : (fd : ℕ) (p : Process) → HasNoFiles p → has_key fd p.fdt.table ≡ true → ⊥
unfolding has_key
no_file fd p e h = cc (ap (has_key fd) e)

pub booted-IsOrderly : IsOrderly booted_machine
booted-IsOrderly = record {
  pids =
      subst IsValid (sym processes_is) (adjust-IsValid 2 ready spawned (λ p. refl) spawned-IsValid);
  family =
      subst (λ t. IsFamily t.table) (sym processes_is)
        (IsFamily-adjust 2 ready spawned.table (λ p. refl) (λ p. refl) spawned-IsFamily);
  private_files = record {
    valid = (omega (arith, first_descriptor), λ fd o h. absurd (none_open fd o h));
    backed = λ pid p fd h k. absurd (no_file fd p (no_files pid p h) k);
    alone = λ pid qid p q fd h g k l. absurd (no_file fd p (no_files pid p h) k);
  };
  linked =
      subst Linked (sym registries_is) (run-Linked (do_probe_all ∷ []) unprobed unprobed-Linked);
}

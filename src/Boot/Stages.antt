-- ===== src/Boot/Stages.antt =====
-- The stage handlers of computekernel_edu/boot.py that change the machine.
use Prim.Native.Char.{code}
use compute_kernel_python.Prelude.{
  ◌/◌, ◌%◌, ◌++◌, ltb, if◌then◌else◌, ℕ, ◌+◌, String, Bool, true, false, Option, none, some, List,
  [], ◌∷◌, pos,
}
use compute_kernel_python.Prelude.Eq.{nat_eq, string_eq}
use compute_kernel_python.Prelude.Dict.{adjust}
use compute_kernel_python.Paths.{◌<>◌}
use compute_kernel_python.Arch
use compute_kernel_python.Arch.{Arch}
use compute_kernel_python.Memory.Vmm.{Vmm, create_address_space}
use compute_kernel_python.Memory.Kmalloc
use compute_kernel_python.Memory.Kmalloc.{Kmalloc}
use compute_kernel_python.Process
use compute_kernel_python.Process.{Process, ProcessTable, runnable}
use compute_kernel_python.Thread
use compute_kernel_python.Thread.{ThreadTable}
use compute_kernel_python.Scheduler
use compute_kernel_python.Scheduler.{Scheduler, add_thread, tick_n}
use compute_kernel_python.Tmpfs
use compute_kernel_python.Tmpfs.{Tmpfs, tmpfs}
use compute_kernel_python.Vfs
use compute_kernel_python.Vfs.{Vfs, update}
use compute_kernel_python.Devices.{
  DeviceClass, char, block, input, timer, Device, Driver, Registries, DeviceRegistry,
  DriverRegistry, register_device, register_driver, probe_all,
}

-- The parts that the pipeline is wired to. The frames are those of the virtual memory manager, the
-- thread objects those of the scheduler, and `next_fs` is where the next file system is made.
pub record Machine : Type 0 where
  pub arch : Arch
  pub vmm : Vmm
  pub kmalloc : Kmalloc
  pub processes : ProcessTable
  pub threads : ThreadTable
  pub scheduler : Scheduler
  pub vfs : Vfs Tmpfs
  pub next_fs : ℕ
  pub registries : Registries

unfoldable pub arch_early_init : Machine → Machine
arch_early_init m = record m { arch = (Arch.detect_cpu_features m.arch).1 }

-- Two blocks are allocated, and then freed; `none` is a `ValueError`.
abbrev free_both : Option ℕ → Option ℕ → Kmalloc → Option Kmalloc
free_both (some a) (some b) k = some (Kmalloc.free b (Kmalloc.free a k))
free_both _ _ k = none

abbrev pub try_blocks : Kmalloc → Option Kmalloc
try_blocks k =
    let (a, k1) = Kmalloc.alloc (pos 512) k in
    let (b, k2) = Kmalloc.alloc (pos 256) k1 in free_both a b k2

abbrev tried : Option Kmalloc → Machine → Bool × Machine
tried none m = (false, m)
tried (some k) m = (true, record m { kmalloc = k })

unfoldable pub memory_bringup : Machine → Bool × Machine
memory_bringup m = tried (try_blocks m.kmalloc) (record m { vmm = create_address_space 0 m.vmm })

-- `spawn` of the thread table, with the default slice.
abbrev pub spawn_thread : ℕ → String → Bool → Machine → ℕ × Machine
spawn_thread pid name is_kernel_thread m =
    let made = Thread.spawn pid name 10 is_kernel_thread m.threads m.scheduler.objects in
    (
      made.thread,
      record m { threads = made.table; scheduler = record m.scheduler { objects = made.objects } },
    )

abbrev pub enqueue : ℕ → Machine → Machine
enqueue thread m = record m { scheduler = add_thread thread m.scheduler }

abbrev init_scheduler : Machine → Machine
init_scheduler m =
    let (threads, scheduler) = Scheduler.init m.threads m.scheduler in
    record m { threads = threads; scheduler = scheduler }

unfoldable pub scheduler_start : Machine → Machine
scheduler_start m0 =
    let m1 = init_scheduler m0 in
    let (kworker, m2) = spawn_thread 0 "kworker/0:0" true m1 in
    let (ksoftirqd, m3) = spawn_thread 0 "ksoftirqd/0" true m2 in
    let (kswapd, m4) = spawn_thread 0 "kswapd0" true m3 in
    let m5 = enqueue kswapd (enqueue ksoftirqd (enqueue kworker m4)) in
    record m5 { scheduler = tick_n 5 m5.scheduler }

-- A new file system in memory, mounted at `/`.
abbrev mount_root : Machine → Machine
mount_root m = record m {
  vfs =
      Vfs.mount tmpfs "/" m.next_fs "tmpfs"
        (record m.vfs { objects = update m.next_fs Tmpfs.init m.vfs.objects });
  next_fs = m.next_fs + 1;
}

abbrev directories : List String
directories = "dev" ∷ "proc" ∷ "sys" ∷ "tmp" ∷ "etc" ∷ "bin" ∷ "usr" ∷ "var" ∷ "home" ∷ []

abbrev make_directories : List String → Vfs Tmpfs → Vfs Tmpfs
make_directories [] v = v
make_directories (d ∷ ds) v = make_directories ds (Vfs.mkdir tmpfs ("/" <> d) v).1

-- `s.encode()`: the bytes of a text in UTF-8. A text here has no lone surrogates, the only
-- characters for which Python raises.
abbrev utf8 : ℕ → List ℕ
utf8 n =
    if ltb n 0x80
    then n ∷ []
    else if ltb n 0x800
    then (0xC0 + n / 0x40) ∷ (0x80 + n % 0x40) ∷ []
    else if ltb n 0x10000
    then (0xE0 + n / 0x1000) ∷ (0x80 + n / 0x40 % 0x40) ∷ (0x80 + n % 0x40) ∷ []
    else (0xF0 + n / 0x40000)
      ∷ (0x80 + n / 0x1000 % 0x40)
      ∷ (0x80 + n / 0x40 % 0x40)
      ∷ (0x80 + n % 0x40)
      ∷ []

abbrev pub encoded : String → List ℕ
encoded String.[] = []
encoded (String.◌∷◌ c s) = utf8 (code c) ++ encoded s

abbrev make_files : Vfs Tmpfs → Vfs Tmpfs
make_files v =
    (Vfs.create_file tmpfs "/etc/hostname" (encoded "computekernel-edu\n")
      (Vfs.create_file tmpfs "/etc/version"
        (encoded "ComputeKERNEL-Edu v0.1.0 (educational simulator)\n") v).1).1

abbrev device : String → DeviceClass → ℕ → ℕ → String → Device
device name device_class major minor description = record {
  name = name;
  device_class = device_class;
  major = major;
  minor = minor;
  description = description;
  is_virtual = false;
  bound_driver = "";
  properties = [];
}

abbrev pub devices : List Device
devices =
    device "console" char 5 1 "System console"
    ∷ device "tty0" char 4 0 "Virtual terminal 0"
    ∷ device "null" char 1 3 "Null device"
    ∷ device "zero" char 1 5 "Zero device"
    ∷ device "random" char 1 8 "Random device"
    ∷ device "timer0" timer 0 0 "System timer"
    ∷ device "sda" block 8 0 "Simulated SATA disk"
    ∷ device "keyboard0" input 13 0 "PS/2 keyboard"
    ∷ []

abbrev driver : String → String → List String → Driver
driver name description supported = record {
  name = name;
  description = description;
  supported_devices = supported;
  probe = none;
  is_loaded = false;
  bound_devices = [];
}

abbrev pub drivers : List Driver
drivers =
    driver "uart16550" "16550A UART serial driver" ("console" ∷ "tty0" ∷ [])
    ∷ driver "mem_dev" "Memory character devices (null, zero, random)"
        ("null" ∷ "zero" ∷ "random" ∷ [])
    ∷ driver "ahci" "AHCI SATA controller driver" ("sda" ∷ [])
    ∷ driver "ps2kbd" "PS/2 keyboard driver" ("keyboard0" ∷ [])
    ∷ []

abbrev pub register_devices : List Device → DeviceRegistry → DeviceRegistry
register_devices [] s = s
register_devices (d ∷ ds) s = register_devices ds (register_device d s)

abbrev pub register_drivers : List Driver → DriverRegistry → DriverRegistry
register_drivers [] s = s
register_drivers (r ∷ rs) s = register_drivers rs (register_driver r s)

unfoldable pub vfs_device_init : Machine → Machine
vfs_device_init m0 =
    let m = mount_root m0 in
    record m {
      vfs = make_files (make_directories directories m.vfs);
      registries = probe_all (record {
        devices = register_devices devices m.registries.devices;
        drivers = register_drivers drivers m.registries.drivers;
      });
    }

abbrev pub ready : Process → Process
ready p = record p { state = runnable; cwd = "/" }

unfoldable pub userspace_init : Machine → Machine
userspace_init m0 =
    let (pid, spawned) = Process.spawn "init" 0 0 0 "/sbin/init" m0.processes in
    let m1 = record m0 { processes = record spawned { table = adjust pid ready spawned.table } } in
    let (thread, m2) = spawn_thread pid "init" false m1 in
    let m3 = enqueue thread m2 in record m3 { vmm = create_address_space pid m3.vmm }

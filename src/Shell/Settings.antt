-- ===== src/Shell/Settings.antt =====
-- The commands of computekernel_edu/shell.py that show devices, drivers, modules, the log and settings.
pub mod Same
use compute_kernel_python.Prelude.{
  ℕ, String, Bool, true, false, Option, none, some, List, [], ◌∷◌, ◌++◌, map, any, length, not,
  ◌&&◌, ℤ, pos, negsuc, if◌then◌else◌,
}
use compute_kernel_python.Prelude.Eq.{◌==◌, string_eq}
use compute_kernel_python.Prelude.Dict.{Dict, get, values, has_key}
use compute_kernel_python.Paths.{◌<>◌, is_empty}
use compute_kernel_python.Text.{strip, lower, join, or_text}
use compute_kernel_python.Text.Numbers.{sixteen, show, show_ℤ, digits}
use compute_kernel_python.Utils.{yellow, bold}
use compute_kernel_python.Devices.{DeviceClass, Device, Driver}
use compute_kernel_python.Modules.{KernelModule, ModuleLoader, list_loaded, list_available}
use compute_kernel_python.Profiles.{KernelProfile, active}
use compute_kernel_python.Ext2
use compute_kernel_python.Ext2.{Ext2}
use compute_kernel_python.Logger.{LogLevel, debug, info, warn, error, panic}
use compute_kernel_python.KernelState.{Subsystems, KernelState}
use compute_kernel_python.Shell.Replies.{
  Printed, text, grid, log_from, description_of, cpu_info, Session, Reply, says, says_text,
  on_parts, machine_of,
}
use compute_kernel_python.Shell.Reports.{show_bool, pairs, listing}

abbrev level_map : Dict String LogLevel
level_map =
    ("debug", debug) ∷ ("info", info) ∷ ("warn", warn) ∷ ("error", error) ∷ ("panic", panic) ∷ []

abbrev or_lowest : Option LogLevel → LogLevel
or_lowest none = debug
or_lowest (some level) = level

unfoldable pub do_dmesg : String → Session → Reply
do_dmesg arg s = says (log_from (or_lowest (get (lower (strip arg)) level_map)) ∷ []) s

abbrev class_name : DeviceClass → String
class_name DeviceClass.char = "CHAR"
class_name DeviceClass.block = "BLOCK"
class_name DeviceClass.network = "NETWORK"
class_name DeviceClass.bus = "BUS"
class_name DeviceClass.platform = "PLATFORM"
class_name DeviceClass.virtual = "VIRTUAL"
class_name DeviceClass.input = "INPUT"
class_name DeviceClass.timer = "TIMER"

abbrev device_row : Device → List String
device_row d =
    d.name
    ∷ class_name d.device_class
    ∷ show d.major
    ∷ show d.minor
    ∷ or_text d.bound_driver "(none)"
    ∷ d.description
    ∷ []

unfoldable pub do_lsdev : String → Session → Reply
do_lsdev arg s =
    on_parts "Device registry not initialized."
      (λ parts.
        listing "No devices." ("NAME" ∷ "CLASS" ∷ "MAJOR" ∷ "MINOR" ∷ "DRIVER" ∷ "DESCRIPTION" ∷ [])
          device_row (values (machine_of parts).registries.devices) s)
      s

abbrev driver_row : Driver → List String
driver_row d =
    d.name
    ∷ (if d.is_loaded then "loaded" else "unloaded")
    ∷ or_text (join ", " d.bound_devices) "(none)"
    ∷ d.description
    ∷ []

unfoldable pub do_lsdrv : String → Session → Reply
do_lsdrv arg s =
    on_parts "Driver registry not initialized."
      (λ parts.
        listing "No drivers." ("NAME" ∷ "STATE" ∷ "BOUND DEVICES" ∷ "DESCRIPTION" ∷ []) driver_row
          (values (machine_of parts).registries.drivers) s)
      s

abbrev module_row : KernelModule → List String
module_row m =
    m.name
    ∷ m.version
    ∷ (if m.is_loaded then "LOADED" else "available")
    ∷ or_text (join ", " m.dependencies) "(none)"
    ∷ m.description
    ∷ []

abbrev module_lines : ModuleLoader → List Printed
module_lines x =
    text (
      "Loaded modules ("
      <> (show (length (list_loaded x))
          <> (" / " <> (show (length (list_available x)) <> " available):"))))
    ∷ grid ("NAME" ∷ "VERSION" ∷ "STATE" ∷ "DEPS" ∷ "DESCRIPTION" ∷ [])
        (map module_row (list_available x))
    ∷ []

unfoldable pub do_lsmod : String → Session → Reply
do_lsmod arg s =
    on_parts "Module loader not initialized." (λ parts. says (module_lines parts.module_loader) s) s

-- The description of the profile, the last row of the table, is not spelled out.
unfoldable pub do_safemode : String → Session → Reply
do_safemode arg s =
    on_parts "Safe mode not initialized."
      (λ parts.
        let p = parts.safe_mode in
        let rows = pairs (
          ("active", show_bool (active p))
          ∷ ("profile", p.name)
          ∷ ("modules_enabled", show_bool p.modules_enabled)
          ∷ ("non_essential_drivers", show_bool p.non_essential_drivers)
          ∷ []) in
        says (grid ("Setting" ∷ "Value" ∷ []) rows ∷ description_of p.name ∷ []) s)
      s

unfoldable pub do_arch : String → Session → Reply
do_arch arg s = on_parts "Arch layer not initialized." (λ parts. says (cpu_info ∷ []) s) s

unfoldable pub superblock_rows : Ext2 → List (List String)
superblock_rows x =
    let b = x.superblock in
    pairs (
      ("magic", "0x" <> digits sixteen b.magic)
      ∷ ("volume_name", b.volume_name)
      ∷ ("block_size", show b.block_size)
      ∷ ("total_inodes", show b.total_inodes)
      ∷ ("free_inodes", show_ℤ b.free_inodes)
      ∷ ("total_blocks", show b.total_blocks)
      ∷ ("free_blocks", show b.free_blocks)
      ∷ ("block_groups", show (length x.block_groups))
      ∷ [])

abbrev ext2_note : Option Subsystems → List Printed
ext2_note none = []
ext2_note (some parts) =
    if any (λ m. m.name == "ext2" && m.is_loaded) (list_loaded parts.module_loader)
    then []
    else (text (yellow "ext2 module not loaded. Run 'insmod ext2' first.")
        ∷ text "Showing ext2 concept anyway (educational simulator):"
        ∷ [])

unfoldable pub do_ext2 : String → Session → Reply
do_ext2 arg s =
    says
      (ext2_note s.kernel.subsystems
        ++ text (bold "Ext2 Superblock Info (simulated volume):")
          ∷ grid ("Field" ∷ "Value" ∷ []) (superblock_rows (Ext2.init "edu-vol"))
          ∷ [])
      s

abbrev profile_lines : KernelProfile → List Printed
profile_lines p =
    text ("Current profile: " <> bold p.name)
    ∷ description_of p.name
    ∷ grid ("Setting" ∷ "Value" ∷ []) (
        pairs (
          ("serial_log", show_bool p.serial_log)
          ∷ ("modules_enabled", show_bool p.modules_enabled)
          ∷ ("non_essential_drivers", show_bool p.non_essential_drivers)
          ∷ ("debug_symbols", show_bool p.debug_symbols)
          ∷ ("kmalloc_debug", show_bool p.kmalloc_debug)
          ∷ ("scheduler_debug", show_bool p.scheduler_debug)
          ∷ ("aslr", show_bool p.aslr)
          ∷ ("nx_enforcement", show_bool p.nx_enforcement)
          ∷ ("smep", show_bool p.smep)
          ∷ ("smap", show_bool p.smap)
          ∷ []))
    ∷ []

abbrev names_of : Dict String KernelProfile → List String
names_of [] = []
names_of ((k, p) ∷ d) = k ∷ names_of d

profile_note : String → Session → Reply
profile_note String.[] s = says (profile_lines s.kernel.profile) s
profile_note (String.◌∷◌ c t) s =
    let name = String.◌∷◌ c t in
    if has_key name s.profiles
    then says
        (text (yellow "Note: profile change takes effect on next boot.")
          ∷ text ("Use: reboot " <> name)
          ∷ [])
        s
    else says_text
        ("Unknown profile '" <> (name <> ("'. Available: " <> join ", " (names_of s.profiles)))) s

unfoldable pub do_profile : String → Session → Reply
unfolding profile_note
do_profile arg s = profile_note (strip arg) s

-- ===== src/Profiles.antt =====
-- computekernel_edu/profiles.py and computekernel_edu/safe_mode.py: the boot profiles, and what safe
-- mode allows. The descriptions of profiles are only printed and are left out.
use compute_kernel_python.Prelude.{
  ℕ, String, Bool, true, false, not, ◌&&◌, Option, none, some, [], ◌∷◌, if◌then◌else◌,
}
use compute_kernel_python.Prelude.Eq.{◌==◌, string_eq}
use compute_kernel_python.Prelude.Dict.{Dict, get}

pub record KernelProfile : Type 0 where
  pub name : String
  pub serial_log : Bool
  pub debug_symbols : Bool
  pub modules_enabled : Bool
  pub non_essential_drivers : Bool
  pub kmalloc_debug : Bool
  pub scheduler_debug : Bool
  pub mm_debug : Bool
  pub max_log_level : ℕ
  pub panic_on_oops : Bool
  pub nx_enforcement : Bool
  pub aslr : Bool
  pub smep : Bool
  pub smap : Bool

abbrev pub debug_profile : KernelProfile
debug_profile = record {
  name = "debug";
  serial_log = true;
  debug_symbols = true;
  modules_enabled = true;
  non_essential_drivers = true;
  kmalloc_debug = true;
  scheduler_debug = true;
  mm_debug = true;
  max_log_level = 0;
  panic_on_oops = false;
  nx_enforcement = true;
  aslr = false;
  smep = true;
  smap = true;
}

abbrev pub release_profile : KernelProfile
release_profile = record {
  name = "release";
  serial_log = false;
  debug_symbols = false;
  modules_enabled = true;
  non_essential_drivers = true;
  kmalloc_debug = false;
  scheduler_debug = false;
  mm_debug = false;
  max_log_level = 1;
  panic_on_oops = true;
  nx_enforcement = true;
  aslr = true;
  smep = true;
  smap = true;
}

abbrev pub safe_mode_profile : KernelProfile
safe_mode_profile = record {
  name = "safe_mode";
  serial_log = true;
  debug_symbols = true;
  modules_enabled = false;
  non_essential_drivers = false;
  kmalloc_debug = true;
  scheduler_debug = false;
  mm_debug = false;
  max_log_level = 0;
  panic_on_oops = false;
  nx_enforcement = true;
  aslr = false;
  smep = true;
  smap = false;
}

abbrev pub profiles : Dict String KernelProfile
profiles =
    ("debug", debug_profile) ∷ ("release", release_profile) ∷ ("safe_mode", safe_mode_profile) ∷ []

-- `PROFILES.get(name, DEBUG_PROFILE)`
abbrev or_debug : Option KernelProfile → KernelProfile
or_debug none = debug_profile
or_debug (some p) = p

unfoldable pub profile_named : String → KernelProfile
profile_named name = or_debug (get name profiles)

-- The class `SafeMode`, whose state is its profile.
unfoldable pub active : KernelProfile → Bool
active p = p.name == "safe_mode"

unfoldable pub check_module_load : String → KernelProfile → Bool
unfolding active
check_module_load module_name p = if active p && not p.modules_enabled then false else true

unfoldable pub check_driver_load : String → Bool → KernelProfile → Bool
unfolding active
check_driver_load driver_name is_essential p =
    if active p && not p.non_essential_drivers && not is_essential then false else true

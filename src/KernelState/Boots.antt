-- ===== src/KernelState/Boots.antt =====
-- Booting the kernel at once, and stage by stage.
use compute_kernel_python.Prelude.{
  ℕ, zero, suc, ◌≡◌, refl, ap, ◌∙◌, String, Bool, true, Option, none, some, map,
}
use compute_kernel_python.Modules.{register, new_loader}
use compute_kernel_python.Profiles.{KernelProfile, profile_named}
use compute_kernel_python.Boot.{stages, BootPipeline, run_all}
use compute_kernel_python.Boot.Runs.{run_all_lem, run_all-steps, passed}
use compute_kernel_python.KernelState.{
  Subsystems, KernelState, new_subsystems, init, initialised, set_pipeline, boot_with, boot,
  step_with, boot_step, kmain,
}

-- For any profile name, `kmain` ends with a kernel that is booted, in which the pipeline has run
-- every stage once, in order and with success; safe mode and the module loader follow the profile
-- of that name, or the debug profile if there is none.
pub kmain_lem :
    (name : String)
    → (parts : Subsystems) × ((kmain name).subsystems ≡ some parts)
      × ((kmain name).booted ≡ true)
      × (parts.boot_pipeline.booted ≡ true)
      × (parts.boot_pipeline.results ≡ map passed stages)
      × (parts.safe_mode ≡ profile_named name)
      × (parts.module_loader.modules_enabled ≡ (profile_named name).modules_enabled)
unfolding kmain boot boot_with init initialised new_subsystems register new_loader
kmain_lem name =
    let profile = profile_named name in
    let parts = new_subsystems profile in
    let (ok, booted, done, all) = run_all_lem parts.boot_pipeline in
    (set_pipeline (run_all parts.boot_pipeline).1 parts, refl, ok, booted, all, refl, refl)

abbrev state_of : Bool → KernelProfile → Bool → Option Subsystems → KernelState
state_of booted profile serial_sink subsystems = record {
  booted = booted;
  profile = profile;
  serial_sink = serial_sink;
  subsystems = subsystems;
}

abbrev ended : Subsystems → KernelState → Bool × BootPipeline → Bool × KernelState
ended parts s (ok, p) = (ok, record s { booted = ok; subsystems = some (set_pipeline p parts) })

boot-boot_step_of :
    (booted : Bool) (profile : KernelProfile) (serial_sink : Bool) (parts : Option Subsystems)
    → boot (boot_step (state_of booted profile serial_sink parts)).1
      ≡ boot (state_of booted profile serial_sink parts)
unfolding boot boot_with boot_step step_with initialised init
boot-boot_step_of booted profile serial_sink none =
    let parts = new_subsystems profile in
    ap (ended parts (state_of booted profile profile.serial_log none))
      (run_all-steps 1 parts.boot_pipeline).0
boot-boot_step_of booted profile serial_sink (some parts) =
    ap (ended parts (state_of booted profile serial_sink none))
      (run_all-steps 1 parts.boot_pipeline).0

booted-boot_step_of :
    (booted : Bool) (profile : KernelProfile) (serial_sink : Bool) (parts : Option Subsystems)
    → (boot_step (state_of booted profile serial_sink parts)).1.booted ≡ booted
unfolding boot_step step_with initialised init
booted-boot_step_of booted profile serial_sink none = refl
booted-boot_step_of booted profile serial_sink (some parts) = refl

abbrev pub boot_steps : ℕ → KernelState → KernelState
boot_steps zero s = s
boot_steps (suc k) s = boot_steps k (boot_step s).1

-- However many calls of `boot_step` come first, `boot` then gives the same result and the same
-- kernel as without them. The calls of `boot_step` themselves never change whether the kernel
-- counts as booted, not even when they have run every stage.
pub boot-boot_steps :
    (k : ℕ) (s : KernelState)
    → (boot (boot_steps k s) ≡ boot s) × ((boot_steps k s).booted ≡ s.booted)
boot-boot_steps zero s = (refl, refl)
boot-boot_steps (suc k) s =
    let (same, flag) = boot-boot_steps k (boot_step s).1 in
    (
      same ∙ boot-boot_step_of s.booted s.profile s.serial_sink s.subsystems,
      flag ∙ booted-boot_step_of s.booted s.profile s.serial_sink s.subsystems,
    )

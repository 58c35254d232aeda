-- ===== src/KernelState/Up.antt =====
-- What is true of the kernel once it is booted.
use compute_kernel_python.Prelude.{
  ◌≡◌, refl, sym, ap, ◌∙◌, Bool, true, false, Option, none, some, [], All,
}
use compute_kernel_python.Prelude.Eq.{nat_eq, string_eq}
use compute_kernel_python.Prelude.Dict.{put}
use compute_kernel_python.Modules.{
  KernelModule, ModuleLoader, new_loader, register, make_default_modules,
}
use compute_kernel_python.Modules.Laws.{Closed}
use compute_kernel_python.Profiles.{KernelProfile}
use compute_kernel_python.Boot.{current_stage, step, new_pipeline, run_all}
use compute_kernel_python.Boot.Runs.{run_all_lem}
use compute_kernel_python.KernelState.{
  Subsystems, KernelState, new_machine, new_subsystems, init, initialised, boot, boot_with,
  boot_step, step_with, register_all,
}
use compute_kernel_python.KernelState.Booted.{IsOrderly, booted-IsOrderly, get-All}

-- No stage of the boot is left, the machine is in order, every dependency of a loaded module is
-- loaded, no process has a signal table, and the parts follow the profile.
pub record IsSound (parts : Subsystems) (profile : KernelProfile) : Type 0 where
  pub finished : current_stage parts.boot_pipeline ≡ none
  pub orderly : IsOrderly parts.boot_pipeline.machine
  pub closed : Closed parts.module_loader.available
  pub no_tables : parts.ipc.signal_tables ≡ []
  pub safe_mode_is : parts.safe_mode ≡ profile
  pub modules_follow : parts.module_loader.modules_enabled ≡ profile.modules_enabled

abbrev pub IsUp : KernelState → Type 0
IsUp k =
    (k.booted ≡ true)
    × ((parts : Subsystems) × (k.subsystems ≡ some parts) × IsSound parts k.profile)

-- The modules before any of them is loaded.
abbrev IsUnloaded : KernelModule → Type 0
IsUnloaded m = m.is_loaded ≡ false

abbrev loader : Bool → ModuleLoader
loader enabled = register_all make_default_modules (new_loader enabled)

loader-IsUnloaded : (enabled : Bool) → All (λ x. IsUnloaded x.1) (loader enabled).available
unfolding new_loader register put
loader-IsUnloaded enabled = (refl, (refl, (refl, (refl, (refl, (refl, tt))))))

loader-Closed : (enabled : Bool) → Closed (loader enabled).available
loader-Closed enabled k m h loaded =
    let free = get-All IsUnloaded k m (loader enabled).available (loader-IsUnloaded enabled) h in
    absurd (cc)

loader_lem : (enabled : Bool) → (loader enabled).modules_enabled ≡ enabled
unfolding new_loader register
loader_lem enabled = refl

abbrev booted_parts : KernelProfile → Subsystems
booted_parts profile = record (new_subsystems profile) {
  boot_pipeline = (run_all (new_pipeline new_machine)).1;
}

booted_parts-IsSound : (profile : KernelProfile) → IsSound (booted_parts profile) profile
unfolding new_subsystems
booted_parts-IsSound profile =
    let (ok, booted, done, all) = run_all_lem (new_pipeline new_machine) in
    record {
      finished = done;
      orderly = booted-IsOrderly;
      closed = loader-Closed profile.modules_enabled;
      no_tables = refl;
      safe_mode_is = refl;
      modules_follow = loader_lem profile.modules_enabled;
    }

-- After `init` with a profile and `boot` the kernel is up, whatever it was before, and whatever the
-- switch for printing was set to in between.
pub boot-IsUp :
    (profile : KernelProfile) (on : Bool) (k : KernelState)
    → IsUp (boot (init (some profile) k)).1
      × IsUp (boot (record (init (some profile) k) { serial_sink = on })).1
unfolding boot boot_with init initialised new_subsystems
boot-IsUp profile on k =
    let up : IsUp (boot (init (some profile) k)).1 = (
      (run_all_lem (new_pipeline new_machine)).0,
      (booted_parts profile, refl, booted_parts-IsSound profile),
    ) in
    (up, up)

step_with-some :
    (o : Option Subsystems) (k : KernelState) (parts : Subsystems)
    → o ≡ some parts
    → k.subsystems ≡ some parts
    → IsSound parts k.profile
    → step_with o k ≡ (none, k)
unfolding step_with step
step_with-some o k parts e f sound =
    let back : record k { subsystems = some parts } ≡ k =
      ap (λ x. record k { subsystems = x }) (sym f) in
    rw (e, step_with, step, sound.finished) (ap (λ x. (none, x)) back)

-- `initialised` where there are parts.
initialised_lem :
    (k : KernelState) (parts : Subsystems) → k.subsystems ≡ some parts → initialised k ≡ k
unfolding initialised
initialised_lem k parts e = go k.subsystems e
  where
    go :
        (o : Option Subsystems)
        → o ≡ some parts
        → ◌≡◌ {A = KernelState} (elim o [ none ↦ init none k | some x ↦ k ]) k
    go none e = absurd (cc)
    go (some x) e = refl

boot_step-some :
    (k : KernelState) (parts : Subsystems)
    → k.subsystems ≡ some parts
    → boot_step k ≡ step_with k.subsystems k
unfolding boot_step initialised
boot_step-some k parts e = ap (λ x. step_with x.subsystems x) (initialised_lem k parts e)

-- A further call of `boot_step` finds no stage and changes nothing.
pub boot_step-IsUp : (k : KernelState) → IsUp k → boot_step k ≡ (none, k)
unfolding boot_step initialised
boot_step-IsUp k (up, (parts, e, sound)) =
    boot_step-some k parts e ∙ step_with-some k.subsystems k parts e e sound

-- ===== src/Boot.antt =====
-- computekernel_edu/boot.py: the boot pipeline. Its parts are one record, the machine; a stage is a
-- function on it. The messages of results, the durations and the explanations are only printed.
pub mod Stages
pub mod Runs
use compute_kernel_python.Prelude.{
  ℕ, zero, suc, ◌+◌, ◌-◌, String, Bool, true, false, Option, none, some, List, [], ◌∷◌, ◌++◌,
  length, get_elem?, if◌then◌else◌,
}
use compute_kernel_python.Boot.Stages.{
  Machine, arch_early_init, memory_bringup, scheduler_start, vfs_device_init, userspace_init,
}

pub data BootStage : Type 0 where
  firmware_handoff bootloader_handoff arch_early memory_up interrupt_timer_setup sched_start
        vfs_device userspace :
      BootStage

abbrev pub stages : List BootStage
stages =
    firmware_handoff ∷ bootloader_handoff ∷ arch_early ∷ memory_up ∷ interrupt_timer_setup
    ∷ sched_start ∷ vfs_device ∷ userspace ∷ []

pub record BootStageResult : Type 0 where
  pub stage : BootStage
  pub success : Bool

pub record BootPipeline : Type 0 where
  pub machine : Machine
  pub stage_index : ℕ
  pub results : List BootStageResult
  pub booted : Bool

abbrev pub new_pipeline : Machine → BootPipeline
new_pipeline machine = record { machine = machine; stage_index = 0; results = []; booted = false }

-- The handlers, with whether they succeed: an exception is a failure.
unfoldable pub run_stage : BootStage → Machine → Bool × Machine
run_stage firmware_handoff m = (true, m)
run_stage bootloader_handoff m = (true, m)
run_stage arch_early m = (true, arch_early_init m)
run_stage memory_up m = memory_bringup m
run_stage interrupt_timer_setup m = (true, m)
run_stage sched_start m = (true, scheduler_start m)
run_stage vfs_device m = (true, vfs_device_init m)
run_stage userspace m = (true, userspace_init m)

unfoldable pub current_stage : BootPipeline → Option BootStage
current_stage p = get_elem? stages p.stage_index

-- `_run_next`, for the stage at the index.
unfoldable pub run_next : BootStage → BootPipeline → BootStageResult × BootPipeline
run_next stage p =
    let (success, machine) = run_stage stage p.machine in
    let result : BootStageResult = record { stage = stage; success = success } in
    (
      result,
      record {
        machine = machine;
        stage_index = p.stage_index + 1;
        results = p.results ++ result ∷ [];
        booted = p.booted;
      },
    )

unfoldable pub step : BootPipeline → Option BootStageResult × BootPipeline
step p = elim (current_stage p) [
  | none ↦ (none, p)
  | some stage ↦ let (result, q) = run_next stage p in (some result, q)
]

-- The loop of `run_all`: whether no stage failed. The fuel is the number of stages that are left.
unfoldable pub run_stages : ℕ → BootPipeline → Bool × BootPipeline
run_stages zero p = (true, p)
run_stages (suc n) p = elim (current_stage p) [
  | none ↦ (true, p)
  | some stage ↦
      let (result, q) = run_next stage p in
      let rest = run_stages n q in if result.success then rest else (false, q)
]

abbrev pub finish : Bool × BootPipeline → Bool × BootPipeline
finish (ok, p) = if ok then (true, record p { booted = true }) else (false, p)

unfoldable pub run_all : BootPipeline → Bool × BootPipeline
run_all p = finish (run_stages (length stages - p.stage_index) p)

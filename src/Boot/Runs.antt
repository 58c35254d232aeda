-- ===== src/Boot/Runs.antt =====
-- Runs of the boot pipeline: to the end, and stage by stage.
use compute_kernel_python.Prelude.{
  ℕ, zero, suc, ◌+◌, ◌-◌, ◌≤◌, ◌<◌, ◌≡◌, refl, sym, ap, ◌∙◌, Bool, true, none, some, List, [], ◌∷◌,
  ◌++◌, length, drop, map, get_elem?, arith, Option-cases, inl, inr,
}
use compute_kernel_python.Memory.Kmalloc
use compute_kernel_python.Memory.Kmalloc.{Kmalloc}
use compute_kernel_python.Boot.Stages.{Machine, memory_bringup}
use compute_kernel_python.Boot.{
  BootStage, firmware_handoff, bootloader_handoff, arch_early, memory_up, interrupt_timer_setup,
  sched_start, vfs_device, userspace, stages, BootStageResult, BootPipeline, run_stage,
  current_stage, run_next, step, run_stages, finish, run_all,
}

memory_bringup-succeeds : (m : Machine) → (memory_bringup m).0 ≡ true
unfolding memory_bringup Kmalloc.alloc
memory_bringup-succeeds m = refl

-- No handler fails.
run_stage-succeeds : (b : BootStage) (m : Machine) → (run_stage b m).0 ≡ true
unfolding run_stage
run_stage-succeeds firmware_handoff m = refl
run_stage-succeeds bootloader_handoff m = refl
run_stage-succeeds arch_early m = refl
run_stage-succeeds memory_up m = memory_bringup-succeeds m
run_stage-succeeds interrupt_timer_setup m = refl
run_stage-succeeds sched_start m = refl
run_stage-succeeds vfs_device m = refl
run_stage-succeeds userspace m = refl

abbrev pub passed : BootStage → BootStageResult
passed b = record { stage = b; success = true }

abbrev advanced : BootStage → BootPipeline → BootPipeline
advanced b p = record p {
  machine = (run_stage b p.machine).1;
  stage_index = p.stage_index + 1;
  results = p.results ++ passed b ∷ [];
}

run_next-advanced : (b : BootStage) (p : BootPipeline) → run_next b p ≡ (passed b, advanced b p)
unfolding run_next
run_next-advanced b p = rw (run_next, run_stage-succeeds b p.machine) refl

get-drop :
    (bs : List BootStage) (i : ℕ) (b : BootStage)
    → get_elem? bs i ≡ some b
    → drop i bs ≡ b ∷ drop (i + 1) bs
get-drop [] i b e = absurd (cc)
get-drop (x ∷ bs) zero b e = ground (arith, e)
get-drop (x ∷ bs) (suc i) b e =
    let q : suc (i + 1) ≡ suc i + 1 = omega arith in
    get-drop bs i b e ∙ ap (λ k. b ∷ drop k (x ∷ bs)) q

drop-none : (bs : List BootStage) (i : ℕ) → get_elem? bs i ≡ none → drop i bs ≡ []
drop-none [] zero e = refl
drop-none [] (suc i) e = refl
drop-none (x ∷ bs) zero e = absurd (cc)
drop-none (x ∷ bs) (suc i) e = drop-none bs i e

length-none : (bs : List BootStage) (i : ℕ) → get_elem? bs i ≡ none → length bs ≤ i
length-none [] i e = omega arith
length-none (x ∷ bs) zero e = absurd (cc)
length-none (x ∷ bs) (suc i) e = omega (arith, length-none bs i e)

length-some :
    (bs : List BootStage) (i : ℕ) (b : BootStage) → get_elem? bs i ≡ some b → i < length bs
length-some [] i b e = absurd (cc)
length-some (x ∷ bs) zero b e = omega arith
length-some (x ∷ bs) (suc i) b e = omega (arith, length-some bs i b e)

run_stages-some :
    (n : ℕ) (b : BootStage) (p : BootPipeline)
    → current_stage p ≡ some b
    → run_stages (suc n) p ≡ run_stages n (advanced b p)
unfolding run_stages
run_stages-some n b p e = rw (run_stages, e, run_next-advanced b p) refl

step-some :
    (b : BootStage) (p : BootPipeline)
    → current_stage p ≡ some b
    → step p ≡ (some (passed b), advanced b p)
unfolding step
step-some b p e = rw (step, e, run_next-advanced b p) refl

step-none : (p : BootPipeline) → current_stage p ≡ none → step p ≡ (none, p)
unfolding step
step-none p e = rw (step, e) refl

append_assoc {ℓ} : {A : Type ℓ} (xs ys zs : List A) → (xs ++ ys) ++ zs ≡ xs ++ (ys ++ zs)
append_assoc [] ys zs = refl
append_assoc (x ∷ xs) ys zs = ap (λ l. x ∷ l) (append_assoc xs ys zs)

append_nothing {ℓ} : {A : Type ℓ} (xs : List A) → xs ++ [] ≡ xs
append_nothing [] = refl
append_nothing (x ∷ xs) = ap (λ l. x ∷ l) (append_nothing xs)

-- Enough fuel: no stage is left, and each that was left has passed.
abbrev Completes : BootPipeline → Bool × BootPipeline → Type 0
Completes p (ok, q) =
    (ok ≡ true)
    × (current_stage q ≡ none)
    × (q.results ≡ p.results ++ map passed (drop p.stage_index stages))

Completes-none : (p : BootPipeline) → current_stage p ≡ none → Completes p (true, p)
unfolding current_stage
Completes-none p e = (
  refl,
  e,
  sym (
      ap (λ l. p.results ++ map passed l) (drop-none stages p.stage_index e)
      ∙ append_nothing p.results),
)

Completes-some :
    (b : BootStage) (p : BootPipeline) (x : Bool × BootPipeline)
    → current_stage p ≡ some b
    → Completes (advanced b p) x
    → Completes p x
unfolding current_stage
Completes-some b p x e (ok, done, all) = (
  ok,
  done,
  all
      ∙ append_assoc p.results (passed b ∷ []) (map passed (drop (p.stage_index + 1) stages))
      ∙ ap (λ l. p.results ++ map passed l) (sym (get-drop stages p.stage_index b e)),
)

run_stages-Completes :
    (n : ℕ) (p : BootPipeline) → length stages - p.stage_index ≤ n → Completes p (run_stages n p)
unfolding run_stages current_stage
run_stages-Completes zero p h = elim (Option-cases (current_stage p)) [
  | inl e ↦ Completes-none p e
  | inr (b, e) ↦ absurd (omega (arith, h, length-some stages p.stage_index b e))
]
run_stages-Completes (suc n) p h = elim (Option-cases (current_stage p)) [
  | inl e ↦ rw (run_stages, e) (Completes-none p e)
  | inr (b, e) ↦ rw (run_stages-some n b p e) (
      Completes-some b p (run_stages n (advanced b p)) e
        (run_stages-Completes n (advanced b p) (omega (arith, h))))
]

finish-Completes :
    (p : BootPipeline) (x : Bool × BootPipeline)
    → Completes p x
    → ((finish x).1.booted ≡ true) × Completes p (finish x)
unfolding current_stage
finish-Completes p (ok, q) (good, done, all) = rw good (refl, (refl, done, all))

-- Wherever a pipeline stands, `run_all` ends with success: no stage is left, the pipeline is
-- marked as booted, and to the results have been added those of the stages that were left, each
-- once, in their order and all successful.
pub run_all_lem :
    (p : BootPipeline)
    → ((run_all p).0 ≡ true)
      × ((run_all p).1.booted ≡ true)
      × (current_stage (run_all p).1 ≡ none)
      × ((run_all p).1.results ≡ p.results ++ map passed (drop p.stage_index stages))
unfolding run_all
run_all_lem p =
    let fuel = length stages - p.stage_index in
    let (booted, (ok, done, all)) =
      finish-Completes p (run_stages fuel p) (run_stages-Completes fuel p (omega arith)) in
    (ok, booted, done, all)

run_all-step : (p : BootPipeline) → run_all (step p).1 ≡ run_all p
unfolding run_all current_stage
run_all-step p = elim (Option-cases (current_stage p)) [
  | inl e ↦ ap (λ x. run_all x.1) (step-none p e)
  | inr (b, e) ↦
      let left = length stages - (p.stage_index + 1) in
      let q : length stages - p.stage_index ≡ suc left =
        omega (arith, length-some stages p.stage_index b e) in
      ap (λ x. run_all x.1) (step-some b p e)
      ∙ ap finish (sym (run_stages-some left b p e) ∙ ap (λ n. run_stages n p) (sym q))
]

-- Calls of `step`, one after the other.
abbrev pub steps : ℕ → BootPipeline → BootPipeline
steps zero p = p
steps (suc k) p = steps k (step p).1

booted-step : (p : BootPipeline) → (step p).1.booted ≡ p.booted
booted-step p = elim (Option-cases (current_stage p)) [
  | inl e ↦ ap (λ x. x.1.booted) (step-none p e)
  | inr (b, e) ↦ ap (λ x. x.1.booted) (step-some b p e)
]

stage_index-step :
    (p : BootPipeline)
    → length stages - (step p).1.stage_index ≤ (length stages - p.stage_index) - 1
unfolding current_stage
stage_index-step p = elim (Option-cases (current_stage p)) [
  | inl e ↦
      omega (arith, ap (λ x. x.1.stage_index) (step-none p e), length-none stages p.stage_index e)
  | inr (b, e) ↦ omega (arith, ap (λ x. x.1.stage_index) (step-some b p e))
]

-- However many calls of `step` come first, `run_all` then gives the same result and the same
-- pipeline as without them. Each of the calls takes one stage, as long as there are any, and none
-- of them marks the pipeline as booted, not even the one that runs the last stage.
pub run_all-steps :
    (k : ℕ) (p : BootPipeline)
    → (run_all (steps k p) ≡ run_all p)
      × ((steps k p).booted ≡ p.booted)
      × (length stages - (steps k p).stage_index ≤ (length stages - p.stage_index) - k)
run_all-steps zero p = (refl, refl, omega arith)
run_all-steps (suc k) p =
    let (same, flag, left) = run_all-steps k (step p).1 in
    (same ∙ run_all-step p, flag ∙ booted-step p, omega (arith, left, stage_index-step p))

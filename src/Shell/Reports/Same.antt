-- ===== src/Shell/Reports/Same.antt =====
-- Commands that show something change nothing.
use compute_kernel_python.Prelude.{ℕ, String, ◌≡◌, refl, List, [], ◌∷◌, Option-cases, inl, inr}
use compute_kernel_python.Prelude.Eq.{nat_eq}
use compute_kernel_python.Prelude.Dict.{Dict}
use compute_kernel_python.Text.{strip}
use compute_kernel_python.Text.Numbers.{ten, int_of}
use compute_kernel_python.Memory.Space.{AddressSpace}
use compute_kernel_python.Shell.Replies.{Session, machine_of}
use compute_kernel_python.Shell.Running.{on_parts-same}
use compute_kernel_python.Shell.Reports.{
  do_status, listing, do_ps, do_threads, do_sched, do_mem, vmm_for, do_vmm,
}

pub listing-same {ℓ} :
    {A : Type ℓ} (nothing : String) (headers : List String) (row : A → List String) (xs : List A)
    (s : Session)
    → (listing nothing headers row xs s).session ≡ s
listing-same nothing headers row [] s = refl
listing-same nothing headers row (x ∷ xs) s = refl

pub do_status-same : (arg : String) (s : Session) → (do_status arg s).session ≡ s
unfolding do_status
do_status-same arg s = on_parts-same _ _ s (λ parts. refl)

pub do_ps-same : (arg : String) (s : Session) → (do_ps arg s).session ≡ s
unfolding do_ps
do_ps-same arg s = on_parts-same _ _ s (λ parts. listing-same _ _ _ _ s)

pub do_threads-same : (arg : String) (s : Session) → (do_threads arg s).session ≡ s
unfolding do_threads
do_threads-same arg s = on_parts-same _ _ s (λ parts. listing-same _ _ _ _ s)

pub do_sched-same : (arg : String) (s : Session) → (do_sched arg s).session ≡ s
unfolding do_sched
do_sched-same arg s = on_parts-same _ _ s (λ parts. refl)

pub do_mem-same : (arg : String) (s : Session) → (do_mem arg s).session ≡ s
unfolding do_mem
do_mem-same arg s = on_parts-same _ _ s (λ parts. refl)

vmm_for-same : (t : String) (d : Dict ℕ AddressSpace) (s : Session) → (vmm_for t d s).session ≡ s
unfolding vmm_for
vmm_for-same String.[] d s = refl
vmm_for-same (String.◌∷◌ c t) d s = elim (Option-cases (int_of ten (String.◌∷◌ c t))) [
  | inl e ↦ rw (vmm_for, e) refl
  | inr (pid, e) ↦ rw (vmm_for, e) refl
]

pub do_vmm-same : (arg : String) (s : Session) → (do_vmm arg s).session ≡ s
unfolding do_vmm
do_vmm-same arg s =
    on_parts-same _ _ s (λ parts. vmm_for-same (strip arg) (machine_of parts).vmm.address_spaces s)

-- ===== src/Shell/Settings/Same.antt =====
-- Commands that show settings change nothing.
use compute_kernel_python.Prelude.{String, ◌≡◌, refl, Bool-cases, inl, inr}
use compute_kernel_python.Prelude.Eq.{string_eq}
use compute_kernel_python.Prelude.Dict.{has_key}
use compute_kernel_python.Text.{strip}
use compute_kernel_python.Shell.Replies.{Session}
use compute_kernel_python.Shell.Running.{on_parts-same}
use compute_kernel_python.Shell.Reports.Same.{listing-same}
use compute_kernel_python.Shell.Settings.{
  do_lsdev, do_lsdrv, do_lsmod, do_safemode, do_arch, profile_note, do_profile,
}

pub do_lsdev-same : (arg : String) (s : Session) → (do_lsdev arg s).session ≡ s
unfolding do_lsdev
do_lsdev-same arg s = on_parts-same _ _ s (λ parts. listing-same _ _ _ _ s)

pub do_lsdrv-same : (arg : String) (s : Session) → (do_lsdrv arg s).session ≡ s
unfolding do_lsdrv
do_lsdrv-same arg s = on_parts-same _ _ s (λ parts. listing-same _ _ _ _ s)

pub do_lsmod-same : (arg : String) (s : Session) → (do_lsmod arg s).session ≡ s
unfolding do_lsmod
do_lsmod-same arg s = on_parts-same _ _ s (λ parts. refl)

pub do_safemode-same : (arg : String) (s : Session) → (do_safemode arg s).session ≡ s
unfolding do_safemode
do_safemode-same arg s = on_parts-same _ _ s (λ parts. refl)

pub do_arch-same : (arg : String) (s : Session) → (do_arch arg s).session ≡ s
unfolding do_arch
do_arch-same arg s = on_parts-same _ _ s (λ parts. refl)

profile_note-same : (t : String) (s : Session) → (profile_note t s).session ≡ s
unfolding profile_note
profile_note-same String.[] s = refl
profile_note-same (String.◌∷◌ c t) s = elim (Bool-cases (has_key (String.◌∷◌ c t) s.profiles)) [
  | inl e ↦ rw (profile_note, e) refl
  | inr e ↦ rw (profile_note, e) refl
]

pub do_profile-same : (arg : String) (s : Session) → (do_profile arg s).session ≡ s
unfolding do_profile
do_profile-same arg s = profile_note-same (strip arg) s

-- ===== src/Shell/Actions/Answers.antt =====
-- What the commands that boot and signal answer while the kernel is up.
use compute_kernel_python.Prelude.{String, ◌≡◌, refl, ap, ◌∙◌, Bool, true, false}
use compute_kernel_python.Prelude.Eq.{string_eq}
use compute_kernel_python.Text.{strip, words}
use compute_kernel_python.Utils.{green, yellow}
use compute_kernel_python.KernelState.{boot_step}
use compute_kernel_python.KernelState.Up.{boot_step-IsUp}
use compute_kernel_python.Shell.Replies.{Session, says_text, on_found, first_or}
use compute_kernel_python.Shell.Running.{IsRunning}
use compute_kernel_python.Shell.Actions.{boot_unless, do_boot, stage_reply, do_step}

boot_unless-true :
    (b : Bool) (name : String) (s : Session)
    → b ≡ true
    → boot_unless b name s ≡ says_text (yellow "Kernel already booted. Use 'reboot' to restart.") s
unfolding boot_unless
boot_unless-true true name s e = refl
boot_unless-true false name s e = absurd (cc)

pub do_boot-refused :
    (arg : String) (s : Session)
    → IsRunning s
    → do_boot arg s ≡ says_text (yellow "Kernel already booted. Use 'reboot' to restart.") s
unfolding do_boot
do_boot-refused arg s h =
    boot_unless-true s.kernel.booted (first_or "debug" (words (strip arg))) s h.0

pub do_step-idle :
    (arg : String) (s : Session)
    → IsRunning s
    → do_step arg s ≡ says_text (green "All boot stages complete.") s
unfolding do_step stage_reply
do_step-idle arg s (up, (parts, e, sound)) =
    ap
      (on_found "Run 'boot' first, or use 'boot' which runs all stages."
        (λ p. stage_reply (boot_step s.kernel).0 (record s { kernel = (boot_step s.kernel).1 })) s)
      e
    ∙ ap (λ x. stage_reply x.0 (record s { kernel = x.1 }))
        (boot_step-IsUp s.kernel (up, (parts, e, sound)))

-- ===== src/Shell/Services/Answers.antt =====
-- What `signal` answers while the kernel is up.
use compute_kernel_python.Prelude.{String, ◌≡◌, sym, ap, ◌∙◌, some, List, ◌∷◌, ℤ}
use compute_kernel_python.Prelude.Eq.{string_eq}
use compute_kernel_python.Prelude.Dict.{get}
use compute_kernel_python.Paths.{◌<>◌}
use compute_kernel_python.Text.{strip, words, upper}
use compute_kernel_python.Text.Numbers.{ten, int_of, show_ℤ}
use compute_kernel_python.Utils.{red}
use compute_kernel_python.Ipc.{Signal}
use compute_kernel_python.KernelState.{Subsystems}
use compute_kernel_python.Shell.Replies.{Session, says_text, on_found, with_parts, verdict}
use compute_kernel_python.Shell.Running.{IsRunning}
use compute_kernel_python.Shell.Services.{
  full_name, signal_names, signal_reply, signal_words, do_signal,
}
use compute_kernel_python.Shell.Services.Running.{send_to-none}

with_same :
    (parts : Subsystems) (s : Session) → s.kernel.subsystems ≡ some parts → with_parts parts s ≡ s
with_same parts s e = ap (λ x. record s { kernel = record s.kernel { subsystems = x } }) (sym e)

pub do_signal-refused :
    (arg pid given : String) (rest : List String) (p : ℤ) (sig : Signal) (s : Session)
    → IsRunning s
    → words (strip arg) ≡ pid ∷ given ∷ rest
    → int_of ten pid ≡ some p
    → get (full_name (upper given)) signal_names ≡ some sig
    → do_signal arg s ≡ says_text (red ("Failed to send signal to pid=" <> show_ℤ p)) s
unfolding do_signal signal_words signal_reply
do_signal-refused arg pid given rest p sig s (up, (parts, e, sound)) ws number named =
    let name = full_name (upper given) in
    ap (λ l. signal_words l s) ws
    ∙ ap
        (on_found "IPC not initialized."
          (λ x. signal_reply (int_of ten pid) given (get name signal_names) name x s) s)
        e
    ∙ ap (λ o. signal_reply o given (get name signal_names) name parts s) number
    ∙ ap (λ o. signal_reply (some p) given o name parts s) named
    ∙ ap
        (λ x.
          verdict x.0 ("Signal " <> (name <> (" sent to pid=" <> show_ℤ p)))
            ("Failed to send signal to pid=" <> show_ℤ p)
            (with_parts (record parts { ipc = x.1 }) s))
        (send_to-none p sig parts.ipc sound.no_tables)
    ∙ ap (says_text (red ("Failed to send signal to pid=" <> show_ℤ p))) (with_same parts s e)

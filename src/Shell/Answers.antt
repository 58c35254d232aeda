-- ===== src/Shell/Answers.antt =====
-- What commands answer in any run of the shell.
use compute_kernel_python.Prelude.{String, ◌≡◌, some, List, ◌∷◌, ℤ}
use compute_kernel_python.Prelude.Eq.{string_eq}
use compute_kernel_python.Prelude.Dict.{get}
use compute_kernel_python.Paths.{◌<>◌}
use compute_kernel_python.Text.{strip, words, upper}
use compute_kernel_python.Text.Numbers.{ten, int_of, show_ℤ}
use compute_kernel_python.Utils.{green, red, yellow}
use compute_kernel_python.Ipc.{Signal}
use compute_kernel_python.Prelude.{Bool}
use compute_kernel_python.Shell.Replies.{Session, says_text}
use compute_kernel_python.Shell.Actions.{do_boot, do_step}
use compute_kernel_python.Shell.Services.{do_signal, full_name, signal_names}
use compute_kernel_python.Shell.Actions.Answers.{do_boot-refused, do_step-idle}
use compute_kernel_python.Shell.Services.Answers.{do_signal-refused}
use compute_kernel_python.Shell.{cmdloop, session_of}
use compute_kernel_python.Shell.Runs.{cmdloop-IsRunning_start}

module _ (name : String) (quiet : Bool) (lines : List String) where
  abbrev pub after_lines : Session
  after_lines = (cmdloop lines (session_of name quiet)).last

  -- However the shell is started, and whatever lines are typed first: `boot` refuses with its line
  -- that the kernel is booted already, `step` says that all stages are complete, and neither
  -- changes the session.
  pub boot_and_step_lem :
      (arg : String)
      → (do_boot arg after_lines
          ≡ says_text (yellow "Kernel already booted. Use 'reboot' to restart.") after_lines)
        × (do_step arg after_lines ≡ says_text (green "All boot stages complete.") after_lines)
  boot_and_step_lem arg =
      let h = cmdloop-IsRunning_start name quiet lines in
      (do_boot-refused arg after_lines h, do_step-idle arg after_lines h)

  -- However the shell is started, and whatever lines are typed first: `signal` with a number and the
  -- name of a signal, with or without `SIG` and in letters of either case, says that it failed, and
  -- changes nothing, whether there is such a process or not.
  pub signal_refused :
      (arg pid given : String) (rest : List String) (p : ℤ) (sig : Signal)
      → words (strip arg) ≡ pid ∷ given ∷ rest
      → int_of ten pid ≡ some p
      → get (full_name (upper given)) signal_names ≡ some sig
      → do_signal arg after_lines
        ≡ says_text (red ("Failed to send signal to pid=" <> show_ℤ p)) after_lines
  signal_refused arg pid given rest p sig =
      do_signal-refused arg pid given rest p sig after_lines
        (cmdloop-IsRunning_start name quiet lines)

-- ===== src/Tests/Shell.antt =====
-- The shell and its formatting helpers on concrete input.
use compute_kernel_python.Prelude.{
  ℕ, ◌+◌, ◌↔◌, String, ◌≡◌, refl, true, false, none, some, List, [], ◌∷◌, pos, length, All,
}
use compute_kernel_python.Prelude.Eq.{string_eq}
use compute_kernel_python.Prelude.Dict.{get}
use compute_kernel_python.Paths.{◌<>◌}
use compute_kernel_python.Text.{strip, words, upper, lower}
use compute_kernel_python.Text.Numbers.{sixteen, int_of, read_nat, read_digits, digit_of, show_ℤ}
use compute_kernel_python.Utils.{hex_addr, hex_short, table_lines, red, yellow, green}
use compute_kernel_python.Utils.Sizes.{int_of-hex_addr}
use compute_kernel_python.Utils.Tables.{OfLength, table_lines_lem}
use mathlib.Core.List.{Memᴰ}
use compute_kernel_python.Prelude.Dict.{Dict}
use compute_kernel_python.Teaching.{search}
use compute_kernel_python.Teaching.Search.{IsMentioned, search_iff}
use compute_kernel_python.Ipc.{sigterm}
use compute_kernel_python.Shell.{cmdloop, session_of, exited, parse_line}
use compute_kernel_python.Shell.Replies.{says_text}
use compute_kernel_python.Shell.Actions.{do_boot, do_step}
use compute_kernel_python.Shell.Services.{do_signal}
use compute_kernel_python.Shell.Running.{IsRunning}
use compute_kernel_python.Shell.Endings.{cmdloop_exits}
use compute_kernel_python.Shell.Runs.{cmdloop-IsRunning_start}
use compute_kernel_python.Shell.Answers.{boot_and_step_lem, signal_refused, after_lines}

int_of-hex_addr_example :
    (int_of sixteen (hex_addr (pos 18446603336221196288)) ≡ some (pos 18446603336221196288))
    × (int_of sixteen (hex_short (pos 18446603336221196288)) ≡ some (pos 18446603336221196288))
int_of-hex_addr_example = int_of-hex_addr 18446603336221196288

abbrev headers : List String
headers = "PID" ∷ "Name" ∷ []

abbrev rows : List (List String)
rows = ("1" ∷ "init" ∷ []) ∷ ("17" ∷ "kworker/0" ∷ []) ∷ []

table_lines_lem_example :
    (n : ℕ) × (ls : List String) × (table_lines headers rows none ≡ some ls)
    × (length ls ≡ length rows + 4)
    × All (OfLength n) ls
table_lines_lem_example = table_lines_lem headers rows (refl, (refl, tt))

abbrev typed : List String
typed = "syscall 1 57" ∷ "tick 3" ∷ "" ∷ []

cmdloop-IsRunning_start_example : IsRunning (cmdloop typed (session_of "release" false)).last
cmdloop-IsRunning_start_example = cmdloop-IsRunning_start "release" false typed

boot_and_step_lem_example :
    (do_boot "safe-mode" (after_lines "debug" true typed)
      ≡ says_text
          (yellow "Kernel already booted. Use 'reboot' to restart.")
          (after_lines "debug" true typed))
    × (do_step "safe-mode" (after_lines "debug" true typed)
        ≡ says_text (green "All boot stages complete.") (after_lines "debug" true typed))
boot_and_step_lem_example = boot_and_step_lem "debug" true typed "safe-mode"

signal_refused_example :
    do_signal "1 term" (after_lines "debug" true typed)
    ≡ says_text
        (red ("Failed to send signal to pid=" <> show_ℤ (pos 1)))
        (after_lines "debug" true typed)
unfolding words strip int_of get upper read_nat read_digits digit_of
signal_refused_example =
    signal_refused "debug" true typed "1 term" "1" "term" [] (pos 1) sigterm refl refl refl

abbrev lessons : Dict String String
lessons = ("scheduler", "A run queue and a time slice.") ∷ ("vfs", "A path is walked.") ∷ []

search_finds : search lessons "QUEUE" ≡ "scheduler" ∷ []
unfolding search lower
search_finds = refl

search_iff_example : Memᴰ "scheduler" (search lessons "QUEUE") ↔ (
    (text : String) × Memᴰ ("scheduler", text) lessons
    × IsMentioned (lower "QUEUE") "scheduler" text)
search_iff_example = search_iff lessons "QUEUE" "scheduler"

abbrev harmless : List String
harmless = "vfs write /tmp/a hello" ∷ "!ls" ∷ "tick many" ∷ "pipe" ∷ []

cmdloop_exits_example : (cmdloop harmless (session_of "safe_mode" true)).ending ≡ exited
unfolding parse_line strip
cmdloop_exits_example =
    cmdloop_exits harmless (session_of "safe_mode" true) (refl, (refl, (refl, (refl, tt))))

-- ===== src/Shell/Services.antt =====
-- The commands of computekernel_edu/shell.py that act on modules, signals, power, programs or pipes.
pub mod Running
pub mod Answers
use compute_kernel_python.Prelude.{
  ℕ, zero, suc, ◌+◌, ◌<◌, String, Bool, true, false, ◌||◌, Option, none, some, List, [], ◌∷◌, ℤ,
  pos, negsuc, map, length, ◌++◌, if◌then◌else◌,
}
use compute_kernel_python.Prelude.Eq.{◌==◌, nat_eq, string_eq}
use compute_kernel_python.Prelude.Dict.{Dict, get, values}
use compute_kernel_python.Paths.{◌<>◌, is_empty, starts_with}
use compute_kernel_python.Text.{strip, words, lower, upper, or_text}
use compute_kernel_python.Text.Numbers.{ten, sixteen, int_of, show, show_ℤ, digits, pad_zeros}
use compute_kernel_python.Utils.{green, red, yellow, bold, hex_addr, size_fmt}
use compute_kernel_python.Memory.Vmm.{
  Vmm, Fault, unhandled, no_area, protection, satisfied, simulate_page_fault,
}
use compute_kernel_python.Process.{Process}
use compute_kernel_python.Scheduler.{Scheduler, tick_n}
use compute_kernel_python.Modules.{ModuleLoader, load, unload}
use compute_kernel_python.Ipc
use compute_kernel_python.Ipc.{
  Signal, sighup, sigterm, sigkill, sigchld, sigusr1, sigusr2, sigsegv, sigint, sigstop, IpcManager,
  Pipe, create_pipe, on_pipe, send_signal,
}
use compute_kernel_python.Power
use compute_kernel_python.Power.{PowerState, PowerManager}
use compute_kernel_python.Elf
use compute_kernel_python.Elf.{FakeElf, ElfSegment, make_simple}
use compute_kernel_python.Boot.{BootStageResult}
use compute_kernel_python.Boot.Stages.{Machine, encoded}
use compute_kernel_python.KernelState.{Subsystems, KernelState, new_kernel, init, boot, boot_step}
use compute_kernel_python.Shell.Actions.{do_reboot}
use compute_kernel_python.Shell.Replies.{
  Printed, text, grid, content, stage_line, Session, Reply, says, says_text, on_parts, machine_of,
  with_parts, with_machine, verdict, profile_in, first_or,
}

-- `insmod` and `rmmod`, by what they do to the loader.
abbrev on_modules :
    String → String → String → String → (ModuleLoader → Bool × ModuleLoader) → Session → Reply
on_modules usage name good bad f s =
    if is_empty name
    then says_text usage s
    else on_parts "Module loader not initialized."
        (λ parts.
          let (ok, loader) = f parts.module_loader in
          verdict ok ("Module '" <> (name <> good)) (bad <> (name <> "'."))
            (with_parts (record parts { module_loader = loader }) s))
        s

unfoldable pub do_insmod : String → Session → Reply
do_insmod arg s =
    let name = strip arg in
    on_modules "Usage: insmod <name>" name "' loaded." "Failed to load module '" (load name) s

unfoldable pub do_rmmod : String → Session → Reply
do_rmmod arg s =
    let name = strip arg in
    on_modules "Usage: rmmod <name>" name "' unloaded." "Failed to unload module '" (unload name) s

abbrev pub signal_names : Dict String Signal
signal_names =
    ("SIGHUP", sighup)
    ∷ ("SIGTERM", sigterm)
    ∷ ("SIGKILL", sigkill)
    ∷ ("SIGCHLD", sigchld)
    ∷ ("SIGUSR1", sigusr1)
    ∷ ("SIGUSR2", sigusr2)
    ∷ ("SIGSEGV", sigsegv)
    ∷ ("SIGINT", sigint)
    ∷ ("SIGSTOP", sigstop)
    ∷ []

abbrev pub full_name : String → String
full_name name = if starts_with name "SIG" then name else "SIG" <> name

-- No process has a signal table at a negative PID.
abbrev pub send_to : ℤ → Signal → IpcManager → Bool × IpcManager
send_to (pos pid) sig m = send_signal pid sig m
send_to (negsuc pid) sig m = (false, m)

signal_reply : Option ℤ → String → Option Signal → String → Subsystems → Session → Reply
signal_reply none given sig name parts s = says_text "pid must be an integer" s
signal_reply (some pid) given none name parts s = says_text ("Unknown signal: " <> given) s
signal_reply (some pid) given (some sig) name parts s =
    let (ok, ipc) = send_to pid sig parts.ipc in
    verdict ok ("Signal " <> (name <> (" sent to pid=" <> show_ℤ pid)))
      ("Failed to send signal to pid=" <> show_ℤ pid) (with_parts (record parts { ipc = ipc }) s)

signal_words : List String → Session → Reply
unfolding signal_reply
signal_words (pid ∷ given ∷ rest) s =
    let name = full_name (upper given) in
    on_parts "IPC not initialized."
      (λ parts. signal_reply (int_of ten pid) given (get name signal_names) name parts s) s
signal_words _ s = says_text "Usage: signal <pid> <signame>" s

unfoldable pub do_signal : String → Session → Reply
unfolding signal_words
do_signal arg s = signal_words (words (strip arg)) s

abbrev pub power_label : PowerState → String
power_label Power.running = "S0"
power_label Power.suspended = "S3"
power_label Power.hibernated = "S4"
power_label Power.off = "S5"
power_label Power.rebooting = "REBOOT"

abbrev pub power_name : PowerState → String
power_name Power.running = "RUNNING"
power_name Power.suspended = "SUSPEND"
power_name Power.hibernated = "HIBERNATE"
power_name Power.off = "SHUTDOWN"
power_name Power.rebooting = "REBOOT"

abbrev power_to : (PowerManager → PowerManager) → String → Subsystems → Session → Reply
power_to f line parts s = says_text line (with_parts (record parts { power = f parts.power }) s)

power_words : String → Subsystems → Session → Reply
power_words name parts s =
    if name == "shutdown"
    then power_to Power.shutdown
        (yellow "System shutting down (simulated). Type 'reboot' to restart.") parts s
    else if name == "suspend"
    then power_to Power.suspend (yellow "System suspended (S3). Type 'power resume' to wake.") parts
        s
    else if name == "resume"
    then power_to Power.resume (green "System resumed.") parts s
    else if name == "reboot"
    then do_reboot "" s
    else if name == "status"
    then says
        (text (
            "  Power state: "
            <> (power_label parts.power.state <> (" (" <> (power_name parts.power.state <> ")"))))
          ∷ text ("  Transitions: " <> show (length parts.power.transitions))
          ∷ [])
        s
    else says_text "Usage: power <shutdown|suspend|resume|reboot|status>" s

unfoldable pub do_power : String → Session → Reply
unfolding power_words
do_power arg s =
    on_parts "Power manager not initialized." (λ parts. power_words (lower (strip arg)) parts s) s

abbrev pub last_process : List Process → Option Process
last_process [] = none
last_process (p ∷ []) = some p
last_process (p ∷ q ∷ ps) = last_process (q ∷ ps)

abbrev segment_row : ElfSegment → List String
segment_row s = s.seg_type ∷ hex_addr (pos s.vaddr) ∷ size_fmt s.size ∷ s.flags ∷ s.name ∷ []

abbrev elf_lines : FakeElf → List Printed
elf_lines elf =
    text (bold ("ELF binary: '" <> (elf.name <> "' (simulated)")))
    ∷ text ("  Architecture: " <> elf.arch)
    ∷ text ("  Entry point:  0x" <> pad_zeros 16 (digits sixteen elf.entry_point))
    ∷ text ("  Interpreter:  " <> elf.interpreter)
    ∷ text ""
    ∷ grid ("TYPE" ∷ "VADDR" ∷ "SIZE" ∷ "FLAGS" ∷ "NAME" ∷ []) (map segment_row elf.segments)
    ∷ []

-- The line for an entry above 0.
abbrev loaded_line : ℕ → ℤ → List Printed
loaded_line pid (negsuc e) = []
loaded_line pid (pos zero) = []
loaded_line pid (pos (suc e)) =
    text (
      green (
        "\nELF loaded for pid="
        <> (show pid <> (", entry=0x" <> pad_zeros 16 (digits sixteen (suc e))))))
    ∷ []

load_for : FakeElf → Option Process → Subsystems → Session → Reply
load_for elf none parts s = says (elf_lines elf) s
load_for elf (some p) parts s =
    let m = machine_of parts in
    let (entry, vmm) = Elf.load elf p.pid m.vmm in
    says (elf_lines elf ++ loaded_line p.pid entry)
      (with_parts (with_machine (record m { vmm = vmm }) parts) s)

unfoldable pub do_elf : String → Session → Reply
unfolding load_for
do_elf arg s =
    let elf = make_simple (or_text (strip arg) "hello") 0x400000 in
    elim s.kernel.subsystems [
      | none ↦ says (elf_lines elf) s
      | some parts ↦ load_for elf (last_process (values (machine_of parts).processes.table)) parts s
    ]

abbrev message : List ℕ
message = encoded "Hello from the write end of the pipe!\n"

abbrev count_of : ℤ → ℕ
count_of (pos n) = n
count_of (negsuc n) = 0

-- The pipe that was made is written and read through the object that its descriptors lead to.
abbrev pub run_pipe : IpcManager → (ℤ × List ℕ × Pipe) × IpcManager
run_pipe ipc =
    let (pipe, made) = create_pipe ipc in
    let (n, written) = Ipc.write message pipe in
    let (taken, left) = Ipc.read (count_of n) written in
    ((n, taken, left), on_pipe pipe.read_fd (λ p. left) made)

pipe_reply : Subsystems → Session → Reply
pipe_reply parts s =
    let ((n, taken, left), ipc) = run_pipe parts.ipc in
    says
      (text
          ("Pipe created: read_fd=" <> (show left.read_fd <> (" write_fd=" <> show left.write_fd)))
        ∷ text ("Wrote " <> (show_ℤ n <> " bytes to pipe"))
        ∷ text "Read from pipe: "
        ∷ content taken
        ∷ text ("Pipe buffer available: " <> (show (Ipc.available left) <> " bytes"))
        ∷ [])
      (with_parts (record parts { ipc = ipc }) s)

unfoldable pub do_pipe : String → Session → Reply
unfolding pipe_reply
do_pipe arg s = on_parts "IPC not initialized." (λ parts. pipe_reply parts s) s

-- ===== src/Shell/Actions.antt =====
-- The commands of computekernel_edu/shell.py that boot the kernel, tick or touch a page.
pub mod Running
pub mod Answers
use compute_kernel_python.Prelude.{
  ℕ, zero, suc, ◌+◌, ◌<◌, String, Bool, true, false, ◌||◌, Option, none, some, List, [], ◌∷◌, ℤ,
  pos, negsuc, map, length, ◌++◌, if◌then◌else◌,
}
use compute_kernel_python.Prelude.Eq.{◌==◌, nat_eq, string_eq}
use compute_kernel_python.Prelude.Dict.{Dict, get, values}
use compute_kernel_python.Paths.{◌<>◌, is_empty, starts_with}
use compute_kernel_python.Text.{strip, words, lower, upper, or_text}
use compute_kernel_python.Text.Numbers.{ten, sixteen, int_of, show, show_ℤ, digits, pad_zeros}
use compute_kernel_python.Utils.{green, red, yellow, bold, hex_addr, size_fmt}
use compute_kernel_python.Memory.Vmm.{
  Vmm, Fault, unhandled, no_area, protection, satisfied, simulate_page_fault,
}
use compute_kernel_python.Process.{Process}
use compute_kernel_python.Scheduler.{Scheduler, tick_n}
use compute_kernel_python.Modules.{ModuleLoader, load, unload}
use compute_kernel_python.Ipc
use compute_kernel_python.Ipc.{
  Signal, sighup, sigterm, sigkill, sigchld, sigusr1, sigusr2, sigsegv, sigint, sigstop, IpcManager,
  Pipe, create_pipe, on_pipe, send_signal,
}
use compute_kernel_python.Power
use compute_kernel_python.Power.{PowerState, PowerManager}
use compute_kernel_python.Elf
use compute_kernel_python.Elf.{FakeElf, ElfSegment, make_simple}
use compute_kernel_python.Boot.{BootStageResult}
use compute_kernel_python.Boot.Stages.{Machine, encoded}
use compute_kernel_python.KernelState.{Subsystems, KernelState, new_kernel, init, boot, boot_step}
use compute_kernel_python.Shell.Replies.{
  Printed, text, grid, content, stage_line, Session, Reply, says, says_text, on_parts, machine_of,
  with_parts, with_machine, verdict, profile_in, first_or,
}

-- `kernel.init(profile)` and `kernel.boot()`.
abbrev pub booted_with : String → KernelState → Session → Bool × Session
booted_with name k s =
    let (ok, k') = boot (init (some (profile_in name s.profiles)) k) in
    (ok, record s { kernel = k' })

boot_unless : Bool → String → Session → Reply
boot_unless true name s = says_text (yellow "Kernel already booted. Use 'reboot' to restart.") s
boot_unless false name s =
    let (ok, s') = booted_with name s.kernel s in
    says
      (text (bold ("\n[BOOT] Starting boot sequence with profile '" <> (name <> "'...")))
        ∷ text (if ok then green "\n[BOOT] Boot complete!" else red "\n[BOOT] Boot FAILED!")
        ∷ [])
      s'

unfoldable pub do_boot : String → Session → Reply
unfolding boot_unless
do_boot arg s = boot_unless s.kernel.booted (first_or "debug" (words (strip arg))) s

-- The power manager that `reboot` tells goes with the parts that are replaced.
unfoldable pub do_reboot : String → Session → Reply
do_reboot arg s =
    let name = first_or s.kernel.profile.name (words (strip arg)) in
    says (text (yellow "Simulating reboot...") ∷ text (green "Reboot complete.") ∷ [])
      (booted_with name new_kernel s).1

stage_reply : Option BootStageResult → Session → Reply
stage_reply none s = says_text (green "All boot stages complete.") s
stage_reply (some r) s = says (stage_line r ∷ []) s

unfoldable pub do_step : String → Session → Reply
unfolding stage_reply
do_step arg s =
    on_parts "Run 'boot' first, or use 'boot' which runs all stages."
      (λ parts. let (r, k) = boot_step s.kernel in stage_reply r (record s { kernel = k })) s

-- `range(n)` is empty for a negative number.
abbrev pub ticks : ℤ → ℕ
ticks (pos n) = n
ticks (negsuc n) = 0

abbrev pub thread_line : Scheduler → String
thread_line s = elim s.current_thread [
  | none ↦ "idle"
  | some r ↦ (s.objects r).name <> ("(tid=" <> (show (s.objects r).tid <> ")"))
]

abbrev int_or_one : String → Option ℤ
int_or_one String.[] = some (pos 1)
int_or_one (String.◌∷◌ c s) = int_of ten (String.◌∷◌ c s)

tick_by : Option ℤ → Subsystems → Session → Reply
tick_by none parts s = says_text "Usage: tick [N]" s
tick_by (some n) parts s =
    let m = machine_of parts in
    let scheduler = tick_n (ticks n) m.scheduler in
    says
      (text ("Advanced " <> (show_ℤ n <> (" tick(s). Total ticks: " <> show scheduler.tick_count)))
        ∷ text ("  Current: " <> thread_line scheduler)
        ∷ [])
      (with_parts (with_machine (record m { scheduler = scheduler }) parts) s)

unfoldable pub do_tick : String → Session → Reply
unfolding tick_by
do_tick arg s =
    on_parts "Scheduler not initialized." (λ parts. tick_by (int_or_one (strip arg)) parts s) s

fault_line : ℤ → ℤ → Fault → String
fault_line pid addr unhandled = "#PF: pid=" <> (show_ℤ pid <> " not found -> unhandled fault")
fault_line pid addr no_area =
    "#PF: pid="
    <> (show_ℤ pid
        <> (" addr="
            <> (hex_addr addr <> " -> no VMA found -> would deliver SIGSEGV (segmentation fault)")))
fault_line pid addr (protection a) =
    "#PF: pid="
    <> (show_ℤ pid
        <> (" addr="
            <> (hex_addr addr
                <> (" write to read-only VMA '"
                    <> (a.name <> "' -> protection fault -> SIGSEGV")))))
fault_line pid addr (satisfied a) =
    "#PF: pid="
    <> (show_ℤ pid
        <> (" addr="
            <> (hex_addr addr
                <> (" in VMA '"
                    <> (a.name
                        <> ("' flags="
                            <> (a.flags <> " -> demand page satisfied (simulated alloc)")))))))

-- A process has no negative PID, and an area no negative address.
fault_at : ℤ → ℤ → Bool → Vmm → Fault
fault_at (negsuc p) addr write s = unhandled
fault_at (pos p) (pos a) write s = simulate_page_fault p a write s
fault_at (pos p) (negsuc a) write s = elim (get p s.address_spaces) [
  | none ↦ unhandled
  | some x ↦ no_area
]

abbrev is_write : List String → Bool
is_write [] = false
is_write (w ∷ ws) = let l = lower w in l == "write" || l == "w" || l == "1" || l == "true"

fault_reply : Option ℤ → Option ℤ → Bool → Subsystems → Session → Reply
unfolding fault_line fault_at
fault_reply (some pid) (some addr) write parts s =
    says_text (fault_line pid addr (fault_at pid addr write (machine_of parts).vmm)) s
fault_reply (some pid) none write parts s = says_text "Usage: pagefault <pid> <addr_hex> [write]" s
fault_reply none addr write parts s = says_text "Usage: pagefault <pid> <addr_hex> [write]" s

fault_words : List String → Session → Reply
unfolding fault_reply
fault_words (pid ∷ addr ∷ rest) s =
    on_parts "VMM not initialized."
      (λ parts. fault_reply (int_of ten pid) (int_of sixteen addr) (is_write rest) parts s) s
fault_words _ s = says_text "Usage: pagefault <pid> <addr_hex> [write]" s

unfoldable pub do_pagefault : String → Session → Reply
unfolding fault_words
do_pagefault arg s = fault_words (words (strip arg)) s

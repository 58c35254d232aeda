-- ===== src/Shell/Calls.antt =====
-- The command `syscall` of computekernel_edu/shell.py. It hands the words of its line on as texts, so
-- this is what the handlers of computekernel_edu/syscall.py do with texts for arguments: a text is
-- never equal to a number, and a comparison by order, a sum or an argument that is missing raises
-- a `TypeError`.
pub mod Kept
pub mod Running
use Prim.Native.Char.{code}
use compute_kernel_python.Prelude.{
  ℕ, zero, suc, ◌+◌, ◌*◌, String, Bool, true, false, Option, none, some, List, [], ◌∷◌, ℤ, pos,
  negsuc, is_negative, get_elem?, if◌then◌else◌,
}
use compute_kernel_python.Prelude.Eq.{◌==◌, nat_eq}
use compute_kernel_python.Prelude.Dict.{get, has_key}
use compute_kernel_python.Paths.{◌<>◌}
use compute_kernel_python.Text.{strip, words}
use compute_kernel_python.Text.Numbers.{ten, int_of, show_ℤ}
use compute_kernel_python.Utils.{green, red}
use compute_kernel_python.Memory.Pmm.{alloc_pages}
use compute_kernel_python.Memory.Vmm.{Vmm, pages_needed}
use compute_kernel_python.Tmpfs.{Tmpfs, tmpfs}
use compute_kernel_python.Vfs.{bad_descriptor}
use compute_kernel_python.Syscall.{
  Kernel, invalid, no_process, no_memory, current_break, with_process, die, sys_mmap, sys_nanosleep,
  sys_getpid, sys_fork, sys_execve, sys_exit, sys_wait4, sys_kill,
}
use compute_kernel_python.Syscall.Dispatch
use compute_kernel_python.Syscall.Dispatch.{
  Dispatcher, Syscall, read, write, openat, close, mmap, munmap, brk, nanosleep, getpid, fork,
  execve, exit, wait4, kill, table, not_implemented, on_kernel, sys_openat,
}
use compute_kernel_python.Boot.Stages.{Machine}
use compute_kernel_python.KernelState.{Subsystems}
use compute_kernel_python.Shell.Replies.{
  Session, Reply, says_text, on_parts, machine_of, with_parts, with_machine,
}

abbrev pub Result : Type 0
Result = Option (ℤ × Dispatcher Tmpfs)

abbrev is_process : ℕ → Dispatcher Tmpfs → Bool
is_process pid s = has_key pid s.kernel.processes.table

-- A descriptor that is a text is in no table. Writing to the text "1" is not writing to 1.
unfoldable pub on_descriptor : ℕ → List String → Dispatcher Tmpfs → Result
on_descriptor pid [] s = none
on_descriptor pid (fd ∷ args) s = some (if is_process pid s then bad_descriptor else invalid, s)

-- `as_.map` adds the size to the address after the pages were taken; without a page it is not called.
abbrev is_nil {ℓ} : {A : Type ℓ} → List A → Bool
is_nil [] = true
is_nil (x ∷ xs) = false

map_at_text : ℕ → Dispatcher Tmpfs → Result
map_at_text pid s = elim (get pid s.kernel.vmm.address_spaces) [
  | none ↦ some (no_memory, s)
  | some space ↦
      let (taken, pmm) = alloc_pages (pages_needed 4096) pid s.kernel.vmm.pmm in
      if is_nil taken
      then some (
        no_memory,
        record s { kernel = record s.kernel { vmm = record s.kernel.vmm { pmm = pmm } } },
      )
      else none
]

mmap_text : ℕ → List String → Dispatcher Tmpfs → Result
unfolding map_at_text
mmap_text pid [] s = on_kernel tmpfs (sys_mmap pid 0 (pos 4096) "rw-" "[mmap]") s
mmap_text pid (addr ∷ []) s = if is_process pid s then map_at_text pid s else some (invalid, s)
mmap_text pid (addr ∷ size ∷ args) s = none

-- No area begins at a text.
munmap_text : List String → Dispatcher Tmpfs → Result
munmap_text args s = some (invalid, s)

brk_text : ℕ → List String → Dispatcher Tmpfs → Result
brk_text pid [] s = some (pos (current_break pid s.kernel), s)
brk_text pid (new_brk ∷ args) s = none

abbrev pub word_or : String → Option String → String
word_or default none = default
word_or default (some w) = w

-- An exit code is only logged; one that is a text is kept as a number made of its characters.
abbrev text_code : String → ℕ
text_code String.[] = 0
text_code (String.◌∷◌ c s) = suc (code c) + 0x110001 * text_code s

exit_text : ℕ → List String → Dispatcher Tmpfs → Result
exit_text pid [] s = on_kernel tmpfs (sys_exit pid (pos 0)) s
exit_text pid (exit_code ∷ args) s = on_kernel tmpfs (sys_exit pid (pos (text_code exit_code))) s

-- No process has a text for its PID.
kill_text : ℕ → List String → Dispatcher Tmpfs → Result
kill_text pid [] s = on_kernel tmpfs (sys_kill pid 0 15) s
kill_text pid (target ∷ args) s = some (no_process, s)

-- `none` is an exception.
unfoldable pub handle_text : Syscall → ℕ → List String → Dispatcher Tmpfs → Result
unfolding mmap_text munmap_text brk_text exit_text kill_text
handle_text read pid args s = on_descriptor pid args s
handle_text write pid args s = on_descriptor pid args s
handle_text openat pid args s =
    sys_openat tmpfs pid (word_or "" (get_elem? args 1)) (word_or "r" (get_elem? args 2)) s
handle_text close pid args s = on_descriptor pid args s
handle_text mmap pid args s = mmap_text pid args s
handle_text munmap pid args s = munmap_text args s
handle_text brk pid args s = brk_text pid args s
handle_text nanosleep pid args s = on_kernel tmpfs (sys_nanosleep pid 0 0) s
handle_text getpid pid args s = on_kernel tmpfs (sys_getpid pid) s
handle_text fork pid args s = on_kernel tmpfs (sys_fork pid) s
handle_text execve pid args s = on_kernel tmpfs (sys_execve pid (word_or "" (get_elem? args 0))) s
handle_text exit pid args s = exit_text pid args s
handle_text wait4 pid args s = on_kernel tmpfs (sys_wait4 pid) s
handle_text kill pid args s = kill_text pid args s

-- A negative PID is no process, and has no program break.
unfoldable pub handle_stranger : Syscall → ℕ → List String → Dispatcher Tmpfs → Result
unfolding kill_text
handle_stranger read n [] s = none
handle_stranger write n [] s = none
handle_stranger close n [] s = none
handle_stranger mmap n (addr ∷ size ∷ args) s = none
handle_stranger brk n [] s = some (pos 0x601000, s)
handle_stranger brk n (new_brk ∷ args) s = none
handle_stranger nanosleep n args s = some (pos 0, s)
handle_stranger getpid n args s = some (negsuc n, s)
handle_stranger kill n args s = kill_text n args s
handle_stranger _ n args s = some (invalid, s)

dispatch_found : Option Syscall → ℤ → List String → Dispatcher Tmpfs → Result
dispatch_found none pid args s = some (not_implemented, s)
dispatch_found (some call) (pos pid) args s = handle_text call pid args s
dispatch_found (some call) (negsuc n) args s = handle_stranger call n args s

abbrev call_named : ℤ → Option Syscall
call_named (pos nr) = get nr table
call_named (negsuc n) = none

unfoldable pub dispatch_text : ℤ → ℤ → List String → Dispatcher Tmpfs → Result
unfolding dispatch_found
dispatch_text pid nr args s = dispatch_found (call_named nr) pid args s

-- The dispatcher that the command makes has no program breaks yet.
abbrev pub dispatcher_of : Subsystems → Dispatcher Tmpfs
dispatcher_of parts =
    let m = machine_of parts in
    record { kernel = record { processes = m.processes; vmm = m.vmm; breaks = [] }; vfs = m.vfs }

abbrev pub with_dispatcher : Dispatcher Tmpfs → Subsystems → Session → Session
with_dispatcher d parts s =
    let m = record (machine_of parts) {
      processes = d.kernel.processes;
      vmm = d.kernel.vmm;
      vfs = d.vfs;
    } in
    with_parts (with_machine m parts) s

abbrev result_line : ℤ → ℤ → ℤ → String
result_line pid nr n =
    let t = "syscall(pid=" <> (show_ℤ pid <> (", nr=" <> (show_ℤ nr <> (") = " <> show_ℤ n)))) in
    if is_negative n then red t else green t

result_reply : ℤ → ℤ → Subsystems → Session → Result → Option Reply
result_reply pid nr parts s none = none
result_reply pid nr parts s (some (n, d)) =
    some (says_text (result_line pid nr n) (with_dispatcher d parts s))

call_parsed : Option ℤ → Option ℤ → List String → Session → Option Reply
unfolding result_reply
call_parsed (some pid) (some nr) args s = elim s.kernel.subsystems [
  | none ↦ some (says_text "Process table not initialized." s)
  | some parts ↦ result_reply pid nr parts s (dispatch_text pid nr args (dispatcher_of parts))
]
call_parsed (some pid) none args s = some (says_text "pid and nr must be integers" s)
call_parsed none nr args s = some (says_text "pid and nr must be integers" s)

call_words : List String → Session → Option Reply
unfolding call_parsed
call_words (pid ∷ nr ∷ args) s = call_parsed (int_of ten pid) (int_of ten nr) args s
call_words _ s = some (says_text "Usage: syscall <pid> <nr> [args...]" s)

-- `none` is an exception, which the shell lets pass.
unfoldable pub do_syscall : String → Session → Option Reply
unfolding call_words
do_syscall arg s = call_words (words (strip arg)) s

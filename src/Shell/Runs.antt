-- ===== src/Shell/Runs.antt =====
-- Whole runs of the shell, from its start on.
use compute_kernel_python.Prelude.{
  String, ◌≡◌, sym, Bool, true, false, Option, none, some, List, [], ◌∷◌, Option-cases, Bool-cases,
  inl, inr,
}
use mathlib.Core.Path.{subst}
use compute_kernel_python.Prelude.Eq.{nat_eq, string_eq}
use compute_kernel_python.Prelude.Dict.{get}
use compute_kernel_python.Paths.{is_empty}
use compute_kernel_python.Text.{strip}
use compute_kernel_python.KernelState.{new_kernel}
use compute_kernel_python.KernelState.Up.{boot-IsUp}
use compute_kernel_python.Shell.Replies.{Session, Reply, profile_in}
use compute_kernel_python.Shell.Running.{IsRunning}
use compute_kernel_python.Shell.Actions.Running.{
  do_boot-IsRunning, do_reboot-IsRunning, do_step-IsRunning, do_tick-IsRunning,
  do_pagefault-IsRunning,
}
use compute_kernel_python.Shell.Services.Running.{
  do_insmod-IsRunning, do_rmmod-IsRunning, do_signal-IsRunning, do_power-IsRunning,
  do_elf-IsRunning, do_pipe-IsRunning,
}
use compute_kernel_python.Shell.Files.Running.{do_vfs-IsRunning}
use compute_kernel_python.Shell.Calls.Running.{LeavesRunning, do_syscall-LeavesRunning}
use compute_kernel_python.Shell.Reports.Same.{
  do_status-same, do_ps-same, do_threads-same, do_sched-same, do_mem-same, do_vmm-same,
}
use compute_kernel_python.Shell.Settings.{do_dmesg, do_ext2}
use compute_kernel_python.Shell.Settings.Same.{
  do_lsdev-same, do_lsdrv-same, do_lsmod-same, do_safemode-same, do_arch-same, do_profile-same,
}
use compute_kernel_python.Shell.{
  Command, boot_, reboot, step, status, ps, threads, sched, tick, mem, vmm, pagefault, dmesg, lsdev,
  lsdrv, lsmod, insmod, rmmod, vfs, syscall, signal, power, safemode, arch, ext2, elf, pipe,
  show_roadmap, netinfo, teach, list_topics, search, show_disclaimer, profile, clear, exit, quit,
  eof, help, commands, do_teach, do_search, perform, Parsed, blank, no_command, named, parse_line,
  run_named, run_parsed, onecmd, cmdloop, at_end, session_of, profiles_for,
}

do_teach-IsRunning : (t : String) (s : Session) → IsRunning s → IsRunning (do_teach t s).session
unfolding do_teach
do_teach-IsRunning String.[] s h = h
do_teach-IsRunning (String.◌∷◌ c t) s h = h

do_search-IsRunning : (t : String) (s : Session) → IsRunning s → IsRunning (do_search t s).session
unfolding do_search
do_search-IsRunning String.[] s h = h
do_search-IsRunning (String.◌∷◌ c t) s h = h

same-IsRunning : (t s : Session) → t ≡ s → IsRunning s → IsRunning t
same-IsRunning t s e h = subst IsRunning (sym e) h

perform-LeavesRunning :
    (c : Command) (arg : String) (s : Session) → IsRunning s → LeavesRunning (perform c arg s)
unfolding perform do_dmesg do_ext2
perform-LeavesRunning boot_ arg s h = do_boot-IsRunning arg s h
perform-LeavesRunning reboot arg s h = do_reboot-IsRunning arg s
perform-LeavesRunning step arg s h = do_step-IsRunning arg s h
perform-LeavesRunning status arg s h = same-IsRunning _ s (do_status-same arg s) h
perform-LeavesRunning ps arg s h = same-IsRunning _ s (do_ps-same arg s) h
perform-LeavesRunning threads arg s h = same-IsRunning _ s (do_threads-same arg s) h
perform-LeavesRunning sched arg s h = same-IsRunning _ s (do_sched-same arg s) h
perform-LeavesRunning tick arg s h = do_tick-IsRunning arg s h
perform-LeavesRunning mem arg s h = same-IsRunning _ s (do_mem-same arg s) h
perform-LeavesRunning vmm arg s h = same-IsRunning _ s (do_vmm-same arg s) h
perform-LeavesRunning pagefault arg s h = do_pagefault-IsRunning arg s h
perform-LeavesRunning dmesg arg s h = h
perform-LeavesRunning lsdev arg s h = same-IsRunning _ s (do_lsdev-same arg s) h
perform-LeavesRunning lsdrv arg s h = same-IsRunning _ s (do_lsdrv-same arg s) h
perform-LeavesRunning lsmod arg s h = same-IsRunning _ s (do_lsmod-same arg s) h
perform-LeavesRunning insmod arg s h = do_insmod-IsRunning arg s h
perform-LeavesRunning rmmod arg s h = do_rmmod-IsRunning arg s h
perform-LeavesRunning vfs arg s h = do_vfs-IsRunning arg s h
perform-LeavesRunning syscall arg s h = do_syscall-LeavesRunning arg s h
perform-LeavesRunning signal arg s h = do_signal-IsRunning arg s h
perform-LeavesRunning power arg s h = do_power-IsRunning arg s h
perform-LeavesRunning safemode arg s h = same-IsRunning _ s (do_safemode-same arg s) h
perform-LeavesRunning arch arg s h = same-IsRunning _ s (do_arch-same arg s) h
perform-LeavesRunning ext2 arg s h = h
perform-LeavesRunning elf arg s h = do_elf-IsRunning arg s h
perform-LeavesRunning pipe arg s h = do_pipe-IsRunning arg s h
perform-LeavesRunning show_roadmap arg s h = h
perform-LeavesRunning netinfo arg s h = h
perform-LeavesRunning teach arg s h = do_teach-IsRunning (strip arg) s h
perform-LeavesRunning list_topics arg s h = h
perform-LeavesRunning search arg s h = do_search-IsRunning (strip arg) s h
perform-LeavesRunning show_disclaimer arg s h = h
perform-LeavesRunning profile arg s h = same-IsRunning _ s (do_profile-same arg s) h
perform-LeavesRunning clear arg s h = h
perform-LeavesRunning exit arg s h = h
perform-LeavesRunning quit arg s h = h
perform-LeavesRunning eof arg s h = h
perform-LeavesRunning help arg s h = h

run_named-LeavesRunning :
    (c : Option Command) (arg line : String) (s : Session)
    → IsRunning s
    → LeavesRunning (run_named c arg line s)
run_named-LeavesRunning none arg line s h = h
run_named-LeavesRunning (some c) arg line s h = perform-LeavesRunning c arg s h

run_parsed-LeavesRunning : (p : Parsed) (s : Session) → IsRunning s → LeavesRunning (run_parsed p s)
run_parsed-LeavesRunning blank s h = h
run_parsed-LeavesRunning (no_command line) s h = h
run_parsed-LeavesRunning (named name arg line) s h = elim (Bool-cases (is_empty name)) [
  | inl e ↦ rw e h
  | inr e ↦ rw e (run_named-LeavesRunning (get name commands) arg line s h)
]

onecmd-LeavesRunning : (line : String) (s : Session) → IsRunning s → LeavesRunning (onecmd line s)
unfolding onecmd
onecmd-LeavesRunning line s h = run_parsed-LeavesRunning (parse_line line) s h

at_end-IsRunning :
    (x : Option Reply) (s : Session) → LeavesRunning x → IsRunning s → IsRunning (at_end x s).last
at_end-IsRunning none s k h = h
at_end-IsRunning (some r) s k h = elim (Bool-cases r.stops) [ inl e ↦ rw e k | inr e ↦ rw e k ]

cmdloop-IsRunning :
    (lines : List String) (s : Session) → IsRunning s → IsRunning (cmdloop lines s).last
unfolding cmdloop
cmdloop-IsRunning [] s h = at_end-IsRunning (onecmd "EOF" s) s (onecmd-LeavesRunning "EOF" s h) h
cmdloop-IsRunning (line ∷ lines) s h = elim (Option-cases (onecmd line s)) [
  | inl e ↦ rw (cmdloop, e) h
  | inr (r, e) ↦
      let k = subst LeavesRunning e (onecmd-LeavesRunning line s h) in
      elim (Bool-cases r.stops) [
        | inl q ↦ rw (cmdloop, e, q) k
        | inr q ↦ rw (cmdloop, e, q) (cmdloop-IsRunning lines r.session k)
      ]
]

session_of-IsRunning : (name : String) (quiet : Bool) → IsRunning (session_of name quiet)
unfolding session_of
session_of-IsRunning name true =
    (boot-IsUp (profile_in name (profiles_for name true)) true
      (record new_kernel { serial_sink = false })).0
session_of-IsRunning name false =
    (boot-IsUp (profile_in name (profiles_for name false)) true
      (record new_kernel { serial_sink = false })).1

-- However the shell is started, and whatever lines are typed: when it ends, and so after every one
-- of the lines, the kernel is booted and no stage is left; the process table has its PIDs and its
-- families as they should be; every descriptor of a process is open in the VFS and no other process
-- has it; every device with a driver is in the list of that driver; the dependencies of loaded
-- modules are loaded; no process has a signal table; and safe mode and the module loader follow the
-- profile that the kernel has.
pub cmdloop-IsRunning_start :
    (name : String) (quiet : Bool) (lines : List String)
    → IsRunning (cmdloop lines (session_of name quiet)).last
cmdloop-IsRunning_start name quiet lines =
    cmdloop-IsRunning lines (session_of name quiet) (session_of-IsRunning name quiet)

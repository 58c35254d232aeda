-- ===== src/Shell.antt =====
-- computekernel_edu/shell.py: the shell reads lines, of which the first word names a command. What
-- `cmd.Cmd`, the class of the standard library below it, does with a line is part of this.
pub mod Replies
pub mod Actions
pub mod Services
pub mod Files
pub mod Calls
pub mod Reports
pub mod Settings
pub mod Running
pub mod Runs
pub mod Answers
pub mod Endings
use Prim.Native.Char.{code}
use compute_kernel_python.Prelude.{
  ℕ, String, Bool, true, false, ◌||◌, ◌&&◌, Option, none, some, List, [], ◌∷◌, ◌++◌, leb,
  if◌then◌else◌,
}
use compute_kernel_python.Prelude.Eq.{◌==◌, nat_eq, string_eq}
use compute_kernel_python.Prelude.Dict.{Dict, get, put, adjust, has_key}
use compute_kernel_python.Paths.{◌<>◌, is_empty}
use compute_kernel_python.Text.{strip, words}
use compute_kernel_python.Utils.{red, bold, dim}
use compute_kernel_python.Profiles.{KernelProfile, profiles}
use compute_kernel_python.KernelState.{KernelState, new_kernel, init, boot}
use compute_kernel_python.Shell.Replies.{
  Printed, text, lesson, matches, help_on, topics, roadmap, network_status, disclaimer,
  screen_cleared, Session, Reply, says, says_text, profile_in, first_or,
}
use compute_kernel_python.Shell.Actions.{do_boot, do_reboot, do_step, do_tick, do_pagefault}
use compute_kernel_python.Shell.Services.{do_insmod, do_rmmod, do_signal, do_power, do_elf, do_pipe}
use compute_kernel_python.Shell.Files.{do_vfs}
use compute_kernel_python.Shell.Calls.{do_syscall}
use compute_kernel_python.Shell.Reports.{do_status, do_ps, do_threads, do_sched, do_mem, do_vmm}
use compute_kernel_python.Shell.Settings.{
  do_dmesg, do_lsdev, do_lsdrv, do_lsmod, do_safemode, do_arch, do_ext2, do_profile,
}

-- The methods `do_...`, and `help` of `cmd.Cmd`.
pub data Command : Type 0 where
  boot_ reboot step status ps threads sched tick mem vmm pagefault dmesg lsdev lsdrv lsmod insmod
        rmmod vfs syscall signal power safemode arch ext2 elf pipe show_roadmap netinfo teach
        list_topics search show_disclaimer profile clear exit quit eof help :
      Command

abbrev pub commands : Dict String Command
commands =
    ("boot", boot_)
    ∷ ("reboot", reboot)
    ∷ ("step", step)
    ∷ ("status", status)
    ∷ ("ps", ps)
    ∷ ("threads", threads)
    ∷ ("sched", sched)
    ∷ ("tick", tick)
    ∷ ("mem", mem)
    ∷ ("vmm", vmm)
    ∷ ("pagefault", pagefault)
    ∷ ("dmesg", dmesg)
    ∷ ("lsdev", lsdev)
    ∷ ("lsdrv", lsdrv)
    ∷ ("lsmod", lsmod)
    ∷ ("insmod", insmod)
    ∷ ("rmmod", rmmod)
    ∷ ("vfs", vfs)
    ∷ ("syscall", syscall)
    ∷ ("signal", signal)
    ∷ ("power", power)
    ∷ ("safemode", safemode)
    ∷ ("arch", arch)
    ∷ ("ext2", ext2)
    ∷ ("elf", elf)
    ∷ ("pipe", pipe)
    ∷ ("roadmap", show_roadmap)
    ∷ ("netinfo", netinfo)
    ∷ ("teach", teach)
    ∷ ("topics", list_topics)
    ∷ ("search", search)
    ∷ ("disclaimer", show_disclaimer)
    ∷ ("profile", profile)
    ∷ ("clear", clear)
    ∷ ("exit", exit)
    ∷ ("quit", quit)
    ∷ ("EOF", eof)
    ∷ ("help", help)
    ∷ []

do_teach : String → Session → Reply
do_teach String.[] s =
    says (text "Usage: teach <topic>" ∷ text "Run 'topics' to see available topics." ∷ []) s
do_teach (String.◌∷◌ c t) s = says (lesson (String.◌∷◌ c t) ∷ []) s

do_search : String → Session → Reply
do_search String.[] s = says_text "Usage: search <keyword>" s
do_search (String.◌∷◌ c t) s = says (matches (String.◌∷◌ c t) ∷ []) s

abbrev do_exit : Session → Reply
do_exit s = record {
  printed = text (dim "Shutting down ComputeKERNEL-Edu simulator...") ∷ [];
  stops = true;
  session = s;
}

abbrev do_eof : Session → Reply
do_eof s = let r = do_exit s in record r { printed = text "" ∷ r.printed }

-- `none` is an exception.
unfoldable pub perform : Command → String → Session → Option Reply
unfolding do_teach do_search
perform boot_ arg s = some (do_boot arg s)
perform reboot arg s = some (do_reboot arg s)
perform step arg s = some (do_step arg s)
perform status arg s = some (do_status arg s)
perform ps arg s = some (do_ps arg s)
perform threads arg s = some (do_threads arg s)
perform sched arg s = some (do_sched arg s)
perform tick arg s = some (do_tick arg s)
perform mem arg s = some (do_mem arg s)
perform vmm arg s = some (do_vmm arg s)
perform pagefault arg s = some (do_pagefault arg s)
perform dmesg arg s = some (do_dmesg arg s)
perform lsdev arg s = some (do_lsdev arg s)
perform lsdrv arg s = some (do_lsdrv arg s)
perform lsmod arg s = some (do_lsmod arg s)
perform insmod arg s = some (do_insmod arg s)
perform rmmod arg s = some (do_rmmod arg s)
perform vfs arg s = some (do_vfs arg s)
perform syscall arg s = do_syscall arg s
perform signal arg s = some (do_signal arg s)
perform power arg s = some (do_power arg s)
perform safemode arg s = some (do_safemode arg s)
perform arch arg s = some (do_arch arg s)
perform ext2 arg s = some (do_ext2 arg s)
perform elf arg s = some (do_elf arg s)
perform pipe arg s = some (do_pipe arg s)
perform show_roadmap arg s = some (says (roadmap ∷ []) s)
perform netinfo arg s = some (says (network_status ∷ []) s)
perform teach arg s = some (do_teach (strip arg) s)
perform list_topics arg s = some (says (topics ∷ []) s)
perform search arg s = some (do_search (strip arg) s)
perform show_disclaimer arg s = some (says (disclaimer ∷ []) s)
perform profile arg s = some (do_profile arg s)
perform clear arg s = some (says (screen_cleared ∷ []) s)
perform exit arg s = some (do_exit s)
perform quit arg s = some (do_exit s)
perform eof arg s = some (do_eof s)
perform help arg s = some (says (help_on arg ∷ []) s)

-- What `cmd.Cmd.parseline` makes of a line: nothing, no command, or a name with the rest.
pub data Parsed : Type 0 where
  blank : Parsed
  no_command : String → Parsed
  named : (name arg line : String) → Parsed

abbrev is_ident : ℕ → Bool
is_ident c =
    (leb b'a' c && leb c b'z')
    || (leb b'A' c && leb c b'Z')
    || (leb b'0' c && leb c b'9')
    || c == b'_'

abbrev ident : String → String × String
ident String.[] = (String.[], String.[])
ident (String.◌∷◌ c s) =
    let (front, back) = ident s in
    if is_ident (code c) then (String.◌∷◌ c front, back) else (String.[], String.◌∷◌ c s)

abbrev pub split_name : String → Parsed
split_name line = let (name, arg) = ident line in named name (strip arg) line

-- There is no method `do_shell` for a line that begins with `!`.
abbrev pub parse_stripped : String → Parsed
parse_stripped String.[] = blank
parse_stripped (String.◌∷◌ c s) =
    if code c == b'?'
    then split_name ("help " <> s)
    else if code c == b'!'
    then no_command (String.◌∷◌ c s)
    else split_name (String.◌∷◌ c s)

unfoldable pub parse_line : String → Parsed
parse_line line = parse_stripped (strip line)

-- `default(line)`
abbrev unknown : String → Session → Reply
unknown line s =
    says_text
      (red ("Unknown command: '" <> (first_or "" (words line) <> "'  (type 'help' for commands)")))
      s

abbrev run_named : Option Command → String → String → Session → Option Reply
run_named none arg line s = some (unknown line s)
run_named (some c) arg line s = perform c arg s

abbrev run_parsed : Parsed → Session → Option Reply
run_parsed blank s = some (says [] s)
run_parsed (no_command line) s = some (unknown line s)
run_parsed (named name arg line) s =
    if is_empty name then some (unknown line s) else run_named (get name commands) arg line s

unfoldable pub onecmd : String → Session → Option Reply
onecmd line s = run_parsed (parse_line line) s

-- How a run of the shell ends: by a command, by an exception, or not at all.
pub data Ending : Type 0 where
  exited crashed endless : Ending

pub record Run : Type 0 where
  pub printed : List Printed
  pub ending : Ending
  pub last : Session
  pub unread : List String

abbrev with_printed : List Printed → Run → Run
with_printed front r = record r { printed = front ++ r.printed }

abbrev stopped : Reply → List String → Run
stopped r lines = record { printed = r.printed; ending = exited; last = r.session; unread = lines }

abbrev crash : Session → List String → Run
crash s lines = record { printed = []; ending = crashed; last = s; unread = lines }

-- When the end of the input is no reason to stop, it is read again and again.
abbrev stuck : Reply → Run
stuck r = record { printed = r.printed; ending = endless; last = r.session; unread = [] }

abbrev at_end : Option Reply → Session → Run
at_end none s = crash s []
at_end (some r) s = if r.stops then stopped r [] else stuck r

-- `cmdloop`: the end of the input is the line `EOF`. After an exception the session is no more used:
-- it is the one before the command.
unfoldable pub cmdloop : List String → Session → Run
cmdloop [] s = at_end (onecmd "EOF" s) s
cmdloop (line ∷ lines) s = elim (onecmd line s) [
  | none ↦ crash s lines
  | some r ↦
      let rest = cmdloop lines r.session in
      if r.stops then stopped r lines else with_printed r.printed rest
]

-- The arguments of `main`: the last profile that is named, and whether it is to be quiet.
pub data Start : Type 0 where
  usage : Start
  start : (profile : String) (quiet : Bool) → Start

unfoldable pub read_args : List String → String → Bool → Start
read_args [] name quiet = start name quiet
read_args (a ∷ args) name quiet =
    let known = has_key a profiles in
    let shy = a == "--quiet" || a == "-q" in
    let rest = read_args args (if known then a else name) (if known then quiet else shy || quiet) in
    if known || shy then rest else if a == "--help" || a == "-h" then usage else rest

abbrev silent : KernelProfile → KernelProfile
silent p = record p { serial_log = false }

abbrev with_sink : Bool → KernelState → KernelState
with_sink on k = record k { serial_sink = on }

-- `profile.serial_log = False` changes the object in `PROFILES`.
abbrev pub profiles_for : String → Bool → Dict String KernelProfile
profiles_for name true = adjust name silent profiles
profiles_for name false = profiles

-- `main` up to the loop.
unfoldable pub session_of : String → Bool → Session
session_of name quiet =
    let known = profiles_for name quiet in
    let k = init (some (profile_in name known)) (with_sink false new_kernel) in
    record {
      kernel = with_sink false (boot (if quiet then k else with_sink true k)).1;
      profiles = known;
    }

abbrev pub run_start : Start → List String → Option Run
run_start usage lines = none
run_start (start name quiet) lines = some (cmdloop lines (session_of name quiet))

-- `none` for `--help`, which starts no shell.
unfoldable pub main : List String → List String → Option Run
main args lines = run_start (read_args args "debug" false) lines

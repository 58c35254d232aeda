-- ===== src/Shell/Endings.antt =====
-- How a run of the shell ends.
use compute_kernel_python.Prelude.{
  String, ◌≡◌, refl, sym, ap, ◌∙◌, Bool, true, false, Option, none, some, List, [], ◌∷◌, All,
  Bool-cases, inl, inr,
}
use compute_kernel_python.Prelude.Eq.{◌==◌, string_eq}
use compute_kernel_python.Prelude.Dict.{Dict, get}
use compute_kernel_python.Paths.{is_empty}
use compute_kernel_python.Text.{strip}
use compute_kernel_python.Shell.Replies.{Session, Reply}
use compute_kernel_python.Shell.{
  Command, syscall, commands, perform, Parsed, blank, no_command, named, parse_line, run_named,
  run_parsed, onecmd, exited, cmdloop, at_end, boot_, reboot, step, status, ps, threads, sched,
  tick, mem, vmm, pagefault, dmesg, lsdev, lsdrv, lsmod, insmod, rmmod, vfs, signal, power,
  safemode, arch, ext2, elf, pipe, show_roadmap, netinfo, teach, list_topics, search,
  show_disclaimer, profile, clear, exit, quit, eof, help,
}

abbrev is_syscall : Command → Bool
is_syscall syscall = true
is_syscall _ = false

abbrev Returns : Option Reply → Type 0
Returns x = (r : Reply) × (x ≡ some r)

perform-Returns :
    (c : Command) (arg : String) (s : Session) → is_syscall c ≡ false → Returns (perform c arg s)
unfolding perform
perform-Returns syscall arg s h = absurd (cc)
perform-Returns boot_ arg s h = (_, refl)
perform-Returns reboot arg s h = (_, refl)
perform-Returns step arg s h = (_, refl)
perform-Returns status arg s h = (_, refl)
perform-Returns ps arg s h = (_, refl)
perform-Returns threads arg s h = (_, refl)
perform-Returns sched arg s h = (_, refl)
perform-Returns tick arg s h = (_, refl)
perform-Returns mem arg s h = (_, refl)
perform-Returns vmm arg s h = (_, refl)
perform-Returns pagefault arg s h = (_, refl)
perform-Returns dmesg arg s h = (_, refl)
perform-Returns lsdev arg s h = (_, refl)
perform-Returns lsdrv arg s h = (_, refl)
perform-Returns lsmod arg s h = (_, refl)
perform-Returns insmod arg s h = (_, refl)
perform-Returns rmmod arg s h = (_, refl)
perform-Returns vfs arg s h = (_, refl)
perform-Returns signal arg s h = (_, refl)
perform-Returns power arg s h = (_, refl)
perform-Returns safemode arg s h = (_, refl)
perform-Returns arch arg s h = (_, refl)
perform-Returns ext2 arg s h = (_, refl)
perform-Returns elf arg s h = (_, refl)
perform-Returns pipe arg s h = (_, refl)
perform-Returns show_roadmap arg s h = (_, refl)
perform-Returns netinfo arg s h = (_, refl)
perform-Returns teach arg s h = (_, refl)
perform-Returns list_topics arg s h = (_, refl)
perform-Returns search arg s h = (_, refl)
perform-Returns show_disclaimer arg s h = (_, refl)
perform-Returns profile arg s h = (_, refl)
perform-Returns clear arg s h = (_, refl)
perform-Returns exit arg s h = (_, refl)
perform-Returns quit arg s h = (_, refl)
perform-Returns eof arg s h = (_, refl)
perform-Returns help arg s h = (_, refl)

-- A dictionary in which `syscall` is the command of that name alone.
abbrev AgreesOnNames : Dict String Command → Type 0
AgreesOnNames d = All (λ entry. is_syscall entry.1 ≡ (entry.0 == "syscall")) d

commands-AgreesOnNames : AgreesOnNames commands
commands-AgreesOnNames = (
  refl,
  (
    refl,
    (
      refl,
      (
        refl,
        (
          refl,
          (
            refl,
            (
              refl,
              (
                refl,
                (
                  refl,
                  (
                    refl,
                    (
                      refl,
                      (
                        refl,
                        (
                          refl,
                          (
                            refl,
                            (
                              refl,
                              (
                                refl,
                                (
                                  refl,
                                  (
                                    refl,
                                    (
                                      refl,
                                      (
                                        refl,
                                        (
                                          refl,
                                          (
                                            refl,
                                            (
                                              refl,
                                              (
                                                refl,
                                                (
                                                  refl,
                                                  (
                                                    refl,
                                                    (
                                                      refl,
                                                      (
                                                        refl,
                                                        (
                                                          refl,
                                                          (
                                                            refl,
                                                            (
                                                            refl,
                                                            (
                                                            refl,
                                                            (
                                                            refl,
                                                            (
                                                            refl,
                                                            (refl, (refl, (refl, (refl, tt)))),
                                                            ),
                                                            ),
                                                            ),
                                                            ),
                                                          ),
                                                        ),
                                                      ),
                                                    ),
                                                  ),
                                                ),
                                              ),
                                            ),
                                          ),
                                        ),
                                      ),
                                    ),
                                  ),
                                ),
                              ),
                            ),
                          ),
                        ),
                      ),
                    ),
                  ),
                ),
              ),
            ),
          ),
        ),
      ),
    ),
  ),
)

get-AgreesOnNames :
    (name : String) (c : Command) (d : Dict String Command)
    → AgreesOnNames d
    → get name d ≡ some c
    → is_syscall c ≡ (name == "syscall")
unfolding get
get-AgreesOnNames name c [] h e = absurd (cc)
get-AgreesOnNames name c ((n, b) ∷ d) (here, later) e = elim (Bool-cases (n == name)) [
  | inl q ↦
      let same = (string_eq.test_iff n name).0 q in
      let first : some b ≡ some c = rw q at (e) in
      ap (λ o. elim o [ none ↦ false | some x ↦ is_syscall x ]) (sym first)
      ∙ here
      ∙ ap (λ n. n == "syscall") same
  | inr q ↦ get-AgreesOnNames name c d later (rw q at (e))
]

-- A line whose first word is the command `syscall`.
abbrev pub is_call : Parsed → Bool
is_call blank = false
is_call (no_command line) = false
is_call (named name arg line) = name == "syscall"

run_named-Returns :
    (c : Option Command) (name arg line : String) (s : Session)
    → get name commands ≡ c
    → (name == "syscall") ≡ false
    → Returns (run_named c arg line s)
run_named-Returns none name arg line s e h = (_, refl)
run_named-Returns (some c) name arg line s e h =
    perform-Returns c arg s (get-AgreesOnNames name c commands commands-AgreesOnNames e ∙ h)

run_parsed-Returns : (p : Parsed) (s : Session) → is_call p ≡ false → Returns (run_parsed p s)
run_parsed-Returns blank s h = (_, refl)
run_parsed-Returns (no_command line) s h = (_, refl)
run_parsed-Returns (named name arg line) s h = elim (Bool-cases (is_empty name)) [
  | inl e ↦ rw e (_, refl)
  | inr e ↦ rw e (run_named-Returns (get name commands) name arg line s refl h)
]

onecmd-Returns :
    (line : String) (s : Session) → is_call (parse_line line) ≡ false → Returns (onecmd line s)
unfolding onecmd
onecmd-Returns line s h = run_parsed-Returns (parse_line line) s h

eof_exits : (s : Session) → (at_end (onecmd "EOF" s) s).ending ≡ exited
unfolding onecmd parse_line strip get perform
eof_exits s = refl

pub cmdloop_exits :
    (lines : List String) (s : Session)
    → All (λ line. is_call (parse_line line) ≡ false) lines
    → (cmdloop lines s).ending ≡ exited
unfolding cmdloop
cmdloop_exits [] s h = eof_exits s
cmdloop_exits (line ∷ lines) s (here, later) =
    let (r, e) = onecmd-Returns line s here in
    elim (Bool-cases r.stops) [
      | inl q ↦ rw (cmdloop, e, q) refl
      | inr q ↦ rw (cmdloop, e, q) (cmdloop_exits lines r.session later)
    ]

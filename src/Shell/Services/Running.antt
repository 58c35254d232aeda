-- ===== src/Shell/Services/Running.antt =====
-- The commands on modules, signals, power, programs and pipes keep the kernel up and in order.
use compute_kernel_python.Prelude.{
  String, ◌≡◌, refl, ap, ◌∙◌, Bool, false, Option, none, some, List, [], ◌∷◌, ℤ, pos, negsuc, arith,
  Bool-cases, inl, inr,
}
use compute_kernel_python.Prelude.Eq.{◌==◌, nat_eq, string_eq}
use compute_kernel_python.Prelude.Dict.{get, values}
use compute_kernel_python.Paths.{is_empty}
use compute_kernel_python.Text.{strip, words, lower, upper, or_text}
use compute_kernel_python.Text.Numbers.{ten, int_of}
use compute_kernel_python.Process.{Process}
use compute_kernel_python.Modules.{ModuleLoader, load, load_found, unload, unload_found}
use compute_kernel_python.Modules.Laws.{Closed, run-Closed, do_load, do_unload}
use compute_kernel_python.Ipc.{Signal, IpcManager, create_pipe, on_pipe, send_signal}
use compute_kernel_python.Power
use compute_kernel_python.Power.{PowerManager}
use compute_kernel_python.Elf
use compute_kernel_python.Elf.{FakeElf, make_simple}
use compute_kernel_python.KernelState.{Subsystems}
use compute_kernel_python.KernelState.Up.{IsSound}
use compute_kernel_python.Shell.Replies.{Session, machine_of, with_machine}
use compute_kernel_python.Shell.Running.{
  IsRunning, on_parts-IsRunning, with_parts-IsRunning, with_machine-IsSound,
}
use compute_kernel_python.Shell.Actions.Running.{do_reboot-IsRunning}
use compute_kernel_python.Shell.Services.{
  on_modules, do_insmod, do_rmmod, full_name, signal_names, send_to, signal_reply, signal_words,
  do_signal, power_words, do_power, last_process, load_for, do_elf, run_pipe, pipe_reply, do_pipe,
}

-- A loader that has the same switch and keeps its modules closed.
with_loader-IsSound :
    (loader : ModuleLoader) (parts : Subsystems) (s : Session)
    → Closed loader.available
    → loader.modules_enabled ≡ parts.module_loader.modules_enabled
    → IsSound parts s.kernel.profile
    → IsSound (record parts { module_loader = loader }) s.kernel.profile
with_loader-IsSound loader parts s c e h = record {
  finished = h.finished;
  orderly = h.orderly;
  closed = c;
  no_tables = h.no_tables;
  safe_mode_is = h.safe_mode_is;
  modules_follow = e ∙ h.modules_follow;
}

modules_enabled-load :
    (name : String) (x : ModuleLoader) → (load name x).1.modules_enabled ≡ x.modules_enabled
unfolding load load_found
modules_enabled-load name x = ground arith

modules_enabled-unload :
    (name : String) (x : ModuleLoader) → (unload name x).1.modules_enabled ≡ x.modules_enabled
unfolding unload unload_found
modules_enabled-unload name x = ground arith

on_modules-IsRunning :
    (usage name good bad : String) (f : ModuleLoader → Bool × ModuleLoader) (s : Session)
    → ((x : ModuleLoader) → (f x).1.modules_enabled ≡ x.modules_enabled)
    → ((x : ModuleLoader) → Closed x.available → Closed (f x).1.available)
    → IsRunning s
    → IsRunning (on_modules usage name good bad f s).session
on_modules-IsRunning usage name good bad f s same keeps h = elim (Bool-cases (is_empty name)) [
  | inl e ↦ rw e h
  | inr e ↦ rw e (
      on_parts-IsRunning _ _ s h (λ parts q sound.
        with_parts-IsRunning (record parts { module_loader = (f parts.module_loader).1 }) s h
          (with_loader-IsSound (f parts.module_loader).1 parts s
            (keeps parts.module_loader sound.closed) (same parts.module_loader) sound)))
]

pub do_insmod-IsRunning :
    (arg : String) (s : Session) → IsRunning s → IsRunning (do_insmod arg s).session
unfolding do_insmod
do_insmod-IsRunning arg s h =
    let name = strip arg in
    on_modules-IsRunning "Usage: insmod <name>" name "' loaded." "Failed to load module '"
      (load name) s (modules_enabled-load name) (λ x c. run-Closed (do_load name ∷ []) x c) h

pub do_rmmod-IsRunning :
    (arg : String) (s : Session) → IsRunning s → IsRunning (do_rmmod arg s).session
unfolding do_rmmod
do_rmmod-IsRunning arg s h =
    let name = strip arg in
    on_modules-IsRunning "Usage: rmmod <name>" name "' unloaded." "Failed to unload module '"
      (unload name) s (modules_enabled-unload name) (λ x c. run-Closed (do_unload name ∷ []) x c) h

with_ipc-IsSound :
    (ipc : IpcManager) (parts : Subsystems) (s : Session)
    → ipc.signal_tables ≡ []
    → IsSound parts s.kernel.profile
    → IsSound (record parts { ipc = ipc }) s.kernel.profile
with_ipc-IsSound ipc parts s e h = record {
  finished = h.finished;
  orderly = h.orderly;
  closed = h.closed;
  no_tables = e;
  safe_mode_is = h.safe_mode_is;
  modules_follow = h.modules_follow;
}

-- Nobody has a signal table, so that no signal is sent.
pub send_to-none :
    (pid : ℤ) (sig : Signal) (m : IpcManager)
    → m.signal_tables ≡ []
    → send_to pid sig m ≡ (false, m)
unfolding send_signal get
send_to-none (pos pid) sig m e =
    let none' : get pid m.signal_tables ≡ none = rw e refl in rw (send_signal, none') refl
send_to-none (negsuc n) sig m e = refl

signal_reply-IsRunning :
    (pid : Option ℤ) (given : String) (sig : Option Signal) (name : String) (parts : Subsystems)
    (s : Session)
    → IsRunning s
    → IsSound parts s.kernel.profile
    → IsRunning (signal_reply pid given sig name parts s).session
unfolding signal_reply
signal_reply-IsRunning none given sig name parts s h sound = h
signal_reply-IsRunning (some pid) given none name parts s h sound = h
signal_reply-IsRunning (some pid) given (some sig) name parts s h sound =
    let same = ap (λ x. x.1.signal_tables) (send_to-none pid sig parts.ipc sound.no_tables) in
    let ipc = (send_to pid sig parts.ipc).1 in
    with_parts-IsRunning (record parts { ipc = ipc }) s h
      (with_ipc-IsSound ipc parts s (same ∙ sound.no_tables) sound)

signal_words-IsRunning :
    (ws : List String) (s : Session) → IsRunning s → IsRunning (signal_words ws s).session
unfolding signal_words
signal_words-IsRunning [] s h = h
signal_words-IsRunning (pid ∷ []) s h = h
signal_words-IsRunning (pid ∷ given ∷ rest) s h =
    let name = full_name (upper given) in
    on_parts-IsRunning _ _ s h (λ parts e sound.
      signal_reply-IsRunning (int_of ten pid) given (get name signal_names) name parts s h sound)

pub do_signal-IsRunning :
    (arg : String) (s : Session) → IsRunning s → IsRunning (do_signal arg s).session
unfolding do_signal
do_signal-IsRunning arg s h = signal_words-IsRunning (words (strip arg)) s h

with_power-IsSound :
    (power : PowerManager) (parts : Subsystems) (s : Session)
    → IsSound parts s.kernel.profile
    → IsSound (record parts { power = power }) s.kernel.profile
with_power-IsSound power parts s h = record {
  finished = h.finished;
  orderly = h.orderly;
  closed = h.closed;
  no_tables = h.no_tables;
  safe_mode_is = h.safe_mode_is;
  modules_follow = h.modules_follow;
}

power_words-IsRunning :
    (name : String) (parts : Subsystems) (s : Session)
    → IsRunning s
    → IsSound parts s.kernel.profile
    → IsRunning (power_words name parts s).session
unfolding power_words
power_words-IsRunning name parts s h sound =
    let changed = λ (p : PowerManager).
      with_parts-IsRunning (record parts { power = p }) s h (with_power-IsSound p parts s sound) in
    elim (Bool-cases (name == "shutdown")) [
      | inl a ↦ rw (power_words, a) (changed (Power.shutdown parts.power))
      | inr a ↦ elim (Bool-cases (name == "suspend")) [
        | inl b ↦ rw (power_words, a, b) (changed (Power.suspend parts.power))
        | inr b ↦ elim (Bool-cases (name == "resume")) [
          | inl c ↦ rw (power_words, a, b, c) (changed (Power.resume parts.power))
          | inr c ↦ elim (Bool-cases (name == "reboot")) [
            | inl d ↦ rw (power_words, a, b, c, d) (do_reboot-IsRunning "" s)
            | inr d ↦ elim (Bool-cases (name == "status")) [
              | inl e ↦ rw (power_words, a, b, c, d, e) h
              | inr e ↦ rw (power_words, a, b, c, d, e) h
            ]
          ]
        ]
      ]
    ]

pub do_power-IsRunning :
    (arg : String) (s : Session) → IsRunning s → IsRunning (do_power arg s).session
unfolding do_power
do_power-IsRunning arg s h =
    on_parts-IsRunning _ _ s h
      (λ parts e sound. power_words-IsRunning (lower (strip arg)) parts s h sound)

load_for-IsRunning :
    (elf : FakeElf) (p : Option Process) (parts : Subsystems) (s : Session)
    → IsRunning s
    → IsSound parts s.kernel.profile
    → IsRunning (load_for elf p parts s).session
unfolding load_for
load_for-IsRunning elf none parts s h sound = h
load_for-IsRunning elf (some p) parts s h sound =
    let m = machine_of parts in
    let m' = record m { vmm = (Elf.load elf p.pid m.vmm).1 } in
    let o = sound.orderly in
    with_parts-IsRunning (with_machine m' parts) s h (
      with_machine-IsSound m' parts s
        (record {
          pids = o.pids;
          family = o.family;
          private_files = o.private_files;
          linked = o.linked;
        })
        sound)

pub do_elf-IsRunning : (arg : String) (s : Session) → IsRunning s → IsRunning (do_elf arg s).session
unfolding do_elf
do_elf-IsRunning arg s (up, (parts, e, sound)) =
    let elf = make_simple (or_text (strip arg) "hello") 0x400000 in
    let p = last_process (values (machine_of parts).processes.table) in
    rw (do_elf, e) (load_for-IsRunning elf p parts s (up, (parts, e, sound)) sound)

signal_tables-run_pipe : (ipc : IpcManager) → (run_pipe ipc).1.signal_tables ≡ ipc.signal_tables
unfolding create_pipe on_pipe
signal_tables-run_pipe ipc = ground arith

pub do_pipe-IsRunning :
    (arg : String) (s : Session) → IsRunning s → IsRunning (do_pipe arg s).session
unfolding do_pipe pipe_reply
do_pipe-IsRunning arg s h = on_parts-IsRunning _ _ s h (λ parts e sound.
    let ipc = (run_pipe parts.ipc).1 in
    with_parts-IsRunning (record parts { ipc = ipc }) s h
      (with_ipc-IsSound ipc parts s (signal_tables-run_pipe parts.ipc ∙ sound.no_tables) sound))

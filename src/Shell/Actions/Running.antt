-- ===== src/Shell/Actions/Running.antt =====
-- Booting, ticks and page faults keep the kernel up and in order.
use compute_kernel_python.Prelude.{
  String, ◌≡◌, sym, Bool, true, false, Option, none, some, List, [], ◌∷◌, ℤ,
}
use mathlib.Core.Path.{subst}
use compute_kernel_python.Prelude.Eq.{nat_eq, string_eq}
use compute_kernel_python.Text.{strip, words}
use compute_kernel_python.Text.Numbers.{ten, sixteen, int_of}
use compute_kernel_python.Scheduler.{tick_n}
use compute_kernel_python.Boot.{BootStageResult}
use compute_kernel_python.KernelState.{Subsystems, new_kernel}
use compute_kernel_python.KernelState.Up.{IsSound, boot-IsUp, boot_step-IsUp}
use compute_kernel_python.Shell.Replies.{Session, machine_of, with_machine, profile_in, first_or}
use compute_kernel_python.Shell.Running.{
  IsRunning, on_parts-IsRunning, with_parts-IsRunning, with_machine-IsSound,
}
use compute_kernel_python.Shell.Actions.{
  boot_unless, do_boot, do_reboot, stage_reply, do_step, int_or_one, ticks, tick_by, do_tick,
  fault_reply, fault_words, do_pagefault,
}

boot_unless-IsRunning :
    (b : Bool) (name : String) (s : Session)
    → b ≡ true
    → IsRunning s
    → IsRunning (boot_unless b name s).session
unfolding boot_unless
boot_unless-IsRunning true name s e h = h
boot_unless-IsRunning false name s e h = absurd (cc)

pub do_boot-IsRunning :
    (arg : String) (s : Session) → IsRunning s → IsRunning (do_boot arg s).session
unfolding do_boot
do_boot-IsRunning arg s h =
    boot_unless-IsRunning s.kernel.booted (first_or "debug" (words (strip arg))) s h.0 h

-- `reboot` makes a kernel that is up, whatever stands there before.
pub do_reboot-IsRunning : (arg : String) (s : Session) → IsRunning (do_reboot arg s).session
unfolding do_reboot
do_reboot-IsRunning arg s =
    (boot-IsUp (profile_in (first_or s.kernel.profile.name (words (strip arg))) s.profiles) true
      new_kernel).0

stage_reply-IsRunning :
    (o : Option BootStageResult) (s : Session) → IsRunning s → IsRunning (stage_reply o s).session
unfolding stage_reply
stage_reply-IsRunning none s h = h
stage_reply-IsRunning (some r) s h = h

pub do_step-IsRunning :
    (arg : String) (s : Session) → IsRunning s → IsRunning (do_step arg s).session
unfolding do_step
do_step-IsRunning arg s h = on_parts-IsRunning _ _ s h (λ parts e sound.
    subst (λ x. IsRunning (stage_reply x.0 (record s { kernel = x.1 })).session)
      (sym (boot_step-IsUp s.kernel h)) (stage_reply-IsRunning none s h))

tick_by-IsRunning :
    (n : Option ℤ) (parts : Subsystems) (s : Session)
    → IsRunning s
    → IsSound parts s.kernel.profile
    → IsRunning (tick_by n parts s).session
unfolding tick_by
tick_by-IsRunning none parts s h sound = h
tick_by-IsRunning (some n) parts s h sound =
    let m = machine_of parts in
    let m' = record m { scheduler = tick_n (ticks n) m.scheduler } in
    let o = sound.orderly in
    with_parts-IsRunning (with_machine m' parts) s h (
      with_machine-IsSound m' parts s
        (record {
          pids = o.pids;
          family = o.family;
          private_files = o.private_files;
          linked = o.linked;
        })
        sound)

pub do_tick-IsRunning :
    (arg : String) (s : Session) → IsRunning s → IsRunning (do_tick arg s).session
unfolding do_tick
do_tick-IsRunning arg s h =
    on_parts-IsRunning _ _ s h
      (λ parts e sound. tick_by-IsRunning (int_or_one (strip arg)) parts s h sound)

fault_reply-IsRunning :
    (pid addr : Option ℤ) (write : Bool) (parts : Subsystems) (s : Session)
    → IsRunning s
    → IsRunning (fault_reply pid addr write parts s).session
unfolding fault_reply
fault_reply-IsRunning (some pid) (some addr) write parts s h = h
fault_reply-IsRunning (some pid) none write parts s h = h
fault_reply-IsRunning none addr write parts s h = h

fault_words-IsRunning :
    (ws : List String) (s : Session) → IsRunning s → IsRunning (fault_words ws s).session
unfolding fault_words
fault_words-IsRunning [] s h = h
fault_words-IsRunning (pid ∷ []) s h = h
fault_words-IsRunning (pid ∷ addr ∷ rest) s h =
    on_parts-IsRunning _ _ s h
      (λ parts e sound. fault_reply-IsRunning (int_of ten pid) (int_of sixteen addr) _ parts s h)

pub do_pagefault-IsRunning :
    (arg : String) (s : Session) → IsRunning s → IsRunning (do_pagefault arg s).session
unfolding do_pagefault
do_pagefault-IsRunning arg s h = fault_words-IsRunning (words (strip arg)) s h

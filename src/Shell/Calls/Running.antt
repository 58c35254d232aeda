-- ===== src/Shell/Calls/Running.antt =====
-- The command `syscall` keeps the kernel up and in order, and what it refuses.
use compute_kernel_python.Prelude.{String, Option, none, some, List, [], ◌∷◌, ℤ}
use compute_kernel_python.Text.{strip, words}
use compute_kernel_python.Text.Numbers.{ten, int_of}
use compute_kernel_python.KernelState.{Subsystems}
use compute_kernel_python.KernelState.Up.{IsSound}
use compute_kernel_python.Shell.Replies.{Session, Reply, machine_of, with_machine}
use compute_kernel_python.Shell.Running.{IsRunning, with_parts-IsRunning, with_machine-IsSound}
use compute_kernel_python.Shell.Calls.{
  Result, dispatch_text, dispatcher_of, result_reply, call_parsed, call_words, do_syscall,
}
use compute_kernel_python.Shell.Calls.Kept.{KeepsResult, dispatch_text-KeepsResult}

-- What a command that may raise leaves behind.
abbrev pub LeavesRunning : Option Reply → Type 0
LeavesRunning none = Unit
LeavesRunning (some r) = IsRunning r.session

result_reply-LeavesRunning :
    (pid nr : ℤ) (parts : Subsystems) (s : Session) (x : Result)
    → KeepsResult x
    → IsRunning s
    → IsSound parts s.kernel.profile
    → LeavesRunning (result_reply pid nr parts s x)
unfolding result_reply
result_reply-LeavesRunning pid nr parts s none k h sound = tt
result_reply-LeavesRunning pid nr parts s (some (n, d)) ((pids, family), files) h sound =
    let m = record (machine_of parts) {
      processes = d.kernel.processes;
      vmm = d.kernel.vmm;
      vfs = d.vfs;
    } in
    with_parts-IsRunning (with_machine m parts) s h (
      with_machine-IsSound m parts s
        (record {
          pids = pids;
          family = family;
          private_files = files;
          linked = sound.orderly.linked;
        })
        sound)

call_parsed-LeavesRunning :
    (pid nr : Option ℤ) (args : List String) (s : Session)
    → IsRunning s
    → LeavesRunning (call_parsed pid nr args s)
unfolding call_parsed
call_parsed-LeavesRunning (some pid) (some nr) args s (up, (parts, e, sound)) =
    let o = sound.orderly in
    let d = dispatcher_of parts in
    rw (call_parsed, e)
      (result_reply-LeavesRunning pid nr parts s (dispatch_text pid nr args d)
        (dispatch_text-KeepsResult pid nr args d ((o.pids, o.family), o.private_files))
        (up, (parts, e, sound)) sound)
call_parsed-LeavesRunning (some pid) none args s h = h
call_parsed-LeavesRunning none nr args s h = h

call_words-LeavesRunning :
    (ws : List String) (s : Session) → IsRunning s → LeavesRunning (call_words ws s)
unfolding call_words
call_words-LeavesRunning [] s h = h
call_words-LeavesRunning (pid ∷ []) s h = h
call_words-LeavesRunning (pid ∷ nr ∷ args) s h =
    call_parsed-LeavesRunning (int_of ten pid) (int_of ten nr) args s h

pub do_syscall-LeavesRunning :
    (arg : String) (s : Session) → IsRunning s → LeavesRunning (do_syscall arg s)
unfolding do_syscall
do_syscall-LeavesRunning arg s h = call_words-LeavesRunning (words (strip arg)) s h

-- ===== src/Tests/Messages.antt =====
-- Runs of pipes, signals and the log at concrete inputs.
use compute_kernel_python.Prelude.{
  ℕ, ◌+◌, ◌-◌, ◌≡◌, refl, true, false, some, List, [], ◌∷◌, ◌++◌, arith, pos, length, drop, keep,
}
use compute_kernel_python.Prelude.Eq.{nat_eq}
use compute_kernel_python.Prelude.Dict.{get, put}
use compute_kernel_python.Prelude.Deque.{push, push_all, pop_left}
use compute_kernel_python.Ipc
use compute_kernel_python.Ipc.{
  Signal, sigterm, sigkill, sigstop, sigusr1, sigusr2, Pipe, SignalTable, IpcManager, capacity,
  broken_pipe, write, read, close_read, new_pipe, create_pipe, get_pipe, on_pipe, is_blocked, send,
}
use compute_kernel_python.Ipc.Pipes
use compute_kernel_python.Ipc.Pipes.{
  is_closed, do_write, do_read, Fits, written, received, run, write_lem, read_lem, received-written,
}
use compute_kernel_python.Ipc.Signals.{send_all, dequeued, is_deliverable, dequeued-send_all}
use compute_kernel_python.Ipc.Manager
use compute_kernel_python.Ipc.Manager.{IsSound, create_pipe_lem}
use compute_kernel_python.Logger.{info, error, LogEntry}

abbrev hi : List ℕ
hi = 104 ∷ 105 ∷ []

abbrev pipe : Pipe
pipe = new_pipe 100

pipe-IsValid : Pipes.IsValid pipe
pipe-IsValid = record { bounded = omega arith }

write_lem_example :
    (is_closed pipe ≡ true → write hi pipe ≡ (broken_pipe, pipe))
    × (is_closed pipe ≡ false
        → ((write hi pipe).0 ≡ pos (length hi))
          × ((write hi pipe).1.buffer
              ≡ drop (length (pipe.buffer ++ hi) - capacity) (pipe.buffer ++ hi)))
    × Pipes.IsValid (write hi pipe).1
write_lem_example = write_lem hi pipe pipe-IsValid

abbrev uses : List Pipes.Use
uses = do_write (1 ∷ 2 ∷ 3 ∷ []) ∷ do_read 2 ∷ do_write (4 ∷ []) ∷ do_read 9 ∷ []

uses-Fits : Fits uses pipe
unfolding write read push_all push pop_left
uses-Fits = (omega arith, (omega arith, tt))

received-written_example :
    received uses pipe ++ (run uses pipe).buffer ≡ pipe.buffer ++ written uses
received-written_example = received-written uses pipe refl uses-Fits

abbrev signals : SignalTable
signals = record { pid = 3; pending = sigusr1 ∷ []; blocked = sigterm ∷ sigkill ∷ [] }

dequeued-send_all_example :
    dequeued
      (length signals.pending
        + length (keep (is_deliverable signals) (sigterm ∷ sigkill ∷ sigusr2 ∷ []))
        + 2)
      (send_all (sigterm ∷ sigkill ∷ sigusr2 ∷ []) signals)
    ≡ signals.pending ++ keep (is_deliverable signals) (sigterm ∷ sigkill ∷ sigusr2 ∷ [])
dequeued-send_all_example = dequeued-send_all (sigterm ∷ sigkill ∷ sigusr2 ∷ []) 2 signals

abbrev manager : IpcManager
manager = (create_pipe Ipc.init).1

manager-IsSound : IsSound manager
manager-IsSound =
    let (a, b, c, d, e, sound) = create_pipe_lem Ipc.init Manager.init-IsSound in sound

pipe_here : get pipe.read_fd manager.objects ≡ some pipe
unfolding create_pipe get put
pipe_here = refl

abbrev messages : List LogEntry
messages =
    record { level = info; subsystem = "BOOT"; message = "up"; timestamp = 1 }
    ∷ record { level = error; subsystem = "VMM"; message = "OOM"; timestamp = 2 }
    ∷ []

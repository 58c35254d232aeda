-- ===== src/Ipc.antt =====
-- computekernel_edu/ipc.py: signals, pipes, pending signals and the manager of both.
pub mod Pipes
pub mod Signals
pub mod Manager
use compute_kernel_python.Prelude.{
  ℕ, zero, suc, ◌+◌, ◌≤◌, String, Bool, true, false, not, ◌&&◌, ◌||◌, Option, none, some, List, [],
  ◌∷◌, ◌++◌, ℤ, pos, negsuc, length, keep, any, if◌then◌else◌,
}
use Prim.Native.Nat.{min}
use compute_kernel_python.Prelude.Eq.{◌==◌, nat_eq}
use compute_kernel_python.Prelude.Deque.{push_all, pop_left}
use compute_kernel_python.Prelude.Dict.{Dict, get, put, adjust, has_key}

pub data Signal : Type 0 where
  sighup sigterm sigkill sigchld sigusr1 sigusr2 sigsegv sigint sigstop : Signal

abbrev pub number : Signal → ℕ
number sighup = 1
number sigterm = 15
number sigkill = 9
number sigchld = 17
number sigusr1 = 10
number sigusr2 = 12
number sigsegv = 11
number sigint = 2
number sigstop = 19

-- The members of an `Enum` with different values are different.
abbrev pub signal_eq : Signal → Signal → Bool
signal_eq a b = number a == number b

abbrev pub capacity : ℕ
capacity = 65536

pub record Pipe : Type 0 where
  pub read_fd : ℕ
  pub write_fd : ℕ
  pub buffer : List ℕ
  pub write_closed : Bool
  pub read_closed : Bool

-- -32, EPIPE
abbrev pub broken_pipe : ℤ
broken_pipe = negsuc 31

unfoldable pub write : List ℕ → Pipe → ℤ × Pipe
write bytes p =
    if p.write_closed || p.read_closed
    then (broken_pipe, p)
    else (pos (length bytes), record p { buffer = push_all capacity bytes p.buffer })

unfoldable pub read : ℕ → Pipe → List ℕ × Pipe
read size p =
    let (taken, left) = pop_left (min size (length p.buffer)) p.buffer in
    (taken, record p { buffer = left })

unfoldable pub close_write : Pipe → Pipe
close_write p = record p { write_closed = true }

unfoldable pub close_read : Pipe → Pipe
close_read p = record p { read_closed = true }

unfoldable pub available : Pipe → ℕ
available p = length p.buffer

pub record SignalTable : Type 0 where
  pub pid : ℕ
  pub pending : List Signal
  pub blocked : List Signal

abbrev pub is_blocked : Signal → SignalTable → Bool
is_blocked sig t = any (signal_eq sig) t.blocked

abbrev pub is_forced : Signal → Bool
is_forced sig = signal_eq sig sigkill || signal_eq sig sigstop

unfoldable pub send : Signal → SignalTable → SignalTable
send sig t =
    if not (is_blocked sig t) || is_forced sig
    then record t { pending = t.pending ++ sig ∷ [] }
    else t

abbrev is_empty : List Signal → Bool
is_empty [] = true
is_empty (sig ∷ rest) = false

unfoldable pub has_pending : SignalTable → Bool
has_pending t = not (is_empty t.pending)

take_signal : List Signal → SignalTable → Option Signal × SignalTable
take_signal [] t = (none, t)
take_signal (sig ∷ rest) t = (some sig, record t { pending = rest })

-- `SignalTable.next_signal`
unfoldable pub dequeue : SignalTable → Option Signal × SignalTable
unfolding take_signal
dequeue t = take_signal t.pending t

-- The blocked signals are a set, kept as a list: `add` and `discard`.
unfoldable pub block : Signal → SignalTable → SignalTable
block sig t = if is_blocked sig t then t else record t { blocked = sig ∷ t.blocked }

unfoldable pub unblock : Signal → SignalTable → SignalTable
unblock sig t = record t { blocked = keep (λ s. not (signal_eq sig s)) t.blocked }

-- Both descriptors of a pipe lead to one pipe object, which is named here by its `read_fd`.
pub record IpcManager : Type 0 where
  pub pipes : Dict ℕ ℕ
  pub objects : Dict ℕ Pipe
  pub signal_tables : Dict ℕ SignalTable
  pub next_pipe_fd : ℕ

abbrev pub init : IpcManager
init = record { pipes = []; objects = []; signal_tables = []; next_pipe_fd = 100 }

abbrev pub new_pipe : ℕ → Pipe
new_pipe fd = record {
  read_fd = fd;
  write_fd = fd + 1;
  buffer = [];
  write_closed = false;
  read_closed = false;
}

unfoldable pub create_pipe : IpcManager → Pipe × IpcManager
create_pipe m =
    let fd = m.next_pipe_fd in
    (
      new_pipe fd,
      record m {
        next_pipe_fd = fd + 2;
        objects = put fd (new_pipe fd) m.objects;
        pipes = put (fd + 1) fd (put fd fd m.pipes);
      },
    )

unfoldable pub get_pipe : ℕ → IpcManager → Option Pipe
get_pipe fd m = elim (get fd m.pipes) [ none ↦ none | some r ↦ get r m.objects ]

-- What a caller does that holds the pipe of a descriptor: it changes the one object.
unfoldable pub on_pipe : ℕ → (Pipe → Pipe) → IpcManager → IpcManager
on_pipe fd f m = elim (get fd m.pipes) [
  | none ↦ m
  | some r ↦ record m { objects = adjust r f m.objects }
]

unfoldable pub create_signal_table : ℕ → IpcManager → IpcManager
create_signal_table pid m = record m {
  signal_tables = put pid (record { pid = pid; pending = []; blocked = [] }) m.signal_tables;
}

unfoldable pub send_signal : ℕ → Signal → IpcManager → Bool × IpcManager
send_signal pid sig m = elim (get pid m.signal_tables) [
  | none ↦ (false, m)
  | some t ↦ (true, record m { signal_tables = put pid (send sig t) m.signal_tables })
]

unfoldable pub has_pending_signals : ℕ → IpcManager → Bool
has_pending_signals pid m = elim (get pid m.signal_tables) [ none ↦ false | some t ↦ has_pending t ]

unfoldable pub next_signal : ℕ → IpcManager → Option Signal × IpcManager
next_signal pid m = elim (get pid m.signal_tables) [
  | none ↦ (none, m)
  | some t ↦
      let (sig, t') = dequeue t in (sig, record m { signal_tables = put pid t' m.signal_tables })
]

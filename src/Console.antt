-- ===== src/Console.antt =====
-- computekernel_edu/console.py: the serial console and the terminal on it. A text is the list of the
-- bytes that encode it; what goes to the standard output is only counted.
pub mod Receive
use compute_kernel_python.Prelude.{
  ℕ, ◌+◌, String, Bool, true, false, List, [], ◌∷◌, ◌++◌, length, if◌then◌else◌,
}
use compute_kernel_python.Prelude.Deque.{push_all, pop_left}

-- The bound of the receive buffer.
abbrev pub capacity : ℕ
capacity = 256

pub record SerialConsole : Type 0 where
  pub port : String
  pub rx_buffer : List ℕ
  pub tx_count : ℕ
  pub enabled : Bool

abbrev pub init : SerialConsole
init = record { port = "COM1"; rx_buffer = []; tx_count = 0; enabled = true }

unfoldable pub write : List ℕ → SerialConsole → SerialConsole
write bytes s = if s.enabled then record s { tx_count = s.tx_count + length bytes } else s

unfoldable pub writeline : List ℕ → SerialConsole → SerialConsole
unfolding write
writeline text s = write (text ++ b'\n' ∷ []) s

unfoldable pub receive : List ℕ → SerialConsole → SerialConsole
receive bytes s = record s { rx_buffer = push_all capacity bytes s.rx_buffer }

unfoldable pub read : ℕ → SerialConsole → List ℕ × SerialConsole
read n s = let (taken, left) = pop_left n s.rx_buffer in (taken, record s { rx_buffer = left })

-- A terminal, with the console that it is attached to.
pub record Tty : Type 0 where
  pub name : String
  pub console : SerialConsole
  pub canonical : Bool
  pub echo : Bool
  pub input_buffer : List ℕ
  pub output_buffer : List (List ℕ)

abbrev pub new_tty : String → SerialConsole → Tty
new_tty name console = record {
  name = name;
  console = console;
  canonical = true;
  echo = true;
  input_buffer = [];
  output_buffer = [];
}

unfoldable pub write_text : List ℕ → Tty → Tty
unfolding writeline
write_text text t = record t {
  console = writeline text t.console;
  output_buffer = t.output_buffer ++ text ∷ [];
}

unfoldable pub receive_input : List ℕ → Tty → Tty
unfolding writeline
receive_input text t = record t {
  console = if t.echo then writeline text t.console else t.console;
  input_buffer = text;
}

unfoldable pub flush : Tty → Tty
flush t = record t { output_buffer = [] }

-- ===== src/Logger.antt =====
-- computekernel_edu/logger.py: the ring buffer of kernel messages.
pub mod Ring
use compute_kernel_python.Prelude.{
  ℕ, zero, suc, ◌+◌, String, Bool, true, false, Option, none, some, List, [], ◌∷◌, ◌++◌, leb, keep,
  if◌then◌else◌,
}
use compute_kernel_python.Prelude.Deque.{push}

pub data LogLevel : Type 0 where
  debug info warn error panic : LogLevel

-- The value of an `IntEnum` member, by which levels are compared.
abbrev pub value : LogLevel → ℕ
value debug = 0
value info = 1
value warn = 2
value error = 3
value panic = 4

abbrev pub label : LogLevel → String
label debug = "DEBUG"
label info = "INFO "
label warn = "WARN "
label error = "ERROR"
label panic = "PANIC"

-- A timestamp comes from the system clock; it is carried as it is given.
pub record LogEntry : Type 0 where
  pub level : LogLevel
  pub subsystem : String
  pub message : String
  pub timestamp : ℕ

abbrev pub max_entries : ℕ
max_entries = 1024

-- The ring, the sink's flag and what the sink has printed.
pub record KernelLogger : Type 0 where
  pub ring : List LogEntry
  pub serial_sink : Bool
  pub printed : List LogEntry

unfoldable pub init : Bool → KernelLogger
init serial_sink = record { ring = []; serial_sink = serial_sink; printed = [] }

abbrev pub entry : LogLevel → String → String → ℕ → LogEntry
entry level subsystem message elapsed = record {
  level = level;
  subsystem = subsystem;
  message = message;
  timestamp = elapsed;
}

-- `_log(level, subsystem, message)` at the time `elapsed`.
unfoldable pub log : LogLevel → String → String → ℕ → KernelLogger → KernelLogger
log level subsystem message elapsed s =
    let e = entry level subsystem message elapsed in
    record s {
      ring = push max_entries e s.ring;
      printed = if s.serial_sink then s.printed ++ e ∷ [] else s.printed;
    }

unfoldable pub get_entries : LogLevel → KernelLogger → List LogEntry
get_entries min_level s = keep (λ e. leb (value min_level) (value e.level)) s.ring

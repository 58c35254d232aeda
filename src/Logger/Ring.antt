-- ===== src/Logger/Ring.antt =====
-- What the ring holds after any messages.
use compute_kernel_python.Prelude.{
  ◌-◌, ◌≡◌, refl, ap, Bool, List, [], ◌∷◌, ◌++◌, length, drop, leb, keep, if◌then◌else◌, arith, ◌∙◌,
}
use mathlib.Core.List.{append-nil, append_assoc}
use compute_kernel_python.Prelude.Deque.{push_all, push_all-drop}
use compute_kernel_python.Logger.{
  LogLevel, LogEntry, KernelLogger, value, max_entries, init, log, get_entries,
}

-- `_log` with the fields of an entry, for each of the entries.
abbrev pub log_all : List LogEntry → KernelLogger → KernelLogger
log_all [] s = s
log_all (e ∷ es) s = log_all es (log e.level e.subsystem e.message e.timestamp s)

ring-log_all :
    (es : List LogEntry) (s : KernelLogger) → (log_all es s).ring ≡ push_all max_entries es s.ring
unfolding push_all log
ring-log_all [] s = refl
ring-log_all (e ∷ es) s = ring-log_all es _

printed-log_all :
    (es : List LogEntry) (s : KernelLogger)
    → (log_all es s).printed ≡ (if s.serial_sink then s.printed ++ es else s.printed)
unfolding log
printed-log_all [] s = ground (arith, append-nil s.printed)
printed-log_all (e ∷ es) s = ground (
  arith,
  printed-log_all es (log e.level e.subsystem e.message e.timestamp s),
  append_assoc s.printed (e ∷ []) es,
)

-- After any messages to a new logger the ring holds the last 1024 of them in order, the levels
-- asked for are the messages of the ring at or above that level, and the serial sink, if it is on,
-- has printed every message, also those that the ring has lost.
pub log_all_lem :
    (serial_sink : Bool) (es : List LogEntry) (min_level : LogLevel)
    → ((log_all es (init serial_sink)).ring ≡ drop (length es - max_entries) es)
      × (get_entries min_level (log_all es (init serial_sink))
          ≡ keep (λ e. leb (value min_level) (value e.level)) (drop (length es - max_entries) es))
      × ((log_all es (init serial_sink)).printed ≡ (if serial_sink then es else []))
unfolding init get_entries
log_all_lem serial_sink es min_level =
    let ring =
      ring-log_all es (init serial_sink)
      ∙ push_all-drop max_entries es [] (omega arith) (omega arith) in
    (
      ring,
      ap (keep (λ e. leb (value min_level) (value e.level))) ring,
      printed-log_all es (init serial_sink),
    )

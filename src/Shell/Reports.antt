-- ===== src/Shell/Reports.antt =====
-- The commands of computekernel_edu/shell.py that only show something.
pub mod Same
use compute_kernel_python.Prelude.{
  ℕ, zero, suc, ◌-◌, String, Bool, true, false, Option, none, some, List, [], ◌∷◌, ◌++◌, map, any,
  ℤ, pos, negsuc, length, not, ◌&&◌, if◌then◌else◌,
}
use compute_kernel_python.Prelude.Eq.{◌==◌, nat_eq, string_eq}
use compute_kernel_python.Prelude.Dict.{Dict, get, values, has_key}
use compute_kernel_python.Paths.{◌<>◌, is_empty}
use compute_kernel_python.Text.{strip, lower, join, or_text}
use compute_kernel_python.Text.Numbers.{ten, sixteen, int_of, show, show_ℤ, digits}
use compute_kernel_python.Utils.{yellow, bold, hex_addr, size_fmt}
use compute_kernel_python.Memory.Pmm
use compute_kernel_python.Memory.Kmalloc
use compute_kernel_python.Memory.Space
use compute_kernel_python.Memory.Space.{VirtualMemoryArea, AddressSpace}
use compute_kernel_python.Process.{Process, TaskState}
use compute_kernel_python.Thread.{Thread}
use compute_kernel_python.Scheduler.{Scheduler}
use compute_kernel_python.Devices.{DeviceClass, Device, Driver}
use compute_kernel_python.Modules.{KernelModule, ModuleLoader, list_loaded, list_available}
use compute_kernel_python.Profiles.{KernelProfile, active}
use compute_kernel_python.Ext2
use compute_kernel_python.Ext2.{Ext2}
use compute_kernel_python.Logger.{LogLevel, debug, info, warn, error, panic}
use compute_kernel_python.Boot.Stages.{Machine}
use compute_kernel_python.KernelState.{Subsystems, KernelState}
use compute_kernel_python.Shell.Replies.{
  Printed, text, grid, log_from, description_of, cpu_info, Session, Reply, says, says_text,
  on_parts, machine_of,
}
use compute_kernel_python.Shell.Actions.{thread_line}

abbrev pub show_bool : Bool → String
show_bool true = "True"
show_bool false = "False"

abbrev pub pairs : List (String × String) → List (List String)
pairs [] = []
pairs ((k, v) ∷ rows) = (k ∷ v ∷ []) ∷ pairs rows

unfoldable pub status_rows : KernelState → Subsystems → List (List String)
status_rows k parts =
    let m = machine_of parts in
    pairs (
      ("booted", show_bool k.booted)
      ∷ ("profile", k.profile.name)
      ∷ ("safe_mode", show_bool (active parts.safe_mode))
      ∷ ("processes", show (length (values m.processes.table)))
      ∷ ("threads", show (length (values m.threads.threads)))
      ∷ ("free_pages", show (Pmm.free_pages m.vmm.pmm))
      ∷ ("total_pages", show m.vmm.pmm.total_pages)
      ∷ ("scheduler_ticks", show m.scheduler.tick_count)
      ∷ ("modules_loaded", show (length (list_loaded parts.module_loader)))
      ∷ [])

unfoldable pub do_status : String → Session → Reply
do_status arg s =
    on_parts "Kernel not initialized. Run 'boot' first."
      (λ parts. says (grid ("Key" ∷ "Value" ∷ []) (status_rows s.kernel parts) ∷ []) s) s

abbrev state_name : TaskState → String
state_name TaskState.new = "NEW"
state_name TaskState.runnable = "RUNNABLE"
state_name TaskState.running = "RUNNING"
state_name TaskState.sleep_int = "SLEEP_INT"
state_name TaskState.sleep_unint = "SLEEP_UNINT"
state_name TaskState.zombie = "ZOMBIE"
state_name TaskState.dead = "DEAD"

-- A table of what there is, or a line that says that there is nothing.
abbrev pub listing {ℓ} :
    {A : Type ℓ} → String → List String → (A → List String) → List A → Session → Reply
listing nothing headers row [] s = says_text nothing s
listing nothing headers row (a ∷ rest) s = says (grid headers (map row (a ∷ rest)) ∷ []) s

abbrev process_row : Process → List String
process_row p =
    show p.pid ∷ show p.ppid ∷ p.name ∷ state_name p.state ∷ show p.creds.uid ∷ p.cmdline ∷ []

unfoldable pub do_ps : String → Session → Reply
do_ps arg s =
    on_parts "Process table not initialized."
      (λ parts.
        listing "No processes." ("PID" ∷ "PPID" ∷ "NAME" ∷ "STATE" ∷ "UID" ∷ "CMDLINE" ∷ [])
          process_row (values (machine_of parts).processes.table) s)
      s

abbrev thread_row : Thread → List String
thread_row t =
    show t.tid
    ∷ show t.pid
    ∷ t.name
    ∷ state_name t.state
    ∷ (if t.is_kernel_thread then "K" else "U")
    ∷ show t.remaining_ticks
    ∷ []

unfoldable pub do_threads : String → Session → Reply
do_threads arg s =
    on_parts "Thread table not initialized."
      (λ parts.
        let m = machine_of parts in
        listing "No threads." ("TID" ∷ "PID" ∷ "NAME" ∷ "STATE" ∷ "TYPE" ∷ "TICKS" ∷ [])
          (λ r. thread_row (m.scheduler.objects r)) (values m.threads.threads) s)
      s

abbrev queued_text : Thread → String
queued_text t =
    t.name <> ("(tid=" <> (show t.tid <> (", ticks_left=" <> (show t.remaining_ticks <> ")"))))

abbrev blocked_text : Thread → String
blocked_text t = t.name <> ("(tid=" <> (show t.tid <> (", reason=" <> (t.wait_reason <> ")"))))

abbrev line_unless_empty : String → List String → List Printed
line_unless_empty label [] = []
line_unless_empty label (w ∷ ws) = text (label <> join ", " (w ∷ ws)) ∷ []

abbrev sched_lines : Scheduler → List Printed
sched_lines x =
    text ("  Tick count:       " <> show x.tick_count)
    ∷ text ("  Context switches: " <> show x.context_switches)
    ∷ text ("  Current thread:   " <> thread_line x)
    ∷ text ("  Runqueue length:  " <> show (length x.runqueue))
    ∷ (line_unless_empty "  Runqueue:         " (map (λ r. queued_text (x.objects r)) x.runqueue)
        ++ line_unless_empty "  Blocked:          "
            (map (λ r. blocked_text (x.objects r)) x.blocked))

unfoldable pub do_sched : String → Session → Reply
do_sched arg s =
    on_parts "Scheduler not initialized."
      (λ parts. says (sched_lines (machine_of parts).scheduler) s) s

abbrev mem_lines : Machine → List Printed
mem_lines m =
    let st = Pmm.stats m.vmm.pmm in
    let u = Kmalloc.usage m.kmalloc in
    text (bold "Physical Memory:")
    ∷ text ("  Total pages:   " <> show st.total)
    ∷ text ("  Free pages:    " <> show st.free)
    ∷ text ("  Used pages:    " <> show st.used)
    ∷ text ("  Total:         " <> size_fmt st.total_bytes)
    ∷ text ("  Free:          " <> size_fmt st.free_bytes)
    ∷ text (bold "Kernel Allocator (kmalloc):")
    ∷ text ("  Allocations:   " <> show u.allocations)
    ∷ text ("  Bytes:         " <> size_fmt u.bytes_allocated)
    ∷ text ("  Next addr:     0x" <> digits sixteen u.next_addr)
    ∷ []

unfoldable pub do_mem : String → Session → Reply
do_mem arg s =
    on_parts "Memory manager not initialized." (λ parts. says (mem_lines (machine_of parts)) s) s

abbrev area_row : VirtualMemoryArea → List String
area_row a =
    hex_addr (pos a.start) ∷ hex_addr (pos a.end) ∷ a.flags ∷ size_fmt (Space.size a) ∷ a.name ∷ []

abbrev areas_shown : List VirtualMemoryArea → Printed
areas_shown [] = text "  (empty)"
areas_shown (a ∷ rest) =
    grid ("START" ∷ "END" ∷ "FLAGS" ∷ "SIZE" ∷ "NAME" ∷ []) (map area_row (a ∷ rest))

abbrev space_lines : ℤ → Option AddressSpace → List Printed
space_lines pid none = text ("No address space for pid=" <> show_ℤ pid) ∷ []
space_lines pid (some space) =
    text (bold ("\nPID " <> (show_ℤ pid <> " address space:"))) ∷ areas_shown space.areas ∷ []

abbrev space_at : ℤ → Dict ℕ AddressSpace → Option AddressSpace
space_at (pos pid) d = get pid d
space_at (negsuc n) d = none

all_spaces : List ℕ → Dict ℕ AddressSpace → List Printed
all_spaces [] d = []
all_spaces (pid ∷ pids) d = space_lines (pos pid) (get pid d) ++ all_spaces pids d

abbrev numbers {ℓ} : {V : Type ℓ} → Dict ℕ V → List ℕ
numbers [] = []
numbers ((k, v) ∷ d) = k ∷ numbers d

vmm_for : String → Dict ℕ AddressSpace → Session → Reply
unfolding all_spaces
vmm_for String.[] d s = says (all_spaces (numbers d) d) s
vmm_for (String.◌∷◌ c t) d s = elim (int_of ten (String.◌∷◌ c t)) [
  | none ↦ says_text "Usage: vmm [pid]" s
  | some pid ↦ says (space_lines pid (space_at pid d)) s
]

unfoldable pub do_vmm : String → Session → Reply
unfolding vmm_for
do_vmm arg s =
    on_parts "VMM not initialized."
      (λ parts. vmm_for (strip arg) (machine_of parts).vmm.address_spaces s) s

-- ===== src/Scheduler.antt =====
-- computekernel_edu/scheduler.py: the round-robin scheduler. `objects` are the thread objects that
-- it shares with the thread table, and the queues hold references to them.
pub mod Running
pub mod Tids
pub mod Reach
pub mod Fair
use compute_kernel_python.Prelude.{
  ℕ, zero, suc, ◌+◌, ◌-◌, String, Bool, true, false, not, ◌||◌, Option, none, some, List, [], ◌∷◌,
  ◌++◌, length, keep, find, any, if◌then◌else◌,
}
use compute_kernel_python.Prelude.Eq.{◌==◌, nat_eq}
use compute_kernel_python.Process.{runnable, running, sleep_int}
use compute_kernel_python.Thread
use compute_kernel_python.Thread.{Thread, Store, ThreadTable, thread_eq, update}

pub record Scheduler : Type 0 where
  pub objects : Store
  pub runqueue : List ℕ
  pub current_thread : Option ℕ
  pub idle_thread : Option ℕ
  pub tick_count : ℕ
  pub context_switches : ℕ
  pub blocked : List ℕ

unfoldable pub new_scheduler : Store → Scheduler
new_scheduler objects = record {
  objects = objects;
  runqueue = [];
  current_thread = none;
  idle_thread = none;
  tick_count = 0;
  context_switches = 0;
  blocked = [];
}

-- Python's `x is y or x == y`, by which `in` and `list.remove` look for an item.
abbrev pub same : Store → ℕ → ℕ → Bool
same objects r q = q == r || thread_eq (objects q) (objects r)

abbrev pub is_in : Store → ℕ → List ℕ → Bool
is_in objects r queue = any (same objects r) queue

abbrev pub remove_item : Store → ℕ → List ℕ → List ℕ
remove_item objects r [] = []
remove_item objects r (q ∷ queue) =
    if same objects r q then queue else q ∷ remove_item objects r queue

-- `init(thread_table)`: the idle thread is made in the table and is not queued.
unfoldable pub init : ThreadTable → Scheduler → ThreadTable × Scheduler
unfolding Thread.spawn
init t s =
    let made = Thread.spawn 0 "[idle]" 1 true t s.objects in
    (
      made.table,
      record s {
        objects = update made.thread (λ x. record x { state = runnable }) made.objects;
        idle_thread = some made.thread;
      },
    )

unfoldable pub add_thread : ℕ → Scheduler → Scheduler
add_thread r s =
    let objects = update r (λ x. record x { state = runnable }) s.objects in
    if is_in objects r s.runqueue
    then record s { objects = objects }
    else record s { objects = objects; runqueue = s.runqueue ++ r ∷ [] }

unfoldable pub remove_thread : ℕ → Scheduler → Scheduler
remove_thread tid s = record s { runqueue = keep (λ q. not ((s.objects q).tid == tid)) s.runqueue }

abbrev has_tid : Store → ℕ → ℕ → Bool
has_tid objects tid q = (objects q).tid == tid

abbrev names_tid : Store → ℕ → Option ℕ → Bool
names_tid objects tid none = false
names_tid objects tid (some r) = has_tid objects tid r

unfoldable pub block_thread : ℕ → String → Scheduler → Scheduler
block_thread tid reason s = elim (find (has_tid s.objects tid) s.runqueue) [
  | none ↦ s
  | some r ↦
      let objects =
        update r (λ x. record x { state = sleep_int; wait_reason = reason }) s.objects in
      record s {
        objects = objects;
        runqueue = remove_item objects r s.runqueue;
        blocked = s.blocked ++ r ∷ [];
        current_thread = if names_tid objects tid s.current_thread then none else s.current_thread;
      }
]

unfoldable pub wake_thread : ℕ → Scheduler → Scheduler
wake_thread tid s = elim (find (has_tid s.objects tid) s.blocked) [
  | none ↦ s
  | some r ↦
      let objects = update r (λ x. record x { state = runnable; wait_reason = "" }) s.objects in
      record s {
        objects = objects;
        blocked = remove_item objects r s.blocked;
        runqueue = s.runqueue ++ r ∷ [];
      }
]

abbrev pub dispatch : Thread → Thread
dispatch x = record x { state = running; remaining_ticks = x.timeslice }

abbrev pub preempt : Thread → Thread
preempt x = record x { state = runnable; remaining_ticks = x.timeslice }

-- `remaining_ticks -= 1`. A count at 0 would go to -1, and is like 0 set anew before it is read.
abbrev pub count_down : Thread → Thread
count_down x = record x { remaining_ticks = x.remaining_ticks - 1 }

-- The head of the queue runs, or the idle thread if the queue is empty.
abbrev next_thread : List ℕ → Scheduler → Scheduler
next_thread [] s = record s { current_thread = s.idle_thread }
next_thread (q ∷ queue) s = record s {
  current_thread = some q;
  objects = update q dispatch s.objects;
  context_switches = s.context_switches + 1;
}

-- The time slice of `old` has expired.
unfoldable pub rotate : ℕ → Scheduler → Scheduler
rotate old s =
    let objects = update old preempt s.objects in
    let queue =
      if is_in objects old s.runqueue
      then remove_item objects old s.runqueue ++ old ∷ []
      else s.runqueue in
    next_thread queue (record s { objects = objects; runqueue = queue })

-- One tick of the thread `r`, which is the current one.
unfoldable pub run_current : ℕ → Scheduler → Scheduler
run_current r s =
    let s' = record s { objects = update r count_down s.objects } in
    if (s'.objects r).remaining_ticks == 0 then rotate r s' else s'

-- "Pick first runnable".
abbrev pick : ℕ → Scheduler → Scheduler
pick q s = record s { current_thread = some q; objects = update q dispatch s.objects }

-- The head of the queue is picked if no thread is current, or if the current one has left the queue.
tick_current : Option ℕ → ℕ → Scheduler → Scheduler
tick_current none q s = run_current q (pick q s)
tick_current (some r) q s =
    if is_in s.objects r s.runqueue then run_current r s else run_current q (pick q s)

tick_queue : List ℕ → Scheduler → Scheduler
unfolding tick_current
tick_queue [] s = record s { current_thread = s.idle_thread }
tick_queue (q ∷ queue) s = tick_current s.current_thread q s

unfoldable pub tick : Scheduler → Scheduler
unfolding tick_queue
tick s = tick_queue s.runqueue (record s { tick_count = s.tick_count + 1 })

unfoldable pub tick_n : ℕ → Scheduler → Scheduler
tick_n zero s = s
tick_n (suc n) s = tick_n n (tick s)

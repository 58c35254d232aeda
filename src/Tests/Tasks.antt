-- ===== src/Tests/Tasks.antt =====
-- Runs of the process table, the thread table and the scheduler at concrete inputs.
use compute_kernel_python.Prelude.{
  if◌then◌else◌, ◌≤◌, none, ℕ, ◌≡◌, refl, true, false, some, List, [], ◌∷◌, ◌++◌, arith, negsuc,
}
use compute_kernel_python.Prelude.Eq.{◌==◌, nat_eq}
use compute_kernel_python.Prelude.Ids.{has}
use compute_kernel_python.Prelude.Dict
use compute_kernel_python.Prelude.Dict.{get, put, has_key}
use compute_kernel_python.Process
use compute_kernel_python.Process.{runnable, running, alloc_pid, free_pid, add_child}
use compute_kernel_python.Process.Pids
use compute_kernel_python.Process.Runs
use compute_kernel_python.Process.Runs.{
  do_spawn, do_remove, born, run-IsValid, spawn_lem, remove-spawn,
}
use compute_kernel_python.Thread
use compute_kernel_python.Thread.{Thread, Store, ThreadTable, cpu_context, update, alloc_tid}
use compute_kernel_python.Thread.Table
use compute_kernel_python.Thread.Table.{spawn_thread_lem, remove_thread_lem}
use compute_kernel_python.Scheduler
use compute_kernel_python.Scheduler.{
  Scheduler, new_scheduler, add_thread, block_thread, wake_thread, tick, tick_n,
}
use compute_kernel_python.Scheduler.Running.{is_running}
use compute_kernel_python.Scheduler.Reach.{
  Reach, no_call, then_call, add, advance, HasOwnTid, one_running,
}
use compute_kernel_python.Scheduler.Fair.{Turn, slices_of, no_starvation}

-- The first process, a shell, and a child of the shell that exits; a PID that nobody has.
abbrev calls : List Process.Runs.Call
calls =
    do_spawn "init" 0 0 0 "/sbin/init"
    ∷ do_spawn "sh" 2 1000 1000 "sh"
    ∷ do_spawn "ls" 3 1000 1000 "ls"
    ∷ do_remove 4
    ∷ do_remove 9
    ∷ []

abbrev processes : Process.ProcessTable
processes = Process.Runs.run calls Process.init

-- The PID of the child that exited is the next one to be used.
reused_pid : (Process.spawn "cat" 3 1000 1000 "cat" processes).0 ≡ 4
unfolding Process.spawn alloc_pid Process.remove free_pid get put Dict.adjust Dict.pop
reused_pid = refl

init_pid : (Process.spawn "init" 0 0 0 "/sbin/init" Process.init).0 ≡ 2
unfolding Process.spawn alloc_pid
init_pid = refl

run-IsValid_example :
    Process.Pids.IsValid (Process.Runs.run calls Process.init)
    × Process.Laws.IsFamily (Process.Runs.run calls Process.init).table
run-IsValid_example = run-IsValid calls

spawn_lem_example :
    (get (Process.spawn "cat" 3 1000 1000 "cat" processes).0 processes.table ≡ none)
    × (2 ≤ (Process.spawn "cat" 3 1000 1000 "cat" processes).0)
    × (get
          (Process.spawn "cat" 3 1000 1000 "cat" processes).0
          (Process.spawn "cat" 3 1000 1000 "cat" processes).1.table
        ≡ some (
            if 3 == (Process.spawn "cat" 3 1000 1000 "cat" processes).0
            then add_child
                (Process.spawn "cat" 3 1000 1000 "cat" processes).0
                (born "cat" 3 1000 1000 "cat" processes)
            else born "cat" 3 1000 1000 "cat" processes))
    × ((k : ℕ)
        → (k == (Process.spawn "cat" 3 1000 1000 "cat" processes).0) ≡ false
        → (k == 3) ≡ false
        → get k (Process.spawn "cat" 3 1000 1000 "cat" processes).1.table ≡ get k processes.table)
spawn_lem_example = spawn_lem "cat" 3 1000 1000 "cat" processes (run-IsValid calls).0

remove-spawn_example :
    get 3
      (Process.remove
        (Process.spawn "cat" 3 1000 1000 "cat" processes).0
        (Process.spawn "cat" 3 1000 1000 "cat" processes).1).table
    ≡ get 3 processes.table
remove-spawn_example =
    remove-spawn "cat" 3 1000 1000 "cat" processes (run-IsValid calls).0 (run-IsValid calls).1 3

-- Thread objects before any is made.
abbrev no_thread : ℕ → Thread
no_thread r = record {
  tid = r;
  pid = 0;
  name = "";
  state = runnable;
  context = cpu_context;
  timeslice = 2;
  remaining_ticks = 2;
  wait_reason = "";
  is_kernel_thread = false;
  cpu_affinity = negsuc 0;
  priority = 0;
}

abbrev made : Thread.Spawned
made = Thread.spawn 3 "main" 5 false Thread.init no_thread

made_tid : 1 ≡ (made.objects made.thread).tid
unfolding Thread.spawn alloc_tid
made_tid = refl

made-IsValid : Thread.Table.IsValid made.table made.objects
made-IsValid =
    let (a, b, c, d, e, f, g) =
      spawn_thread_lem 3 "main" 5 false Thread.init no_thread (Thread.Table.init-IsValid no_thread)
        1 made_tid in
    g

-- A thread is added to a new scheduler, and the first tick picks it.
abbrev started : Scheduler
started = (Scheduler.init Thread.init (new_scheduler no_thread)).1

abbrev with_one : Scheduler
with_one = add_thread 5 started

own_five : HasOwnTid 5 started
unfolding Scheduler.init new_scheduler Thread.spawn alloc_tid
own_five q h same = ground arith

reached : Reach started (tick with_one)
reached = then_call (advance with_one) (then_call (add 5 started own_five) no_call)

queued : has 5 (tick with_one).runqueue ≡ true
unfolding Scheduler.init new_scheduler Thread.spawn alloc_tid add_thread tick Scheduler.run_current
queued = refl

runs : is_running ((tick with_one).objects 5) ≡ true
unfolding Scheduler.init new_scheduler Thread.spawn alloc_tid add_thread tick Scheduler.run_current
runs = refl

one_running_example : (◌≡◌ {A = ℕ} 5 5) × ((tick with_one).current_thread ≡ some 5)
one_running_example =
    one_running Thread.init no_thread (tick with_one) reached 5 5 queued queued runs runs

-- Thread 5 has just got the processor, and 6 and 7 wait.
abbrev three : Scheduler
three = record {
  objects = no_thread;
  runqueue = 5 ∷ 6 ∷ 7 ∷ [];
  current_thread = some 5;
  idle_thread = some 0;
  tick_count = 8;
  context_switches = 2;
  blocked = [];
}

no_starvation_example :
    Turn 7
      ([] ++ (5 ∷ 6 ∷ []))
      (three.objects 7).timeslice
      (tick_n (slices_of three.objects (5 ∷ 6 ∷ [])) three)
no_starvation_example =
    no_starvation (5 ∷ 6 ∷ []) 7 [] three (record { queue = refl; now = refl; left = refl })
      ((omega arith), ((omega arith), tt))

-- ===== src/Scheduler/Reach.antt =====
-- Every state that calls on the scheduler reach, in any order.
use compute_kernel_python.Prelude.{ℕ, String, ◌≡◌, true, false, some, arith}
use compute_kernel_python.Prelude.Eq.{nat_eq}
use compute_kernel_python.Prelude.Ids.{has, has-snoc}
use compute_kernel_python.Thread.{Thread, Store, ThreadTable, update}
use compute_kernel_python.Scheduler.{
  Scheduler, new_scheduler, init, add_thread, remove_thread, block_thread, wake_thread, tick,
}
use compute_kernel_python.Scheduler.Running.{
  is_running, OneRunning, tick-OneRunning, add_thread-OneRunning, remove_thread-OneRunning,
  wake_thread-OneRunning, block_thread-OneRunning,
}
use compute_kernel_python.Scheduler.Tids.{
  known, Keeps, Keeps-tick, Keeps-remove_thread, Keeps-block_thread, Keeps-wake_thread,
}

-- No other thread that the scheduler knows has the TID of `r`.
abbrev pub HasOwnTid : ℕ → Scheduler → Type 0
HasOwnTid r s = (q : ℕ) → known q s ≡ true → (s.objects q).tid ≡ (s.objects r).tid → q ≡ r

-- One call on the scheduler. A thread that is added has a TID of its own, as the thread table
-- gives it out. An object that the scheduler does not know may change at any time, as when the
-- thread table makes a thread.
pub data Step : Scheduler → Scheduler → Type 0 where
  add : (r : ℕ) (s : Scheduler) → HasOwnTid r s → Step s (add_thread r s)
  remove : (tid : ℕ) (s : Scheduler) → Step s (remove_thread tid s)
  block : (tid : ℕ) (reason : String) (s : Scheduler) → Step s (block_thread tid reason s)
  wake : (tid : ℕ) (s : Scheduler) → Step s (wake_thread tid s)
  advance : (s : Scheduler) → Step s (tick s)
  outside :
      (r : ℕ) (f : Thread → Thread) (s : Scheduler)
      → known r s ≡ false
      → Step s (record s { objects = update r f s.objects })

-- The states after any number of calls, of which the last one stands outermost.
pub data Reach (start : Scheduler) : Scheduler → Type 0 where
  no_call : Reach start start
  then_call : {mid last : Scheduler} → Step mid last → Reach start mid → Reach start last

-- Two threads that the scheduler knows and that have one TID are one thread.
abbrev pub KnowsByTid : Scheduler → Type 0
KnowsByTid s =
    (r q : ℕ) → known r s ≡ true → known q s ≡ true → (s.objects q).tid ≡ (s.objects r).tid → q ≡ r

pub record IsValid (s : Scheduler) : Type 0 where
  pub own_tids : KnowsByTid s
  pub one_running : OneRunning s

Keeps-own_tids : {s s' : Scheduler} → Keeps s s' → KnowsByTid s → KnowsByTid s'
Keeps-own_tids keeps own r q hr hq same =
    own r q (keeps.knows r hr) (keeps.knows q hq) (ground (arith, keeps.tids q, keeps.tids r))

add-own_tids : (x : ℕ) (s : Scheduler) → HasOwnTid x s → KnowsByTid s → KnowsByTid (add_thread x s)
unfolding add_thread
add-own_tids x s mine own r q hr hq same =
    ground (arith, has-snoc r x s.runqueue, has-snoc q x s.runqueue, own r q, mine q, mine r)

Step-IsValid : {s t : Scheduler} → Step s t → IsValid s → IsValid t
Step-IsValid (add r s mine) v = record {
  own_tids = add-own_tids r s mine v.own_tids;
  one_running = add_thread-OneRunning r s v.one_running;
}
Step-IsValid (remove tid s) v = record {
  own_tids = Keeps-own_tids (Keeps-remove_thread tid s) v.own_tids;
  one_running = remove_thread-OneRunning tid s v.one_running;
}
Step-IsValid (block tid reason s) v = record {
  own_tids = Keeps-own_tids (Keeps-block_thread tid reason s) v.own_tids;
  one_running =
      block_thread-OneRunning tid reason s
        (λ q r hq hr same. v.own_tids r q (ground arith) (ground arith) same) v.one_running;
}
Step-IsValid (wake tid s) v = record {
  own_tids = Keeps-own_tids (Keeps-wake_thread tid s) v.own_tids;
  one_running = wake_thread-OneRunning tid s v.one_running;
}
Step-IsValid (advance s) v = record {
  own_tids = Keeps-own_tids (Keeps-tick s) v.own_tids;
  one_running = tick-OneRunning s v.one_running;
}
Step-IsValid (outside x f s unknown) v = record {
  own_tids = λ r q hr hq same. v.own_tids r q hr hq (ground arith);
  one_running = λ k h run. v.one_running k h (ground arith);
}

init-IsValid : (t : ThreadTable) (objects : Store) → IsValid (init t (new_scheduler objects)).1
unfolding init new_scheduler
init-IsValid t objects = record {
  own_tids = λ r q hr hq same. ground arith;
  one_running = λ k h run. absurd (cc);
}

Reach-IsValid : {s t : Scheduler} → IsValid s → Reach s t → IsValid t
Reach-IsValid v no_call = v
Reach-IsValid v (then_call st r) = Step-IsValid st (Reach-IsValid v r)

-- From a scheduler that was just initialised, whatever calls follow in whatever order, as long as
-- each thread that is added has a TID of its own and only the scheduler changes the threads that
-- it knows: if two queued threads are in the state RUNNING they are the same thread, and it is the
-- current one.
pub one_running :
    (t : ThreadTable) (objects : Store) (s : Scheduler)
    → Reach (init t (new_scheduler objects)).1 s
    → (q r : ℕ) → has q s.runqueue ≡ true
    → has r s.runqueue ≡ true
    → is_running (s.objects q) ≡ true
    → is_running (s.objects r) ≡ true
    → (q ≡ r) × (s.current_thread ≡ some q)
one_running t objects s reached q r hq hr runs_q runs_r =
    let v = Reach-IsValid (init-IsValid t objects) reached in
    ground (arith, v.one_running q hq runs_q, v.one_running r hr runs_r)

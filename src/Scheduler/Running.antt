-- ===== src/Scheduler/Running.antt =====
-- At most one queued thread is in the state RUNNING, and it is the current thread.
use compute_kernel_python.Prelude.{
  ℕ, String, ◌≡◌, refl, Bool, true, false, Option, none, some, List, [], ◌∷◌, ◌++◌, find, keep,
  if◌then◌else◌, arith, Bool-cases, Option-cases, inl, inr,
}
use compute_kernel_python.Prelude.Eq.{◌==◌, nat_eq}
use compute_kernel_python.Prelude.Ids.{has, has-snoc}
use compute_kernel_python.Process.{state_eq, running, runnable, sleep_int}
use compute_kernel_python.Thread.{Thread, Store, update}
use compute_kernel_python.Scheduler.{
  Scheduler, is_in, remove_item, add_thread, remove_thread, has_tid, block_thread, wake_thread,
  preempt, count_down, next_thread, rotate, run_current, pick, tick_current, tick_queue, tick,
}

abbrev pub is_running : Thread → Bool
is_running x = state_eq x.state running

-- Whatever queued thread runs is the current one.
abbrev pub OneRunning : Scheduler → Type 0
OneRunning s =
    (k : ℕ) → has k s.runqueue ≡ true → is_running (s.objects k) ≡ true → s.current_thread ≡ some k

pub has-remove_item :
    (objects : Store) (r k : ℕ) (queue : List ℕ)
    → has k (remove_item objects r queue) ≡ true
    → has k queue ≡ true
has-remove_item objects r k [] h = h
has-remove_item objects r k (q ∷ queue) h = ground (arith, has-remove_item objects r k queue)

pub has-is_in :
    (objects : Store) (r : ℕ) (queue : List ℕ) → is_in objects r queue ≡ false → has r queue ≡ false
has-is_in objects r [] h = refl
has-is_in objects r (q ∷ queue) h = ground (arith, has-is_in objects r queue)

pub has-keep :
    (p : ℕ → Bool) (k : ℕ) (queue : List ℕ) → has k (keep p queue) ≡ true → has k queue ≡ true
has-keep p k [] h = h
has-keep p k (q ∷ queue) h = ground (arith, has-keep p k queue)

pub find-has :
    (p : ℕ → Bool) (r : ℕ) (queue : List ℕ)
    → find p queue ≡ some r
    → (has r queue ≡ true) × (p r ≡ true)
find-has p r [] h = absurd (cc)
find-has p r (q ∷ queue) h = ground (arith, find-has p r queue)

next_thread-OneRunning :
    (queue : List ℕ) (s : Scheduler)
    → s.runqueue ≡ queue
    → ((k : ℕ) → has k queue ≡ true → is_running (s.objects k) ≡ false)
    → OneRunning (next_thread queue s)
next_thread-OneRunning [] s e quiet k h run = ground (arith, quiet k)
next_thread-OneRunning (q ∷ queue) s e quiet k h run = ground (arith, quiet k)

quiet_queue :
    (old : ℕ) (objects : Store) (queue : List ℕ)
    → ((k : ℕ) → has k queue ≡ true → is_running (objects k) ≡ true → k ≡ old)
    → (k : ℕ)
    → has k (
        if is_in (update old preempt objects) old queue
        then remove_item (update old preempt objects) old queue ++ old ∷ []
        else queue)
      ≡ true
    → is_running (update old preempt objects k) ≡ false
quiet_queue old objects queue only k h = elim (Bool-cases (k == old)) [
  | inl e ↦ ground arith
  | inr e ↦ ground (
    arith,
    has-snoc k old (remove_item (update old preempt objects) old queue),
    has-remove_item (update old preempt objects) old k queue,
    only k,
  )
]

rotate-OneRunning :
    (old : ℕ) (s : Scheduler)
    → ((k : ℕ) → has k s.runqueue ≡ true → is_running (s.objects k) ≡ true → k ≡ old)
    → OneRunning (rotate old s)
unfolding rotate
rotate-OneRunning old s only =
    next_thread-OneRunning _ _ refl (quiet_queue old s.objects s.runqueue only)

run_current-OneRunning :
    (r : ℕ) (s : Scheduler)
    → s.current_thread ≡ some r
    → ((k : ℕ) → has k s.runqueue ≡ true → is_running (s.objects k) ≡ true → k ≡ r)
    → OneRunning (run_current r s)
unfolding run_current
run_current-OneRunning r s now only =
    elim (Bool-cases ((update r count_down s.objects r).remaining_ticks == 0)) [
      | inl over ↦ rw over (
          rotate-OneRunning r (record s { objects = update r count_down s.objects })
            (λ k h run. only k h (ground arith)))
      | inr left ↦ rw left (λ k h run. ground (arith, only k h))
    ]

pick-OneRunning :
    (q : ℕ) (s : Scheduler)
    → ((k : ℕ) → has k s.runqueue ≡ true → is_running (s.objects k) ≡ false)
    → OneRunning (run_current q (pick q s))
pick-OneRunning q s quiet =
    run_current-OneRunning q (pick q s) refl (λ k h run. ground (arith, quiet k h))

tick_current-OneRunning :
    (o : Option ℕ) (q : ℕ) (s : Scheduler)
    → s.current_thread ≡ o
    → OneRunning s
    → OneRunning (tick_current o q s)
unfolding tick_current
tick_current-OneRunning none q s idle one = pick-OneRunning q s (λ k h. ground (arith, one k h))
tick_current-OneRunning (some r) q s now one = elim (Bool-cases (is_in s.objects r s.runqueue)) [
  | inl here ↦ rw here (run_current-OneRunning r s now (λ k h run. ground (arith, one k h run)))
  | inr gone ↦
      rw gone (
        pick-OneRunning q s (λ k h. ground (arith, one k h, has-is_in s.objects r s.runqueue gone)))
]

tick_queue-OneRunning :
    (queue : List ℕ) (s : Scheduler)
    → s.runqueue ≡ queue
    → OneRunning s
    → OneRunning (tick_queue queue s)
unfolding tick_queue
tick_queue-OneRunning [] s e one = λ k h run. absurd (ground arith)
tick_queue-OneRunning (q ∷ queue) s e one = tick_current-OneRunning s.current_thread q s refl one

-- A tick keeps the running thread the only one, also where it changes which one that is.
pub tick-OneRunning : (s : Scheduler) → OneRunning s → OneRunning (tick s)
unfolding tick
tick-OneRunning s one = tick_queue-OneRunning s.runqueue _ refl one

pub add_thread-OneRunning : (r : ℕ) (s : Scheduler) → OneRunning s → OneRunning (add_thread r s)
unfolding add_thread
add_thread-OneRunning r s one =
    elim (Bool-cases
      (is_in (update r (λ x. record x { state = runnable }) s.objects) r s.runqueue)) [
        | inl old ↦ rw old (λ k h run. ground (arith, one k h))
        | inr fresh ↦ rw fresh (λ k h run. ground (arith, one k, has-snoc k r s.runqueue))
      ]

pub remove_thread-OneRunning :
    (tid : ℕ) (s : Scheduler) → OneRunning s → OneRunning (remove_thread tid s)
unfolding remove_thread
remove_thread-OneRunning tid s one k h run = one k (has-keep _ k s.runqueue h) run

pub wake_thread-OneRunning :
    (tid : ℕ) (s : Scheduler) → OneRunning s → OneRunning (wake_thread tid s)
unfolding wake_thread
wake_thread-OneRunning tid s one = elim (Option-cases (find (has_tid s.objects tid) s.blocked)) [
  | inl e ↦ rw (e, wake_thread) one
  | inr (r, e) ↦ rw (e, wake_thread) (λ k h run. ground (arith, one k, has-snoc k r s.runqueue))
]

-- Two queued threads with one TID are one thread.
abbrev pub OwnTids : Scheduler → Type 0
OwnTids s =
    (q r : ℕ)
    → has q s.runqueue ≡ true
    → has r s.runqueue ≡ true
    → (s.objects q).tid ≡ (s.objects r).tid
    → q ≡ r

pub block_thread-OneRunning :
    (tid : ℕ) (reason : String) (s : Scheduler)
    → OwnTids s
    → OneRunning s
    → OneRunning (block_thread tid reason s)
unfolding block_thread
block_thread-OneRunning tid reason s own one =
    elim (Option-cases (find (has_tid s.objects tid) s.runqueue)) [
      | inl e ↦ rw (e, block_thread) one
      | inr (r, e) ↦
          rw (e, block_thread)
            (λ k h run.
              let kept =
                has-remove_item
                  (update r (λ x. record x { state = sleep_int; wait_reason = reason }) s.objects) r
                  k s.runqueue h in
              ground (
                arith,
                kept,
                one k kept,
                own k r kept,
                find-has (has_tid s.objects tid) r s.runqueue e,
              ))
    ]

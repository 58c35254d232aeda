-- ===== src/Scheduler/Tids.antt =====
-- The threads that the scheduler knows keep their TIDs, and no operation but `add_thread` brings a
-- new one.
use compute_kernel_python.Prelude.{
  ℕ, String, ◌≡◌, refl, Bool, true, false, not, ◌||◌, Option, none, some, List, [], ◌∷◌, ◌++◌, find,
  if◌then◌else◌, arith, Bool-cases, Option-cases, inl, inr,
}
use compute_kernel_python.Prelude.Eq.{◌==◌, nat_eq}
use compute_kernel_python.Prelude.Ids.{has, has-snoc}
use compute_kernel_python.Process.{runnable, sleep_int}
use compute_kernel_python.Thread.{update}
use compute_kernel_python.Scheduler.{
  Scheduler, is_in, remove_item, remove_thread, has_tid, block_thread, wake_thread, preempt,
  count_down, next_thread, rotate, run_current, pick, tick_current, tick_queue, tick,
}
use compute_kernel_python.Scheduler.Running.{find-has, has-remove_item, has-keep}

abbrev pub is_ref : ℕ → Option ℕ → Bool
is_ref k none = false
is_ref k (some r) = r == k

-- The scheduler holds a reference to the thread.
abbrev pub known : ℕ → Scheduler → Bool
known k s =
    has k s.runqueue || has k s.blocked || is_ref k s.current_thread || is_ref k s.idle_thread

-- After the change the scheduler knows no thread that it did not know, and TIDs and time slices are
-- as before.
pub record Keeps (s s' : Scheduler) : Type 0 where
  pub knows : (k : ℕ) → known k s' ≡ true → known k s ≡ true
  pub tids : (k : ℕ) → (s'.objects k).tid ≡ (s.objects k).tid
  pub slices : (k : ℕ) → (s'.objects k).timeslice ≡ (s.objects k).timeslice

pub Keeps-refl : (s : Scheduler) → Keeps s s
Keeps-refl s = record { knows = λ k h. h; tids = λ k. refl; slices = λ k. refl }

Keeps-trans : {s t u : Scheduler} → Keeps s t → Keeps t u → Keeps s u
Keeps-trans a b = record {
  knows = λ k h. a.knows k (b.knows k h);
  tids = λ k. ground (arith, a.tids k, b.tids k);
  slices = λ k. ground (arith, a.slices k, b.slices k);
}

Keeps-next_thread :
    (queue : List ℕ) (s : Scheduler) → s.runqueue ≡ queue → Keeps s (next_thread queue s)
Keeps-next_thread [] s e = record {
  knows = λ k h. ground arith;
  tids = λ k. refl;
  slices = λ k. refl;
}
Keeps-next_thread (q ∷ queue) s e = record {
  knows = λ k h. ground arith;
  tids = λ k. ground arith;
  slices = λ k. ground arith;
}

Keeps-rotate : (old : ℕ) (s : Scheduler) → known old s ≡ true → Keeps s (rotate old s)
unfolding rotate
Keeps-rotate old s own = Keeps-trans moved (Keeps-next_thread _ _ refl)
  where
    queue : List ℕ
    queue =
        if is_in (update old preempt s.objects) old s.runqueue
        then remove_item (update old preempt s.objects) old s.runqueue ++ old ∷ []
        else s.runqueue

    moved : Keeps s (record s { objects = update old preempt s.objects; runqueue = queue })
    moved = record {
      knows = λ k h. ground (
        arith,
        own,
        has-snoc k old (remove_item (update old preempt s.objects) old s.runqueue),
        has-remove_item (update old preempt s.objects) old k s.runqueue,
      );
      tids = λ k. ground arith;
      slices = λ k. ground arith;
    }

Keeps-run_current : (r : ℕ) (s : Scheduler) → known r s ≡ true → Keeps s (run_current r s)
unfolding run_current
Keeps-run_current r s own =
    elim (Bool-cases ((update r count_down s.objects r).remaining_ticks == 0)) [
      | inl over ↦ rw over (Keeps-trans counted (Keeps-rotate r _ own))
      | inr left ↦ rw left counted
    ]
  where
    counted : Keeps s (record s { objects = update r count_down s.objects })
    counted = record { knows = λ k h. h; tids = λ k. ground arith; slices = λ k. ground arith }

Keeps-pick : (q : ℕ) (s : Scheduler) → has q s.runqueue ≡ true → Keeps s (run_current q (pick q s))
Keeps-pick q s here =
    Keeps-trans
      (record { knows = λ k h. ground arith; tids = λ k. ground arith; slices = λ k. ground arith })
      (Keeps-run_current q (pick q s) (ground arith))

Keeps-tick_current :
    (o : Option ℕ) (q : ℕ) (s : Scheduler)
    → s.current_thread ≡ o
    → has q s.runqueue ≡ true
    → Keeps s (tick_current o q s)
unfolding tick_current
Keeps-tick_current none q s e here = Keeps-pick q s here
Keeps-tick_current (some r) q s e here = elim (Bool-cases (is_in s.objects r s.runqueue)) [
  | inl stay ↦ rw stay (Keeps-run_current r s (ground arith))
  | inr gone ↦ rw gone (Keeps-pick q s here)
]

Keeps-tick_queue :
    (queue : List ℕ) (s : Scheduler) → s.runqueue ≡ queue → Keeps s (tick_queue queue s)
unfolding tick_queue
Keeps-tick_queue [] s e = record {
  knows = λ k h. ground arith;
  tids = λ k. refl;
  slices = λ k. refl;
}
Keeps-tick_queue (q ∷ queue) s e = Keeps-tick_current s.current_thread q s refl (ground arith)

pub Keeps-tick : (s : Scheduler) → Keeps s (tick s)
unfolding tick
Keeps-tick s =
    Keeps-trans (record { knows = λ k h. h; tids = λ k. refl; slices = λ k. refl })
      (Keeps-tick_queue s.runqueue (record s { tick_count = _ }) refl)

pub Keeps-remove_thread : (tid : ℕ) (s : Scheduler) → Keeps s (remove_thread tid s)
unfolding remove_thread
Keeps-remove_thread tid s = record {
  knows = λ k h. ground (arith, has-keep (λ q. not ((s.objects q).tid == tid)) k s.runqueue);
  tids = λ k. refl;
  slices = λ k. refl;
}

pub Keeps-block_thread :
    (tid : ℕ) (reason : String) (s : Scheduler) → Keeps s (block_thread tid reason s)
unfolding block_thread
Keeps-block_thread tid reason s = elim (Option-cases (find (has_tid s.objects tid) s.runqueue)) [
  | inl e ↦ rw (e, block_thread) (Keeps-refl s)
  | inr (r, e) ↦
      rw (e, block_thread)
        (record {
          knows = λ k h. ground (
            arith,
            find-has (has_tid s.objects tid) r s.runqueue e,
            has-snoc k r s.blocked,
            has-remove_item
                (update r (λ x. record x { state = sleep_int; wait_reason = reason }) s.objects) r k
                s.runqueue,
          );
          tids = λ k. ground arith;
          slices = λ k. ground arith;
        })
]

pub Keeps-wake_thread : (tid : ℕ) (s : Scheduler) → Keeps s (wake_thread tid s)
unfolding wake_thread
Keeps-wake_thread tid s = elim (Option-cases (find (has_tid s.objects tid) s.blocked)) [
  | inl e ↦ rw (e, wake_thread) (Keeps-refl s)
  | inr (r, e) ↦
      rw (e, wake_thread)
        (record {
          knows = λ k h. ground (
            arith,
            find-has (has_tid s.objects tid) r s.blocked e,
            has-snoc k r s.runqueue,
            has-remove_item
                (update r (λ x. record x { state = runnable; wait_reason = "" }) s.objects) r k
                s.blocked,
          );
          tids = λ k. ground arith;
          slices = λ k. ground arith;
        })
]

-- ===== src/Scheduler/Fair.antt =====
-- Round robin: every queued thread gets its turn.
use compute_kernel_python.Prelude.{
  ℕ, zero, suc, ◌+◌, ◌-◌, ◌<◌, ◌≡◌, refl, sym, ap, some, List, [], ◌∷◌, ◌++◌, arith, ◌∙◌,
}
use mathlib.Core.List.{append_assoc, append-nil}
use compute_kernel_python.Prelude.Eq.{nat_eq}
use compute_kernel_python.Thread.{Store}
use compute_kernel_python.Scheduler.{Scheduler, rotate, run_current, tick, tick_n}
use compute_kernel_python.Scheduler.Tids.{Keeps-tick}

-- The head of the queue is the current thread, with `m` ticks left.
pub record Turn (r : ℕ) (rest : List ℕ) (m : ℕ) (s : Scheduler) : Type 0 where
  pub queue : s.runqueue ≡ r ∷ rest
  pub now : s.current_thread ≡ some r
  pub left : (s.objects r).remaining_ticks ≡ m

Turn-tick :
    (r : ℕ) (rest : List ℕ) (m : ℕ) (s : Scheduler)
    → Turn r rest (suc (suc m)) s
    → Turn r rest (suc m) (tick s)
unfolding tick run_current
Turn-tick r rest m s t = record {
  queue = ground (arith, t.queue, t.now, t.left);
  now = ground (arith, t.queue, t.now, t.left);
  left = ground (arith, t.queue, t.now, t.left);
}

Turn-expire :
    (r : ℕ) (rest : List ℕ) (q : ℕ) (qs : List ℕ) (s : Scheduler)
    → Turn r rest 1 s
    → rest ++ r ∷ [] ≡ q ∷ qs
    → Turn q qs (s.objects q).timeslice (tick s)
unfolding tick run_current rotate
Turn-expire r rest q qs s t e = record {
  queue = ground (arith, t.queue, t.now, t.left);
  now = ground (arith, t.queue, t.now, t.left);
  left = ground (arith, t.queue, t.now, t.left);
}

-- The head keeps the processor for what is left of its slice, and then goes to the end.
Turn-finish :
    (m r : ℕ) (rest : List ℕ) (q : ℕ) (qs : List ℕ) (s : Scheduler)
    → Turn r rest (suc m) s
    → rest ++ r ∷ [] ≡ q ∷ qs
    → Turn q qs (s.objects q).timeslice (tick_n (suc m) s)
unfolding tick_n
Turn-finish zero r rest q qs s t e = Turn-expire r rest q qs s t e
Turn-finish (suc m) r rest q qs s t e =
    let later = Turn-finish m r rest q qs (tick s) (Turn-tick r rest m s t) e in
    record {
      queue = later.queue;
      now = later.now;
      left = ground (arith, later.left, (Keeps-tick s).slices q);
    }

slices-tick_n :
    (n k : ℕ) (s : Scheduler) → ((tick_n n s).objects k).timeslice ≡ (s.objects k).timeslice
unfolding tick_n
slices-tick_n zero k s = refl
slices-tick_n (suc n) k s = slices-tick_n n k (tick s) ∙ (Keeps-tick s).slices k

tick_n-add : (n m : ℕ) (s : Scheduler) → tick_n (n + m) s ≡ tick_n m (tick_n n s)
unfolding tick_n
tick_n-add zero m s = let e : 0 + m ≡ m = omega arith in rw e
tick_n-add (suc n) m s =
    let e : suc n + m ≡ suc (n + m) = omega arith in
    ap (λ k. tick_n k s) e ∙ tick_n-add n m (tick s)

-- The ticks of one slice of each of the given threads.
abbrev pub slices_of : Store → List ℕ → ℕ
slices_of objects [] = 0
slices_of objects (r ∷ rs) = (objects r).timeslice + slices_of objects rs

-- Every given thread has a slice of at least one tick.
abbrev pub Sliced : Store → List ℕ → Type 0
Sliced objects [] = Unit
Sliced objects (r ∷ rs) = (0 < (objects r).timeslice) × Sliced objects rs

slices_of-same :
    (objects after : Store) (rs : List ℕ)
    → ((k : ℕ) → (after k).timeslice ≡ (objects k).timeslice)
    → (slices_of after rs ≡ slices_of objects rs) × (Sliced objects rs → Sliced after rs)
slices_of-same objects after [] same = (refl, λ h. tt)
slices_of-same objects after (r ∷ rs) same =
    let (sums, sliced) = slices_of-same objects after rs same in
    (ground (arith, sums, same r), λ h. (ground (arith, same r), sliced h.1))

-- Head and tail of `xs ++ r ∷ ys`.
abbrev pub head_or : List ℕ → ℕ → ℕ
head_or [] r = r
head_or (x ∷ xs) r = x

abbrev pub tail_or : List ℕ → ℕ → List ℕ → List ℕ
tail_or [] r ys = ys
tail_or (x ∷ xs) r ys = xs ++ r ∷ ys

head_or-tail_or :
    (xs : List ℕ) (r : ℕ) (ys : List ℕ) → xs ++ r ∷ ys ≡ head_or xs r ∷ tail_or xs r ys
head_or-tail_or [] r ys = refl
head_or-tail_or (x ∷ xs) r ys = refl

-- If the head of the queue `xs ++ r ∷ ys` is current and has its whole slice before it, and each
-- thread of `xs` has a slice of at least one tick, then after the ticks of one slice of each
-- thread of `xs`, with no other call between them, it is the turn of `r`: it is current, has its
-- whole slice before it, and the queue is `r ∷ ys ++ xs`.
pub no_starvation :
    (xs : List ℕ) (r : ℕ) (ys : List ℕ) (s : Scheduler)
    → Turn (head_or xs r) (tail_or xs r ys) (s.objects (head_or xs r)).timeslice s
    → Sliced s.objects xs
    → Turn r (ys ++ xs) (s.objects r).timeslice (tick_n (slices_of s.objects xs) s)
unfolding tick_n
no_starvation [] r ys s t sliced = record {
  queue = t.queue ∙ ap (λ l. r ∷ l) (sym (append-nil ys));
  now = t.now;
  left = t.left;
}
no_starvation (a ∷ xs) r ys s t sliced =
    let m = (s.objects a).timeslice - 1 in
    let full : (s.objects a).timeslice ≡ suc m = omega arith in
    let s' = tick_n (suc m) s in
    let turned =
      Turn-finish m a (xs ++ r ∷ ys) (head_or xs r) (tail_or xs r (ys ++ a ∷ [])) s
        (record { queue = t.queue; now = t.now; left = t.left ∙ full })
        (append_assoc xs (r ∷ ys) (a ∷ []) ∙ head_or-tail_or xs r (ys ++ a ∷ [])) in
    let (sums, keeps) = slices_of-same s.objects s'.objects xs (λ k. slices-tick_n (suc m) k s) in
    let rest =
      no_starvation xs r (ys ++ a ∷ []) s'
        (record {
          queue = turned.queue;
          now = turned.now;
          left = turned.left ∙ sym (slices-tick_n (suc m) (head_or xs r) s);
        })
        (keeps sliced.1) in
    let same : tick_n (slices_of s.objects (a ∷ xs)) s ≡ tick_n (slices_of s'.objects xs) s' =
      ap (λ k. tick_n (k + slices_of s.objects xs) s) full
      ∙ tick_n-add (suc m) (slices_of s.objects xs) s
      ∙ ap (λ k. tick_n k s') (sym sums) in
    rw same (record {
      queue = rest.queue ∙ ap (λ l. r ∷ l) (append_assoc ys (a ∷ []) xs);
      now = rest.now;
      left = rest.left ∙ slices-tick_n (suc m) r s;
    })

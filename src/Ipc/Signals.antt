-- ===== src/Ipc/Signals.antt =====
-- Which signals are kept for a process, and in which order it gets them.
use compute_kernel_python.Prelude.{
  ℕ, zero, suc, ◌+◌, ◌≡◌, refl, sym, ap, Bool, true, not, ◌&&◌, ◌||◌, none, some, List, [], ◌∷◌,
  ◌++◌, length, keep, any, arith, ◌∙◌, length-append, Bool-cases, inl, inr,
}
use mathlib.Core.List.{append-nil, append_assoc}
use compute_kernel_python.Prelude.Eq.{◌==◌, nat_eq}
use compute_kernel_python.Ipc.{
  Signal, sigkill, sigstop, number, signal_eq, SignalTable, is_blocked, is_forced, send, dequeue,
  block, unblock,
}

abbrev pub send_all : List Signal → SignalTable → SignalTable
send_all [] t = t
send_all (sig ∷ sigs) t = send_all sigs (send sig t)

-- What `n` calls of `next_signal` return, where they return a signal.
pub dequeued : ℕ → SignalTable → List Signal
dequeued zero t = []
dequeued (suc n) t = elim (dequeue t).0 [ none ↦ [] | some sig ↦ sig ∷ dequeued n (dequeue t).1 ]

abbrev pub is_deliverable : SignalTable → Signal → Bool
is_deliverable t sig = not (is_blocked sig t) || is_forced sig

pending-send_all :
    (sigs : List Signal) (t : SignalTable)
    → send_all sigs t ≡ record t { pending = t.pending ++ keep (is_deliverable t) sigs }
unfolding send
pending-send_all [] t =
    ap (λ (l : List Signal). record t { pending = l }) (sym (append-nil t.pending))
pending-send_all (sig ∷ sigs) t = ground (
  arith,
  pending-send_all sigs (send sig t),
  append_assoc t.pending (sig ∷ []) (keep (is_deliverable t) sigs),
)

dequeued_none : (more : ℕ) (t : SignalTable) → t.pending ≡ [] → dequeued more t ≡ []
unfolding dequeued dequeue
dequeued_none zero t e = refl
dequeued_none (suc more) t e = rw (dequeued, e) refl

dequeued-pending :
    (sigs : List Signal) (more : ℕ) (t : SignalTable)
    → t.pending ≡ sigs
    → dequeued (length sigs + more) t ≡ sigs
unfolding dequeued dequeue
dequeued-pending [] more t e =
    let all : 0 + more ≡ more = omega arith in ap (λ n. dequeued n t) all ∙ dequeued_none more t e
dequeued-pending (sig ∷ sigs) more t e =
    let next : length (sig ∷ sigs) + more ≡ suc (length sigs + more) = omega arith in
    let later = dequeued-pending sigs more (record t { pending = sigs }) refl in
    ap (λ n. dequeued n t) next ∙ ground (arith, e, later)

pub dequeued-send_all :
    (sigs : List Signal) (more : ℕ) (t : SignalTable)
    → dequeued (length t.pending + length (keep (is_deliverable t) sigs) + more) (send_all sigs t)
      ≡ t.pending ++ keep (is_deliverable t) sigs
dequeued-send_all sigs more t =
    let kept = t.pending ++ keep (is_deliverable t) sigs in
    ap (λ n. dequeued (n + more) (send_all sigs t))
      (sym (length-append t.pending (keep (is_deliverable t) sigs)))
    ∙ dequeued-pending kept more (send_all sigs t)
        (ap (λ (u : SignalTable). u.pending) (pending-send_all sigs t))

-- One change of the mask.
pub data Change : Type 0 where
  do_block do_unblock : Signal → Change

abbrev pub change : Change → SignalTable → SignalTable
change (do_block sig) t = block sig t
change (do_unblock sig) t = unblock sig t

abbrev pub change_all : List Change → SignalTable → SignalTable
change_all [] t = t
change_all (c ∷ cs) t = change_all cs (change c t)

-- The last change that names the signal decides.
abbrev pub mask_after : Signal → List Change → Bool → Bool
mask_after s [] b = b
mask_after s (do_block sig ∷ cs) b = mask_after s cs (signal_eq s sig || b)
mask_after s (do_unblock sig ∷ cs) b = mask_after s cs (not (signal_eq sig s) && b)

-- Tests of items by a number, which two items may share.
module _ {A : Type 0} (f : A → ℕ) (a b : A) where
  any-keep :
      (l : List A)
      → any (λ x. f a == f x) (keep (λ x. not (f b == f x)) l)
        ≡ (not (f b == f a) && any (λ x. f a == f x) l)
  any-keep [] = ground arith
  any-keep (x ∷ l) = ground (arith, any-keep l)

  any-same : (l : List A) → f a ≡ f b → any (λ x. f a == f x) l ≡ any (λ x. f b == f x) l
  any-same [] e = refl
  any-same (x ∷ l) e = ground (arith, any-same l e)

is_blocked-block :
    (s sig : Signal) (t : SignalTable)
    → is_blocked s (block sig t) ≡ (signal_eq s sig || is_blocked s t)
unfolding block
is_blocked-block s sig t = ground (arith, any-same number s sig t.blocked)

is_blocked-unblock :
    (s sig : Signal) (t : SignalTable)
    → is_blocked s (unblock sig t) ≡ (not (signal_eq sig s) && is_blocked s t)
unfolding unblock
is_blocked-unblock s sig t = any-keep number s sig t.blocked

pending-change : (c : Change) (t : SignalTable) → (change c t).pending ≡ t.pending
unfolding block unblock
pending-change (do_block sig) t = ground arith
pending-change (do_unblock sig) t = refl

pending-change_all : (cs : List Change) (t : SignalTable) → (change_all cs t).pending ≡ t.pending
pending-change_all [] t = refl
pending-change_all (c ∷ cs) t = pending-change_all cs (change c t) ∙ pending-change c t

is_blocked-mask :
    (s : Signal) (cs : List Change) (t : SignalTable)
    → is_blocked s (change_all cs t) ≡ mask_after s cs (is_blocked s t)
is_blocked-mask s [] t = refl
is_blocked-mask s (do_block sig ∷ cs) t =
    is_blocked-mask s cs (block sig t) ∙ ap (mask_after s cs) (is_blocked-block s sig t)
is_blocked-mask s (do_unblock sig ∷ cs) t =
    is_blocked-mask s cs (unblock sig t) ∙ ap (mask_after s cs) (is_blocked-unblock s sig t)

pending-send_forced :
    (sig : Signal) (t : SignalTable)
    → is_forced sig ≡ true
    → (send sig t).pending ≡ t.pending ++ sig ∷ []
unfolding send
pending-send_forced sig t f = elim (Bool-cases (is_blocked sig t)) [
  | inl e ↦ rw (e, f)
  | inr e ↦ rw e
]

-- After any changes of the mask a signal is blocked exactly if the last change that names it, or
-- the mask before where none does, blocks it; SIGKILL and SIGSTOP are delivered all the same.
is_blocked-change_all :
    (s : Signal) (cs : List Change) (t : SignalTable)
    → (is_blocked s (change_all cs t) ≡ mask_after s cs (is_blocked s t))
      × ((send sigkill (change_all cs t)).pending ≡ t.pending ++ sigkill ∷ [])
      × ((send sigstop (change_all cs t)).pending ≡ t.pending ++ sigstop ∷ [])
is_blocked-change_all s cs t =
    let same = pending-change_all cs t in
    (
      is_blocked-mask s cs t,
      pending-send_forced sigkill (change_all cs t) refl ∙ ap (λ l. l ++ sigkill ∷ []) same,
      pending-send_forced sigstop (change_all cs t) refl ∙ ap (λ l. l ++ sigstop ∷ []) same,
    )

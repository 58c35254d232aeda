-- ===== src/Process/Pids.antt =====
-- The PIDs in use and the ones that wait to be used again.
use compute_kernel_python.Prelude.{
  ℕ, ◌≤◌, String, ◌≡◌, refl, Bool, true, false, ◌||◌, none, some, List, [], ◌∷◌, ltb, if◌then◌else◌,
  arith, Bool-cases, Option-cases, inl, inr, ltb→lt, ◌∙◌,
}
use compute_kernel_python.Prelude.Eq.{◌==◌, nat_eq}
use compute_kernel_python.Prelude.Ids.{
  Sound, Sound-take_next, Sound-take_spare, Sound-return, Sound-drop, Sound-same,
}
use compute_kernel_python.Prelude.Dict.{
  Dict, get, put, pop, adjust, has_key, get-put, get-pop, get-adjust, has_key-put, has_key-pop,
  has_key-adjust, has_key-get, get-none,
}
use compute_kernel_python.Process.{
  Process, PidAllocator, ProcessTable, alloc_pid, free_pid, init, add_child, drop_child, spawn,
  remove,
}

abbrev pub Keyed : Dict ℕ Process → Type 0
Keyed d = (k : ℕ) (p : Process) → get k d ≡ some p → p.pid ≡ k

Keyed-put :
    (pid : ℕ) (p : Process) (d : Dict ℕ Process) → p.pid ≡ pid → Keyed d → Keyed (put pid p d)
Keyed-put pid p d same v k q h = ground (arith, get-put pid k p d, v k q)

Keyed-pop : (pid : ℕ) (d : Dict ℕ Process) → Keyed d → Keyed (pop pid d)
Keyed-pop pid d v k q h = ground (arith, get-pop pid k d, v k q)

Keyed-adjust :
    (pid : ℕ) (f : Process → Process) (d : Dict ℕ Process)
    → ((p : Process) → (f p).pid ≡ p.pid)
    → Keyed d
    → Keyed (adjust pid f d)
Keyed-adjust pid f d same v k q h = elim (Option-cases (get k d)) [
  | inl e ↦ absurd (ground (arith, get-adjust pid k f d))
  | inr (p, e) ↦ ground (arith, get-adjust pid k f d, v k p, same p)
]

drop_child-pid : (pid : ℕ) (p : Process) → (drop_child pid p).pid ≡ p.pid
drop_child-pid pid p = ground arith

-- PIDs from 2 on are in use or wait to be used again, and never both; no PID that was given out is
-- lost; and every process stands at its own PID.
pub record IsValid (s : ProcessTable) : Type 0 where
  pub sound : Sound 2 s.pids.next_pid s.pids.free_pids (λ k. has_key k s.table)
  pub keyed : Keyed s.table

pub init-IsValid : IsValid init
unfolding has_key get
init-IsValid = record {
  sound = record {
    low = omega arith;
    live_below = λ k h. ground arith;
    spare_low = λ k h. absurd (cc);
    spare_below = λ k h. absurd (cc);
    spare_free = λ k h. absurd (cc);
    distinct = tt;
    complete = λ k l b h. absurd (omega arith);
  };
  keyed = λ k p h. ground arith;
}

module _ (next : ℕ) (spare : List ℕ) where
  abbrev allocator : PidAllocator
  allocator = record { next_pid = next; free_pids = spare }

-- What the allocator gives out is not in use, and is counted as used afterwards.
alloc_pid-Sound :
    (next : ℕ) (spare : List ℕ) (live after : ℕ → Bool)
    → Sound 2 next spare live
    → ((k : ℕ) → after k ≡ ((alloc_pid (allocator next spare)).0 == k || live k))
    → Sound 2
        (alloc_pid (allocator next spare)).1.next_pid
        (alloc_pid (allocator next spare)).1.free_pids
        after
unfolding alloc_pid
alloc_pid-Sound next [] live after s e = Sound-take_next s e
alloc_pid-Sound next (x ∷ spare) live after s e = Sound-take_spare x spare s e

alloc_pid-fresh :
    (next : ℕ) (spare : List ℕ) (live : ℕ → Bool)
    → Sound 2 next spare live
    → (live (alloc_pid (allocator next spare)).0 ≡ false)
      × (2 ≤ (alloc_pid (allocator next spare)).0)
unfolding alloc_pid
alloc_pid-fresh next [] live s = (ground (arith, s.live_below next), s.low)
alloc_pid-fresh next (x ∷ spare) live s =
    (ground (arith, s.spare_free x), ground (arith, s.spare_low x))

free_pid-Sound :
    (x next : ℕ) (spare : List ℕ) (live after : ℕ → Bool)
    → Sound 2 next spare live
    → live x ≡ true
    → ((k : ℕ) → after k ≡ (if x == k then false else live k))
    → Sound 2
        (free_pid x (allocator next spare)).next_pid
        (free_pid x (allocator next spare)).free_pids
        after
unfolding free_pid
free_pid-Sound x next spare live after s h e = elim (Bool-cases (ltb 1 x)) [
  | inl high ↦ rw high (Sound-return x spare s (ltb→lt 1 x high) h e)
  | inr low ↦ rw low (Sound-drop x spare s (ground arith) e)
]

module _ (name : String) (ppid uid gid : ℕ) (cmdline : String) (s : ProcessTable)
    (v : IsValid s) where
  -- `spawn` gives a PID that no process has; it is never 0 or 1.
  pub spawn-fresh :
      (get (spawn name ppid uid gid cmdline s).0 s.table ≡ none)
      × (2 ≤ (spawn name ppid uid gid cmdline s).0)
  unfolding spawn
  spawn-fresh =
      let (unused, high) = alloc_pid-fresh s.pids.next_pid s.pids.free_pids _ v.sound in
      (get-none _ s.table unused, high)

  pub spawn-IsValid : IsValid (spawn name ppid uid gid cmdline s).1
  unfolding spawn
  spawn-IsValid = record {
    sound =
        alloc_pid-Sound s.pids.next_pid s.pids.free_pids _ _ v.sound
          (λ k. has_key-adjust ppid k _ _ ∙ has_key-put _ k _ s.table);
    keyed = Keyed-adjust ppid (add_child _) _ (λ p. refl) (Keyed-put _ _ s.table refl v.keyed);
  }

pub remove-IsValid : (pid : ℕ) (s : ProcessTable) → IsValid s → IsValid (remove pid s)
unfolding remove
remove-IsValid pid s v = elim (Option-cases (get pid s.table)) [
  | inl e ↦ rw (e, remove) v
  | inr (p, e) ↦
      rw (e, remove)
        (record {
          sound =
              free_pid-Sound pid s.pids.next_pid s.pids.free_pids _ _ v.sound
                (has_key-get pid p s.table e)
                (λ k. has_key-adjust p.ppid k _ _ ∙ has_key-pop pid k s.table);
          keyed =
              Keyed-adjust p.ppid (drop_child pid) _ (drop_child-pid pid)
                (Keyed-pop pid s.table v.keyed);
        })
]

-- A change of one process's other fields, as `execve` and `exit` make them.
pub adjust-IsValid :
    (pid : ℕ) (f : Process → Process) (s : ProcessTable)
    → ((p : Process) → (f p).pid ≡ p.pid)
    → IsValid s
    → IsValid (record s { table = adjust pid f s.table })
adjust-IsValid pid f s same v = record {
  sound = Sound-same v.sound (λ k. has_key-adjust pid k f s.table);
  keyed = Keyed-adjust pid f s.table same v.keyed;
}

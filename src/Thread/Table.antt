-- ===== src/Thread/Table.antt =====
-- The thread table gives every live thread a TID of its own and loses no TID.
use compute_kernel_python.Prelude.{
  ℕ, ◌≤◌, ◌<◌, String, ◌≡◌, Bool, true, false, ◌||◌, none, some, List, [], ◌∷◌, if◌then◌else◌,
  arith, Option-cases, inl, inr,
}
use compute_kernel_python.Prelude.Eq.{◌==◌, nat_eq}
use compute_kernel_python.Prelude.Ids.{Sound, Sound-take_next, Sound-take_spare, Sound-return}
use compute_kernel_python.Prelude.Dict.{
  get, has_key, get-put, get-pop, has_key-put, has_key-pop, has_key-get, get-none,
}
use compute_kernel_python.Thread.{
  Store, TidAllocator, ThreadTable, Spawned, alloc_tid, free_tid, init, spawn, remove,
}

-- TIDs from 1 on are in use or wait to be used again, never both and none lost; the object of a
-- live thread was made before `next_ref` and has the TID at which it stands.
pub record IsValid (t : ThreadTable) (objects : Store) : Type 0 where
  pub sound : Sound 1 t.tids.next_tid t.tids.free_tids (λ k. has_key k t.threads)
  pub low : (k : ℕ) → has_key k t.threads ≡ true → 1 ≤ k
  pub made : (k r : ℕ) → get k t.threads ≡ some r → r < t.next_ref
  pub named : (k r : ℕ) → get k t.threads ≡ some r → (objects r).tid ≡ k

pub init-IsValid : (objects : Store) → IsValid init objects
unfolding has_key get
init-IsValid objects = record {
  sound = record {
    low = omega arith;
    live_below = λ k h. absurd (cc);
    spare_low = λ k h. absurd (cc);
    spare_below = λ k h. absurd (cc);
    spare_free = λ k h. absurd (cc);
    distinct = tt;
    complete = λ k l b h. absurd (omega arith);
  };
  low = λ k h. absurd (cc);
  made = λ k r h. absurd (cc);
  named = λ k r h. absurd (cc);
}

module _ (next : ℕ) (spare : List ℕ) where
  abbrev allocator : TidAllocator
  allocator = record { next_tid = next; free_tids = spare }

alloc_tid-Sound :
    (next : ℕ) (spare : List ℕ) (live after : ℕ → Bool)
    → Sound 1 next spare live
    → ((k : ℕ) → after k ≡ ((alloc_tid (allocator next spare)).0 == k || live k))
    → Sound 1
        (alloc_tid (allocator next spare)).1.next_tid
        (alloc_tid (allocator next spare)).1.free_tids
        after
unfolding alloc_tid
alloc_tid-Sound next [] live after s e = Sound-take_next s e
alloc_tid-Sound next (x ∷ spare) live after s e = Sound-take_spare x spare s e

alloc_tid-fresh :
    (next : ℕ) (spare : List ℕ) (live : ℕ → Bool)
    → Sound 1 next spare live
    → (live (alloc_tid (allocator next spare)).0 ≡ false)
      × (1 ≤ (alloc_tid (allocator next spare)).0)
unfolding alloc_tid
alloc_tid-fresh next [] live s = (ground (arith, s.live_below next), s.low)
alloc_tid-fresh next (x ∷ spare) live s =
    (ground (arith, s.spare_free x), ground (arith, s.spare_low x))

module _ (pid : ℕ) (name : String) (timeslice : ℕ) (is_kernel_thread : Bool) (t : ThreadTable)
    (objects : Store) (v : IsValid t objects) where
  abbrev made_now : Spawned
  made_now = spawn pid name timeslice is_kernel_thread t objects

  spawn-IsValid : IsValid made_now.table made_now.objects
  unfolding spawn
  spawn-IsValid =
      let (unused, high) = alloc_tid-fresh t.tids.next_tid t.tids.free_tids _ v.sound in
      let tid = (alloc_tid t.tids).0 in
      record {
        sound =
            alloc_tid-Sound t.tids.next_tid t.tids.free_tids _ _ v.sound
              (λ k. has_key-put tid k t.next_ref t.threads);
        low = λ k h. ground (arith, high, has_key-put tid k t.next_ref t.threads, v.low k);
        made = λ k r h. ground (arith, get-put tid k t.next_ref t.threads, v.made k r);
        named =
            λ k r h. ground (arith, get-put tid k t.next_ref t.threads, v.named k r, v.made k r);
      }

  -- In a table as calls leave it, `spawn` gives the new thread a TID from 1 on that no live thread
  -- has, with both tick counts at the time slice; the new thread then stands at that TID, every
  -- other thread is found as before with its object unchanged, and the table is again such a table.
  pub spawn_thread_lem :
      (tid : ℕ)
      → tid ≡ (made_now.objects made_now.thread).tid
      → (get tid t.threads ≡ none)
        × (1 ≤ tid)
        × (get tid made_now.table.threads ≡ some made_now.thread)
        × ((made_now.objects made_now.thread).timeslice ≡ timeslice)
        × ((made_now.objects made_now.thread).remaining_ticks ≡ timeslice)
        × ((k r : ℕ)
            → get k t.threads ≡ some r
            → (get k made_now.table.threads ≡ some r) × (made_now.objects r ≡ objects r))
        × IsValid made_now.table made_now.objects
  unfolding spawn
  spawn_thread_lem tid e =
      let (unused, high) = alloc_tid-fresh t.tids.next_tid t.tids.free_tids _ v.sound in
      let new_tid = (alloc_tid t.tids).0 in
      let fresh = get-none new_tid t.threads unused in
      let is_new : tid ≡ new_tid = ground arith in
      (
        ground (arith, fresh, is_new),
        ground (arith, high, is_new),
        ground (arith, is_new, get-put new_tid tid t.next_ref t.threads),
        ground arith,
        ground arith,
        λ k r h. ground (arith, get-put new_tid k t.next_ref t.threads, fresh, h, v.made k r),
        (unfold spawn in spawn-IsValid),
      )

-- In a table as calls leave it, `remove` takes out the thread at the given TID, if there is one,
-- and no other, and the table is again such a table.
pub remove_thread_lem :
    (tid : ℕ) (t : ThreadTable) (objects : Store)
    → IsValid t objects
    → IsValid (remove tid t) objects
      × ((k : ℕ) → get k (remove tid t).threads ≡ (if tid == k then none else get k t.threads))
unfolding remove free_tid
remove_thread_lem tid t objects v = elim (Option-cases (get tid t.threads)) [
  | inl e ↦ (rw (e, remove) v, λ k. ground arith)
  | inr (r, e) ↦ (
    rw (e, remove)
        (record {
          sound =
              Sound-return tid t.tids.free_tids v.sound (v.low tid (has_key-get tid r t.threads e))
                (has_key-get tid r t.threads e) (λ k. has_key-pop tid k t.threads);
          low = λ k h. ground (arith, has_key-pop tid k t.threads, v.low k);
          made = λ k q h. ground (arith, get-pop tid k t.threads, v.made k q);
          named = λ k q h. ground (arith, get-pop tid k t.threads, v.named k q);
        }),
    λ k. ground (arith, get-pop tid k t.threads),
  )
]

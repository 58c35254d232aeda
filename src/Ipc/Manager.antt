-- ===== src/Ipc/Manager.antt =====
-- The two descriptors of a pipe, and signals of one process among others.
use compute_kernel_python.Prelude.{
  ℕ, ◌+◌, ◌≤◌, ◌<◌, ◌≡◌, refl, ap, Option, none, some, if◌then◌else◌, arith, ◌∙◌, ◌≢◌, Option-cases,
  inl, inr,
}
use compute_kernel_python.Prelude.Eq.{◌==◌, nat_eq}
use compute_kernel_python.Prelude.Dict.{get, put, get-put, get-adjust}
use compute_kernel_python.Ipc.{Pipe, IpcManager, init, new_pipe, create_pipe, get_pipe, on_pipe}

-- A descriptor and a pipe object are below the next free descriptor, and both descriptors of an
-- object lead to it.
pub record IsSound (m : IpcManager) : Type 0 where
  pub below : (k r : ℕ) → get k m.pipes ≡ some r → (k < m.next_pipe_fd) × (r < m.next_pipe_fd)
  pub object_below : (r : ℕ) (p : Pipe) → get r m.objects ≡ some p → r < m.next_pipe_fd
  pub by_read : (r : ℕ) (p : Pipe) → get r m.objects ≡ some p → get r m.pipes ≡ some r
  pub by_write : (r : ℕ) (p : Pipe) → get r m.objects ≡ some p → get (r + 1) m.pipes ≡ some r
  pub read_fd_is : (r : ℕ) (p : Pipe) → get r m.objects ≡ some p → p.read_fd ≡ r
  pub write_fd_is : (r : ℕ) (p : Pipe) → get r m.objects ≡ some p → p.write_fd ≡ r + 1

pub init-IsSound : IsSound init
unfolding get
init-IsSound = record {
  below = λ k r h. absurd (cc);
  object_below = λ r p h. absurd (cc);
  by_read = λ r p h. absurd (cc);
  by_write = λ r p h. absurd (cc);
  read_fd_is = λ r p h. absurd (cc);
  write_fd_is = λ r p h. absurd (cc);
}

module _ (m : IpcManager) (v : IsSound m) where
  abbrev fd : ℕ
  fd = m.next_pipe_fd

  abbrev m' : IpcManager
  m' = (create_pipe m).1

  get-pipes :
      (k : ℕ)
      → get k m'.pipes
        ≡ (if fd + 1 == k then some fd else if fd == k then some fd else get k m.pipes)
  unfolding create_pipe
  get-pipes k =
      get-put (fd + 1) k fd (put fd fd m.pipes)
      ∙ ap (λ (o : Option ℕ). if fd + 1 == k then some fd else o) (get-put fd k fd m.pipes)

  get-objects :
      (r : ℕ) → get r m'.objects ≡ (if fd == r then some (new_pipe fd) else get r m.objects)
  unfolding create_pipe
  get-objects r = get-put fd r (new_pipe fd) m.objects

  next-create_pipe : m'.next_pipe_fd ≡ fd + 2
  unfolding create_pipe
  next-create_pipe = refl

  not_above : (k : ℕ) → fd ≤ k → get k m.pipes ≡ none
  not_above k h = elim (Option-cases (get k m.pipes)) [
    | inl e ↦ e
    | inr (r, e) ↦ absurd (omega (arith, v.below k r e))
  ]

  create_pipe-IsSound : IsSound m'
  create_pipe-IsSound = record {
    below = λ k r h. ground (arith, get-pipes k, next-create_pipe, v.below k r);
    object_below = λ r p h. ground (arith, get-objects r, next-create_pipe, v.object_below r p);
    by_read = λ r p h.
        ground
          (arith, get-objects r, get-pipes r, v.object_below r p, v.by_read r p, v.by_write r p);
    by_write = λ r p h. ground (
      arith,
      get-objects r,
      get-pipes (r + 1),
      v.object_below r p,
      v.by_write r p,
      v.below (r + 1) r,
    );
    read_fd_is = λ r p h. ground (arith, get-objects r, v.read_fd_is r p);
    write_fd_is = λ r p h. ground (arith, get-objects r, v.write_fd_is r p);
  }

  -- In a sound manager `create_pipe` gives two descriptors that no pipe has, which both lead to
  -- the new, empty pipe; every descriptor that led to a pipe leads to the same one; and the
  -- manager is again sound.
  pub create_pipe_lem :
      (get_pipe (create_pipe m).0.read_fd m ≡ none)
      × (get_pipe (create_pipe m).0.write_fd m ≡ none)
      × (get_pipe (create_pipe m).0.read_fd m' ≡ some (create_pipe m).0)
      × (get_pipe (create_pipe m).0.write_fd m' ≡ some (create_pipe m).0)
      × ((k : ℕ) (p : Pipe) → get_pipe k m ≡ some p → get_pipe k m' ≡ some p)
      × IsSound m'
  unfolding get_pipe
  create_pipe_lem = (
    first_free,
    second_free,
    ground (arith, made, get-pipes fd, get-objects fd),
    ground (arith, made, get-pipes (fd + 1), get-objects fd),
    λ k p h. elim (Option-cases (get k m.pipes)) [
      | inl e ↦ absurd (ground arith)
      | inr (r, e) ↦ ground (arith, get-pipes k, get-objects r, v.below k r e)
    ],
    create_pipe-IsSound,
  )
    where
      made : (create_pipe m).0 ≡ new_pipe fd
      made = unfold create_pipe in refl

      first_free : get_pipe (create_pipe m).0.read_fd m ≡ none
      first_free = ground (arith, made, not_above fd (omega arith))

      second_free : get_pipe (create_pipe m).0.write_fd m ≡ none
      second_free = ground (arith, made, not_above (fd + 1) (omega arith))

-- In a sound manager, a change through one descriptor of a pipe is seen through the other one, as
-- both lead to one object, and a change through the write descriptor is not seen through the
-- descriptors of another pipe.
on_pipe_shared :
    (m : IpcManager) (p : Pipe) (f : Pipe → Pipe)
    → IsSound m
    → get p.read_fd m.objects ≡ some p
    → (get_pipe p.read_fd (on_pipe p.write_fd f m) ≡ some (f p))
      × (get_pipe p.write_fd (on_pipe p.read_fd f m) ≡ some (f p))
      × ((k r : ℕ)
          → get k m.pipes ≡ some r
          → r ≢ p.read_fd
          → get_pipe k (on_pipe p.write_fd f m) ≡ get_pipe k m)
unfolding get_pipe on_pipe
on_pipe_shared m p f v here =
    let r = p.read_fd in
    let reads = v.by_read r p here in
    let writes = v.by_write r p here in
    let at = v.write_fd_is r p here in
    (
      ground (arith, reads, writes, at, get-adjust r r f m.objects, here),
      ground (arith, reads, writes, at, get-adjust r r f m.objects, here),
      λ k q h ne. ground (arith, reads, writes, at, get-adjust r q f m.objects, here, h, ne),
    )

-- ===== src/Vfs/Handles.antt =====
-- The descriptors that the VFS hands out in a run of calls.
use compute_kernel_python.Prelude.{
  ℕ, ◌+◌, ◌≤◌, ◌<◌, String, ◌≡◌, Option, none, some, List, [], ◌∷◌, ℤ, pos, negsuc, arith, inl, inr,
}
use compute_kernel_python.Prelude.Eq.{nat_eq, string_eq}
use compute_kernel_python.Filesystem.{Filesystem}
use compute_kernel_python.Vfs.{
  mount, Vfs, open_file, read, write, close, mkdir, create_file, write_path, new_vfs, read_from,
  write_to,
}
use compute_kernel_python.Vfs.Issued.{
  AreIssued-none, IsValid, IsValid-SameFiles, mkdir-SameFiles, create_file-SameFiles,
  write_path-SameFiles, close-IsValid, read-IsValid, write-IsValid,
}
use compute_kernel_python.Vfs.Opening.{OpensSome, open_file-Opens, IsValid-Opens}

pub data Call : Type 0 where
  mount_call : String → ℕ → String → Call
  open_call : String → String → Call
  read_call : ℕ → ℕ → Call
  write_call : ℕ → List ℕ → Call
  close_call : ℕ → Call
  mkdir_call : String → Call
  create_file_call : String → List ℕ → Call
  write_path_call : String → List ℕ → Call

-- Each number is higher than the one before.
abbrev pub Ascends : ℕ → List ℕ → Type 0
Ascends n [] = Unit
Ascends n (fd ∷ fds) = (n ≤ fd) × Ascends (fd + 1) fds

module _ {F : Type 0} (fs : Filesystem F) where
  abbrev pub after_open : Vfs F → Option (ℤ × Vfs F) → Option ℕ × Vfs F
  after_open v none = (none, v)
  after_open v (some (pos fd, w)) = (some fd, w)
  after_open v (some (negsuc e, w)) = (none, w)

  -- One call, with the descriptor that it opens.
  abbrev pub run_call : Call → Vfs F → Option ℕ × Vfs F
  run_call (mount_call path r source) v = (none, mount fs path r source v)
  run_call (open_call path flags) v = after_open v (open_file fs path flags v)
  run_call (read_call fd size) v = (none, (read fs fd size v).1)
  run_call (write_call fd bytes) v = (none, (write fs fd bytes v).1)
  run_call (close_call fd) v = (none, (close fs fd v).1)
  run_call (mkdir_call path) v = (none, (mkdir fs path v).1)
  run_call (create_file_call path bytes) v = (none, (create_file fs path bytes v).1)
  run_call (write_path_call path bytes) v = (none, (write_path fs path bytes v).1)

  abbrev pub with_opened : Option ℕ → List ℕ → List ℕ
  with_opened none fds = fds
  with_opened (some fd) fds = fd ∷ fds

  abbrev pub run : List Call → Vfs F → List ℕ × Vfs F
  run [] v = ([], v)
  run (c ∷ cs) v = let (o, w) = run_call c v in let (fds, u) = run cs w in (with_opened o fds, u)

  -- What one call does to the counter of descriptors.
  abbrev Counts : Vfs F → Option ℕ × Vfs F → Type 0
  Counts v (none, w) = v.next_fd ≤ w.next_fd
  Counts v (some fd, w) = (fd ≡ v.next_fd) × (v.next_fd < w.next_fd)

  after_open-Counts :
      (path : String) (v : Vfs F) (x : Option (ℤ × Vfs F))
      → OpensSome path v x
      → Counts v (after_open v x)
  after_open-Counts path v none h = omega arith
  after_open-Counts path v (some (pos fd, w)) (inl (e, f)) = absurd (cc)
  after_open-Counts path v (some (pos fd, w)) (inr (e, n, o)) = ground arith
  after_open-Counts path v (some (negsuc k, w)) (inl (e, f)) = ground arith
  after_open-Counts path v (some (negsuc k, w)) (inr (e, n, o)) = absurd (cc)

  after_open-IsValid :
      (path : String) (v : Vfs F) (x : Option (ℤ × Vfs F))
      → OpensSome path v x
      → IsValid v
      → IsValid (after_open v x).1
  after_open-IsValid path v none h i = i
  after_open-IsValid path v (some (pos n, w)) h i = IsValid-Opens path v (pos n) w h i
  after_open-IsValid path v (some (negsuc n, w)) h i = IsValid-Opens path v (negsuc n) w h i

  run_call-Counts : (c : Call) (v : Vfs F) → Counts v (run_call c v)
  unfolding mount read read_from write write_to close
  run_call-Counts (mount_call path r source) v = omega arith
  run_call-Counts (open_call path flags) v =
      after_open-Counts path v (open_file fs path flags v) (open_file-Opens fs path flags v)
  run_call-Counts (read_call fd size) v = ground arith
  run_call-Counts (write_call fd bytes) v = ground arith
  run_call-Counts (close_call fd) v = ground arith
  run_call-Counts (mkdir_call path) v = ground (arith, mkdir-SameFiles fs path v)
  run_call-Counts (create_file_call path bytes) v =
      ground (arith, create_file-SameFiles fs path bytes v)
  run_call-Counts (write_path_call path bytes) v =
      ground (arith, write_path-SameFiles fs path bytes v)

  run_call-IsValid : (c : Call) (v : Vfs F) → IsValid v → IsValid (run_call c v).1
  unfolding mount
  run_call-IsValid (mount_call path r source) v h = h
  run_call-IsValid (open_call path flags) v h =
      after_open-IsValid path v (open_file fs path flags v) (open_file-Opens fs path flags v) h
  run_call-IsValid (read_call fd size) v h = read-IsValid fs fd size v h
  run_call-IsValid (write_call fd bytes) v h = write-IsValid fs fd bytes v h
  run_call-IsValid (close_call fd) v h = close-IsValid fs fd v h
  run_call-IsValid (mkdir_call path) v h =
      IsValid-SameFiles v (mkdir fs path v).1 (mkdir-SameFiles fs path v) h
  run_call-IsValid (create_file_call path bytes) v h =
      IsValid-SameFiles v (create_file fs path bytes v).1 (create_file-SameFiles fs path bytes v) h
  run_call-IsValid (write_path_call path bytes) v h =
      IsValid-SameFiles v (write_path fs path bytes v).1 (write_path-SameFiles fs path bytes v) h

  Ascends-le : (n m : ℕ) (fds : List ℕ) → n ≤ m → Ascends m fds → Ascends n fds
  Ascends-le n m [] h a = tt
  Ascends-le n m (fd ∷ fds) h a = (omega (arith, h, a.0), a.1)

  Ascends-after :
      (v : Vfs F) (x : Option ℕ × Vfs F) (fds : List ℕ)
      → Counts v x
      → Ascends x.1.next_fd fds
      → Ascends v.next_fd (with_opened x.0 fds)
  Ascends-after v (none, w) fds h a = Ascends-le v.next_fd w.next_fd fds h a
  Ascends-after v (some fd, w) fds h a =
      (omega (arith, h.0), Ascends-le (fd + 1) w.next_fd fds (omega (arith, h.0, h.1)) a)

  run-Ascends : (cs : List Call) (v : Vfs F) → Ascends v.next_fd (run cs v).0
  run-Ascends [] v = tt
  run-Ascends (c ∷ cs) v =
      Ascends-after v (run_call c v) (run cs (run_call c v).1).0 (run_call-Counts c v)
        (run-Ascends cs (run_call c v).1)

  run-IsValid : (cs : List Call) (v : Vfs F) → IsValid v → IsValid (run cs v).1
  run-IsValid [] v h = h
  run-IsValid (c ∷ cs) v h = run-IsValid cs (run_call c v).1 (run_call-IsValid c v h)

  -- Whatever calls follow on a new VFS, over any file systems: every open descriptor stands under
  -- its own number, which is at least 3 and below the next one to be handed out, and the
  -- descriptors that the calls of `open` return, in their order, are at least 3 and each higher
  -- than the one before, so that none is handed out twice, not even after it was closed.
  pub run-IsValid_new :
      (objects : ℕ → F) (cs : List Call)
      → IsValid (run cs (new_vfs fs objects)).1 × Ascends 3 (run cs (new_vfs fs objects)).0
  unfolding new_vfs
  run-IsValid_new objects cs = (
    run-IsValid cs (new_vfs fs objects) ((omega arith), AreIssued-none 3),
    run-Ascends cs (new_vfs fs objects),
  )

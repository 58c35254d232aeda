-- ===== src/Ipc/Pipes.antt =====
-- Pipes are bounded and first in, first out.
use compute_kernel_python.Prelude.{
  ℕ, ◌+◌, ◌-◌, ◌≤◌, ◌≡◌, refl, sym, ap, Bool, true, false, ◌||◌, List, [], ◌∷◌, ◌++◌, pos, length,
  drop, arith, ◌∙◌,
}
use Prim.Native.Nat.{min}
use mathlib.Core.List.{append-nil, append_assoc}
use compute_kernel_python.Prelude.Deque.{
  length-push_all, push_all-drop, push_all-append, pop_left-split, length-pop_left,
}
use compute_kernel_python.Ipc.{Pipe, capacity, broken_pipe, write, read}

pub record IsValid (p : Pipe) : Type 0 where
  pub bounded : length p.buffer ≤ capacity

abbrev pub is_closed : Pipe → Bool
is_closed p = p.write_closed || p.read_closed

-- Of a pipe within its bound: a write with a closed end is refused with EPIPE and changes nothing.
-- Any other write reports all bytes as written, and the pipe then holds the last 65536 of the old
-- and new bytes: what does not fit pushes the oldest bytes out. The pipe stays within its bound.
pub write_lem :
    (bytes : List ℕ) (p : Pipe)
    → IsValid p
    → (is_closed p ≡ true → write bytes p ≡ (broken_pipe, p))
      × (is_closed p ≡ false
          → ((write bytes p).0 ≡ pos (length bytes))
            × ((write bytes p).1.buffer
                ≡ drop (length (p.buffer ++ bytes) - capacity) (p.buffer ++ bytes)))
      × IsValid (write bytes p).1
unfolding write
write_lem bytes p v = (
  λ c. ground (arith, c),
  λ c. ground (arith, c, push_all-drop capacity bytes p.buffer (omega arith) v.bounded),
  ground (arith, length-push_all capacity bytes p.buffer (omega arith) v.bounded),
)

-- What a read returns and what it leaves are together what the pipe held, in order; it returns the
-- number of bytes asked for, or all that there are.
pub read_lem :
    (size : ℕ) (p : Pipe)
    → ((read size p).0 ++ (read size p).1.buffer ≡ p.buffer)
      × (length (read size p).0 ≡ min size (length p.buffer))
unfolding read
read_lem size p = (pop_left-split _ p.buffer, length-pop_left _ p.buffer (omega arith))

-- What callers do with an open pipe.
pub data Use : Type 0 where
  do_write : List ℕ → Use
  do_read : ℕ → Use

abbrev pub perform : Use → Pipe → Pipe
perform (do_write bytes) p = (write bytes p).1
perform (do_read size) p = (read size p).1

abbrev pub run : List Use → Pipe → Pipe
run [] p = p
run (u ∷ us) p = run us (perform u p)

-- The bytes that went in, and the bytes that came out.
abbrev pub written : List Use → List ℕ
written [] = []
written (do_write bytes ∷ us) = bytes ++ written us
written (do_read size ∷ us) = written us

abbrev pub received : List Use → Pipe → List ℕ
received [] p = []
received (do_write bytes ∷ us) p = received us (write bytes p).1
received (do_read size ∷ us) p = (read size p).0 ++ received us (read size p).1

-- No write meets a pipe with too little room.
abbrev pub Fits : List Use → Pipe → Type 0
Fits [] p = Unit
Fits (do_write bytes ∷ us) p =
    (length p.buffer + length bytes ≤ capacity) × Fits us (write bytes p).1
Fits (do_read size ∷ us) p = Fits us (read size p).1

write-buffer :
    (bytes : List ℕ) (p : Pipe)
    → is_closed p ≡ false
    → length p.buffer + length bytes ≤ capacity
    → (write bytes p).1.buffer ≡ p.buffer ++ bytes
unfolding write
write-buffer bytes p c fits = ground (arith, c, push_all-append capacity bytes p.buffer fits)

is_closed-perform : (u : Use) (p : Pipe) → is_closed (perform u p) ≡ is_closed p
unfolding write read
is_closed-perform (do_write bytes) p = ground arith
is_closed-perform (do_read size) p = refl

-- As long as no write overflows an open pipe, the bytes come out in the order in which they went
-- in, and none is lost or doubled: what was received, followed by what the pipe still holds, is
-- what it held at first, followed by what was written.
pub received-written :
    (us : List Use) (p : Pipe)
    → is_closed p ≡ false
    → Fits us p
    → received us p ++ (run us p).buffer ≡ p.buffer ++ written us
received-written [] p open' fits = sym (append-nil p.buffer)
received-written (do_write bytes ∷ us) p open' fits =
    received-written us (write bytes p).1 (is_closed-perform (do_write bytes) p ∙ open') fits.1
    ∙ ap (λ l. l ++ written us) (write-buffer bytes p open' fits.0)
    ∙ append_assoc p.buffer bytes (written us)
received-written (do_read size ∷ us) p open' fits =
    append_assoc (read size p).0 _ _
    ∙ ap (λ l. (read size p).0 ++ l)
        (received-written us (read size p).1 (is_closed-perform (do_read size) p ∙ open') fits)
    ∙ sym (append_assoc (read size p).0 (read size p).1.buffer (written us))
    ∙ ap (λ l. l ++ written us) (read_lem size p).0

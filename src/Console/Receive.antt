-- ===== src/Console/Receive.antt =====
-- What the receive buffer of the console keeps, and in which order it gives it out.
use compute_kernel_python.Prelude.{ℕ, ◌-◌, ◌≤◌, ◌≡◌, ◌∙◌, List, ◌++◌, length, drop, arith}
use compute_kernel_python.Prelude.Deque.{push_all-drop, length-push_all, pop_left-split}
use compute_kernel_python.Console.{SerialConsole, capacity, receive, read}

-- If the receive buffer of the console holds at most 256 bytes, then after more bytes have come
-- in, what a `read` of any size returns, followed by what it leaves, is the last 256 of the old
-- and the new bytes in the order in which they came: the oldest are lost where they do not fit.
-- The buffer then holds at most 256 bytes again.
read-receive :
    (n : ℕ) (bytes : List ℕ) (s : SerialConsole)
    → length s.rx_buffer ≤ capacity
    → ((read n (receive bytes s)).0 ++ (read n (receive bytes s)).1.rx_buffer
        ≡ drop (length (s.rx_buffer ++ bytes) - capacity) (s.rx_buffer ++ bytes))
      × (length (receive bytes s).rx_buffer ≤ capacity)
unfolding read receive
read-receive n bytes s fits = (
  pop_left-split n (receive bytes s).rx_buffer
      ∙ push_all-drop capacity bytes s.rx_buffer (omega arith) fits,
  length-push_all capacity bytes s.rx_buffer (omega arith) fits,
)

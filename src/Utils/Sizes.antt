-- ===== src/Utils/Sizes.antt =====
-- Sizes and addresses as texts.
use compute_kernel_python.Prelude.{ℕ, ◌≡◌, some, pos}
use compute_kernel_python.Text.Numbers.{sixteen, int_of}
use compute_kernel_python.Text.Numbers.RoundTrip.{int_of-prefixed}
use compute_kernel_python.Utils.{hex_addr, hex_short}

-- An address that `hex_addr` or `hex_short` prints is read back by `int(s, 16)`, as the command
-- `pagefault` reads its argument, however many digits it takes.
pub int_of-hex_addr :
    (addr : ℕ)
    → (int_of sixteen (hex_addr (pos addr)) ≡ some (pos addr))
      × (int_of sixteen (hex_short (pos addr)) ≡ some (pos addr))
unfolding hex_addr hex_short
int_of-hex_addr addr = (int_of-prefixed 16 addr, int_of-prefixed 8 addr)

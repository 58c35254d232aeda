-- ===== src/Utils.antt =====
-- computekernel_edu/utils.py: the helpers that format numbers, addresses and tables.
pub mod Tables
pub mod Sizes
use compute_kernel_python.Prelude.{
  ℕ, zero, suc, ◌+◌, ◌-◌, ◌*◌, ◌/◌, String, Bool, true, false, ◌&&◌, ◌||◌, Option, none, some, List,
  [], ◌∷◌, ◌++◌, ℤ, pos, negsuc, ltb, leb, map, length, get_elem?, if◌then◌else◌,
}
use Prim.Native.Nat.{max}
use mathlib.Core.Option
use compute_kernel_python.Prelude.Eq.{◌==◌, nat_eq}
use compute_kernel_python.Paths.{◌<>◌, text_length}
use compute_kernel_python.Text.{join, repeat}
use compute_kernel_python.Text.Numbers.{sixteen, digits, pad_zeros, show}

-- A negative number has its sign within the width.
abbrev hex_padded : ℕ → ℤ → String
hex_padded w (pos n) = pad_zeros w (digits sixteen n)
hex_padded w (negsuc n) = "-" <> pad_zeros (w - 1) (digits sixteen (suc n))

unfoldable pub hex_addr : ℤ → String
hex_addr addr = "0x" <> hex_padded 16 addr

unfoldable pub hex_short : ℤ → String
hex_short addr = "0x" <> hex_padded 8 addr

abbrev units : List String
units = "B" ∷ "KB" ∷ "MB" ∷ "GB" ∷ "TB" ∷ []

-- The loop of `size_fmt`. The number is an integer throughout, so its one decimal is a zero.
unfoldable pub size_loop : List String → ℕ → String
size_loop [] n = show n <> " PB"
size_loop (unit ∷ us) n =
    let rest = size_loop us (n / 1024) in if ltb n 1024 then show n <> (".0 " <> unit) else rest

unfoldable pub size_fmt : ℕ → String
size_fmt n = size_loop units n

unfoldable pub validate_addr : ℕ → Bool
validate_addr addr =
    (ltb 0 addr && leb addr 0x00007FFFFFFFFFFF)
    || (leb 0xFFFF800000000000 addr && leb addr 0xFFFFFFFFFFFFFFFF)

-- The column `r[i] for r in rows`, which is an `IndexError` where a row is too short: the length of
-- its longest cell.
unfoldable pub column_width : ℕ → List (List String) → Option ℕ
column_width i [] = some 0
column_width i (r ∷ rows) = elim (get_elem? r i) [
  | none ↦ none
  | some c ↦ Option.map (max (text_length c)) (column_width i rows)
]

abbrev pub with_width : String → Option ℕ → Option (List ℕ) → Option (List ℕ)
with_width h none ws = none
with_width h (some w) ws = Option.map (λ l. max (text_length h) w ∷ l) ws

-- The widths of the columns from `i` on.
unfoldable pub widths_from : ℕ → List String → List (List String) → Option (List ℕ)
widths_from i [] rows = some []
widths_from i (h ∷ hs) rows = with_width h (column_width i rows) (widths_from (suc i) hs rows)

-- `not col_widths` holds of a list without items too.
abbrev pub col_widths : List String → List (List String) → Option (List ℕ) → Option (List ℕ)
col_widths headers rows none = widths_from 0 headers rows
col_widths headers rows (some []) = widths_from 0 headers rows
col_widths headers rows (some (w ∷ ws)) = some (w ∷ ws)

-- `f" {str(v):<{w}} "`
abbrev pub cell : ℕ → String → String
cell w v = " " <> (v <> repeat (w - text_length v) " " <> " ")

-- `none` is an `IndexError`, for a row with more cells than there are widths.
unfoldable pub cells : List ℕ → List String → Option (List String)
cells ws [] = some []
cells [] (v ∷ vs) = none
cells (w ∷ ws) (v ∷ vs) = Option.map (λ cs. cell w v ∷ cs) (cells ws vs)

abbrev pub piped : List String → String
piped cs = "|" <> (join "|" cs <> "|")

abbrev pub fmt_row : List ℕ → List String → Option String
fmt_row ws row = Option.map piped (cells ws row)

abbrev pub dashes : ℕ → String
dashes w = repeat (w + 2) "-"

abbrev pub separator : List ℕ → String
separator ws = "+" <> (join "+" (map dashes ws) <> "+")

abbrev pub with_line : Option String → Option (List String) → Option (List String)
with_line none ls = none
with_line (some l) ls = Option.map (λ k. l ∷ k) ls

unfoldable pub body_lines : List ℕ → List (List String) → Option (List String)
body_lines ws [] = some (separator ws ∷ [])
body_lines ws (r ∷ rows) = with_line (fmt_row ws r) (body_lines ws rows)

abbrev pub all_lines : List String → List (List String) → Option (List ℕ) → Option (List String)
all_lines headers rows none = none
all_lines headers rows (some ws) =
    with_line (some (separator ws))
      (with_line (fmt_row ws headers) (with_line (some (separator ws)) (body_lines ws rows)))

-- The lines of `table(headers, rows, col_widths)`.
unfoldable pub table_lines :
    List String → List (List String) → Option (List ℕ) → Option (List String)
table_lines headers rows widths = all_lines headers rows (col_widths headers rows widths)

unfoldable pub table : List String → List (List String) → Option String
table headers rows = Option.map (join "\n") (table_lines headers rows none)

-- Colours by escape sequences.
abbrev coloured : String → String → String
coloured code text = "\u{1b}[" <> (code <> ("m" <> (text <> "\u{1b}[0m")))

abbrev pub green : String → String
green t = coloured "32" t

abbrev pub red : String → String
red t = coloured "31" t

abbrev pub yellow : String → String
yellow t = coloured "33" t

abbrev pub cyan : String → String
cyan t = coloured "36" t

abbrev pub bold : String → String
bold t = coloured "1" t

abbrev pub dim : String → String
dim t = coloured "2" t

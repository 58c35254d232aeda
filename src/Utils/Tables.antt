-- ===== src/Utils/Tables.antt =====
-- The lines of a table are of one length.
use Prim.Native.Nat.{max}
use compute_kernel_python.Prelude.{
  ℕ, zero, suc, ◌+◌, ◌-◌, ◌≤◌, ◌<◌, ◌≡◌, refl, ap, String, none, some, List, [], ◌∷◌, map, length,
  drop, get_elem?, All, arith,
}
use mathlib.Core.Option
use mathlib.Core.Path.{subst}
use compute_kernel_python.Paths.{◌<>◌, text_length}
use compute_kernel_python.Text.{join, repeat}
use compute_kernel_python.Utils.{
  column_width, widths_from, cell, cells, piped, fmt_row, dashes, separator, body_lines,
  table_lines,
}

length-<> : (s t : String) → text_length (s <> t) ≡ text_length s + text_length t
length-<> String.[] t = omega arith
length-<> (String.◌∷◌ c s) t = omega (arith, length-<> s t)

length-repeat : (n : ℕ) (t : String) → text_length t ≡ 1 → text_length (repeat n t) ≡ n
length-repeat zero t h = refl
length-repeat (suc n) t h = omega (arith, length-<> t (repeat n t), length-repeat n t h, h)

-- A row with as many cells as there are widths, none longer than its width.
abbrev Fits : List ℕ → List String → Type 0
Fits [] [] = Unit
Fits [] (v ∷ vs) = ⊥
Fits (w ∷ ws) [] = ⊥
Fits (w ∷ ws) (v ∷ vs) = (text_length v ≤ w) × Fits ws vs

length-cell :
    (w : ℕ) (v : String) → text_length v ≤ w → text_length (cell w v) ≡ text_length (dashes w)
length-cell w v h =
    let pad = repeat (w - text_length v) " " in
    omega (
      arith,
      length-repeat (w + 2) "-" refl,
      length-repeat (w - text_length v) " " refl,
      length-<> v (pad <> " "),
      length-<> pad " ",
      h,
    )

-- Two joins of texts that have the same lengths one by one.
abbrev SameLengths : List String → List String → Type 0
SameLengths [] [] = Unit
SameLengths [] (v ∷ vs) = ⊥
SameLengths (u ∷ us) [] = ⊥
SameLengths (u ∷ us) (v ∷ vs) = (text_length u ≡ text_length v) × SameLengths us vs

length-join :
    (us vs : List String)
    → SameLengths us vs
    → text_length (join "|" us) ≡ text_length (join "+" vs)
length-join [] [] h = refl
length-join [] (v ∷ vs) h = absurd h
length-join (u ∷ us) [] h = absurd h
length-join (u ∷ []) (v ∷ []) h = h.0
length-join (u ∷ []) (v ∷ x ∷ vs) h = absurd h.1
length-join (u ∷ t ∷ us) (v ∷ []) h = absurd h.1
length-join (u ∷ t ∷ us) (v ∷ x ∷ vs) h = omega (
  arith,
  h.0,
  length-<> u ("|" <> join "|" (t ∷ us)),
  length-<> v ("+" <> join "+" (x ∷ vs)),
  length-join (t ∷ us) (x ∷ vs) h.1,
)

cells-Fits :
    (ws : List ℕ) (row : List String)
    → Fits ws row
    → (cs : List String) × (cells ws row ≡ some cs) × SameLengths cs (map dashes ws)
unfolding cells
cells-Fits [] [] h = ([], refl, tt)
cells-Fits [] (v ∷ vs) h = absurd h
cells-Fits (w ∷ ws) [] h = absurd h
cells-Fits (w ∷ ws) (v ∷ vs) h =
    let (cs, e, same) = cells-Fits ws vs h.1 in
    (cell w v ∷ cs, ap (Option.map (λ l. cell w v ∷ l)) e, (length-cell w v h.0, same))

abbrev pub OfLength : ℕ → String → Type 0
OfLength n l = text_length l ≡ n

fmt_row-Fits :
    (ws : List ℕ) (row : List String)
    → Fits ws row
    → (l : String) × (fmt_row ws row ≡ some l) × OfLength (text_length (separator ws)) l
fmt_row-Fits ws row h =
    let (cs, e, same) = cells-Fits ws row h in
    (
      piped cs,
      ap (Option.map piped) e,
      omega (
        arith,
        length-<> (join "|" cs) "|",
        length-<> (join "+" (map dashes ws)) "+",
        length-join cs (map dashes ws) same,
      ),
    )

body_lines-Fits :
    (ws : List ℕ) (rows : List (List String))
    → All (Fits ws) rows
    → (ls : List String) × (body_lines ws rows ≡ some ls)
      × (length ls ≡ length rows + 1)
      × All (OfLength (text_length (separator ws))) ls
unfolding body_lines
body_lines-Fits ws [] h = (separator ws ∷ [], refl, refl, (refl, tt))
body_lines-Fits ws (r ∷ rows) h =
    let (l, e, n) = fmt_row-Fits ws r h.0 in
    let (ls, es, count, ns) = body_lines-Fits ws rows h.1 in
    (l ∷ ls, rw (e, es) refl, omega (arith, count), (n, ns))

-- A row that goes on at column `i` with a cell of at most `w`.
abbrev Reaches : ℕ → ℕ → List String → Type 0
Reaches i w r = (c : String) × (get_elem? r i ≡ some c) × (text_length c ≤ w)

Reaches-max :
    (i w x : ℕ) (rows : List (List String))
    → All (Reaches i w) rows
    → All (Reaches i (max x w)) rows
Reaches-max i w x [] h = tt
Reaches-max i w x (r ∷ rows) ((c, e, le), hs) =
    ((c, e, omega (arith, le)), Reaches-max i w x rows hs)

get_at : (i : ℕ) (r : List String) → i < length r → (c : String) × (get_elem? r i ≡ some c)
get_at i [] h = absurd (omega (arith, h))
get_at zero (c ∷ r) h = (c, refl)
get_at (suc i) (c ∷ r) h = get_at i r (omega (arith, h))

-- The rows that have `n` cells.
abbrev pub HaveCells : ℕ → List (List String) → Type 0
HaveCells n rows = All (λ r. length r ≡ n) rows

column_width_lem :
    (i n : ℕ) (rows : List (List String))
    → i < n
    → HaveCells n rows
    → (w : ℕ) × (column_width i rows ≡ some w) × All (Reaches i w) rows
unfolding column_width
column_width_lem i n [] h hs = (0, refl, tt)
column_width_lem i n (r ∷ rows) h (here, hs) =
    let (c, e) = get_at i r (omega (arith, h, here)) in
    let (w, es, all) = column_width_lem i n rows h hs in
    (
      max (text_length c) w,
      rw (column_width, e, es) refl,
      ((c, e, omega arith), Reaches-max i w (text_length c) rows all),
    )

drop_step :
    (i : ℕ) (r : List String) (c : String) → get_elem? r i ≡ some c → drop i r ≡ c ∷ drop (suc i) r
drop_step i [] c h = absurd (cc)
drop_step zero (x ∷ r) c h = ap (λ o. elim o [ none ↦ x | some y ↦ y ] ∷ r) h
drop_step (suc i) (x ∷ r) c h = drop_step i r c h

Fits-step :
    (i w : ℕ) (ws : List ℕ) (rows : List (List String))
    → All (Reaches i w) rows
    → All (λ r. Fits ws (drop (suc i) r)) rows
    → All (λ r. Fits (w ∷ ws) (drop i r)) rows
Fits-step i w ws [] h hs = tt
Fits-step i w ws (r ∷ rows) ((c, e, le), h) (f, fs) =
    (rw (drop_step i r c e) (le, f), Fits-step i w ws rows h fs)

drop_past : (r : List String) → drop (length r) r ≡ []
drop_past [] = refl
drop_past (c ∷ r) = drop_past r

Fits-none :
    (i : ℕ) (rows : List (List String))
    → HaveCells (i + 0) rows
    → All (λ r. Fits [] (drop i r)) rows
Fits-none i [] h = tt
Fits-none i (r ∷ rows) (e, h) =
    let same : i ≡ length r = omega (arith, e) in (rw (same, drop_past r) tt, Fits-none i rows h)

widths_from_lem :
    (i : ℕ) (hs : List String) (rows : List (List String))
    → HaveCells (i + length hs) rows
    → (ws : List ℕ) × (widths_from i hs rows ≡ some ws)
      × Fits ws hs
      × All (λ r. Fits ws (drop i r)) rows
unfolding widths_from
widths_from_lem i [] rows h = ([], refl, tt, Fits-none i rows h)
widths_from_lem i (x ∷ hs) rows h =
    let (w, e, reaches) = column_width_lem i (i + length (x ∷ hs)) rows (omega arith) h in
    let sum : i + length (x ∷ hs) ≡ suc i + length hs = omega arith in
    let (ws, es, fits, rest) = widths_from_lem (suc i) hs rows (rw sum at (h)) in
    (
      max (text_length x) w ∷ ws,
      rw (e, es) refl,
      (omega arith, fits),
      Fits-step i (max (text_length x) w) ws rows (Reaches-max i w (text_length x) rows reaches)
          rest,
    )

-- If every row has as many cells as there are headers, `table` of them, with no widths given, is
-- drawn without an `IndexError`: three lines for the head, one for each row and one below them, and
-- all of them have the same length, however long the cells are.
pub table_lines_lem :
    (headers : List String) (rows : List (List String))
    → HaveCells (length headers) rows
    → (n : ℕ) × (ls : List String) × (table_lines headers rows none ≡ some ls)
      × (length ls ≡ length rows + 4)
      × All (λ l. text_length l ≡ n) ls
unfolding table_lines
table_lines_lem headers rows h =
    let none_before : length headers ≡ 0 + length headers = omega arith in
    let (ws, e, fits, rest) =
      widths_from_lem 0 headers rows (subst (λ k. HaveCells k rows) none_before h) in
    let (head, eh, nh) = fmt_row-Fits ws headers fits in
    let (ls, es, count, ns) = body_lines-Fits ws rows rest in
    (
      text_length (separator ws),
      separator ws ∷ head ∷ separator ws ∷ ls,
      rw (table_lines, e, eh, es) refl,
      omega (arith, count),
      (refl, (nh, (refl, ns))),
    )

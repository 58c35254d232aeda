-- ===== src/Text.antt =====
-- What computekernel_edu/shell.py and computekernel_edu/utils.py use of Python's texts: the methods
-- of `str`, and the printing and reading of numbers. Characters beyond ASCII have no case and are
-- neither digits nor spaces here.
pub mod Numbers
use Prim.Native.Char.{Char, code}
use compute_kernel_python.Prelude.{
  ℕ, zero, suc, ◌-◌, ◌<◌, String, Bool, true, false, not, ◌&&◌, ◌||◌, List, [], ◌∷◌, ltb, leb, keep,
  if◌then◌else◌,
}
use compute_kernel_python.Prelude.Eq.{◌==◌, nat_eq, string_eq}
use compute_kernel_python.Paths.{◌<>◌, is_empty, push_front}

-- The spaces that `strip` and `split` see.
abbrev pub is_space : ℕ → Bool
is_space c = (leb 9 c && leb c 13) || (leb 28 c && leb c 32)

abbrev pub lstrip : String → String
lstrip String.[] = String.[]
lstrip (String.◌∷◌ c s) = let rest = lstrip s in if is_space (code c) then rest else String.◌∷◌ c s

abbrev pub rstrip : String → String
rstrip String.[] = String.[]
rstrip (String.◌∷◌ c s) =
    let rest = rstrip s in
    if is_space (code c) && is_empty rest then String.[] else String.◌∷◌ c rest

unfoldable pub strip : String → String
strip s = rstrip (lstrip s)

abbrev spaced : String → List String
spaced String.[] = String.[] ∷ []
spaced (String.◌∷◌ c s) =
    let rest = spaced s in if is_space (code c) then String.[] ∷ rest else push_front c rest

-- `s.split()`
unfoldable pub words : String → List String
words s = keep (λ w. not (is_empty w)) (spaced s)

-- The character that stands in the second text where `c` stands in the first.
abbrev translate : String → String → Char → Char
translate String.[] ys c = c
translate (String.◌∷◌ x xs) String.[] c = c
translate (String.◌∷◌ x xs) (String.◌∷◌ y ys) c =
    let rest = translate xs ys c in if code c == code x then y else rest

abbrev each : (Char → Char) → String → String
each f String.[] = String.[]
each f (String.◌∷◌ c s) = String.◌∷◌ (f c) (each f s)

unfoldable pub lower : String → String
lower s = each (translate "ABCDEFGHIJKLMNOPQRSTUVWXYZ" "abcdefghijklmnopqrstuvwxyz") s

unfoldable pub upper : String → String
upper s = each (translate "abcdefghijklmnopqrstuvwxyz" "ABCDEFGHIJKLMNOPQRSTUVWXYZ") s

-- `sep.join(ws)`
abbrev pub join : String → List String → String
join sep [] = String.[]
join sep (w ∷ []) = w
join sep (w ∷ v ∷ ws) = w <> (sep <> join sep (v ∷ ws))

-- `t * n`
abbrev pub repeat : ℕ → String → String
repeat zero t = String.[]
repeat (suc n) t = t <> repeat n t

-- `a or b`, for texts.
abbrev pub or_text : String → String → String
or_text String.[] t = t
or_text (String.◌∷◌ c s) t = String.◌∷◌ c s

-- ===== src/Paths.antt =====
-- The operations on texts that computekernel_edu/vfs.py uses on paths.
pub mod Names
use Prim.Native.Char.{Char, code}
use compute_kernel_python.Prelude.{
  ℕ, zero, suc, String, Bool, true, false, not, ◌&&◌, List, [], ◌∷◌, keep, if◌then◌else◌,
}
use compute_kernel_python.Prelude.Eq.{◌==◌, nat_eq, string_eq}

abbrev pub is_empty : String → Bool
is_empty String.[] = true
is_empty (String.◌∷◌ c s) = false

-- `s + t`
infixr 65 ◌<>◌
abbrev pub ◌<>◌ : String → String → String
String.[] <> t = t
(String.◌∷◌ c s) <> t = String.◌∷◌ c (s <> t)

abbrev pub is_slash : Char → Bool
is_slash c = code c == b'/'

abbrev pub text_length : String → ℕ
text_length String.[] = 0
text_length (String.◌∷◌ c s) = suc (text_length s)

-- `s[n:]`
abbrev pub drop_text : ℕ → String → String
drop_text zero s = s
drop_text (suc n) String.[] = String.[]
drop_text (suc n) (String.◌∷◌ c s) = drop_text n s

-- `s.startswith(p)`
abbrev pub starts_with : String → String → Bool
starts_with s String.[] = true
starts_with String.[] (String.◌∷◌ d p) = false
starts_with (String.◌∷◌ c s) (String.◌∷◌ d p) = code c == code d && starts_with s p

-- `s.rstrip("/")`
abbrev pub rstrip_slash : String → String
rstrip_slash String.[] = String.[]
rstrip_slash (String.◌∷◌ c s) =
    let rest = rstrip_slash s in
    if is_slash c && is_empty rest then String.[] else String.◌∷◌ c rest

abbrev pub push_front : Char → List String → List String
push_front c [] = String.◌∷◌ c String.[] ∷ []
push_front c (w ∷ ws) = String.◌∷◌ c w ∷ ws

-- `s.split("/")`
abbrev pub split_slash : String → List String
split_slash String.[] = String.[] ∷ []
split_slash (String.◌∷◌ c s) =
    let rest = split_slash s in if is_slash c then String.[] ∷ rest else push_front c rest

-- `"/".join(ws)`
abbrev pub join_slash : List String → String
join_slash [] = String.[]
join_slash (w ∷ []) = w
join_slash (w ∷ v ∷ ws) = w <> ("/" <> join_slash (v ∷ ws))

-- `[p for p in s.split("/") if p]`
abbrev pub parts : String → List String
parts s = keep (λ p. not (is_empty p)) (split_slash s)

-- `ws[-1]` and `ws[:-1]`; a split is never empty.
abbrev pub last_of : List String → String
last_of [] = String.[]
last_of (w ∷ []) = w
last_of (w ∷ v ∷ ws) = last_of (v ∷ ws)

abbrev pub all_but_last : List String → List String
all_but_last [] = []
all_but_last (w ∷ []) = []
all_but_last (w ∷ v ∷ ws) = w ∷ all_but_last (v ∷ ws)

abbrev pub or_root : String → String
or_root String.[] = "/"
or_root (String.◌∷◌ c s) = String.◌∷◌ c s

-- The directory and the name that `mkdir` and `create_file` take out of a path.
unfoldable pub parent_path : String → String
parent_path path = or_root (join_slash (all_but_last (split_slash (rstrip_slash path))))

unfoldable pub base_name : String → String
base_name path = last_of (split_slash (rstrip_slash path))

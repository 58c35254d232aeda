-- ===== src/Paths/Names.antt =====
-- Absolute paths as lists of names: taking a path apart gives back the names that it is made of.
use compute_kernel_python.Prelude.{
  String, ◌≡◌, refl, ap, sym, ◌∙◌, Bool, false, not, ◌||◌, List, [], ◌∷◌, ◌++◌, keep, arith,
}
use compute_kernel_python.Prelude.Eq.{nat_eq}
use compute_kernel_python.Paths.{
  ◌<>◌, is_empty, is_slash, drop_text, rstrip_slash, split_slash, join_slash, parts, last_of,
  all_but_last, or_root, parent_path, base_name,
}

abbrev pub has_slash : String → Bool
has_slash String.[] = false
has_slash (String.◌∷◌ c s) = is_slash c || has_slash s

-- A name in a directory: some characters, and no slash.
abbrev pub IsName : String → Type 0
IsName n = (is_empty n ≡ false) × (has_slash n ≡ false)

abbrev pub AreNames : List String → Type 0
AreNames [] = Unit
AreNames (n ∷ ns) = IsName n × AreNames ns

-- `/a/b/c`
abbrev pub path_of : List String → String
path_of [] = String.[]
path_of (n ∷ ns) = "/" <> (n <> path_of ns)

append_nothing : (n : String) → n <> "" ≡ n
append_nothing String.[] = refl
append_nothing (String.◌∷◌ c n) = ap (String.◌∷◌ c) (append_nothing n)

append-empty : (n s : String) → is_empty s ≡ false → is_empty (n <> s) ≡ false
append-empty String.[] s f = f
append-empty (String.◌∷◌ c n) s f = refl

split-name :
    (n s : String) (ws : List String) (w : String)
    → has_slash n ≡ false
    → split_slash s ≡ w ∷ ws
    → split_slash (n <> s) ≡ (n <> w) ∷ ws
split-name String.[] s ws w h e = e
split-name (String.◌∷◌ c n) s ws w h e = ground (arith, split-name n s ws w (ground arith) e)

-- The split of a path is an empty text and then its names.
split-path_of : (ns : List String) → AreNames ns → split_slash (path_of ns) ≡ "" ∷ ns
split-path_of [] h = refl
split-path_of (n ∷ ns) h =
    ground (arith, split-name n (path_of ns) ns "" h.0.1 (split-path_of ns h.1), append_nothing n)

rstrip-name :
    (n s : String) → rstrip_slash s ≡ s → is_empty s ≡ false → rstrip_slash (n <> s) ≡ n <> s
rstrip-name String.[] s e f = e
rstrip-name (String.◌∷◌ c n) s e f = ground (arith, rstrip-name n s e f, append-empty n s f)

rstrip-bare : (n : String) → has_slash n ≡ false → rstrip_slash n ≡ n
rstrip-bare String.[] h = refl
rstrip-bare (String.◌∷◌ c n) h = ground (arith, rstrip-bare n)

-- A path does not end in a slash.
rstrip-path_of : (ns : List String) → AreNames ns → rstrip_slash (path_of ns) ≡ path_of ns
rstrip-path_of [] h = refl
rstrip-path_of (n ∷ []) h = ground (arith, append_nothing n, rstrip-bare n h.0.1)
rstrip-path_of (n ∷ m ∷ ns) h = ground (
  arith,
  rstrip-name n (path_of (m ∷ ns)) (rstrip-path_of (m ∷ ns) h.1) refl,
  append-empty n (path_of (m ∷ ns)) refl,
)

join-names : (n : String) (ns : List String) → join_slash (n ∷ ns) ≡ n <> path_of ns
join-names n [] = sym (append_nothing n)
join-names n (m ∷ ns) = ap (λ t. n <> ("/" <> t)) (join-names m ns)

join-path_of : (ns : List String) → join_slash ("" ∷ ns) ≡ path_of ns
join-path_of [] = refl
join-path_of (n ∷ ns) = ap (λ t. "/" <> t) (join-names n ns)

all_but_last-snoc : (ws : List String) (w : String) → all_but_last (ws ++ w ∷ []) ≡ ws
all_but_last-snoc [] w = refl
all_but_last-snoc (v ∷ []) w = refl
all_but_last-snoc (v ∷ u ∷ ws) w = ap (λ l. v ∷ l) (all_but_last-snoc (u ∷ ws) w)

last_of-snoc : (ws : List String) (w : String) → last_of (ws ++ w ∷ []) ≡ w
last_of-snoc [] w = refl
last_of-snoc (v ∷ []) w = refl
last_of-snoc (v ∷ u ∷ ws) w = last_of-snoc (u ∷ ws) w

pub AreNames-snoc :
    (ns : List String) (n : String) → AreNames ns → IsName n → AreNames (ns ++ n ∷ [])
AreNames-snoc [] n h i = (i, tt)
AreNames-snoc (m ∷ ns) n h i = (h.0, AreNames-snoc ns n h.1 i)

keep-names : (ns : List String) → AreNames ns → keep (λ p. not (is_empty p)) ns ≡ ns
keep-names [] h = refl
keep-names (n ∷ ns) h = ground (arith, keep-names ns h.1)

-- The names that are looked up for a path below a file system that is mounted at `/`.
pub parts-drop_text :
    (n : String) (ns : List String)
    → AreNames (n ∷ ns)
    → parts (drop_text 1 (path_of (n ∷ ns))) ≡ n ∷ ns
parts-drop_text n ns h =
    ap (keep (λ p. not (is_empty p))) (
      split-name n (path_of ns) ns "" h.0.1 (split-path_of ns h.1)
      ∙ ap (λ w. w ∷ ns) (append_nothing n))
    ∙ keep-names (n ∷ ns) h

split_of :
    (ns : List String) (n : String)
    → AreNames ns
    → IsName n
    → split_slash (rstrip_slash (path_of (ns ++ n ∷ []))) ≡ ("" ∷ ns) ++ n ∷ []
split_of ns n h i =
    ap split_slash (rstrip-path_of (ns ++ n ∷ []) (AreNames-snoc ns n h i))
    ∙ split-path_of (ns ++ n ∷ []) (AreNames-snoc ns n h i)

-- For names that are not empty and have no slash, `mkdir` and `create_file` take the path
-- `/a/b/.../n` apart into the name `n` and the path of its directory, which is `/` if `n` is the
-- only name.
pub base_name-path_of :
    (ns : List String) (n : String)
    → AreNames ns
    → IsName n
    → (base_name (path_of (ns ++ n ∷ [])) ≡ n)
      × (parent_path (path_of (ns ++ n ∷ [])) ≡ or_root (path_of ns))
unfolding base_name parent_path
base_name-path_of ns n h i = (
  ap last_of (split_of ns n h i) ∙ last_of-snoc ("" ∷ ns) n,
  ap (λ l. or_root (join_slash (all_but_last l))) (split_of ns n h i)
      ∙ ap (λ l. or_root (join_slash l)) (all_but_last-snoc ("" ∷ ns) n)
      ∙ ap or_root (join-path_of ns),
)

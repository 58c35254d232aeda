-- ===== src/Teaching/Search.antt =====
-- What a search in the lessons finds.
use Prim.Native.Char.{code}
use mathlib.Core.Path.{subst}
use mathlib.Core.List.Memᴰ
use mathlib.Core.List.{Memᴰ}
use text.Mathlib.TextEquality.{Char-path}
use compute_kernel_python.Prelude.{
  String, ◌≡◌, refl, sym, ap, ◌∙◌, true, ◌⊎◌, inl, inr, ◌↔◌, List, [], ◌∷◌, keep, map, arith,
  Bool-cases,
}
use compute_kernel_python.Prelude.Dict.{Dict}
use compute_kernel_python.Paths.{◌<>◌, starts_with}
use compute_kernel_python.Text.{lower}
use compute_kernel_python.Teaching.{contains, mentions, search}

starts_with-append : (p rest : String) → starts_with (p <> rest) p ≡ true
starts_with-append String.[] String.[] = refl
starts_with-append String.[] (String.◌∷◌ c rest) = refl
starts_with-append (String.◌∷◌ c p) rest = ground (arith, starts_with-append p rest)

starts_with_rest : (s p : String) → starts_with s p ≡ true → (rest : String) × (s ≡ p <> rest)
starts_with_rest s String.[] h = (s, refl)
starts_with_rest String.[] (String.◌∷◌ d p) h = absurd (cc)
starts_with_rest (String.◌∷◌ c s) (String.◌∷◌ d p) h =
    let codes : code c ≡ code d = ground (arith, h) in
    let tail : starts_with s p ≡ true = ground (arith, h) in
    let (rest, e) = starts_with_rest s p tail in
    (rest, λ i. String.◌∷◌ (Char-path c d codes i) (e i))

-- A text with the other inside it.
abbrev pub IsInside : String → String → Type 0
IsInside kw t = (front : String) × (back : String) × (t ≡ front <> (kw <> back))

contains-IsInside : (kw t : String) → contains kw t ≡ true → IsInside kw t
contains-IsInside String.[] t h = (String.[], t, refl)
contains-IsInside (String.◌∷◌ d kw) String.[] h = absurd (cc)
contains-IsInside (String.◌∷◌ d kw) (String.◌∷◌ c t) h =
    elim (Bool-cases (starts_with (String.◌∷◌ c t) (String.◌∷◌ d kw))) [
      | inl e ↦
          let (rest, q) = starts_with_rest (String.◌∷◌ c t) (String.◌∷◌ d kw) e in
          (String.[], rest, q)
      | inr e ↦
          let (front, back, q) = contains-IsInside (String.◌∷◌ d kw) t (rw e at (h)) in
          (String.◌∷◌ c front, back, ap (λ u. String.◌∷◌ c u) q)
    ]

contains-none : (t : String) → contains String.[] t ≡ true
contains-none String.[] = refl
contains-none (String.◌∷◌ c t) = refl

contains-append : (kw back : String) → contains kw (kw <> back) ≡ true
contains-append String.[] back = contains-none back
contains-append (String.◌∷◌ d kw) back = ground (arith, starts_with-append (String.◌∷◌ d kw) back)

contains_after : (kw front back : String) → contains kw (front <> (kw <> back)) ≡ true
contains_after kw String.[] back = contains-append kw back
contains_after kw (String.◌∷◌ c front) back = ground (arith, contains_after kw front back)

contains_iff : (kw t : String) → (contains kw t ≡ true) ↔ IsInside kw t
contains_iff kw t = (
  contains-IsInside kw t,
  λ found. subst (λ u. contains kw u ≡ true) (sym found.2) (contains_after kw found.0 found.1),
)

abbrev pub IsMentioned : String → String → String → Type 0
IsMentioned kw topic text = IsInside kw (lower text) ⊎ IsInside kw (lower topic)

mentions_iff :
    (kw topic text : String) → (mentions kw (topic, text) ≡ true) ↔ IsMentioned kw topic text
mentions_iff kw topic text =
    let inside = contains_iff kw (lower text) in
    let named = contains_iff kw (lower topic) in
    (
      λ h. elim (Bool-cases (contains kw (lower text))) [
        | inl e ↦ inl (inside.0 e)
        | inr e ↦ inr (named.0 (rw e at (h)))
      ],
      λ found. elim found [
        | inl i ↦ rw (inside.1 i) refl
        | inr i ↦ let e = named.1 i in ground (arith, e)
      ],
    )

abbrev names : Dict String String → List String
names topics = map (λ entry. entry.0) topics

kept_entry :
    (kw name : String) (topics : Dict String String)
    → Memᴰ name (names (keep (mentions kw) topics))
    → (text : String) × Memᴰ (name, text) topics × (mentions kw (name, text) ≡ true)
kept_entry kw name [] found = absurd (Memᴰ.not-nil found)
kept_entry kw name ((topic, text) ∷ topics) found = elim (Bool-cases (mentions kw (topic, text))) [
  | inl e ↦ elim (Memᴰ.cases_cons (rw e at (found))) [
    | inl same ↦ (
      text,
      Memᴰ.head (ap (λ n. (n, text)) same),
      subst (λ n. mentions kw (n, text) ≡ true) (sym same) e,
    )
    | inr later ↦ let (t, there, q) = kept_entry kw name topics later in (t, Memᴰ.tail there, q)
  ]
  | inr e ↦
      let (t, there, q) = kept_entry kw name topics (rw e at (found)) in (t, Memᴰ.tail there, q)
]

entry_kept :
    (kw name text : String) (topics : Dict String String)
    → Memᴰ (name, text) topics
    → mentions kw (name, text) ≡ true
    → Memᴰ name (names (keep (mentions kw) topics))
entry_kept kw name text [] there q = absurd (Memᴰ.not-nil there)
entry_kept kw name text (entry ∷ topics) there q = elim (Memᴰ.cases_cons there) [
  | inl same ↦ rw (sym (ap (mentions kw) same) ∙ q) (Memᴰ.head (ap (λ x. x.0) same))
  | inr later ↦
      let rest = entry_kept kw name text topics later q in
      elim (Bool-cases (mentions kw entry)) [ inl e ↦ rw e (Memᴰ.tail rest) | inr e ↦ rw e rest ]
]

-- A search finds the names of exactly those topics whose text or whose name has the keyword inside
-- it, when all three are written in small letters.
pub search_iff :
    (topics : Dict String String) (keyword name : String)
    → Memᴰ name (search topics keyword)
      ↔ ((text : String) × Memᴰ (name, text) topics × IsMentioned (lower keyword) name text)
unfolding search
search_iff topics keyword name = (
  λ found.
      let (text, there, q) = kept_entry (lower keyword) name topics found in
      (text, there, (mentions_iff (lower keyword) name text).0 q),
  λ (text, there, m).
      entry_kept (lower keyword) name text topics there
        ((mentions_iff (lower keyword) name text).1 m),
)

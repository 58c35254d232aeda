-- ===== src/Teaching.antt =====
-- computekernel_edu/teaching.py: TeachingEngine. The lessons of `TOPICS`, which are only printed, are
-- an argument: a dictionary from the name of a topic to its text.
pub mod Search
use Prim.Native.String.{compare}
use mathlib.Core.Option
use text.Mathlib.Text.{is_le}
use compute_kernel_python.Prelude.{
  String, Bool, true, false, ◌||◌, Option, none, some, List, [], ◌∷◌, keep, map, if◌then◌else◌,
}
use compute_kernel_python.Prelude.Eq.{string_eq}
use compute_kernel_python.Prelude.Dict.{Dict, get}
use compute_kernel_python.Paths.{◌<>◌, starts_with, is_empty}
use compute_kernel_python.Text.{strip, lower, join}

-- `kw in t`
abbrev pub contains : String → String → Bool
contains kw String.[] = is_empty kw
contains kw (String.◌∷◌ c t) = starts_with (String.◌∷◌ c t) kw || contains kw t

-- `sorted(names)`
abbrev pub insert_name : String → List String → List String
insert_name n [] = n ∷ []
insert_name n (m ∷ ms) = if is_le (compare n m) then n ∷ m ∷ ms else m ∷ insert_name n ms

unfoldable pub sorted : List String → List String
sorted [] = []
sorted (n ∷ ns) = insert_name n (sorted ns)

unfoldable pub list_topics : Dict String String → List String
list_topics topics = sorted (map (λ entry. entry.0) topics)

abbrev pub or_unknown : Dict String String → String → Option String → String
or_unknown topics topic none =
    "Unknown topic: '" <> (topic <> ("'\nAvailable topics: " <> join ", " (list_topics topics)))
or_unknown topics topic (some text) = strip text

unfoldable pub explain : Dict String String → String → String
explain topics topic = or_unknown topics topic (get (lower topic) topics)

abbrev pub mentions : String → String × String → Bool
mentions kw (topic, text) = contains kw (lower text) || contains kw (lower topic)

unfoldable pub search : Dict String String → String → List String
search topics keyword = map (λ entry. entry.0) (keep (mentions (lower keyword)) topics)

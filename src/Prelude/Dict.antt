-- ===== src/Prelude/Dict.antt =====
-- Python's `dict`: an association list in insertion order. A write to a key that is there keeps
-- the key's place, and `pop` takes the key out.
use mathlib.Core.Path.{◌≡◌, refl}
use mathlib.Core.Option
use mathlib.Core.Bool.{Bool, true, false, ◌||◌}
use mathlib.Core.Option.{Option, none, some}
use mathlib.Core.List.{List, [], ◌∷◌}
use native.Mathlib.Omega.{arith}
use compute_kernel_python.Prelude.Tests.{if◌then◌else◌}
use compute_kernel_python.Prelude.Eq.{Eq, ◌==◌, test_refl}

abbrev pub Dict {ℓ κ} : Type ℓ → Type κ → Type (ℓ ⊔ κ)
Dict K V = List (K × V)

module _ {ℓ κ} {K : Type ℓ} {V : Type κ} ⦃e : Eq K⦄ where
  unfoldable pub get : K → Dict K V → Option V
  get k [] = none
  get k ((j, v) ∷ d) = if j == k then some v else get k d

  unfoldable pub put : K → V → Dict K V → Dict K V
  put k v [] = (k, v) ∷ []
  put k v ((j, w) ∷ d) = if j == k then (j, v) ∷ d else (j, w) ∷ put k v d

  unfoldable pub pop : K → Dict K V → Dict K V
  pop k [] = []
  pop k ((j, v) ∷ d) = if j == k then pop k d else (j, v) ∷ pop k d

  pub get-put :
      (k j : K) (v : V) (d : Dict K V) → get j (put k v d) ≡ (if k == j then some v else get j d)
  unfolding get put
  get-put k j v [] = refl
  get-put k j v ((i, w) ∷ d) =
      ground (arith, e.test_iff k j, e.test_iff i k, e.test_iff i j, get-put k j v d)

  pub get-pop : (k j : K) (d : Dict K V) → get j (pop k d) ≡ (if k == j then none else get j d)
  unfolding get pop
  get-pop k j [] = ground arith
  get-pop k j ((i, v) ∷ d) =
      ground (arith, e.test_iff k j, e.test_iff i k, e.test_iff i j, get-pop k j d)

  pub get-put_self : (k : K) (v : V) (d : Dict K V) → get k (put k v d) ≡ some v
  get-put_self k v d = simp (get-put, test_refl)

  pub get-pop_self : (k : K) (d : Dict K V) → get k (pop k d) ≡ none
  get-pop_self k d = simp (get-pop, test_refl)

  -- A change of the object that stands at a key.
  unfoldable pub adjust : K → (V → V) → Dict K V → Dict K V
  adjust k f [] = []
  adjust k f ((j, v) ∷ d) = if j == k then (j, f v) ∷ adjust k f d else (j, v) ∷ adjust k f d

  unfoldable pub has_key : K → Dict K V → Bool
  has_key k [] = false
  has_key k ((j, v) ∷ d) = j == k || has_key k d

  -- `d.values()`
  unfoldable pub values : Dict K V → List V
  values [] = []
  values ((j, v) ∷ d) = v ∷ values d

  pub get-adjust :
      (k j : K) (f : V → V) (d : Dict K V)
      → get j (adjust k f d) ≡ (if k == j then Option.map f (get j d) else get j d)
  unfolding get adjust
  get-adjust k j f [] = ground arith
  get-adjust k j f ((i, v) ∷ d) =
      ground (arith, e.test_iff k j, e.test_iff i k, e.test_iff i j, get-adjust k j f d)

  pub has_key-put :
      (k j : K) (v : V) (d : Dict K V) → has_key j (put k v d) ≡ (k == j || has_key j d)
  unfolding has_key put
  has_key-put k j v [] = refl
  has_key-put k j v ((i, w) ∷ d) =
      ground (arith, e.test_iff k j, e.test_iff i k, e.test_iff i j, has_key-put k j v d)

  pub has_key-pop :
      (k j : K) (d : Dict K V) → has_key j (pop k d) ≡ (if k == j then false else has_key j d)
  unfolding has_key pop
  has_key-pop k j [] = ground arith
  has_key-pop k j ((i, v) ∷ d) =
      ground (arith, e.test_iff k j, e.test_iff i k, e.test_iff i j, has_key-pop k j d)

  pub has_key-adjust : (k j : K) (f : V → V) (d : Dict K V) → has_key j (adjust k f d) ≡ has_key j d
  unfolding has_key adjust
  has_key-adjust k j f [] = refl
  has_key-adjust k j f ((i, v) ∷ d) = ground (arith, has_key-adjust k j f d)

  pub has_key-get : (k : K) (v : V) (d : Dict K V) → get k d ≡ some v → has_key k d ≡ true
  unfolding get has_key
  has_key-get k v [] h = absurd (cc)
  has_key-get k v ((i, w) ∷ d) h = ground (arith, has_key-get k v d)

  pub get-none : (k : K) (d : Dict K V) → has_key k d ≡ false → get k d ≡ none
  unfolding get has_key
  get-none k [] h = refl
  get-none k ((i, w) ∷ d) h = ground (arith, get-none k d)

  pub has_key-none : (k : K) (d : Dict K V) → get k d ≡ none → has_key k d ≡ false
  unfolding get has_key
  has_key-none k [] h = refl
  has_key-none k ((i, w) ∷ d) h = ground (arith, has_key-none k d)

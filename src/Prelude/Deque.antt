-- ===== src/Prelude/Deque.antt =====
-- Python's `deque(maxlen=cap)`: an item appended to a full one pushes the oldest item out.
use Prim.Native.Nat.{ℕ, zero, suc, ◌+◌, ◌-◌, ◌≤◌, ◌<◌}
use mathlib.Core.Path.{◌≡◌, refl, sym, ap, ◌∙◌}
use mathlib.Core.Logic.{inl, inr}
use mathlib.Core.List.{List, [], ◌∷◌, ◌++◌, append_assoc, append-nil}
use native.Mathlib.Omega.{arith}
use compute_kernel_python.Prelude.Tests.{ltb, ltb→lt, lt→ltb, Bool-cases, if◌then◌else◌}
use compute_kernel_python.Prelude.Lists.{length, drop, length-append, length-drop}

module _ {ℓ} {A : Type ℓ} where
  unfoldable pub push : ℕ → A → List A → List A
  push cap x xs = if ltb (length xs) cap then xs ++ x ∷ [] else drop 1 xs ++ x ∷ []

  -- `for x in items: d.append(x)`
  unfoldable pub push_all : ℕ → List A → List A → List A
  push_all cap [] xs = xs
  push_all cap (x ∷ items) xs = push_all cap items (push cap x xs)

  -- `popleft`, `n` times or as long as there is an item; what was taken and what is left.
  unfoldable pub pop_left : ℕ → List A → List A × List A
  pop_left zero xs = ([], xs)
  pop_left (suc n) [] = ([], [])
  pop_left (suc n) (x ∷ xs) = let (taken, left) = pop_left n xs in (x ∷ taken, left)

module _ {ℓ} {A : Type ℓ} where
  drop-append : (k : ℕ) (xs ys : List A) → k ≤ length xs → drop k xs ++ ys ≡ drop k (xs ++ ys)
  drop-append zero xs ys h = refl
  drop-append (suc k) [] ys h = absurd (omega arith)
  drop-append (suc k) (x ∷ xs) ys h = drop-append k xs ys (omega arith)

  drop-nil : (k : ℕ) → drop {A = A} k [] ≡ []
  drop-nil zero = refl
  drop-nil (suc k) = refl

  drop-drop : (k m : ℕ) (xs : List A) → drop m (drop k xs) ≡ drop (k + m) xs
  drop-drop zero m xs = let e : m ≡ 0 + m = omega arith in ap (λ n. drop n xs) e
  drop-drop (suc k) m [] = drop-nil m ∙ sym (drop-nil (suc k + m))
  drop-drop (suc k) m (x ∷ xs) =
      let e : suc (k + m) ≡ suc k + m = omega arith in
      drop-drop k m xs ∙ ap (λ n. drop n (x ∷ xs)) e

  push-drop :
      (cap : ℕ) (x : A) (xs : List A)
      → 0 < cap
      → length xs ≤ cap
      → push cap x xs ≡ drop (length (xs ++ x ∷ []) - cap) (xs ++ x ∷ [])
  unfolding push
  push-drop cap x xs pos fits = elim (Bool-cases (ltb (length xs) cap)) [
    | inl room ↦
        let e : 0 ≡ length (xs ++ x ∷ []) - cap =
          omega (arith, length-append xs (x ∷ []), ltb→lt (length xs) cap room) in
        rw room (ap (λ n. drop n (xs ++ x ∷ [])) e)
    | inr full ↦
        let e : 1 ≡ length (xs ++ x ∷ []) - cap = ground (arith, length-append xs (x ∷ [])) in
        rw full (drop-append 1 xs (x ∷ []) (ground arith) ∙ ap (λ n. drop n (xs ++ x ∷ [])) e)
  ]

  pub length-push :
      (cap : ℕ) (x : A) (xs : List A) → 0 < cap → length xs ≤ cap → length (push cap x xs) ≤ cap
  unfolding push
  length-push cap x xs pos fits =
      ground
        (arith, length-append xs (x ∷ []), length-append (drop 1 xs) (x ∷ []), length-drop 1 xs)

  pub length-push_all :
      (cap : ℕ) (items xs : List A)
      → 0 < cap
      → length xs ≤ cap
      → length (push_all cap items xs) ≤ cap
  unfolding push_all
  length-push_all cap [] xs pos fits = fits
  length-push_all cap (x ∷ items) xs pos fits =
      length-push_all cap items (push cap x xs) pos (length-push cap x xs pos fits)

  -- What is kept are the last `cap` items of the old ones and the new ones.
  pub push_all-drop :
      (cap : ℕ) (items xs : List A)
      → 0 < cap
      → length xs ≤ cap
      → push_all cap items xs ≡ drop (length (xs ++ items) - cap) (xs ++ items)
  unfolding push_all
  push_all-drop cap [] xs pos fits =
      let e : 0 ≡ length (xs ++ []) - cap = omega (arith, length-append xs []) in
      sym (append-nil xs) ∙ ap (λ n. drop n (xs ++ [])) e
  push_all-drop cap (x ∷ items) xs pos fits =
      let k = length (xs ++ x ∷ []) - cap in
      let ys = xs ++ x ∷ [] in
      let short : k ≤ length ys = omega arith in
      let pushed = push-drop cap x xs pos fits in
      let sum : k + (length (push cap x xs ++ items) - cap) ≡ length (xs ++ x ∷ items) - cap =
        omega (
          arith,
          length-append (push cap x xs) items,
          length-append xs (x ∷ items),
          length-append xs (x ∷ []),
          length-drop k ys,
          ap length pushed,
        ) in
      push_all-drop cap items (push cap x xs) pos (length-push cap x xs pos fits)
      ∙ ap (drop (length (push cap x xs ++ items) - cap))
          (ap (λ l. l ++ items) pushed ∙ drop-append k ys items short)
      ∙ drop-drop k (length (push cap x xs ++ items) - cap) (ys ++ items)
      ∙ ap (λ n. drop n (ys ++ items)) sum
      ∙ ap (drop (length (xs ++ x ∷ items) - cap)) (append_assoc xs (x ∷ []) items)

  -- Nothing is pushed out where there is room.
  pub push_all-append :
      (cap : ℕ) (items xs : List A)
      → length xs + length items ≤ cap
      → push_all cap items xs ≡ xs ++ items
  unfolding push_all push
  push_all-append cap [] xs fits = sym (append-nil xs)
  push_all-append cap (x ∷ items) xs fits = rw (lt→ltb (length xs) cap (omega arith)) (
      push_all-append cap items (xs ++ x ∷ []) (omega (arith, length-append xs (x ∷ [])))
      ∙ append_assoc xs (x ∷ []) items)

  pub pop_left-append : (xs ys : List A) → pop_left (length xs) (xs ++ ys) ≡ (xs, ys)
  unfolding pop_left
  pop_left-append [] ys = refl
  pop_left-append (x ∷ xs) ys = ground (arith, pop_left-append xs ys)

  pub pop_left-split : (n : ℕ) (xs : List A) → (pop_left n xs).0 ++ (pop_left n xs).1 ≡ xs
  unfolding pop_left
  pop_left-split zero xs = refl
  pop_left-split (suc n) [] = refl
  pop_left-split (suc n) (x ∷ xs) = ap (λ l. x ∷ l) (pop_left-split n xs)

  pub length-pop_left : (n : ℕ) (xs : List A) → n ≤ length xs → length (pop_left n xs).0 ≡ n
  unfolding pop_left
  length-pop_left zero xs h = refl
  length-pop_left (suc n) [] h = absurd (omega arith)
  length-pop_left (suc n) (x ∷ xs) h = ap suc (length-pop_left n xs (omega arith))

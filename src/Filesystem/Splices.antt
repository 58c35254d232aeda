-- ===== src/Filesystem/Splices.antt =====
-- Two writes next to each other are one write.
use compute_kernel_python.Prelude.{
  ℕ, zero, suc, ◌+◌, ◌-◌, ◌≤◌, ◌≡◌, refl, sym, ap, ◌∙◌, List, [], ◌∷◌, ◌++◌, length, take, drop,
  replicate, length-append, length-take, length-replicate, arith,
}
use mathlib.Core.List.{append_assoc, append-nil}
use compute_kernel_python.Filesystem.{Inode, extended, spliced, set_content, overwrite}

module _ {ℓ} {A : Type ℓ} where
  take-append_exact : (xs ys : List A) → take (length xs) (xs ++ ys) ≡ xs
  take-append_exact [] ys = refl
  take-append_exact (x ∷ xs) ys = ap (λ l. x ∷ l) (take-append_exact xs ys)

  drop-append_past : (xs ys : List A) (m : ℕ) → drop (length xs + m) (xs ++ ys) ≡ drop m ys
  drop-append_past [] ys m = let e : 0 + m ≡ m = omega arith in ap (λ n. drop n ys) e
  drop-append_past (x ∷ xs) ys m =
      let e : length (x ∷ xs) + m ≡ suc (length xs + m) = omega arith in
      ap (λ n. drop n (x ∷ (xs ++ ys))) e ∙ drop-append_past xs ys m

  drop-drop : (k m : ℕ) (xs : List A) → drop m (drop k xs) ≡ drop (k + m) xs
  drop-drop zero m xs = let e : m ≡ 0 + m = omega arith in ap (λ n. drop n xs) e
  drop-drop (suc k) m [] = drop_none m ∙ sym (drop_none (suc k + m))
    where
      drop_none : (n : ℕ) → drop {A = A} n [] ≡ []
      drop_none zero = refl
      drop_none (suc n) = refl
  drop-drop (suc k) m (x ∷ xs) =
      let e : suc (k + m) ≡ suc k + m = omega arith in
      drop-drop k m xs ∙ ap (λ n. drop n (x ∷ xs)) e

extended_long :
    (offset : ℕ) (bytes : List ℕ) → offset ≤ length bytes → extended offset bytes ≡ bytes
extended_long offset bytes h =
    let e : offset - length bytes ≡ 0 = omega (arith, h) in
    ap (λ n. bytes ++ replicate n 0) e ∙ append-nil bytes

length-extended : (offset : ℕ) (bytes : List ℕ) → offset ≤ length (extended offset bytes)
length-extended offset bytes = omega (
  arith,
  length-append bytes (replicate (offset - length bytes) 0),
  length-replicate {A = ℕ} (offset - length bytes) 0,
)

-- On bytes that reach up to the offset.
spliced-spliced :
    (offset : ℕ) (xs ys old : List ℕ)
    → offset ≤ length old
    → spliced (offset + length xs) ys (extended (offset + length xs) (spliced offset xs old))
      ≡ spliced offset (xs ++ ys) old
spliced-spliced offset xs ys old h =
    let front = take offset old ++ xs in
    let rest = drop (offset + length xs) old in
    let at : length front ≡ offset + length xs =
      omega (arith, length-append (take offset old) xs, length-take offset old, h) in
    let shape : spliced offset xs old ≡ front ++ rest =
      sym (append_assoc (take offset old) xs rest) in
    let long : extended (offset + length xs) (front ++ rest) ≡ front ++ rest =
      extended_long (offset + length xs) (front ++ rest)
        (omega (arith, length-append front rest, at)) in
    let sum : (offset + length xs) + length ys ≡ offset + length (xs ++ ys) =
      omega (arith, length-append xs ys) in
    ap (λ l. spliced (offset + length xs) ys (extended (offset + length xs) l)) shape
    ∙ ap (spliced (offset + length xs) ys) long
    ∙ ap (λ n. spliced n ys (front ++ rest)) (sym at)
    ∙ ap (λ l. l ++ (ys ++ drop (length front + length ys) (front ++ rest)))
        (take-append_exact front rest)
    ∙ ap (λ l. front ++ (ys ++ l)) (drop-append_past front rest (length ys))
    ∙ ap (λ l. front ++ (ys ++ l)) (drop-drop (offset + length xs) (length ys) old)
    ∙ ap (λ n. front ++ (ys ++ drop n old)) sum
    ∙ append_assoc (take offset old) xs (ys ++ drop (offset + length (xs ++ ys)) old)
    ∙ ap (λ l. take offset old ++ l)
        (sym (append_assoc xs ys (drop (offset + length (xs ++ ys)) old)))

pub overwrite-overwrite :
    (offset : ℕ) (xs ys : List ℕ) (i : Inode)
    → overwrite (offset + length xs) ys (overwrite offset xs i) ≡ overwrite offset (xs ++ ys) i
overwrite-overwrite offset xs ys i =
    ap (λ l. set_content l i)
      (spliced-spliced offset xs ys (extended offset i.content) (length-extended offset i.content))

-- ===== src/Prelude/Ids.antt =====
-- Identifiers handed out from a counter and a queue of returned ones: what an allocator keeps true
-- of the counter, the queue and the identifiers in use.
use mathlib.Core.List.{List, [], ◌∷◌, ◌++◌}
use mathlib.Core.Path.{◌≡◌, refl}
use mathlib.Core.Bool.{Bool, true, false, ◌||◌}
use Prim.Native.Nat.{ℕ, ◌+◌, ◌≤◌, ◌<◌}
use native.Mathlib.Omega.{arith}
use compute_kernel_python.Prelude.Tests.{if◌then◌else◌}
use compute_kernel_python.Prelude.Eq.{◌==◌, nat_eq}

abbrev pub has : ℕ → List ℕ → Bool
has k [] = false
has k (x ∷ xs) = x == k || has k xs

abbrev pub Distinct : List ℕ → Type 0
Distinct [] = Unit
Distinct (x ∷ xs) = (has x xs ≡ false) × Distinct xs

pub has-snoc : (k x : ℕ) (xs : List ℕ) → has k (xs ++ x ∷ []) ≡ (x == k || has k xs)
has-snoc k x [] = refl
has-snoc k x (y ∷ xs) = ground (arith, has-snoc k x xs)

pub Distinct-snoc : (x : ℕ) (xs : List ℕ) → Distinct xs → has x xs ≡ false → Distinct (xs ++ x ∷ [])
Distinct-snoc x [] d h = (refl, tt)
Distinct-snoc x (y ∷ xs) d h =
    (ground (arith, has-snoc y x xs), Distinct-snoc x xs d.1 (ground arith))

-- Identifiers from `first` up to `next` are in use or returned, and never both.
pub record Sound (first next : ℕ) (spare : List ℕ) (live : ℕ → Bool) : Type 0 where
  pub low : first ≤ next
  pub live_below : (k : ℕ) → live k ≡ true → k < next
  pub spare_low : (k : ℕ) → has k spare ≡ true → first ≤ k
  pub spare_below : (k : ℕ) → has k spare ≡ true → k < next
  pub spare_free : (k : ℕ) → has k spare ≡ true → live k ≡ false
  pub distinct : Distinct spare
  pub complete : (k : ℕ) → first ≤ k → k < next → live k ≡ false → has k spare ≡ true

module _ {first next : ℕ} {live after : ℕ → Bool} where
  -- The counter's value is given out when no identifier waits to be used again.
  pub Sound-take_next :
      Sound first next [] live
      → ((k : ℕ) → after k ≡ (next == k || live k))
      → Sound first (next + 1) [] after
  Sound-take_next s e = record {
    low = omega (arith, s.low);
    live_below = λ k h. ground (arith, e k, s.live_below k);
    spare_low = λ k h. absurd (cc);
    spare_below = λ k h. absurd (cc);
    spare_free = λ k h. absurd (cc);
    distinct = tt;
    complete = λ k l b h. ground (arith, e k, s.complete k);
  }

module _ {first next : ℕ} {live after : ℕ → Bool} (x : ℕ) (spare : List ℕ) where
  pub Sound-take_spare :
      Sound first next (x ∷ spare) live
      → ((k : ℕ) → after k ≡ (x == k || live k))
      → Sound first next spare after
  Sound-take_spare s e = record {
    low = s.low;
    live_below = λ k h. ground (arith, e k, s.live_below k, s.spare_below k);
    spare_low = λ k h. ground (arith, s.spare_low k);
    spare_below = λ k h. ground (arith, s.spare_below k);
    spare_free = λ k h. ground (arith, e k, s.spare_free k, s.distinct);
    distinct = s.distinct.1;
    complete = λ k l b h. ground (arith, e k, s.complete k);
  }

  pub Sound-return :
      Sound first next spare live
      → first ≤ x
      → live x ≡ true
      → ((k : ℕ) → after k ≡ (if x == k then false else live k))
      → Sound first next (spare ++ x ∷ []) after
  Sound-return s l h e = record {
    low = s.low;
    live_below = λ k h'. ground (arith, e k, s.live_below k);
    spare_low = λ k h'. ground (arith, has-snoc k x spare, s.spare_low k);
    spare_below = λ k h'. ground (arith, has-snoc k x spare, s.spare_below k, s.live_below x h);
    spare_free = λ k h'. ground (arith, e k, has-snoc k x spare, s.spare_free k);
    distinct = Distinct-snoc x spare s.distinct (ground (arith, s.spare_free x));
    complete = λ k l' b h'. ground (arith, e k, has-snoc k x spare, s.complete k);
  }

  -- An identifier below `first` leaves and is not kept for another use.
  pub Sound-drop :
      Sound first next spare live
      → x < first
      → ((k : ℕ) → after k ≡ (if x == k then false else live k))
      → Sound first next spare after
  Sound-drop s l e = record {
    low = s.low;
    live_below = λ k h. ground (arith, e k, s.live_below k);
    spare_low = s.spare_low;
    spare_below = s.spare_below;
    spare_free = λ k h. ground (arith, e k, s.spare_free k);
    distinct = s.distinct;
    complete = λ k l' b h. ground (arith, e k, s.complete k);
  }

module _ {first next : ℕ} {spare : List ℕ} {live after : ℕ → Bool} where
  pub Sound-same :
      Sound first next spare live → ((k : ℕ) → after k ≡ live k) → Sound first next spare after
  Sound-same s e = record {
    low = s.low;
    live_below = λ k h. ground (arith, e k, s.live_below k);
    spare_low = s.spare_low;
    spare_below = s.spare_below;
    spare_free = λ k h. ground (arith, e k, s.spare_free k);
    distinct = s.distinct;
    complete = λ k l b h. ground (arith, e k, s.complete k);
  }

-- ===== src/Memory/Space/Laws.antt =====
-- What `map`, `unmap`, `lookup` and `check_access` promise.
use compute_kernel_python.Prelude.{
  ℕ, ◌≤◌, ◌<◌, String, ◌≡◌, refl, Bool, true, false, not, Option, none, some, List, [], ◌∷◌, ◌++◌,
  ltb, length, keep, find, any, if◌then◌else◌, arith, ◌↔◌,
}
use compute_kernel_python.Prelude.Eq.{◌==◌, nat_eq}
use compute_kernel_python.Memory.Space.{
  VirtualMemoryArea, AddressSpace, contains, area, map, unmap, lookup, may_write, may_exec,
  check_access,
}

-- The first of two optional values that is there.
abbrev pub or_else {ℓ} : {A : Type ℓ} → Option A → Option A → Option A
or_else none o = o
or_else (some a) o = some a

find-snoc {ℓ} :
    {A : Type ℓ} (p : A → Bool) (xs : List A) (x : A)
    → find p (xs ++ x ∷ []) ≡ or_else (find p xs) (if p x then some x else none)
find-snoc p [] x = refl
find-snoc p (y ∷ xs) x = ground (arith, find-snoc p xs x)

-- A mapping is found at the addresses that no earlier mapping holds; elsewhere nothing changes.
pub lookup-map :
    (addr start size : ℕ) (flags name : String) (s : AddressSpace)
    → lookup addr (map start size flags name s)
      ≡ or_else (lookup addr s) (
          if contains addr (area start size flags name)
          then some (area start size flags name)
          else none)
unfolding lookup map
lookup-map addr start size flags name s =
    find-snoc (contains addr) s.areas (area start size flags name)

length-keep-le {ℓ} : {A : Type ℓ} (p : A → Bool) (xs : List A) → length (keep p xs) ≤ length xs
length-keep-le p [] = omega arith
length-keep-le p (x ∷ xs) = ground (arith, length-keep-le p xs)

length-keep-lt {ℓ} :
    {A : Type ℓ} (p : A → Bool) (xs : List A)
    → ltb (length (keep (λ x. not (p x)) xs)) (length xs) ≡ any p xs
length-keep-lt p [] = refl
length-keep-lt p (x ∷ xs) = ground (arith, length-keep-lt p xs, length-keep-le (λ y. not (p y)) xs)

find-keep-start :
    (addr start : ℕ) (xs : List VirtualMemoryArea) (a : VirtualMemoryArea)
    → find (contains addr) (keep (λ b. not (b.start == start)) xs) ≡ some a
    → (a.start == start) ≡ false
unfolding contains
find-keep-start addr start [] a h = absurd (cc)
find-keep-start addr start (x ∷ xs) a h = ground (arith, find-keep-start addr start xs a)

find-keep-other :
    (addr start : ℕ) (xs : List VirtualMemoryArea) (a : VirtualMemoryArea)
    → find (contains addr) xs ≡ some a
    → (a.start == start) ≡ false
    → find (contains addr) (keep (λ b. not (b.start == start)) xs) ≡ some a
unfolding contains
find-keep-other addr start [] a h n = h
find-keep-other addr start (x ∷ xs) a h n = ground (arith, find-keep-other addr start xs a)

-- `unmap` answers whether an area starts at the address. Afterwards no look-up finds one that
-- does, and a look-up that found another area still finds that one.
pub unmap_lem :
    (start : ℕ) (s : AddressSpace)
    → ((unmap start s).0 ≡ any (λ a. a.start == start) s.areas)
      × ((addr : ℕ) (a : VirtualMemoryArea)
          → lookup addr (unmap start s).1 ≡ some a
          → (a.start == start) ≡ false)
      × ((addr : ℕ) (a : VirtualMemoryArea)
          → lookup addr s ≡ some a
          → (a.start == start) ≡ false
          → lookup addr (unmap start s).1 ≡ some a)
unfolding unmap lookup
unmap_lem start s = (
  length-keep-lt (λ a. a.start == start) s.areas,
  λ addr a h. find-keep-start addr start s.areas a h,
  λ addr a h n. find-keep-other addr start s.areas a h n,
)

-- An access that needs only rights that the area found for the address grants.
pub record Permits (addr : ℕ) (write exec : Bool) (s : AddressSpace) : Type 0 where
  pub found : VirtualMemoryArea
  pub looked_up : lookup addr s ≡ some found
  pub inside : (found.start ≤ addr) × (addr < found.end)
  pub writes : write ≡ true → may_write found ≡ true
  pub executes : exec ≡ true → may_exec found ≡ true

find-holds {ℓ} : {A : Type ℓ} (p : A → Bool) (xs : List A) (x : A) → find p xs ≡ some x → p x ≡ true
find-holds p [] x h = absurd (cc)
find-holds p (y ∷ xs) x h = ground (arith, find-holds p xs x)

lookup-inside :
    (addr : ℕ) (s : AddressSpace) (a : VirtualMemoryArea)
    → lookup addr s ≡ some a
    → (a.start ≤ addr) × (addr < a.end)
unfolding lookup contains
lookup-inside addr s a h = ground (arith, find-holds (contains addr) s.areas a h)

granted :
    (addr : ℕ) (write exec : Bool) (s : AddressSpace) (o : Option VirtualMemoryArea)
    → lookup addr s ≡ o
    → check_access addr write exec s ≡ true
    → Permits addr write exec s
unfolding check_access
granted addr write exec s none e h = absurd (ground arith)
granted addr write exec s (some a) e h = record {
  found = a;
  looked_up = e;
  inside = lookup-inside addr s a e;
  writes = λ w. ground arith;
  executes = λ x. ground arith;
}

-- `check_access` answers yes exactly when the first area that holds the address has each right
-- that is asked for.
pub check_access_iff :
    (addr : ℕ) (write exec : Bool) (s : AddressSpace)
    → (check_access addr write exec s ≡ true) ↔ Permits addr write exec s
unfolding check_access
check_access_iff addr write exec s = (
  granted addr write exec s (lookup addr s) refl,
  λ p. ground (arith, p.looked_up, p.writes, p.executes),
)

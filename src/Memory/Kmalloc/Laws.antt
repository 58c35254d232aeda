-- ===== src/Memory/Kmalloc/Laws.antt =====
-- Live blocks are aligned and disjoint, whatever the calls.
use compute_kernel_python.Prelude.{
  ℕ, zero, suc, ◌+◌, ◌%◌, ◌≤◌, ◌<◌, ◌≡◌, refl, Option, none, some, List, [], ◌∷◌, ℤ, pos, negsuc,
  if◌then◌else◌, arith,
}
use compute_kernel_python.Prelude.Eq.{nat_eq}
use compute_kernel_python.Prelude.Dict.{Dict, get, put, pop, get-put, get-pop}
use compute_kernel_python.Memory.Kmalloc.{Kmalloc, init, rounded, alloc, free}

-- The blocks stand in order from `lo` up to `hi`, aligned, not empty, and none reaches the next.
abbrev pub Blocks : ℕ → Dict ℕ ℕ → ℕ → Type 0
Blocks lo [] hi = lo ≤ hi
Blocks lo ((addr, size) ∷ d) hi =
    (lo ≤ addr) × (addr % 16 ≡ 0) × (0 < size) × Blocks (addr + size) d hi

pub record IsValid (s : Kmalloc) : Type 0 where
  pub aligned : s.next_addr % 16 ≡ 0
  pub blocks : Blocks init.next_addr s.allocations s.next_addr

Blocks-le : (lo hi : ℕ) (d : Dict ℕ ℕ) → Blocks lo d hi → lo ≤ hi
Blocks-le lo hi [] h = h
Blocks-le lo hi ((a, n) ∷ d) h = omega (arith, Blocks-le (a + n) hi d h.3)

Blocks-lower : (lo lo' hi : ℕ) (d : Dict ℕ ℕ) → lo' ≤ lo → Blocks lo d hi → Blocks lo' d hi
Blocks-lower lo lo' hi [] l h = omega arith
Blocks-lower lo lo' hi ((a, n) ∷ d) l h = (omega arith, h.1, h.2, h.3)

Blocks-put :
    (lo hi n : ℕ) (d : Dict ℕ ℕ)
    → hi % 16 ≡ 0
    → Blocks lo d hi
    → Blocks lo (put hi (suc n) d) (hi + rounded (suc n))
unfolding put
Blocks-put lo hi n [] a h = omega arith
Blocks-put lo hi n ((b, m) ∷ d) a h =
    ground (arith, Blocks-put (b + m) hi n d a h.3, Blocks-le (b + m) hi d h.3)

Blocks-pop : (lo hi addr : ℕ) (d : Dict ℕ ℕ) → Blocks lo d hi → Blocks lo (pop addr d) hi
unfolding pop
Blocks-pop lo hi addr [] h = h
Blocks-pop lo hi addr ((b, m) ∷ d) h =
    ground (arith, Blocks-pop (b + m) hi addr d h.3, Blocks-lower (b + m) lo hi (pop addr d))

Blocks-get :
    (lo hi a n : ℕ) (d : Dict ℕ ℕ)
    → Blocks lo d hi
    → get a d ≡ some n
    → (lo ≤ a) × (a % 16 ≡ 0) × (0 < n) × (a + n ≤ hi)
unfolding get
Blocks-get lo hi a n [] h g = absurd (cc)
Blocks-get lo hi a n ((b, m) ∷ d) h g =
    ground (arith, Blocks-get (b + m) hi a n d h.3, Blocks-le (b + m) hi d h.3)

Blocks-disjoint :
    (lo hi a b n m : ℕ) (d : Dict ℕ ℕ)
    → Blocks lo d hi
    → get a d ≡ some n
    → get b d ≡ some m
    → a < b
    → a + n ≤ b
unfolding get
Blocks-disjoint lo hi a b n m [] h p q l = absurd (cc)
Blocks-disjoint lo hi a b n m ((c, k) ∷ d) h p q l = ground (
  arith,
  Blocks-disjoint (c + k) hi a b n m d h.3,
  Blocks-get (c + k) hi a n d h.3,
  Blocks-get (c + k) hi b m d h.3,
)

-- One call of the allocator by some caller.
pub data Call : Type 0 where
  do_alloc : ℤ → Call
  do_free : ℕ → Call

abbrev pub perform : Call → Kmalloc → Kmalloc
perform (do_alloc size) s = (alloc size s).1
perform (do_free addr) s = free addr s

abbrev pub run : List Call → Kmalloc → Kmalloc
run [] s = s
run (c ∷ cs) s = run cs (perform c s)

pub perform-IsValid : (c : Call) (s : Kmalloc) → IsValid s → IsValid (perform c s)
unfolding alloc free
perform-IsValid (do_alloc (negsuc n)) s v = v
perform-IsValid (do_alloc (pos zero)) s v = v
perform-IsValid (do_alloc (pos (suc n))) s v = record {
  aligned = omega (arith, v.aligned);
  blocks = Blocks-put _ s.next_addr n s.allocations v.aligned v.blocks;
}
perform-IsValid (do_free addr) s v = record {
  aligned = ground arith;
  blocks = ground (arith, Blocks-pop init.next_addr s.next_addr addr s.allocations v.blocks);
}

pub run-IsValid : (cs : List Call) (s : Kmalloc) → IsValid s → IsValid (run cs s)
run-IsValid [] s v = v
run-IsValid (c ∷ cs) s v = run-IsValid cs _ (perform-IsValid c s v)

pub init-IsValid : IsValid init
init-IsValid = record { aligned = omega arith; blocks = omega arith }

-- After any calls from the start, allocations that fail and double frees included, every live block
-- is aligned to 16 bytes, not empty and above the start address, and any live block at a higher
-- address begins at its end or after it.
pub live_disjoint :
    (cs : List Call) (a n : ℕ)
    → get a (run cs init).allocations ≡ some n
    → (a % 16 ≡ 0)
      × (0 < n)
      × (init.next_addr ≤ a)
      × ((b m : ℕ) → get b (run cs init).allocations ≡ some m → a < b → a + n ≤ b)
live_disjoint cs a n p =
    let v = run-IsValid cs init init-IsValid in
    let here =
      Blocks-get init.next_addr (run cs init).next_addr a n (run cs init).allocations v.blocks p in
    (
      here.1,
      here.2,
      here.0,
      λ b m q l.
          Blocks-disjoint init.next_addr (run cs init).next_addr a b n m (run cs init).allocations
            v.blocks p q l,
    )

-- On a heap as calls leave it, a size below 1 fails and changes nothing. Any other gives an
-- address that is not live, at which the size is then recorded, and every other block stays.
pub alloc_lem :
    (n : ℕ) (s : Kmalloc)
    → IsValid s
    → ((alloc (negsuc n) s ≡ (none, s)) × (alloc (pos 0) s ≡ (none, s)))
      × (a : ℕ) × ((alloc (pos (suc n)) s).0 ≡ some a)
      × (get a s.allocations ≡ none)
      × ((j : ℕ)
          → get j (alloc (pos (suc n)) s).1.allocations
            ≡ (if nat_eq.test a j then some (suc n) else get j s.allocations))
unfolding alloc
alloc_lem n s v = (
  (refl, refl),
  s.next_addr,
  refl,
  not_live (get s.next_addr s.allocations) refl,
  λ j. get-put s.next_addr j (suc n) s.allocations,
)
  where
    not_live : (o : Option ℕ) → get s.next_addr s.allocations ≡ o → o ≡ none
    not_live none e = refl
    not_live (some m) e =
        absurd (omega (arith, Blocks-get _ _ s.next_addr m s.allocations v.blocks e))

get-free :
    (a j : ℕ) (s : Kmalloc)
    → get j (free a s).allocations ≡ (if nat_eq.test a j then none else get j s.allocations)
unfolding free
get-free a j s = ground (arith, get-pop a j s.allocations)

free-untouched : (a : ℕ) (s : Kmalloc) → get a s.allocations ≡ none → free a s ≡ s
unfolding free
free-untouched a s e = ground arith

free-free : (a : ℕ) (s : Kmalloc) → free a (free a s) ≡ free a s
free-free a s = free-untouched a (free a s) (ground (arith, get-free a a s))

-- On a heap as calls leave it, freeing what was just allocated brings back the live blocks, and a
-- second free changes nothing.
pub free-alloc :
    (n a : ℕ) (s : Kmalloc)
    → IsValid s
    → (alloc (pos (suc n)) s).0 ≡ some a
    → ((j : ℕ) → get j (free a (alloc (pos (suc n)) s).1).allocations ≡ get j s.allocations)
      × (free a (free a (alloc (pos (suc n)) s).1) ≡ free a (alloc (pos (suc n)) s).1)
free-alloc n a s v e =
    let (_, b, e', fresh, reads) = alloc_lem n s v in
    (
      λ j. ground (arith, get-free a j (alloc (pos (suc n)) s).1, reads j, fresh, e'),
      free-free a (alloc (pos (suc n)) s).1,
    )

-- ===== src/Memory/Pmm/Frames.antt =====
-- What a well-formed frame table is, and what one allocation and one release do to it.
use compute_kernel_python.Prelude.{
  ℕ, zero, suc, ◌+◌, ◌≤◌, ◌<◌, ◌≡◌, refl, sym, ap, false, none, some, List, [], ◌∷◌, ℤ, pos, negsuc,
  ltb, length, modify, length-modify, arith, Bool-cases, ◌-◌, inl, inr, ◌∙◌,
}
use compute_kernel_python.Memory.Pmm.{
  Page, Pmm, fresh_pages, init, count_free, count_used, free_pages, used_pages, clear, first_free,
  alloc_page, free_page,
}

-- Frame `k` stands at place `k`, and a free frame has no owner.
abbrev pub Frames : ℕ → List Page → Type 0
Frames k [] = Unit
Frames k (p ∷ ps) = (p.pfn ≡ k) × (p.in_use ≡ false → p.owner_pid ≡ 0) × Frames (suc k) ps

pub record IsValid (s : Pmm) : Type 0 where
  pub sized : s.total_pages ≡ length s.pages
  pub frames : Frames 0 s.pages

pub Frames-fresh_pages : (k n : ℕ) → Frames k (fresh_pages k n)
unfolding fresh_pages
Frames-fresh_pages k zero = tt
Frames-fresh_pages k (suc n) = (refl, λ _. refl, Frames-fresh_pages (suc k) n)

pub length-fresh_pages : (k n : ℕ) → length (fresh_pages k n) ≡ n
unfolding fresh_pages
length-fresh_pages k zero = refl
length-fresh_pages k (suc n) = ap suc (length-fresh_pages (suc k) n)

-- A new manager is well-formed.
pub init-IsValid : (n : ℕ) → IsValid (init n)
unfolding init
init-IsValid n = record { sized = sym (length-fresh_pages 0 n); frames = Frames-fresh_pages 0 n }

pub count_free-add-count_used : (ps : List Page) → count_free ps + count_used ps ≡ length ps
count_free-add-count_used [] = omega arith
count_free-add-count_used (p ∷ ps) = ground (arith, count_free-add-count_used ps)

-- In a well-formed manager the free and the used frames add up to all frames.
pub free-add-used : (s : Pmm) → IsValid s → free_pages s + used_pages s ≡ s.total_pages
unfolding free_pages used_pages
free-add-used s v = omega (arith, count_free-add-count_used s.pages, v.sized)

module _ (pid : ℕ) where
  pub length-first_free : (ps : List Page) → length (first_free pid ps).1 ≡ length ps
  unfolding first_free
  length-first_free [] = refl
  length-first_free (p ∷ ps) = ground (arith, length-first_free ps)

  pub Frames-first_free : (k : ℕ) (ps : List Page) → Frames k ps → Frames k (first_free pid ps).1
  unfolding first_free
  Frames-first_free k [] h = tt
  Frames-first_free k (p ∷ ps) h = ground (arith, Frames-first_free (suc k) ps h.2)

  pub first_free-none : (ps : List Page) → count_free ps ≡ 0 → first_free pid ps ≡ (none, ps)
  unfolding first_free
  first_free-none [] h = refl
  first_free-none (p ∷ ps) h = ground (arith, first_free-none ps)

  first_free-ge :
      (k : ℕ) (ps : List Page) (q : Page)
      → Frames k ps
      → (first_free pid ps).0 ≡ some q
      → (k ≤ q.pfn) × (q.pfn < k + length ps)
  unfolding first_free
  first_free-ge k [] q h e = absurd (cc)
  first_free-ge k (p ∷ ps) q h e = ground (arith, first_free-ge (suc k) ps q h.2)

  -- Clearing the claimed frame brings back the table.
  pub first_free-clear :
      (k : ℕ) (ps : List Page) (q : Page)
      → Frames k ps
      → (first_free pid ps).0 ≡ some q
      → modify (first_free pid ps).1 (q.pfn - k) clear ≡ ps
  unfolding first_free
  first_free-clear k [] q h e = refl
  first_free-clear k (p ∷ ps) q h e =
      ground (arith, first_free-clear (suc k) ps q h.2, first_free-ge (suc k) ps q h.2)

  pub first_free-untouched :
      (ps : List Page) → (first_free pid ps).0 ≡ none → (first_free pid ps).1 ≡ ps
  unfolding first_free
  first_free-untouched [] e = refl
  first_free-untouched (p ∷ ps) e = ground (arith, first_free-untouched ps)

  pub count_free-first_free-none :
      (ps : List Page) → (first_free pid ps).0 ≡ none → count_free ps ≡ 0
  unfolding first_free
  count_free-first_free-none [] e = refl
  count_free-first_free-none (p ∷ ps) e = ground (arith, count_free-first_free-none ps)

  pub count_free-first_free-some :
      (ps : List Page) (q : Page)
      → (first_free pid ps).0 ≡ some q
      → count_free ps ≡ suc (count_free (first_free pid ps).1)
  unfolding first_free
  count_free-first_free-some [] q e = absurd (cc)
  count_free-first_free-some (p ∷ ps) q e = ground (arith, count_free-first_free-some ps q)

  pub alloc_page-IsValid : (s : Pmm) → IsValid s → IsValid (alloc_page pid s).1
  unfolding alloc_page
  alloc_page-IsValid s v = record {
    sized = v.sized ∙ sym (length-first_free s.pages);
    frames = Frames-first_free 0 s.pages v.frames;
  }

pub Frames-modify-clear : (k i : ℕ) (ps : List Page) → Frames k ps → Frames k (modify ps i clear)
Frames-modify-clear k i [] h = tt
Frames-modify-clear k zero (p ∷ ps) h = (h.0, λ _. refl, h.2)
Frames-modify-clear k (suc i) (p ∷ ps) h = (h.0, h.1, Frames-modify-clear (suc k) i ps h.2)

pub modify_out_of_range {ℓ} :
    {A : Type ℓ} (xs : List A) (i : ℕ) (f : A → A) → length xs ≤ i → modify xs i f ≡ xs
modify_out_of_range [] i f h = refl
modify_out_of_range (x ∷ xs) zero f h = absurd (omega arith)
modify_out_of_range (x ∷ xs) (suc i) f h =
    ap (λ t. x ∷ t) (modify_out_of_range xs i f (omega arith))

pub free_page-IsValid : (i : ℤ) (s : Pmm) → IsValid s → IsValid (free_page i s)
unfolding free_page
free_page-IsValid (negsuc n) s v = v
free_page-IsValid (pos i) s v = elim (Bool-cases (ltb i s.total_pages)) [
  | inl yes' ↦ rw yes' (record {
    sized = v.sized ∙ sym (length-modify s.pages i clear);
    frames = Frames-modify-clear 0 i s.pages v.frames;
  })
  | inr no' ↦ rw no' v
]

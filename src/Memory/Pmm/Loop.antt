-- ===== src/Memory/Pmm/Loop.antt =====
-- `alloc_pages` against a description with no loop: all `n` frames, the lowest free ones, or none.
use compute_kernel_python.Prelude.{
  ℕ, zero, suc, ◌-◌, ◌≤◌, ◌<◌, ◌≡◌, refl, sym, ap, ◌∙◌, none, some, List, [], ◌∷◌, ◌++◌, pos, ltb,
  leb, modify, if◌then◌else◌, arith, Bool-cases, Option-cases, inl, inr, leb→le,
}
use mathlib.Core.List.{append-nil, append_assoc}
use compute_kernel_python.Memory.Pmm.{
  Page, Pmm, free_pages, claim, clear, first_free, alloc_page, free_page, release, alloc_loop,
  alloc_pages,
}
use compute_kernel_python.Memory.Pmm.Frames.{
  Frames, IsValid, first_free-clear, first_free-untouched, count_free-first_free-none,
  count_free-first_free-some, alloc_page-IsValid, free_page-IsValid, modify_out_of_range,
}

-- The first `n` free frames, claimed for `pid`.
abbrev pub chosen : ℕ → ℕ → List Page → List Page
chosen pid zero ps = []
chosen pid (suc n) [] = []
chosen pid (suc n) (p ∷ ps) =
    if p.in_use then chosen pid (suc n) ps else claim pid p ∷ chosen pid n ps

-- The table after the first `n` free frames are claimed for `pid`.
abbrev pub claimed : ℕ → ℕ → List Page → List Page
claimed pid zero ps = ps
claimed pid (suc n) [] = []
claimed pid (suc n) (p ∷ ps) =
    if p.in_use then p ∷ claimed pid (suc n) ps else claim pid p ∷ claimed pid n ps

clear_all : List Page → List Page → List Page
clear_all [] ps = ps
clear_all (q ∷ qs) ps = clear_all qs (modify ps q.pfn clear)

modify-modify {ℓ} :
    {A : Type ℓ} (xs : List A) (i j : ℕ) (f : A → A)
    → modify (modify xs i f) j f ≡ modify (modify xs j f) i f
modify-modify [] i j f = refl
modify-modify (x ∷ xs) zero zero f = refl
modify-modify (x ∷ xs) zero (suc j) f = refl
modify-modify (x ∷ xs) (suc i) zero f = refl
modify-modify (x ∷ xs) (suc i) (suc j) f = ap (λ t. x ∷ t) (modify-modify xs i j f)

clear_all-modify :
    (qs ps : List Page) (i : ℕ)
    → clear_all qs (modify ps i clear) ≡ modify (clear_all qs ps) i clear
unfolding clear_all
clear_all-modify [] ps i = refl
clear_all-modify (q ∷ qs) ps i =
    ap (clear_all qs) (modify-modify ps i q.pfn clear) ∙ clear_all-modify qs _ i

clear_all-append :
    (qs ps : List Page) (q : Page)
    → clear_all (qs ++ q ∷ []) ps ≡ clear_all qs (modify ps q.pfn clear)
unfolding clear_all
clear_all-append [] ps q = refl
clear_all-append (r ∷ qs) ps q =
    clear_all-append qs _ q ∙ ap (clear_all qs) (modify-modify ps r.pfn q.pfn clear)

free_page-eq-modify :
    (i : ℕ) (s : Pmm)
    → IsValid s
    → free_page (pos i) s ≡ record s { pages = modify s.pages i clear }
unfolding free_page
free_page-eq-modify i s v = elim (Bool-cases (ltb i s.total_pages)) [
  | inl below ↦ rw below
  | inr above ↦ rw above (
      ap (λ (l : List Page). record s { pages = l })
        (sym (modify_out_of_range s.pages i clear (ground (arith, v.sized)))))
]

release-eq-clear_all :
    (qs : List Page) (s : Pmm)
    → IsValid s
    → release qs s ≡ record s { pages = clear_all qs s.pages }
unfolding release clear_all
release-eq-clear_all [] s v = refl
release-eq-clear_all (q ∷ qs) s v =
    release-eq-clear_all qs _ (free_page-IsValid (pos q.pfn) s v)
    ∙ ap (λ (t : Pmm). record t { pages = clear_all qs t.pages }) (free_page-eq-modify q.pfn s v)

cleared_lem :
    (pid : ℕ) (ps : List Page) (q : Page)
    → Frames 0 ps
    → (first_free pid ps).0 ≡ some q
    → modify (first_free pid ps).1 q.pfn clear ≡ ps
cleared_lem pid ps q h e =
    let at : q.pfn ≡ q.pfn - 0 = omega arith in
    ap (λ i. modify (first_free pid ps).1 i clear) at ∙ first_free-clear pid 0 ps q h e

-- Giving back the frames taken so far and the one just taken is giving back those taken so far.
release-alloc_page :
    (pid : ℕ) (qs : List Page) (s : Pmm) (q : Page)
    → IsValid s
    → (alloc_page pid s).0 ≡ some q
    → release (qs ++ q ∷ []) (alloc_page pid s).1 ≡ release qs s
unfolding alloc_page
release-alloc_page pid qs s q v e =
    release-eq-clear_all (qs ++ q ∷ []) _ (unfold alloc_page in alloc_page-IsValid pid s v)
    ∙ ap (λ (l : List Page). record s { pages = l })
        (clear_all-append qs _ q ∙ ap (clear_all qs) (cleared_lem pid s.pages q v.frames e))
    ∙ sym (release-eq-clear_all qs s v)

alloc_page-untouched : (pid : ℕ) (s : Pmm) → (alloc_page pid s).0 ≡ none → (alloc_page pid s).1 ≡ s
unfolding alloc_page
alloc_page-untouched pid s e =
    ap (λ (l : List Page). record s { pages = l }) (first_free-untouched pid s.pages e)

free_pages-alloc_page :
    (pid : ℕ) (s : Pmm) (q : Page)
    → (alloc_page pid s).0 ≡ some q
    → free_pages s ≡ suc (free_pages (alloc_page pid s).1)
unfolding alloc_page free_pages
free_pages-alloc_page pid s q e = count_free-first_free-some pid s.pages q e

free_pages-alloc_page-none : (pid : ℕ) (s : Pmm) → (alloc_page pid s).0 ≡ none → free_pages s ≡ 0
unfolding alloc_page free_pages
free_pages-alloc_page-none pid s e = count_free-first_free-none pid s.pages e

alloc_loop_short :
    (n pid : ℕ) (result : List Page) (s : Pmm)
    → IsValid s
    → free_pages s < n
    → alloc_loop n pid result s ≡ ([], release result s)
unfolding alloc_loop
alloc_loop_short zero pid result s v h = absurd (omega arith)
alloc_loop_short (suc n) pid result s v h = elim (Option-cases (alloc_page pid s).0) [
  | inl e ↦
      rw (e, alloc_loop) (ap (λ (t : Pmm). ([], release result t)) (alloc_page-untouched pid s e))
  | inr (q, e) ↦
      rw (e, alloc_loop)
        (alloc_loop_short n pid (result ++ q ∷ []) (alloc_page pid s).1 (alloc_page-IsValid pid s v)
            (omega (arith, free_pages-alloc_page pid s q e))
          ∙ ap (λ (t : Pmm). ([], t)) (release-alloc_page pid result s q v e))
]

chosen-first_free :
    (n pid : ℕ) (ps : List Page) (q : Page)
    → (first_free pid ps).0 ≡ some q
    → (chosen pid (suc n) ps ≡ q ∷ chosen pid n (first_free pid ps).1)
      × (claimed pid (suc n) ps ≡ claimed pid n (first_free pid ps).1)
unfolding first_free
chosen-first_free n pid [] q e = absurd (cc)
chosen-first_free zero pid (p ∷ ps) q e = ground (arith, chosen-first_free zero pid ps q)
chosen-first_free (suc n) pid (p ∷ ps) q e = ground (arith, chosen-first_free (suc n) pid ps q)

regroup :
    (n pid : ℕ) (result : List Page) (s : Pmm) (q : Page)
    → (alloc_page pid s).0 ≡ some q
    → ◌≡◌ {A = List Page × Pmm}
        (
          (result ++ q ∷ []) ++ chosen pid n (alloc_page pid s).1.pages,
          record (alloc_page pid s).1 { pages = claimed pid n (alloc_page pid s).1.pages },
        )
        (result ++ chosen pid (suc n) s.pages, record s { pages = claimed pid (suc n) s.pages })
unfolding alloc_page
regroup n pid result s q e =
    let (front, after) = chosen-first_free n pid s.pages q e in
    cc (front, after, append_assoc result (q ∷ []) (chosen pid n (first_free pid s.pages).1))

alloc_loop_enough :
    (n pid : ℕ) (result : List Page) (s : Pmm)
    → n ≤ free_pages s
    → alloc_loop n pid result s
      ≡ (result ++ chosen pid n s.pages, record s { pages = claimed pid n s.pages })
unfolding alloc_loop
alloc_loop_enough zero pid result s h = ap (λ (l : List Page). (l, s)) (sym (append-nil result))
alloc_loop_enough (suc n) pid result s h = elim (Option-cases (alloc_page pid s).0) [
  | inl e ↦ absurd (omega (arith, free_pages-alloc_page-none pid s e))
  | inr (q, e) ↦
      rw (e, alloc_loop)
        (alloc_loop_enough n pid (result ++ q ∷ []) (alloc_page pid s).1
            (omega (arith, free_pages-alloc_page pid s q e))
          ∙ regroup n pid result s q e)
]

-- On a manager as calls leave it, `alloc_pages` takes the `n` lowest free frames, or, if fewer are
-- free, returns an empty list and leaves the manager exactly as it was.
pub alloc_pages_lem :
    (n pid : ℕ) (s : Pmm)
    → IsValid s
    → alloc_pages n pid s ≡ (
        if leb n (free_pages s)
        then (chosen pid n s.pages, record s { pages = claimed pid n s.pages })
        else ([], s))
unfolding alloc_pages
alloc_pages_lem n pid s v = elim (Bool-cases (leb n (free_pages s))) [
  | inl fits ↦ rw fits (alloc_loop_enough n pid [] s (leb→le _ _ fits))
  | inr short ↦ rw short (alloc_loop_short n pid [] s v (ground arith) ∙ unfold release in refl)
]

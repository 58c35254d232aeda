-- ===== src/Memory/Pmm/Runs.antt =====
-- The frame manager over whole runs.
use compute_kernel_python.Prelude.{
  ℕ, zero, suc, ◌+◌, ◌≡◌, refl, List, [], ◌∷◌, ◌++◌, ℤ, pos, ◌∙◌, Option-cases, inl, inr, arith,
}
use compute_kernel_python.Memory.Pmm.{
  Page, Pmm, init, free_pages, used_pages, alloc_page, free_page, release, alloc_loop, alloc_pages,
}
use compute_kernel_python.Memory.Pmm.Frames.{
  IsValid, init-IsValid, alloc_page-IsValid, free_page-IsValid, free-add-used,
}

release-IsValid : (qs : List Page) (s : Pmm) → IsValid s → IsValid (release qs s)
unfolding release
release-IsValid [] s v = v
release-IsValid (q ∷ qs) s v = release-IsValid qs _ (free_page-IsValid (pos q.pfn) s v)

alloc_loop-IsValid :
    (n pid : ℕ) (result : List Page) (s : Pmm) → IsValid s → IsValid (alloc_loop n pid result s).1
unfolding alloc_loop
alloc_loop-IsValid zero pid result s v = v
alloc_loop-IsValid (suc n) pid result s v = elim (Option-cases (alloc_page pid s).0) [
  | inl e ↦ rw (e, alloc_loop) (release-IsValid result _ (alloc_page-IsValid pid s v))
  | inr (q, e) ↦
      rw (e, alloc_loop)
        (alloc_loop-IsValid n pid (result ++ q ∷ []) _ (alloc_page-IsValid pid s v))
]

pub alloc_pages-IsValid : (n pid : ℕ) (s : Pmm) → IsValid s → IsValid (alloc_pages n pid s).1
unfolding alloc_pages
alloc_pages-IsValid n pid s v = alloc_loop-IsValid n pid [] s v

total-free_page : (i : ℤ) (s : Pmm) → (free_page i s).total_pages ≡ s.total_pages
unfolding free_page
total-free_page (pos i) s = ground arith
total-free_page (ℤ.negsuc i) s = refl

total-release : (qs : List Page) (s : Pmm) → (release qs s).total_pages ≡ s.total_pages
unfolding release
total-release [] s = refl
total-release (q ∷ qs) s = total-release qs _ ∙ total-free_page (pos q.pfn) s

total-alloc_page : (pid : ℕ) (s : Pmm) → (alloc_page pid s).1.total_pages ≡ s.total_pages
unfolding alloc_page
total-alloc_page pid s = refl

total-alloc_loop :
    (n pid : ℕ) (result : List Page) (s : Pmm)
    → (alloc_loop n pid result s).1.total_pages ≡ s.total_pages
unfolding alloc_loop
total-alloc_loop zero pid result s = refl
total-alloc_loop (suc n) pid result s = elim (Option-cases (alloc_page pid s).0) [
  | inl e ↦ rw (e, alloc_loop) (total-release result _ ∙ total-alloc_page pid s)
  | inr (q, e) ↦
      rw (e, alloc_loop) (total-alloc_loop n pid (result ++ q ∷ []) _ ∙ total-alloc_page pid s)
]

-- One call on the manager.
pub data Call : Type 0 where
  do_alloc : (n pid : ℕ) → Call
  do_free : (pfn : ℤ) → Call

abbrev pub perform : Call → Pmm → Pmm
perform (do_alloc n pid) s = (alloc_pages n pid s).1
perform (do_free pfn) s = free_page pfn s

abbrev pub run : List Call → Pmm → Pmm
run [] s = s
run (c ∷ cs) s = run cs (perform c s)

run_lem :
    (cs : List Call) (s : Pmm)
    → IsValid s
    → IsValid (run cs s) × ((run cs s).total_pages ≡ s.total_pages)
unfolding alloc_pages
run_lem [] s v = (v, refl)
run_lem (do_alloc n pid ∷ cs) s v =
    let (valid, total) = run_lem cs _ (alloc_loop-IsValid n pid [] s v) in
    (valid, total ∙ total-alloc_loop n pid [] s)
run_lem (do_free pfn ∷ cs) s v =
    let (valid, total) = run_lem cs _ (free_page-IsValid pfn s v) in
    (valid, total ∙ total-free_page pfn s)

-- After any allocations and releases, failed ones and frame numbers out of range included, every
-- frame stands at its own number, a free frame has no owner, and the free and the used frames add
-- up to the frames that the manager started with.
pub run-accounted :
    (total : ℕ) (cs : List Call)
    → IsValid (run cs (init total))
      × (free_pages (run cs (init total)) + used_pages (run cs (init total)) ≡ total)
unfolding init
run-accounted total cs =
    let (valid, same) = run_lem cs (init total) (unfold init in init-IsValid total) in
    (valid, free-add-used (run cs (init total)) valid ∙ same)

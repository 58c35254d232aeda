-- ===== src/Modules/Laws.antt =====
-- The dependencies of a loaded module are loaded.
use compute_kernel_python.Prelude.{
  String, ◌≡◌, refl, Bool, true, false, some, List, [], ◌∷◌, arith, Bool-cases, Option-cases, inl,
  inr,
}
use compute_kernel_python.Prelude.Eq.{◌==◌, string_eq}
use compute_kernel_python.Prelude.Dict.{Dict, get, adjust, values, get-adjust}
use compute_kernel_python.Modules.{
  KernelModule, ModuleLoader, names, is_live, resolved, set_loaded, load_found, load, is_needed,
  unload_found, unload,
}

-- Every dependency of every loaded module is itself loaded.
abbrev pub Closed : Dict String KernelModule → Type 0
Closed d =
    (k : String) (m : KernelModule)
    → get k d ≡ some m
    → m.is_loaded ≡ true
    → resolved m.dependencies d ≡ true

-- A change that keeps what is loaded, for the given names.
resolved_mono :
    (deps : List String) (d d' : Dict String KernelModule)
    → ((dep : String) → names dep deps ≡ true → is_live dep d ≡ true → is_live dep d' ≡ true)
    → resolved deps d ≡ true
    → resolved deps d' ≡ true
unfolding resolved
resolved_mono [] d d' keeps h = refl
resolved_mono (dep ∷ deps) d d' keeps h = ground (
  arith,
  keeps dep,
  string_eq.test_iff dep dep,
  resolved_mono deps d d' (λ x nx. keeps x (ground arith)) (ground arith),
)

-- `name in other.dependencies` for some loaded module.
get-needed :
    (name k : String) (m : KernelModule) (d : Dict String KernelModule)
    → get k d ≡ some m
    → m.is_loaded ≡ true
    → names name m.dependencies ≡ true
    → is_needed name d ≡ true
unfolding get is_needed values
get-needed name k m [] h l n = absurd (cc)
get-needed name k m ((j, w) ∷ d) h l n = ground (arith, get-needed name k m d)

load-is_live :
    (name dep : String) (d : Dict String KernelModule)
    → is_live dep d ≡ true
    → is_live dep (adjust name (set_loaded true) d) ≡ true
unfolding is_live
load-is_live name dep d h = ground (arith, get-adjust name dep (set_loaded true) d)

unload-is_live :
    (name dep : String) (d : Dict String KernelModule)
    → (name == dep) ≡ false
    → is_live dep d ≡ true
    → is_live dep (adjust name (set_loaded false) d) ≡ true
unfolding is_live
unload-is_live name dep d n h = ground (arith, get-adjust name dep (set_loaded false) d)

load-Closed :
    (name : String) (m : KernelModule) (d : Dict String KernelModule)
    → get name d ≡ some m
    → resolved m.dependencies d ≡ true
    → Closed d
    → Closed (adjust name (set_loaded true) d)
load-Closed name m d e r c k m' h l = elim (Option-cases (get k d)) [
  | inl none_there ↦ absurd (ground (arith, get-adjust name k (set_loaded true) d))
  | inr (w, there) ↦
      let step : resolved w.dependencies d ≡ true =
        ground
          (arith, string_eq.test_iff name k, get-adjust name k (set_loaded true) d, c k w there) in
      let same : m'.dependencies ≡ w.dependencies =
        ground (arith, get-adjust name k (set_loaded true) d) in
      rw same (
        resolved_mono w.dependencies d (adjust name (set_loaded true) d)
          (λ dep n. load-is_live name dep d) step)
]

unload-Closed :
    (name : String) (d : Dict String KernelModule)
    → is_needed name d ≡ false
    → Closed d
    → Closed (adjust name (set_loaded false) d)
unload-Closed name d free c k m' h l = elim (Option-cases (get k d)) [
  | inl none_there ↦ absurd (ground (arith, get-adjust name k (set_loaded false) d))
  | inr (w, there) ↦
      let same : m' ≡ w = ground (arith, get-adjust name k (set_loaded false) d) in
      let loaded : w.is_loaded ≡ true = ground arith in
      rw same (
        resolved_mono w.dependencies d (adjust name (set_loaded false) d)
          (λ dep n.
            unload-is_live name dep d
              (ground (arith, string_eq.test_iff name dep, get-needed name k w d there loaded)))
          (c k w there loaded))
]

-- One call on the loader. The drivers of the program register a module before it is loaded.
pub data Call : Type 0 where
  do_load do_unload : String → Call

abbrev pub perform : Call → ModuleLoader → Bool × ModuleLoader
perform (do_load name) s = load name s
perform (do_unload name) s = unload name s

abbrev pub run : List Call → ModuleLoader → ModuleLoader
run [] s = s
run (c ∷ cs) s = run cs (perform c s).1

perform-Closed :
    (c : Call) (s : ModuleLoader) → Closed s.available → Closed (perform c s).1.available
unfolding load unload load_found unload_found
perform-Closed (do_load name) s v = elim (Option-cases (get name s.available)) [
  | inl e ↦ elim (Bool-cases s.modules_enabled) [
    | inl on ↦ rw (e, on, load) v
    | inr off ↦ rw (off, load) v
  ]
  | inr (m, e) ↦ elim (Bool-cases s.modules_enabled) [
    | inl on ↦ elim (Bool-cases m.is_loaded) [
      | inl loaded ↦ rw (e, on, loaded, load) v
      | inr unloaded ↦ elim (Bool-cases (resolved m.dependencies s.available)) [
        | inl r ↦ rw (e, on, unloaded, r, load) (load-Closed name m s.available e r v)
        | inr r ↦ rw (e, on, unloaded, r, load) v
      ]
    ]
    | inr off ↦ rw (off, load) v
  ]
]
perform-Closed (do_unload name) s v = elim (Option-cases (get name s.available)) [
  | inl e ↦ rw (e, unload) v
  | inr (m, e) ↦ elim (Bool-cases m.is_loaded) [
    | inl loaded ↦ elim (Bool-cases (is_needed name s.available)) [
      | inl n ↦ rw (e, loaded, n, unload) v
      | inr n ↦ rw (e, loaded, n, unload) (unload-Closed name s.available n v)
    ]
    | inr unloaded ↦ rw (e, unloaded, unload) v
  ]
]

-- From modules of which every loaded one has all its dependencies loaded, any sequence of loading
-- and unloading leads to such modules again: no loaded module loses a dependency.
pub run-Closed :
    (cs : List Call) (s : ModuleLoader) → Closed s.available → Closed (run cs s).available
run-Closed [] s v = v
run-Closed (c ∷ cs) s v = run-Closed cs (perform c s).1 (perform-Closed c s v)

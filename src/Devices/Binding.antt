-- ===== src/Devices/Binding.antt =====
-- A device that is bound stands in the list of its driver.
use compute_kernel_python.Prelude.{
  String, ◌≡◌, ◌≢◌, refl, true, false, ◌||◌, Option, none, some, List, [], ◌∷◌, ◌++◌, if◌then◌else◌,
  arith, Bool-cases, Option-cases, inl, inr,
}
use mathlib.Core.Option
use compute_kernel_python.Prelude.Eq.{◌==◌, string_eq}
use compute_kernel_python.Prelude.Dict.{
  Dict, get, adjust, has_key, get-adjust, has_key-get, has_key-none,
}
use compute_kernel_python.Devices.{
  Device, Driver, Registries, names, set_driver, bind_driver, probe_device, add_bound, remove_first,
  drop_bound, bind, unbind, bind_found, probe_one, probe_names, keys, probe_all,
}

-- The driver that a device names has the device in its list.
abbrev pub IsListed : String → String → Registries → Type 0
IsListed driver_name device_name s =
    (r : Driver) × (get driver_name s.drivers ≡ some r) × (names device_name r.bound_devices ≡ true)

-- So it is for every device with a driver.
abbrev pub Linked : Registries → Type 0
Linked s =
    (k : String) (d : Device)
    → get k s.devices ≡ some d
    → d.bound_driver ≢ ""
    → IsListed d.bound_driver k s

names_snoc : (s x : String) (xs : List String) → names s (xs ++ x ∷ []) ≡ (x == s || names s xs)
names_snoc s x [] = refl
names_snoc s x (y ∷ xs) = ground (arith, names_snoc s x xs)

names-remove_first :
    (s k : String) (xs : List String) → (k == s) ≡ false → names s (remove_first k xs) ≡ names s xs
unfolding remove_first
names-remove_first s k [] n = refl
names-remove_first s k (x ∷ xs) n = ground (
  arith,
  names-remove_first s k xs n,
  string_eq.test_iff x k,
  string_eq.test_iff x s,
  string_eq.test_iff k s,
)

add_bound_self : (k : String) (r : Driver) → names k (add_bound k r).bound_devices ≡ true
add_bound_self k r = ground (arith, names_snoc k k r.bound_devices, string_eq.test_iff k k)

add_bound-keeps :
    (k j : String) (r : Driver)
    → names j r.bound_devices ≡ true
    → names j (add_bound k r).bound_devices ≡ true
add_bound-keeps k j r h = ground (arith, names_snoc j k r.bound_devices)

drop_bound-keeps :
    (k j : String) (r : Driver)
    → (k == j) ≡ false
    → names j r.bound_devices ≡ true
    → names j (drop_bound k r).bound_devices ≡ true
drop_bound-keeps k j r n h = ground (arith, names-remove_first j k r.bound_devices n)

get-bind_driver :
    (k name driver_name : String) (d : Dict String Device)
    → get k (bind_driver name driver_name d).1
      ≡ (if name == k then Option.map (set_driver driver_name) (get k d) else get k d)
unfolding bind_driver
get-bind_driver k name driver_name d = elim (Option-cases (get name d)) [
  | inl e ↦ ground (arith, has_key-none name d e, string_eq.test_iff name k)
  | inr (w, e) ↦
      ground (arith, has_key-get name w d e, get-adjust name k (set_driver driver_name) d)
]

-- A change of the drivers that keeps the device in the list keeps the link.
adjust-IsListed :
    (name driver_name k : String) (f : Driver → Driver) (s : Registries)
    → ((r : Driver) → names k r.bound_devices ≡ true → names k (f r).bound_devices ≡ true)
    → IsListed driver_name k s
    → (devices : Dict String Device)
    → IsListed driver_name k (record { devices = devices; drivers = adjust name f s.drivers })
adjust-IsListed name driver_name k f s keeps (r, e, h) devices =
    elim (Bool-cases (name == driver_name)) [
      | inl same ↦
          (f r, ground (arith, get-adjust name driver_name f s.drivers, e, same), keeps r h)
      | inr other ↦ (r, ground (arith, get-adjust name driver_name f s.drivers, e, other), h)
    ]

bind-Linked :
    (driver_name name : String) (s : Registries) → Linked s → Linked (bind driver_name name s).1
unfolding bind
bind-Linked driver_name name s v = elim (Option-cases (get driver_name s.drivers)) [
  | inl e ↦ rw (has_key-none driver_name s.drivers e, bind) v
  | inr (r, e) ↦
      rw (has_key-get driver_name r s.drivers e, bind)
        (λ k d h ne. elim (Option-cases (get k s.devices)) [
          | inl gone ↦ absurd (ground (arith, get-bind_driver k name driver_name s.devices))
          | inr (w, there) ↦ elim (Bool-cases (name == k)) [
            | inl same ↦
                let is : d.bound_driver ≡ driver_name =
                  ground (arith, get-bind_driver k name driver_name s.devices) in
                (
                  add_bound name r,
                  ground (
                    arith,
                    is,
                    e,
                    get-adjust driver_name driver_name (add_bound name) s.drivers,
                    string_eq.test_iff driver_name driver_name,
                  ),
                  ground (arith, string_eq.test_iff name k, add_bound_self name r),
                )
            | inr other ↦
                let is : d ≡ w = ground (arith, get-bind_driver k name driver_name s.devices) in
                adjust-IsListed driver_name d.bound_driver k (add_bound name) s
                  (λ q. add_bound-keeps name k q) (v k d (ground (arith, is)) ne)
                  (bind_driver name driver_name s.devices).1
          ]
        ])
]

unbind-Linked :
    (driver_name name : String) (s : Registries) → Linked s → Linked (unbind driver_name name s).1
unfolding unbind
unbind-Linked driver_name name s v = elim (Bool-cases (has_key driver_name s.drivers)) [
  | inr e ↦ rw (e, unbind) v
  | inl e ↦
      rw (e, unbind)
        (λ k d h ne. elim (Bool-cases (name == k)) [
          | inl same ↦ absurd (ground (arith, get-adjust name k (set_driver "") s.devices, ne))
          | inr other ↦
              let is : get k s.devices ≡ some d =
                ground (arith, get-adjust name k (set_driver "") s.devices) in
              adjust-IsListed driver_name d.bound_driver k (drop_bound name) s
                (λ q. drop_bound-keeps name k q other) (v k d is ne)
                (adjust name (set_driver "") s.devices)
        ])
]

bind_found-Linked :
    (o : Option Driver) (d : Device) (s : Registries) → Linked s → Linked (bind_found o d s)
bind_found-Linked none d s v = v
bind_found-Linked (some r) d s v = bind-Linked r.name d.name s v

probe_one-Linked : (o : Option Device) (s : Registries) → Linked s → Linked (probe_one o s)
unfolding probe_one
probe_one-Linked none s v = v
probe_one-Linked (some d) s v = elim (Bool-cases (d.bound_driver == "")) [
  | inl e ↦ rw (e, probe_one) (bind_found-Linked (probe_device d s.drivers) d s v)
  | inr e ↦ rw (e, probe_one) v
]

probe_names-Linked : (l : List String) (s : Registries) → Linked s → Linked (probe_names l s)
unfolding probe_names
probe_names-Linked [] s v = v
probe_names-Linked (name ∷ l) s v =
    probe_names-Linked l _ (probe_one-Linked (get name s.devices) s v)

-- One call on the drivers.
pub data Call : Type 0 where
  do_bind do_unbind : (driver_name device_name : String) → Call
  do_probe_all : Call

abbrev pub perform : Call → Registries → Registries
perform (do_bind driver_name name) s = (bind driver_name name s).1
perform (do_unbind driver_name name) s = (unbind driver_name name s).1
perform do_probe_all s = probe_all s

abbrev pub run : List Call → Registries → Registries
run [] s = s
run (c ∷ cs) s = run cs (perform c s)

perform-Linked : (c : Call) (s : Registries) → Linked s → Linked (perform c s)
unfolding probe_all
perform-Linked (do_bind driver_name name) s v = bind-Linked driver_name name s v
perform-Linked (do_unbind driver_name name) s v = unbind-Linked driver_name name s v
perform-Linked do_probe_all s v = probe_names-Linked (keys s.devices) s v

-- If at first every device with a driver stands in the list of that driver, then so it is after any
-- calls that bind, unbind and probe, whatever the drivers' probe functions answer.
pub run-Linked : (cs : List Call) (s : Registries) → Linked s → Linked (run cs s)
run-Linked [] s v = v
run-Linked (c ∷ cs) s v = run-Linked cs (perform c s) (perform-Linked c s v)

-- ===== src/Devices.antt =====
-- computekernel_edu/device.py and computekernel_edu/driver.py: devices, drivers and their binding.
-- Both registries keep their objects by name, and a device is reached through its registry.
pub mod Binding
use compute_kernel_python.Prelude.{
  ℕ, String, Bool, true, false, not, ◌||◌, Option, none, some, List, [], ◌∷◌, ◌++◌, keep, any, find,
  if◌then◌else◌,
}
use compute_kernel_python.Prelude.Eq.{◌==◌, string_eq}
use compute_kernel_python.Prelude.Dict.{Dict, get, put, pop, adjust, has_key, values}

pub data DeviceClass : Type 0 where
  char block network bus platform virtual input timer : DeviceClass

abbrev pub class_eq : DeviceClass → DeviceClass → Bool
class_eq char char = true
class_eq block block = true
class_eq network network = true
class_eq bus bus = true
class_eq platform platform = true
class_eq virtual virtual = true
class_eq input input = true
class_eq timer timer = true
class_eq _ _ = false

pub record Device : Type 0 where
  pub name : String
  pub device_class : DeviceClass
  pub major : ℕ
  pub minor : ℕ
  pub description : String
  pub is_virtual : Bool
  pub bound_driver : String
  pub properties : Dict String String

abbrev pub DeviceRegistry : Type 0
DeviceRegistry = Dict String Device

unfoldable pub register_device : Device → DeviceRegistry → DeviceRegistry
register_device d s = if has_key d.name s then s else put d.name d s

unfoldable pub unregister_device : String → DeviceRegistry → Bool × DeviceRegistry
unregister_device name s = if has_key name s then (true, pop name s) else (false, s)

unfoldable pub get_device : String → DeviceRegistry → Option Device
get_device name s = get name s

unfoldable pub list_by_class : DeviceClass → DeviceRegistry → List Device
list_by_class c s = keep (λ d. class_eq d.device_class c) (values s)

abbrev pub set_driver : String → Device → Device
set_driver name d = record d { bound_driver = name }

unfoldable pub bind_driver : String → String → DeviceRegistry → Bool × DeviceRegistry
bind_driver device_name driver_name s =
    if has_key device_name s
    then (true, adjust device_name (set_driver driver_name) s)
    else (false, s)

-- A probe function that a driver brings along returns whether it takes the device, or raises.
pub record Driver : Type 0 where
  pub name : String
  pub description : String
  pub supported_devices : List String
  pub probe : Option (Device → Option Bool)
  pub is_loaded : Bool
  pub bound_devices : List String

abbrev pub DriverRegistry : Type 0
DriverRegistry = Dict String Driver

-- `s in xs`
abbrev pub names : String → List String → Bool
names s xs = any (λ x. x == s) xs

unfoldable pub default_probe : Driver → Device → Bool
default_probe r d = names d.name r.supported_devices

abbrev pub is_yes : Option Bool → Bool
is_yes none = false
is_yes (some b) = b

abbrev pub probe_with : Option (Device → Option Bool) → Driver → Device → Bool
probe_with none r d = default_probe r d
probe_with (some probe) r d = is_yes (probe d)

-- A probe that raises is like one that does not take the device.
unfoldable pub claims : Device → Driver → Bool
claims d r = probe_with r.probe r d

unfoldable pub register_driver : Driver → DriverRegistry → DriverRegistry
register_driver r s = if has_key r.name s then s else put r.name (record r { is_loaded = true }) s

unfoldable pub unregister_driver : String → DriverRegistry → Bool × DriverRegistry
unregister_driver name s = if has_key name s then (true, pop name s) else (false, s)

unfoldable pub probe_device : Device → DriverRegistry → Option Driver
probe_device d s = find (claims d) (values s)

pub record Registries : Type 0 where
  pub devices : DeviceRegistry
  pub drivers : DriverRegistry

abbrev pub add_bound : String → Driver → Driver
add_bound name r =
    if names name r.bound_devices
    then r
    else record r { bound_devices = r.bound_devices ++ name ∷ [] }

-- `list.remove` of the first occurrence.
unfoldable pub remove_first : String → List String → List String
remove_first k [] = []
remove_first k (x ∷ xs) = if x == k then xs else x ∷ remove_first k xs

abbrev pub drop_bound : String → Driver → Driver
drop_bound name r =
    if names name r.bound_devices
    then record r { bound_devices = remove_first name r.bound_devices }
    else r

-- `bind(driver_name, device, device_registry)` uses only the name of the device.
unfoldable pub bind : String → String → Registries → Bool × Registries
unfolding bind_driver
bind driver_name device_name s =
    if has_key driver_name s.drivers
    then (
      true,
      record {
        devices = (bind_driver device_name driver_name s.devices).1;
        drivers = adjust driver_name (add_bound device_name) s.drivers;
      },
    )
    else (false, s)

unfoldable pub unbind : String → String → Registries → Bool × Registries
unbind driver_name device_name s =
    if has_key driver_name s.drivers
    then (
      true,
      record {
        devices = adjust device_name (set_driver "") s.devices;
        drivers = adjust driver_name (drop_bound device_name) s.drivers;
      },
    )
    else (false, s)

abbrev bind_found : Option Driver → Device → Registries → Registries
bind_found none d s = s
bind_found (some r) d s = (bind r.name d.name s).1

-- One round of `probe_all`, for a device that has no driver yet.
unfoldable pub probe_one : Option Device → Registries → Registries
probe_one none s = s
probe_one (some d) s = if d.bound_driver == "" then bind_found (probe_device d s.drivers) d s else s

-- The loop of `probe_all` over the names of the devices that are registered when it starts.
unfoldable pub probe_names : List String → Registries → Registries
probe_names [] s = s
probe_names (name ∷ rest) s = probe_names rest (probe_one (get name s.devices) s)

abbrev pub keys {ℓ} : {V : Type ℓ} → Dict String V → List String
keys [] = []
keys ((k, v) ∷ d) = k ∷ keys d

unfoldable pub probe_all : Registries → Registries
unfolding probe_names
probe_all s = probe_names (keys s.devices) s

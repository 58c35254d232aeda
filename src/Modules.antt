-- ===== src/Modules.antt =====
-- computekernel_edu/module_loader.py: loadable modules and the symbols that they export.
pub mod Laws
use compute_kernel_python.Prelude.{
  String, Bool, true, false, not, ◌&&◌, ◌||◌, Option, none, some, List, [], ◌∷◌, keep, any,
  if◌then◌else◌,
}
use compute_kernel_python.Prelude.Eq.{◌==◌, string_eq}
use compute_kernel_python.Prelude.Dict.{Dict, get, put, pop, adjust, values}

pub record KernelModule : Type 0 where
  pub name : String
  pub version : String
  pub description : String
  pub dependencies : List String
  pub exports : List String
  pub is_loaded : Bool
  pub parameters : Dict String String

-- `modules_enabled` is the field of the profile that the loader reads.
pub record ModuleLoader : Type 0 where
  pub modules_enabled : Bool
  pub available : Dict String KernelModule
  pub symbols : Dict String String

unfoldable pub new_loader : Bool → ModuleLoader
new_loader modules_enabled = record {
  modules_enabled = modules_enabled;
  available = [];
  symbols = [];
}

-- `s in xs`
abbrev pub names : String → List String → Bool
names s xs = any (λ x. x == s) xs

unfoldable pub register : KernelModule → ModuleLoader → ModuleLoader
register m s = record s { available = put m.name m s.available }

-- `dep_mod is None or not dep_mod.is_loaded`, the other way round.
unfoldable pub is_live : String → Dict String KernelModule → Bool
is_live name d = elim (get name d) [ none ↦ false | some m ↦ m.is_loaded ]

-- The loop over the dependencies: every one of them is loaded.
unfoldable pub resolved : List String → Dict String KernelModule → Bool
resolved [] d = true
resolved (dep ∷ deps) d = is_live dep d && resolved deps d

-- The loops that enter and remove the exported symbols.
unfoldable pub export_all : List String → String → Dict String String → Dict String String
export_all [] name d = d
export_all (sym ∷ syms) name d = export_all syms name (put sym name d)

unfoldable pub drop_all : List String → Dict String String → Dict String String
drop_all [] d = d
drop_all (sym ∷ syms) d = drop_all syms (pop sym d)

abbrev pub set_loaded : Bool → KernelModule → KernelModule
set_loaded b m = record m { is_loaded = b }

-- `load`, once the module is found.
unfoldable pub load_found : String → KernelModule → ModuleLoader → Bool × ModuleLoader
load_found name m s =
    if m.is_loaded
    then (true, s)
    else if not (resolved m.dependencies s.available)
    then (false, s)
    else (
      true,
      record s {
        available = adjust name (set_loaded true) s.available;
        symbols = export_all m.exports name s.symbols;
      },
    )

unfoldable pub load : String → ModuleLoader → Bool × ModuleLoader
load name s =
    if not s.modules_enabled
    then (false, s)
    else elim (get name s.available) [ none ↦ (false, s) | some m ↦ load_found name m s ]

-- The loop over all modules: one that is loaded depends on `name`.
unfoldable pub is_needed : String → Dict String KernelModule → Bool
is_needed name d = any (λ m. m.is_loaded && names name m.dependencies) (values d)

-- `unload`, once the module is found.
unfoldable pub unload_found : String → KernelModule → ModuleLoader → Bool × ModuleLoader
unload_found name m s =
    if not m.is_loaded then (false, s) else if is_needed name s.available then (false, s) else (
      true,
      record s {
        available = adjust name (set_loaded false) s.available;
        symbols = drop_all m.exports s.symbols;
      },
    )

unfoldable pub unload : String → ModuleLoader → Bool × ModuleLoader
unload name s = elim (get name s.available) [ none ↦ (false, s) | some m ↦ unload_found name m s ]

unfoldable pub list_loaded : ModuleLoader → List KernelModule
list_loaded s = keep (λ m. m.is_loaded) (values s.available)

unfoldable pub list_available : ModuleLoader → List KernelModule
list_available s = values s.available

unfoldable pub lookup_symbol : String → ModuleLoader → Option String
lookup_symbol symbol s = get symbol s.symbols

abbrev pub make_module : String → String → String → List String → KernelModule
make_module name version description exports = record {
  name = name;
  version = version;
  description = description;
  dependencies = [];
  exports = exports;
  is_loaded = false;
  parameters = [];
}

abbrev pub make_default_modules : List KernelModule
make_default_modules =
    make_module "ext2" "1.0" "Ext2 filesystem driver" ("ext2_fill_super" ∷ "ext2_write_inode" ∷ [])
    ∷ make_module "tmpfs" "1.0" "Tmpfs in-memory filesystem" ("tmpfs_fill_super" ∷ [])
    ∷ make_module "ata" "1.0" "ATA/ATAPI disk driver" ("ata_probe" ∷ "ata_read" ∷ [])
    ∷ make_module "virtio_blk" "1.0" "VirtIO block device driver" ("virtio_blk_probe" ∷ [])
    ∷ make_module "keyboard" "1.0" "PS/2 keyboard driver" ("kbd_irq_handler" ∷ [])
    ∷ make_module "serial" "1.0" "16550 UART serial driver" ("serial_init" ∷ "serial_write" ∷ [])
    ∷ []

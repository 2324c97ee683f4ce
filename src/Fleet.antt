-- ===== src/Fleet.antt =====
-- The fleet of configured machines: the data of internal/fleet/fleet.go and its lookups. Loading,
-- validation, saving and the transactions are in the child modules.
pub mod PhoneHome
pub mod Validate
pub mod Lookups
pub mod Loading
pub mod Loaded
pub mod Saving
pub mod Txn
pub mod Atomic
pub mod Precondition
pub mod Deletion
pub mod Tests
use Prim.Native.String.{String}
use pxe_beacon.Base.{
  ℕ, Bool, true, false, ◌||◌, Option, none, some, List, [], ◌∷◌, if◌then◌else◌, Text, bytes,
  text_eq, Map, lookup, insert,
}
use pxe_beacon.Mac.{canonical_mac}

abbrev pub is_text : Text → String → Bool
is_text t s = text_eq t (bytes s)

-- `ValidBootTargets`
unfoldable pub valid_boot_target : Text → Bool
valid_boot_target t =
    is_text t "menu"
    || is_text t "ubuntu-22.04"
    || is_text t "ubuntu-24.04"
    || is_text t "debian-12"
    || is_text t "debian-13"
    || is_text t "rocky-9"
    || is_text t "alma-9"
    || is_text t "custom"

-- A nil map and an empty map of parameters are both the empty list.
pub record Profile : Type 0 where
  pub boot : Text
  pub name : Text
  pub cloud_init : Text
  pub preseed : Text
  pub kickstart : Text
  pub rescue : Text
  pub ipxe_script : Text
  pub params : Map Text
  pub is_default : Bool

pub record Machine : Type 0 where
  pub mac : Text
  pub profile : Profile

-- The file's entries: `defaultsEntry` and `machineYAML` (without `mac`, which stands beside it).
pub record Entry : Type 0 where
  pub name : Text
  pub boot : Text
  pub cloud_init : Text
  pub preseed : Text
  pub kickstart : Text
  pub rescue : Text
  pub ipxe_script : Text
  pub params : Map Text

pub record DefaultsEntry : Type 0 where
  pub boot : Text
  pub cloud_init : Text
  pub preseed : Text
  pub kickstart : Text
  pub rescue : Text
  pub ipxe_script : Text
  pub params : Map Text

pub record ConfigFile : Type 0 where
  pub defaults : DefaultsEntry
  pub machines : List (Text × Entry)

pub record Fleet : Type 0 where
  pub path : Text
  pub base_dir : Text
  pub machines : Map Profile
  pub defaults : Profile

-- The errors that the package returns; the wording of the messages is left out, and a missing file
-- is named by its path.
pub data SaveError : Type 0 where
  no_path encode_fails create_fails write_fails close_fails rename_fails : SaveError

pub data FleetError : Type 0 where
  invalid_mac no_ipxe_script mac_exists mac_absent : FleetError
  precondition_failed precondition_required : FleetError
  no_config unreadable unparsable : FleetError
  missing_file : Text → FleetError
  defines_own_phone_home : Text → FleetError
  bad_boot : Text → FleetError
  duplicate_mac : Text → FleetError
  not_saved : SaveError → FleetError

-- The machine's file system: `os.Stat` succeeds, and `os.ReadFile`.
pub record Disk : Type 0 where
  pub exists : Text → Bool
  pub read : Text → Option Text

abbrev pub menu_profile : Profile
menu_profile = record {
  boot = bytes "menu";
  name = [];
  cloud_init = [];
  preseed = [];
  kickstart = [];
  rescue = [];
  ipxe_script = [];
  params = [];
  is_default = true;
}

-- `Empty`
unfoldable pub empty : Fleet
empty = record { path = []; base_dir = []; machines = []; defaults = menu_profile }

unfoldable pub overlay : Map Text → Map Text → Map Text
overlay out [] = out
overlay out ((k, v) ∷ over) = overlay (insert k v out) over

-- `mergeParams`
unfoldable pub merge_params : Map Text → Map Text → Map Text
unfolding overlay
merge_params base over = overlay (overlay [] base) over

unfoldable pub resolved : Fleet → Option Profile → Profile
resolved f none = f.defaults
resolved f (some p) = record p { params = merge_params f.defaults.params p.params }

unfoldable pub profile_of : Fleet → Option Text → Option Profile
profile_of f none = none
profile_of f (some canon) = lookup canon f.machines

-- `Lookup`
unfoldable pub lookup_machine : Fleet → Text → Profile
unfolding resolved profile_of
lookup_machine f mac = resolved f (profile_of f (canonical_mac mac))

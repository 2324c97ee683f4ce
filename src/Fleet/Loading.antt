-- ===== src/Fleet/Loading.antt =====
-- reload of internal/fleet/fleet.go. Decoding the YAML text is a parameter: it is the work of a
-- third-party package.
use pxe_beacon.Base.{
  Bool, true, false, not, Option, none, some, List, [], ◌∷◌, if◌then◌else◌, is_empty, is_some,
  Result, ok, err, Text, bytes, Map, lookup, insert,
}
use pxe_beacon.Mac.{canonical_mac}
use pxe_beacon.FilePaths.{is_abs, join}
use pxe_beacon.Fleet.{
  Profile, Entry, DefaultsEntry, ConfigFile, Fleet, FleetError, invalid_mac, bad_boot,
  duplicate_mac, no_config, unreadable, unparsable, Disk, valid_boot_target, merge_params,
}
use pxe_beacon.Fleet.Validate.{validate_profile}

unfoldable pub resolve_path : Text → Text → Text
resolve_path base p = if is_empty p then [] else if is_abs p then p else join base p

abbrev pub boot_or_menu : Text → Text
boot_or_menu boot = if is_empty boot then bytes "menu" else boot

unfoldable pub default_profile : Text → DefaultsEntry → Profile
default_profile base d = record {
  boot = boot_or_menu d.boot;
  name = [];
  cloud_init = resolve_path base d.cloud_init;
  preseed = resolve_path base d.preseed;
  kickstart = resolve_path base d.kickstart;
  rescue = resolve_path base d.rescue;
  ipxe_script = resolve_path base d.ipxe_script;
  params = merge_params [] d.params;
  is_default = true;
}

unfoldable pub machine_profile : Text → Entry → Profile
machine_profile base m = record {
  boot = boot_or_menu m.boot;
  name = m.name;
  cloud_init = resolve_path base m.cloud_init;
  preseed = resolve_path base m.preseed;
  kickstart = resolve_path base m.kickstart;
  rescue = resolve_path base m.rescue;
  ipxe_script = resolve_path base m.ipxe_script;
  params = merge_params [] m.params;
  is_default = false;
}

infixl 5 ◌>>=◌
abbrev pub ◌>>=◌ {ℓ κ} :
    {A : Type ℓ} {B : Type κ}
    → Result FleetError A
    → (A → Result FleetError B)
    → Result FleetError B
ok a >>= f = f a
err e >>= f = err e

infixl 5 ◌>>◌
abbrev pub ◌>>◌ {ℓ} :
    {B : Type ℓ} → Result FleetError (Unit {0}) → Result FleetError B → Result FleetError B
m >> k = m >>= λ _. k

abbrev pub refuse_if : Bool → FleetError → Result FleetError (Unit {0})
refuse_if true e = err e
refuse_if false e = ok tt

abbrev pub refuse : Option FleetError → Result FleetError (Unit {0})
refuse none = ok tt
refuse (some e) = err e

abbrev pub required {ℓ} : {A : Type ℓ} → Option A → FleetError → Result FleetError A
required none e = err e
required (some a) e = ok a

-- One round of the loop over the machines.
unfoldable pub load_machine :
    Disk → Text → Map Profile → Text × Entry → Result FleetError (Map Profile)
load_machine disk base machines (mac, m) = do
  canon ← required (canonical_mac mac) invalid_mac
  refuse_if (is_some (lookup canon machines)) (duplicate_mac canon)
  refuse_if (not (valid_boot_target (boot_or_menu m.boot))) (bad_boot (boot_or_menu m.boot))
  refuse (validate_profile disk (machine_profile base m))
  ok (insert canon (machine_profile base m) machines)

unfoldable pub load_machines :
    Disk → Text → Map Profile → List (Text × Entry) → Result FleetError (Map Profile)
load_machines disk base machines [] = ok machines
load_machines disk base machines (m ∷ ms) = do
  machines' ← load_machine disk base machines m
  load_machines disk base machines' ms

-- The fleet that a decoded file stands for.
unfoldable pub load_config : Disk → Text → Fleet → ConfigFile → Result FleetError Fleet
load_config disk base f cfg = do
  let defaults = default_profile base cfg.defaults
  refuse_if (not (valid_boot_target defaults.boot)) (bad_boot defaults.boot)
  refuse (validate_profile disk defaults)
  machines ← load_machines disk base [] cfg.machines
  ok (record f { base_dir = base; machines = machines; defaults = defaults })

-- What is read from the file: the fleet that replaces the one in memory.
unfoldable pub load :
    (Text → Option ConfigFile) → (Text → Text) → Disk → Fleet → Result FleetError Fleet
load decode dir_of disk f = do
  raw ← required (disk.read f.path) unreadable
  cfg ← required (decode raw) unparsable
  load_config disk (dir_of f.path) f cfg

abbrev pub replaced : Fleet → Result FleetError Fleet → Fleet × Option FleetError
replaced f (ok g) = (g, none)
replaced f (err e) = (f, some e)

-- `Reload`: the fleet that it leaves, and the error if there is one. `dir_of` is the absolute
-- directory of a file.
unfoldable pub reload :
    (Text → Option ConfigFile) → (Text → Text) → Disk → Fleet → Fleet × Option FleetError
reload decode dir_of disk f =
    if is_empty f.path then (f, some no_config) else replaced f (load decode dir_of disk f)

abbrev no_profile : Profile
no_profile = record {
  boot = [];
  name = [];
  cloud_init = [];
  preseed = [];
  kickstart = [];
  rescue = [];
  ipxe_script = [];
  params = [];
  is_default = false;
}

-- `Load`
unfoldable pub open_fleet :
    (Text → Option ConfigFile) → (Text → Text) → Disk → Text → Result FleetError Fleet
open_fleet decode dir_of disk path =
    load decode dir_of disk
      (record { path = path; base_dir = []; machines = []; defaults = no_profile })

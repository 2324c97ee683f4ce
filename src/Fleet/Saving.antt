-- ===== src/Fleet/Saving.antt =====
-- internal/fleet/writer.go: the in-memory edits, the listing, and Save. Encoding to YAML text is a
-- parameter, and so is which step of the write fails.
use pxe_beacon.Base.{
  Bool, Option, none, some, List, ◌++◌, map, if◌then◌else◌, is_empty, is_some, ◌||◌, Text, bytes,
  text_eq, text_lt, has_prefix, lookup, insert, delete, sort_by, Result, ok,
}
use pxe_beacon.Mac.{canonical_mac}
use pxe_beacon.FilePaths.{rel}
use pxe_beacon.Fleet.{
  Profile, Machine, Entry, DefaultsEntry, ConfigFile, Fleet, FleetError, invalid_mac, Disk,
  SaveError, no_path, encode_fails, create_fails, write_fails, close_fails, rename_fails,
}
use pxe_beacon.Fleet.Validate.{validate_profile}
use pxe_beacon.Fleet.Loading.{required, refuse, ◌>>=◌, ◌>>◌}

-- `AddOrUpdate`
unfoldable pub add_or_update : Disk → Fleet → Machine → Result FleetError Fleet
add_or_update disk f m = do
  canon ← required (canonical_mac m.mac) invalid_mac
  refuse (validate_profile disk m.profile)
  ok (record f { machines = insert canon m.profile f.machines })

-- `Remove`
unfoldable pub remove : Fleet → Text → Result FleetError (Fleet × Bool)
remove f mac = do
  canon ← required (canonical_mac mac) invalid_mac
  ok (record f { machines = delete canon f.machines }, is_some (lookup canon f.machines))

rel_or_same : Text → Option Text → Text
rel_or_same p none = p
rel_or_same p (some r) = if has_prefix r (bytes "..") then p else bytes "./" ++ r

unfoldable pub relativize : Text → Text → Text
unfolding rel_or_same
relativize base p = if is_empty p || is_empty base then p else rel_or_same p (rel base p)

unfoldable pub defaults_entry : Fleet → DefaultsEntry
defaults_entry f = record {
  boot = f.defaults.boot;
  cloud_init = relativize f.base_dir f.defaults.cloud_init;
  preseed = relativize f.base_dir f.defaults.preseed;
  kickstart = relativize f.base_dir f.defaults.kickstart;
  rescue = relativize f.base_dir f.defaults.rescue;
  ipxe_script = relativize f.base_dir f.defaults.ipxe_script;
  params = f.defaults.params;
}

unfoldable pub machine_entry : Text → Text × Profile → Text × Entry
machine_entry base (canon, p) = (
  canon,
  record {
    name = p.name;
    boot = p.boot;
    cloud_init = relativize base p.cloud_init;
    preseed = relativize base p.preseed;
    kickstart = relativize base p.kickstart;
    rescue = relativize base p.rescue;
    ipxe_script = relativize base p.ipxe_script;
    params = p.params;
  },
)

-- By name, then by address.
unfoldable pub name_then_mac : Text → Text → Text → Text → Bool
name_then_mac name mac name' mac' =
    if text_eq name name' then text_lt mac mac' else text_lt name name'

unfoldable pub entry_less : Text × Entry → Text × Entry → Bool
entry_less (mac, m) (mac', m') = name_then_mac m.name mac m'.name mac'

-- The structure that `Save` encodes.
unfoldable pub config_of : Fleet → ConfigFile
config_of f = record {
  defaults = defaults_entry f;
  machines = sort_by entry_less (map (machine_entry f.base_dir) f.machines);
}

unfoldable pub machine_less : Machine → Machine → Bool
machine_less a b = name_then_mac a.profile.name a.mac b.profile.name b.mac

abbrev pub as_machine : Text × Profile → Machine
as_machine (mac, p) = record { mac = mac; profile = p }

-- `ListMachines`
unfoldable pub list_machines : Fleet → List Machine
list_machines f = sort_by machine_less (map as_machine f.machines)

-- The step of the write at which the system fails, if it does.
pub data Fault : Type 0 where
  no_fault create_fault write_fault close_fault rename_fault : Fault

-- The file fleet.yaml afterwards, and the error. It is replaced by a rename, so each failure leaves
-- it as it was.
unfoldable pub write_file : Fault → Text → Option Text → Option Text × Option SaveError
write_file no_fault text file = (some text, none)
write_file create_fault text file = (file, some create_fails)
write_file write_fault text file = (file, some write_fails)
write_file close_fault text file = (file, some close_fails)
write_file rename_fault text file = (file, some rename_fails)

unfoldable pub write_encoded : Fault → Option Text → Option Text → Option Text × Option SaveError
write_encoded fault none file = (file, some encode_fails)
write_encoded fault (some text) file = write_file fault text file

-- `Save`
unfoldable pub save :
    (ConfigFile → Option Text) → Fault → Fleet → Option Text → Option Text × Option SaveError
save encode fault f file =
    if is_empty f.path
    then (file, some no_path)
    else write_encoded fault (encode (config_of f)) file

-- ===== src/Autoexec/Tests.antt =====
-- The scripts of two machines of a loaded fleet, and the theorem about them there.
use pxe_beacon.Base.{
  if◌then◌else◌, is_empty, ◌≡◌, refl, true, Option, none, some, [], ◌∷◌, ◌++◌, all_of, Text, bytes,
  text_eq, pos, replace_byte, lookup, insert, split_on, ok, err, is_some,
}
use pxe_beacon.Mac.{canonical_mac, mac_code}
use pxe_beacon.FilePaths.{path_code}
use pxe_beacon.Fleet as Fleet
use pxe_beacon.Fleet.{
  Entry, DefaultsEntry, ConfigFile, Fleet, Disk, lookup_machine, resolved, profile_of, merge_params,
  overlay, valid_boot_target,
}
use pxe_beacon.Fleet.Validate.{
  validate_profile, check_file, check_optional, check_target, check_phone_home,
}
use pxe_beacon.Fleet.Loading.{
  load, load_config, load_machine, load_machines, machine_profile, default_profile, resolve_path,
}
use pxe_beacon.Tracker.{new_tracker}
use pxe_beacon.Assets.{
  embedded_names, resolve_override, read_embedded, read_template, read_autoexec,
}
use pxe_beacon.Httpd.{Server}
use pxe_beacon.UserData.{Settings}
use pxe_beacon.Autoexec.{
  RenderContext, unsupported, is_built_in, completed, context_of, executed, render_autoexec,
  render_custom, script_for, autoexec_for, handle_autoexec,
}
use pxe_beacon.Autoexec.Served.{IsScripted, autoexec_served}

autoexec_code : Unit {0}
unfolding mac_code path_code text_eq lookup insert replace_byte split_on lookup_machine resolved
    profile_of merge_params overlay valid_boot_target validate_profile check_file check_optional
    check_target check_phone_home load load_config load_machine load_machines machine_profile
    default_profile resolve_path new_tracker resolve_override read_embedded read_template
    read_autoexec is_built_in completed context_of executed render_autoexec render_custom script_for
    autoexec_for handle_autoexec all_of Fleet.empty
autoexec_code = tt

abbrev no_entry : DefaultsEntry
no_entry = record {
  boot = [];
  cloud_init = [];
  preseed = [];
  kickstart = [];
  rescue = [];
  ipxe_script = [];
  params = [];
}

abbrev entry : Text → Text → Entry
entry name boot = record {
  name = name;
  boot = boot;
  cloud_init = [];
  preseed = [];
  kickstart = [];
  rescue = [];
  ipxe_script = [];
  params = [];
}

abbrev debian : Text
debian = bytes "52:54:00:00:00:01"

abbrev rocky : Text
rocky = bytes "52:54:00:00:00:02"

abbrev decode : Text → Option ConfigFile
decode t = some (record {
  defaults = no_entry;
  machines =
      (debian, entry (bytes "deb") (bytes "debian-12"))
      ∷ (rocky, entry (bytes "rock") (bytes "rocky-9"))
      ∷ [];
})

abbrev dir_of : Text → Text
dir_of t = bytes "/etc"

abbrev disk : Disk
disk = record { exists = λ p. true; read = λ p. some (bytes "machines:") }

abbrev before : Fleet
before = record Fleet.empty { path = bytes "/etc/fleet.yaml" }

abbrev fleet : Fleet
fleet = record before {
  base_dir = bytes "/etc";
  machines =
      (debian, machine_profile (bytes "/etc") (entry (bytes "deb") (bytes "debian-12")))
      ∷ (rocky, machine_profile (bytes "/etc") (entry (bytes "rock") (bytes "rocky-9")))
      ∷ [];
}

fleet_loaded : load decode dir_of disk before ≡ ok fleet
unfolding autoexec_code
fleet_loaded = refl

abbrev embedded : Text → Option Text
embedded path = some path

abbrev render : Text → RenderContext → Option Text
render raw ctx = if is_empty raw then none else some (raw ++ ctx.mac_hyp)

abbrev settings : Settings
settings = record {
  advertised_ip = bytes "10.0.0.2";
  http_port = pos 8080;
  data_dir = [];
  callback_tokens = none;
}

abbrev server : Server
server = record { fleet = some fleet; tracker = some (new_tracker (pos 0)); pending = none }

debian_served :
    handle_autoexec embedded disk.read render settings server (bytes "52-54-00-00-00-01")
    ≡ ok (bytes "scripts/autoexec/debian-12.ipxe52-54-00-00-00-01")
unfolding autoexec_code
debian_served = refl

debian_known : canonical_mac (bytes "52-54-00-00-00-01") ≡ some debian
unfolding mac_code
debian_known = refl

rocky_refused :
    handle_autoexec embedded disk.read render settings server (bytes "52-54-00-00-00-02")
    ≡ err unsupported
unfolding autoexec_code
rocky_refused = refl

all_embedded : all_of (λ name. is_some (embedded name)) embedded_names ≡ true
unfolding all_of
all_embedded = refl

autoexec_served_example :
    IsScripted embedded disk.read render settings disk
      (lookup_machine fleet debian)
      debian
      (handle_autoexec embedded disk.read render settings server (bytes "52-54-00-00-00-01"))
autoexec_served_example =
    autoexec_served decode dir_of disk before fleet embedded disk.read render settings server
      (bytes "52-54-00-00-00-01") debian fleet_loaded all_embedded refl refl debian_known

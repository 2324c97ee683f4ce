-- ===== src/Fleet/Tests.antt =====
-- Loads and transactions at concrete inputs, and the theorems about them there.
use pxe_beacon.Base.{
  strip_prefix, has_prefix, ◌++◌, ◌≡◌, ◌↔◌, refl, true, false, Option, none, some, [], ◌∷◌, Text,
  bytes, lookup, insert, delete, take, sort_by, split_on, trim_code,
}
use pxe_beacon.Mac.{canonical_mac, mac_code}
use pxe_beacon.FilePaths.{path_code}
use pxe_beacon.Fleet.{
  Profile, Machine, Entry, ConfigFile, Fleet, Disk, menu_profile, empty, lookup_machine, resolved,
  profile_of, merge_params, overlay, valid_boot_target,
}
use pxe_beacon.Fleet.PhoneHome.{
  line_defines, any_line, defines_phone_home, HasPhoneHomeKey, defines_phone_home_iff,
}
use pxe_beacon.Fleet.Validate.{
  validate_profile, check_file, check_optional, check_target, check_phone_home,
  file_defines_phone_home,
}
use pxe_beacon.Fleet.Loading.{
  load, load_config, load_machine, load_machines, machine_profile, default_profile, resolve_path,
}
use pxe_beacon.Fleet.Loaded.{entry_for, on_disk, IsChecked, Each, IsValid, load_sound}
use pxe_beacon.Fleet.Saving.{no_fault, rename_fault, save, write_file, write_encoded}
use pxe_beacon.Fleet.Txn.{
  World, settle, nul_ended, param_texts, etag_input, hex_text, profile_etag, etag_of, etag,
  create_and_save, create_valid, create_new, update_and_save, update_valid, update_prior,
  delete_and_save, delete_entry, delete_prior,
}
use pxe_beacon.Fleet.Atomic.{Unchanged, create, attempt, failure_of, attempt_err}
use pxe_beacon.Fleet.Precondition.{Wrote, update_and_save_ok, update_rescue_keeps_etag}

fleet_code : Unit {0}
unfolding mac_code path_code empty lookup_machine resolved profile_of merge_params overlay lookup
    insert delete sort_by valid_boot_target validate_profile check_file check_optional check_target
    check_phone_home file_defines_phone_home load load_config load_machine load_machines
    machine_profile default_profile resolve_path save write_file write_encoded settle nul_ended
    param_texts etag_input hex_text profile_etag etag_of etag create_and_save create_valid
    create_new update_and_save update_valid update_prior delete_and_save delete_entry delete_prior
    attempt failure_of line_defines any_line defines_phone_home split_on trim_code
fleet_code = tt

abbrev kube : Text
kube = bytes "58:47:ca:70:c7:c9"

abbrev kube_dashed : Text
kube_dashed = bytes "58-47-CA-70-C7-C9"

abbrev kube_profile : Profile
kube_profile = record menu_profile {
  boot = bytes "ubuntu-24.04";
  name = bytes "kube";
  is_default = false;
  params = (bytes "role", bytes "node") ∷ [];
}

abbrev kube_machine : Machine
kube_machine = record { mac = kube_dashed; profile = kube_profile }

abbrev digest : Text → Text
digest t = take 4 t

abbrev encode : ConfigFile → Option Text
encode cfg = some (bytes "machines:")

abbrev disk : Disk
disk = record { exists = λ p. true; read = λ p. some (bytes "hostname: kube") }

abbrev bare : World
bare = record { fleet = record empty { path = bytes "/etc/fleet.yaml" }; file = none }

abbrev stocked : World
stocked = record {
  fleet = record bare.fleet { machines = (kube, kube_profile) ∷ [] };
  file = some (bytes "old");
}

abbrev tag : Text
tag = profile_etag digest kube kube_profile

kube_known : canonical_mac kube_dashed ≡ some kube
unfolding fleet_code
kube_known = refl

attempt_err_example :
    Unchanged stocked
      (attempt digest encode disk rename_fault stocked
        (create (record kube_machine { mac = bytes "00:00:00:00:00:01" }))).0
unfolding fleet_code
attempt_err_example =
    attempt_err digest encode disk rename_fault stocked
      (create (record kube_machine { mac = bytes "00:00:00:00:00:01" })) _ refl

update_and_save_ok_example :
    (c : Text) × (canonical_mac kube_dashed ≡ some c)
    × (validate_profile disk kube_profile ≡ none)
    × (etag digest stocked.fleet kube_dashed ≡ some tag)
    × Wrote encode stocked c kube_profile
        (update_and_save digest encode disk no_fault stocked kube_machine tag).0
    × (etag digest
          (update_and_save digest encode disk no_fault stocked kube_machine tag).0.fleet
          kube_dashed
        ≡ some tag)
unfolding fleet_code
update_and_save_ok_example =
    update_and_save_ok digest encode disk no_fault stocked kube_machine tag tag refl

abbrev rescued : Machine
rescued = record { mac = kube_dashed; profile = record kube_profile { rescue = bytes "/r.yaml" } }

update_rescue_keeps_etag_example :
    (tag ≡ tag)
    × (etag digest
          (update_and_save digest encode disk no_fault stocked rescued tag).0.fleet
          kube_dashed
        ≡ some tag)
unfolding fleet_code
update_rescue_keeps_etag_example =
    update_rescue_keeps_etag digest encode disk no_fault stocked kube_dashed kube kube_profile
      (bytes "/r.yaml") tag tag refl refl refl

-- "phone_home", a no-break space and an ideographic space, a colon
abbrev spaced_key : Text
spaced_key = bytes "phone_home" ++ (194 ∷ 160 ∷ 227 ∷ 128 ∷ 128 ∷ bytes ": x")

spaced_key_found : defines_phone_home spaced_key ≡ true
unfolding fleet_code strip_prefix has_prefix
spaced_key_found = refl

defines_phone_home_iff_example :
    (defines_phone_home spaced_key ≡ true) ↔ HasPhoneHomeKey (split_on 10 spaced_key)
defines_phone_home_iff_example = defines_phone_home_iff spaced_key

abbrev listed : Entry
listed = record {
  name = bytes "kube";
  boot = [];
  cloud_init = bytes "ci/../kube.yaml";
  preseed = [];
  kickstart = [];
  rescue = [];
  ipxe_script = [];
  params = [];
}

abbrev fleet_file : ConfigFile
fleet_file = record {
  defaults = record {
    boot = [];
    cloud_init = [];
    preseed = [];
    kickstart = [];
    rescue = [];
    ipxe_script = [];
    params = [];
  };
  machines = (kube_dashed, listed) ∷ [];
}

abbrev decode : Text → Option ConfigFile
decode t = some fleet_file

abbrev dir_of : Text → Text
dir_of t = bytes "/etc"

abbrev opened : Fleet
opened = record bare.fleet {
  base_dir = bytes "/etc";
  machines =
      (
        kube,
        record menu_profile {
          name = bytes "kube";
          cloud_init = bytes "/etc/kube.yaml";
          is_default = false;
        },
      )
      ∷ [];
}

load_sound_example :
    (cfg : ConfigFile) × (on_disk decode disk bare.fleet.path ≡ some cfg)
    × ((c : Text) → lookup c opened.machines ≡ entry_for (bytes "/etc") c cfg.machines)
    × (opened.defaults ≡ default_profile (bytes "/etc") cfg.defaults)
    × IsChecked disk opened.defaults
    × ((c : Text) → Each (IsChecked disk) (lookup c opened.machines))
    × IsValid opened
unfolding fleet_code
load_sound_example = load_sound decode dir_of disk bare.fleet opened refl

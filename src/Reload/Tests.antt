-- ===== src/Reload/Tests.antt =====
-- Reloads at concrete inputs, and the theorems about them there.
use pxe_beacon.Base.{
  ◌≡◌, refl, true, Option, none, some, [], ◌∷◌, Text, bytes, pos, lookup, insert, delete, text_eq,
  arith,
}
use pxe_beacon.Mac.{canonical_mac, mac_code}
use pxe_beacon.FilePaths.{path_code}
use pxe_beacon.Pending as Pending
use pxe_beacon.Pending.{install}
use pxe_beacon.InstallLog as InstallLog
use pxe_beacon.Sightings as Sightings
use pxe_beacon.Fleet as Fleet
use pxe_beacon.Fleet.{
  Fleet, Profile, Entry, DefaultsEntry, ConfigFile, Disk, menu_profile, merge_params, overlay,
  valid_boot_target,
}
use pxe_beacon.Fleet.Validate.{
  validate_profile, check_file, check_optional, check_target, check_phone_home,
  file_defines_phone_home,
}
use pxe_beacon.Fleet.Loading.{
  load, load_config, load_machine, load_machines, machine_profile, default_profile, resolve_path,
  reload,
}
use pxe_beacon.Tracker.{new_tracker}
use pxe_beacon.Reload.{System, on_sighup, watch_sighup, admin_reload}
use pxe_beacon.Reload.Pruned.{
  pending_status, log_text, sighting, Kept, on_sighup-Kept, reply_for, admin_reload-on_sighup,
}
use pxe_beacon.Reload.Sound.{IsSound, watch_sighup-IsSound}

reload_code : Unit {0}
unfolding mac_code path_code merge_params overlay valid_boot_target validate_profile check_file
    check_optional check_target check_phone_home file_defines_phone_home load load_config
    load_machine load_machines machine_profile default_profile resolve_path reload Pending.queue
    Pending.status Pending.retain_only Pending.empty InstallLog.append InstallLog.get
    InstallLog.retain_only InstallLog.empty Sightings.note Sightings.retain_only lookup insert
    delete text_eq pending_status log_text sighting on_sighup new_tracker
reload_code = tt

abbrev kept : Text
kept = bytes "52:54:00:00:00:01"

abbrev gone : Text
gone = bytes "52:54:00:00:00:02"

abbrev entry : Entry
entry = record {
  boot = [];
  name = bytes "kube";
  cloud_init = [];
  preseed = [];
  kickstart = [];
  rescue = [];
  ipxe_script = [];
  params = [];
}

abbrev config : ConfigFile
config = record {
  defaults = record {
    boot = [];
    cloud_init = [];
    preseed = [];
    kickstart = [];
    rescue = [];
    ipxe_script = [];
    params = [];
  };
  machines = (kept, entry) ∷ [];
}

abbrev decode : Text → Option ConfigFile
decode raw = some config

abbrev dir_of : Text → Text
dir_of path = bytes "/etc"

abbrev disk : Disk
disk = record { exists = λ p. true; read = λ p. some (bytes "machines:") }

abbrev system : System
system = record {
  fleet = record Fleet.empty {
    path = bytes "/etc/fleet.yaml";
    machines = (gone, menu_profile) ∷ [];
  };
  tracker = some (new_tracker (pos 0));
  pending = some (record {
    ttl = pos 0;
    entries =
        (gone, record { action = install; requested_at = 1 })
        ∷ (kept, record { action = install; requested_at = 2 })
        ∷ [];
  });
  logs = some (record { entries = (gone, bytes "out") ∷ [] });
  sightings = some (record { entries = [] });
}

gone_known : canonical_mac gone ≡ some gone
unfolding mac_code
gone_known = refl

gone_dropped : pending_status (on_sighup decode dir_of disk system).0.pending 5 gone ≡ none
unfolding reload_code
gone_dropped = refl

on_sighup-Kept_example :
    Kept 5 gone gone
      (reload decode dir_of disk system.fleet).0
      (reload decode dir_of disk system.fleet).1
      system
      (on_sighup decode dir_of disk system).0
on_sighup-Kept_example = on_sighup-Kept decode dir_of disk system 5 gone gone gone_known

admin_reload-on_sighup_example : admin_reload decode dir_of disk system ≡ (
  record (on_sighup decode dir_of disk system).0 {
    logs = system.logs;
    sightings = system.sightings;
  },
  reply_for (on_sighup decode dir_of disk system).1,
)
admin_reload-on_sighup_example = admin_reload-on_sighup decode dir_of disk system refl

abbrev fresh : System
fresh = record system {
  fleet = record Fleet.empty { path = bytes "/etc/fleet.yaml" };
  pending = some (Pending.empty (pos 0));
}

watch_sighup-IsSound_example : IsSound (watch_sighup decode dir_of (disk ∷ disk ∷ []) fresh)
watch_sighup-IsSound_example = watch_sighup-IsSound decode dir_of (disk ∷ disk ∷ []) fresh (
    unfold Fleet.empty Pending.empty in
    record {
      fleet = record { unique = tt; canonical = tt };
      pending = record { unique = tt; canonical = tt };
      sightings = record { unique = tt; canonical = tt; bounded = omega arith };
    })

-- ===== src/Httpd/MachineTests.antt =====
-- Requests of internal/httpd/api.go about machines, and the theorems about them at concrete inputs.
use pxe_beacon.Base.{
  ℕ, ◌≡◌, refl, true, false, if◌then◌else◌, none, some, Option, [], ◌∷◌, List, drop, Text, bytes,
  text_eq, pos, parse_int, parse_digits, int64_of, are_digits, value_onto, lookup, insert, sort_by,
  trim_code, is_some, ok,
}
use mathlib.Core.Option
use pxe_beacon.Mac.{canonical_mac, mac_code}
use pxe_beacon.Mac.Canonical.{canonical_mac_idempotent}
use native.Mathlib.Omega.{arith}
use pxe_beacon.FilePaths.{path_code}
use pxe_beacon.Pending as Pending
use pxe_beacon.Pending.{install, status, queue, queue_entry}
use pxe_beacon.Fleet as Fleet
use pxe_beacon.Fleet.{Fleet, Profile, ConfigFile, Disk, menu_profile, valid_boot_target}
use pxe_beacon.Fleet.Validate.{
  validate_profile, check_file, check_optional, check_target, check_phone_home,
  file_defines_phone_home,
}
use pxe_beacon.Fleet.Saving.{no_fault, save, write_file, write_encoded}
use pxe_beacon.Fleet.Txn.{
  settle, nul_ended, param_texts, etag_input, hex_text, profile_etag, etag_of, etag,
  create_and_save, create_valid, create_new, update_and_save, update_valid, update_prior,
  delete_and_save, delete_entry, delete_prior,
}
use pxe_beacon.Tracker.{new_tracker}
use pxe_beacon.Httpd.{precondition_failed}
use pxe_beacon.Httpd.Machines.{
  Site, done, failed, MachineConfig, media_type, require_json, resolve, profile_from_body,
  error_for, tagged, deleted, update, delete, Request, create_profile, create_canonical,
  create_body, update_profile, update_body, update_canonical, delete_canonical, serve_ready, serve,
}
use pxe_beacon.Httpd.Mutations.{Untouched, serve-failed}
use pxe_beacon.Httpd.Changes.{second_update_done, delete_done}
use pxe_beacon.Httpd.Reading.{get_machine}
use pxe_beacon.Httpd.ReadBack.{serve-get_machine}
use pxe_beacon.Httpd.Paging.{
  build_desired, build_observed, parse_limit, parse_offset, parse_paging, window, slice,
}
use pxe_beacon.Httpd.Pages.{pages, pages_all}

site_code : Unit {0}
unfolding mac_code path_code valid_boot_target validate_profile check_file check_optional
    check_target check_phone_home file_defines_phone_home save write_file write_encoded settle
    nul_ended param_texts etag_input hex_text profile_etag etag_of etag create_and_save create_valid
    create_new update_and_save update_valid update_prior delete_and_save delete_entry delete_prior
    media_type require_json resolve profile_from_body error_for tagged deleted create_profile
    create_canonical create_body update_profile update_body update_canonical delete_canonical
    serve_ready serve lookup insert Fleet.empty sort_by trim_code Pending.empty queue queue_entry
    parse_int parse_digits int64_of are_digits value_onto parse_limit parse_offset parse_paging
    window slice pages new_tracker
site_code = tt

abbrev kube : Text
kube = bytes "58:47:ca:70:c7:c9"

abbrev kube_dashed : Text
kube_dashed = bytes "58-47-CA-70-C7-C9"

abbrev json : Text
json = bytes "application/json; charset=utf-8"

abbrev digest : Text → Text
digest t = drop 18 t

abbrev encode : ConfigFile → Option Text
encode c = some (bytes "machines:")

abbrev disk : Disk
disk = record { exists = λ path. true; read = λ path. some [] }

abbrev profile : Profile
profile = record menu_profile { boot = bytes "debian-12"; name = bytes "kube"; is_default = false }

abbrev lab : Fleet
lab = record Fleet.empty { path = bytes "/etc/pxe/fleet.yaml"; machines = (kube, profile) ∷ [] }

abbrev store : Pending.Store
store = (queue (Pending.empty (pos 100)) 5 kube install).0

abbrev site : Site
site = record {
  server = record { fleet = some lab; tracker = some (new_tracker (pos 0)); pending = some store };
  file = some (bytes "old");
}

abbrev body : MachineConfig
body = record {
  mac = [];
  name = bytes "kube";
  boot = bytes "debian-12";
  preseed = [];
  kickstart = [];
  cloud_init = [];
  rescue = bytes "/srv/rescue.yaml";
  ipxe_script = [];
  params = [];
}

abbrev tag : Text
tag = profile_etag digest kube profile

abbrev stale_update : Request
stale_update = update json kube_dashed (some body) (bytes "W/\"00\"")

stale_fails :
    (serve digest encode disk no_fault site stale_update).1 ≡ failed 412 precondition_failed
unfolding site_code
stale_fails = refl

kube_known : canonical_mac kube_dashed ≡ some kube
unfolding mac_code
kube_known = refl

current_succeeds :
    (serve digest encode disk no_fault site (update json kube_dashed (some body) tag)).1
    ≡ done 200 (some tag)
unfolding site_code
current_succeeds = refl

again_succeeds :
    (serve digest encode disk no_fault
      (serve digest encode disk no_fault site (update json kube_dashed (some body) tag)).0
      (update json kube (some body) tag)).1
    ≡ done 200 (some tag)
unfolding site_code
again_succeeds = refl

deletion_succeeds :
    (serve digest encode disk no_fault site (delete kube_dashed [])).1 ≡ done 204 none
unfolding site_code
deletion_succeeds = refl

kube_there : is_some (lookup kube lab.machines) ≡ true
unfolding site_code
kube_there = refl

abbrev three : List ℕ
three = 1 ∷ 2 ∷ 3 ∷ []

two_accepted : parse_paging (bytes "2") [] ≡ some (2, 0)
unfolding site_code text_eq
two_accepted = refl

serve-get_machine_example :
    get_machine digest
      (serve digest encode disk no_fault site (update json kube_dashed (some body) tag)).0.server
      7
      kube
    ≡ ok (
      some tag,
      record {
        mac = kube;
        name = bytes "kube";
        boot = bytes "debian-12";
        desired = build_desired (some store) 7 kube;
        observed =
            build_observed
              (serve digest encode disk no_fault site
                (update json kube_dashed (some body) tag)).0.server
              7
              kube;
      },
    )
serve-get_machine_example =
    serve-get_machine digest encode disk no_fault site (update json kube_dashed (some body) tag)
      kube_dashed kube kube body 7 200 (some tag) refl kube_known
      (canonical_mac_idempotent kube_dashed kube kube_known) current_succeeds

serve-failed_example : Untouched site (serve digest encode disk no_fault site stale_update).0
serve-failed_example =
    serve-failed digest encode disk no_fault site stale_update 412 precondition_failed stale_fails

second_update_done_example : some tag ≡ some tag
second_update_done_example =
    second_update_done digest encode disk disk no_fault no_fault site json json kube_dashed kube
      kube tag (some body) (some body) 200 200 (some tag) (some tag) kube_known
      (canonical_mac_idempotent kube_dashed kube kube_known) current_succeeds again_succeeds

delete_done_example :
    (Option.map
        (λ (g : Fleet). lookup kube g.machines)
        (serve digest encode disk no_fault site (delete kube_dashed [])).0.server.fleet
      ≡ some (if text_eq kube kube then none else lookup kube lab.machines))
    × (Option.map
          (λ (q : Pending.Store). status q 30 kube_dashed)
          (serve digest encode disk no_fault site (delete kube_dashed [])).0.server.pending
        ≡ some (if text_eq kube kube then none else status store 30 kube_dashed))
delete_done_example =
    delete_done digest encode disk no_fault site lab store 30 kube_dashed kube [] kube_dashed kube
      204 none refl refl kube_known kube_known kube_there deletion_succeeds

pages_all_example : (pages 2 0 2 three ≡ three) × (pages 2 0 3 three ≡ three)
pages_all_example = pages_all (bytes "2") [] 2 0 2 three two_accepted (omega arith)

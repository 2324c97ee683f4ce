-- ===== src/Httpd/Machines.antt =====
-- internal/httpd/api.go: the requests that create, update and delete a machine of the fleet.
use pxe_beacon.Base.{
  ℕ, ◌==◌, Bool, false, ◌||◌, Option, none, some, [], ◌∷◌, if◌then◌else◌, is_empty, Text, text_eq,
  bytes, trim_space, Map, Result, ok, err,
}
use pxe_beacon.Mac.{canonical_mac}
use pxe_beacon.FilePaths.{is_abs, join, clean}
use pxe_beacon.Pending as Pending
use pxe_beacon.Fleet as Fleet
use pxe_beacon.Fleet.{Profile, Machine, ConfigFile, Fleet, FleetError, Disk, valid_boot_target}
use pxe_beacon.Fleet.Saving.{Fault}
use pxe_beacon.Fleet.Txn.{World, create_and_save, update_and_save, delete_and_save}
use pxe_beacon.Httpd.{
  Server, ErrorCode, fleet_not_loaded, content_type_unsupported, body_invalid, mac_invalid,
  boot_invalid, mac_not_in_fleet, mac_exists, precondition_required, precondition_failed,
  save_failed, fleet_ready,
}

-- The server, and the file fleet.yaml.
pub record Site : Type 0 where
  pub server : Server
  pub file : Option Text

-- A success with its status and entity tag, or an error.
pub data Reply : Type 0 where
  done : ℕ → Option Text → Reply
  failed : ℕ → ErrorCode → Reply

-- The body of a request, `MachineConfig`. Reading and decoding it is the work of a library.
pub record MachineConfig : Type 0 where
  pub mac : Text
  pub name : Text
  pub boot : Text
  pub preseed : Text
  pub kickstart : Text
  pub cloud_init : Text
  pub rescue : Text
  pub ipxe_script : Text
  pub params : Map Text

-- The text before the first semicolon.
unfoldable pub media_type : Text → Text
media_type [] = []
media_type (c ∷ s) = let rest = media_type s in if c == b';' then [] else c ∷ rest

-- `requireJSON`
unfoldable pub require_json : Text → Bool
unfolding media_type
require_json ct = text_eq (trim_space (media_type ct)) (bytes "application/json")

unfoldable pub resolve : Text → Text → Text
resolve base p = if is_empty p || is_abs p then p else clean (join base p)

-- `profileFromBody`; a boot target that is not valid gives none.
unfoldable pub profile_from_body : Fleet → MachineConfig → Option Profile
unfolding resolve
profile_from_body f b =
    if valid_boot_target b.boot
    then some (record {
      boot = b.boot;
      name = b.name;
      cloud_init = resolve f.base_dir b.cloud_init;
      preseed = resolve f.base_dir b.preseed;
      kickstart = resolve f.base_dir b.kickstart;
      rescue = resolve f.base_dir b.rescue;
      ipxe_script = resolve f.base_dir b.ipxe_script;
      params = b.params;
      is_default = false;
    })
    else none

-- The status and the code for an error of a transaction.
unfoldable pub error_for : FleetError → ℕ × ErrorCode
error_for Fleet.mac_exists = (409, mac_exists)
error_for Fleet.mac_absent = (404, mac_not_in_fleet)
error_for Fleet.precondition_required = (428, precondition_required)
error_for Fleet.precondition_failed = (412, precondition_failed)
error_for _ = (500, save_failed)

-- `writeFleetMutationError`
abbrev pub mutation_error : FleetError → Reply
mutation_error e = let (status, code) = error_for e in failed status code

abbrev pub with_world : Server → World → Site
with_world s w = record { server = record s { fleet = some w.fleet }; file = w.file }

-- The end of a request that creates or updates.
unfoldable pub tagged : Server → ℕ → World × Result FleetError Text → Site × Reply
tagged s status (w, ok etag) = (with_world s w, done status (some etag))
tagged s status (w, err e) = (with_world s w, mutation_error e)

abbrev pub cancel_pending : Option Pending.Store → Text → Option Pending.Store
cancel_pending none mac = none
cancel_pending (some p) mac = some (Pending.cancel p mac).0

-- The end of a request that deletes: what was pending for the machine goes with it.
unfoldable pub deleted : Server → Text → World × Result FleetError Bool → Site × Reply
deleted s canon (w, ok existed) = (
  with_world (if existed then record s { pending = cancel_pending s.pending canon } else s) w,
  done 204 none,
)
deleted s canon (w, err e) = (with_world s w, mutation_error e)

-- The requests, with what the handlers read of each: the header Content-Type, the decoded body, the
-- address in the path, and the header If-Match.
pub data Request : Type 0 where
  create : Text → Option MachineConfig → Request
  update : Text → Text → Option MachineConfig → Text → Request
  delete : Text → Text → Request

module _ (digest : Text → Text) (encode : ConfigFile → Option Text) (disk : Disk) (fault : Fault)
    (x : Site) where
  abbrev world : Fleet → World
  world f = record { fleet = f; file = x.file }

  unfoldable pub create_profile : Fleet → Text → Option Profile → Site × Reply
  unfolding tagged
  create_profile f canon none = (x, failed 400 boot_invalid)
  create_profile f canon (some p) =
      tagged x.server 201
        (create_and_save digest encode disk fault (world f) (record { mac = canon; profile = p }))

  unfoldable pub create_canonical : Fleet → MachineConfig → Option Text → Site × Reply
  unfolding create_profile profile_from_body
  create_canonical f b none = (x, failed 400 mac_invalid)
  create_canonical f b (some canon) = create_profile f canon (profile_from_body f b)

  unfoldable pub create_body : Fleet → Option MachineConfig → Site × Reply
  unfolding create_canonical
  create_body f none = (x, failed 400 body_invalid)
  create_body f (some b) = create_canonical f b (canonical_mac b.mac)

  unfoldable pub update_profile : Fleet → Text → Text → Option Profile → Site × Reply
  unfolding tagged
  update_profile f canon if_match none = (x, failed 400 boot_invalid)
  update_profile f canon if_match (some p) = tagged x.server 200 (
      update_and_save digest encode disk fault (world f) (record { mac = canon; profile = p })
        if_match)

  unfoldable pub update_body : Fleet → Text → Text → Option MachineConfig → Site × Reply
  unfolding update_profile profile_from_body
  update_body f canon if_match none = (x, failed 400 body_invalid)
  update_body f canon if_match (some b) = update_profile f canon if_match (profile_from_body f b)

  unfoldable pub update_canonical : Fleet → Text → Option MachineConfig → Option Text → Site × Reply
  unfolding update_body
  update_canonical f if_match body none = (x, failed 400 mac_invalid)
  update_canonical f if_match body (some canon) = update_body f canon if_match body

  unfoldable pub delete_canonical : Fleet → Text → Option Text → Site × Reply
  unfolding deleted
  delete_canonical f if_match none = (x, failed 400 mac_invalid)
  delete_canonical f if_match (some canon) =
      deleted x.server canon (delete_and_save digest encode disk fault (world f) canon if_match)

  -- `handleAPICreateMachine`, `handleAPIUpdateMachine` and `handleAPIDeleteMachine`, behind
  -- `fleetReady`.
  unfoldable pub serve_ready : Request → Option Fleet → Site × Reply
  unfolding create_body update_canonical delete_canonical require_json
  serve_ready r none = (x, failed 503 fleet_not_loaded)
  serve_ready (create ct body) (some f) =
      if require_json ct then create_body f body else (x, failed 415 content_type_unsupported)
  serve_ready (update ct raw body if_match) (some f) =
      if require_json ct
      then update_canonical f if_match body (canonical_mac raw)
      else (x, failed 415 content_type_unsupported)
  serve_ready (delete raw if_match) (some f) = delete_canonical f if_match (canonical_mac raw)

  unfoldable pub serve : Request → Site × Reply
  unfolding serve_ready
  serve r =
      if fleet_ready x.server
      then serve_ready r x.server.fleet
      else (x, failed 503 fleet_not_loaded)

-- ===== src/Httpd/Reading.antt =====
-- The requests of internal/httpd that read a machine, its intent, its log or the whole fleet, and
-- what an installation event takes from its body. Encoding the views is the work of a library.
use pxe_beacon.Base.{
  ℕ, suc, zero, ◌/◌, Option, none, some, List, map, if◌then◌else◌, is_empty, take, ℤ, pos, negsuc,
  Text, Result, ok, err,
}
use pxe_beacon.Mac.{canonical_mac}
use pxe_beacon.Pending as Pending
use pxe_beacon.InstallLog as InstallLog
use pxe_beacon.Fleet.{Fleet, lookup_machine}
use pxe_beacon.Fleet.Saving.{list_machines}
use pxe_beacon.Fleet.Txn.{etag}
use pxe_beacon.Tracker.{Event}
use pxe_beacon.Httpd.{
  Server, Response, refused, fleet_not_loaded, pending_not_configured, fleet_member, fleet_ready,
  handle_install_event,
}
use pxe_beacon.Httpd.Machines.{MachineConfig, require_json}
use pxe_beacon.Httpd.Paging.{MachineView, build_desired, build_observed, build_machine_view}

-- `digest` is SHA-256.
module _ (digest : Text → Text) (s : Server) (now : ℕ) where
  unfoldable pub machine_answer :
      Fleet → Result Response Text → Result Response (Option Text × MachineView)
  unfolding build_machine_view etag lookup_machine
  machine_answer f (err refusal) = err refusal
  machine_answer f (ok mac) = ok (
    etag digest f mac,
    build_machine_view s now (record { mac = mac; profile = lookup_machine f mac }),
  )

  unfoldable pub machine_of : Text → Option Fleet → Result Response (Option Text × MachineView)
  unfolding machine_answer fleet_member
  machine_of raw none = err (refused 503 fleet_not_loaded)
  machine_of raw (some f) = machine_answer f (fleet_member f raw)

  -- `handleAPIMachine`: the header ETag, and the view
  unfoldable pub get_machine : Text → Result Response (Option Text × MachineView)
  unfolding machine_of
  get_machine raw =
      if fleet_ready s then machine_of raw s.fleet else err (refused 503 fleet_not_loaded)

-- `Intent` of the interface
pub record IntentView : Type 0 where
  pub mac : Text
  pub desired : Option Pending.Status
  pub observed : Option (Event × Option ℕ)

unfoldable pub build_intent_view : Server → ℕ → Text → IntentView
unfolding build_desired build_observed
build_intent_view s now canon = record {
  mac = canon;
  desired = build_desired s.pending now canon;
  observed = build_observed s now canon;
}

unfoldable pub intent_answer : Server → ℕ → Result Response Text → Result Response IntentView
unfolding build_intent_view
intent_answer s now (err refusal) = err refusal
intent_answer s now (ok mac) = ok (build_intent_view s now mac)

unfoldable pub intent_of :
    Server → ℕ → Text → Option Fleet → Option Pending.Store → Result Response IntentView
unfolding intent_answer fleet_member
intent_of s now raw none p = err (refused 503 fleet_not_loaded)
intent_of s now raw (some f) none = err (refused 503 pending_not_configured)
intent_of s now raw (some f) (some p) = intent_answer s now (fleet_member f raw)

-- `handleAPIGetIntent`, with `apiReady`
unfoldable pub get_intent : Server → ℕ → Text → Result Response IntentView
unfolding intent_of
get_intent s now raw =
    if fleet_ready s
    then intent_of s now raw s.fleet s.pending
    else err (refused 503 fleet_not_loaded)

-- A duration in whole seconds, rounded towards zero.
unfoldable pub whole_seconds : ℤ → ℤ
whole_seconds (pos n) = pos (n / 1000000000)
whole_seconds (negsuc n) = elim (suc n / 1000000000) [ zero ↦ pos 0 | suc k ↦ negsuc k ]

-- `pendingTTLSeconds`
unfoldable pub pending_ttl_seconds : Option Pending.Store → ℤ
unfolding whole_seconds
pending_ttl_seconds none = pos 0
pending_ttl_seconds (some p) = whole_seconds p.ttl

-- The payload of /status.json; the times of the server are left out.
pub record StatusReport : Type 0 where
  pub advertised_ip : Text
  pub http_port : ℤ
  pub pending_ttls : ℤ
  pub machines : List MachineView

unfoldable pub status_report : Text → ℤ → Server → ℕ → Fleet → StatusReport
unfolding build_machine_view pending_ttl_seconds list_machines
status_report advertised_ip http_port s now f = record {
  advertised_ip = advertised_ip;
  http_port = http_port;
  pending_ttls = pending_ttl_seconds s.pending;
  machines = map (build_machine_view s now) (list_machines f);
}

unfoldable pub status_of : Text → ℤ → Server → ℕ → Option Fleet → Result Response StatusReport
unfolding status_report
status_of advertised_ip http_port s now none = err (refused 503 fleet_not_loaded)
status_of advertised_ip http_port s now (some f) =
    ok (status_report advertised_ip http_port s now f)

-- `handleStatusJSON`
unfoldable pub status_json : Text → ℤ → Server → ℕ → Result Response StatusReport
unfolding status_of
status_json advertised_ip http_port s now =
    if fleet_ready s
    then status_of advertised_ip http_port s now s.fleet
    else err (refused 503 fleet_not_loaded)

unfoldable pub read_log : InstallLog.Store → Option Text → Result ℕ Text
read_log log none = err 400
read_log log (some mac) = ok (InstallLog.get log mac)

-- `handleGetLogs`: the text, or the status of an error
unfoldable pub get_logs : Option InstallLog.Store → Text → Result ℕ Text
unfolding read_log
get_logs none raw = err 404
get_logs (some log) raw = if is_empty raw then err 400 else read_log log (canonical_mac raw)

-- `decodeMachineBody`; `decode` is the strict decoder, and `none` a body that cannot be read.
unfoldable pub decode_machine_body :
    (Text → Option MachineConfig) → Option Text → Option MachineConfig
decode_machine_body decode none = none
decode_machine_body decode (some raw) = decode (take 16384 raw)

-- The phase of `parseEventPhase`. `phase_in` is the field "phase" that a decoder finds in a text,
-- and empty where it finds none, and `form` the same field of the form.
unfoldable pub parse_event_phase : (Text → Text) → Text → Text → Text → Text
unfolding require_json
parse_event_phase phase_in content_type raw form =
    if require_json content_type then phase_in (take 8192 raw) else form

-- `handleInstallEvent` with its body
unfoldable pub handle_event_body :
    (Text → Text) → Server → ℕ → Text → Text → Text → Text → Server × Response
unfolding parse_event_phase handle_install_event
handle_event_body phase_in s now mac content_type raw form =
    handle_install_event s now mac (parse_event_phase phase_in content_type raw form)

-- ===== src/Httpd.antt =====
-- The HTTP requests of internal/httpd that change what is pending: the installation events of
-- httpd.go and the intents of api.go. Writing the response body is left out; a response is its
-- status and its error code.
pub mod Events
pub mod Intents
pub mod Queued
pub mod Machines
pub mod Mutations
pub mod Changes
pub mod Paging
pub mod Pages
pub mod Reading
pub mod Bodies
pub mod ReadBack
pub mod Reports
pub mod MachineTests
pub mod Tests
use pxe_beacon.Base.{
  ℕ, Bool, true, false, ◌&&◌, ◌||◌, Option, none, some, if◌then◌else◌, List, [], is_empty, is_some,
  Text, bytes, Result, ok, err,
}
use pxe_beacon.Mac.{canonical_mac}
use pxe_beacon.Pending as Pending
use pxe_beacon.Pending.{install, rescue, queue}
use pxe_beacon.Fleet.{Fleet, Profile, lookup_machine, is_text}
use pxe_beacon.Tracker.{Event, installer_done, installer_failed, Tracker, note, event_eq}

-- What the server is wired with; the parts that may be nil are absent.
pub record Server : Type 0 where
  pub fleet : Option Fleet
  pub tracker : Option Tracker
  pub pending : Option Pending.Store

pub data ErrorCode : Type 0 where
  fleet_not_loaded pending_not_configured mac_missing mac_invalid mac_not_in_fleet : ErrorCode
  body_invalid action_missing action_invalid pending_failed : ErrorCode
  content_type_unsupported boot_invalid mac_exists precondition_required precondition_failed :
      ErrorCode
  save_failed paging_invalid callback_token_invalid : ErrorCode

pub data Response : Type 0 where
  accepted : Response
  refused : ℕ → ErrorCode → Response

abbrev pub is_install : Option Pending.Status → Bool
is_install none = false
is_install (some st) = elim st.action [ install ↦ true | rescue ↦ false ]

unfoldable pub cancel_install : Pending.Store → ℕ → Text → Pending.Store
cancel_install s now mac =
    if is_install (Pending.status s now mac) then (Pending.cancel s mac).0 else s

abbrev pub cancel_wired : Option Pending.Store → ℕ → Text → Option Pending.Store
cancel_wired none now mac = none
cancel_wired (some s) now mac = some (cancel_install s now mac)

abbrev pub note_wired : Option Tracker → Option Fleet → ℕ → Text → Event → Option Tracker
note_wired none fleet now mac ev = none
note_wired (some t) fleet now mac ev = some (note t fleet now mac ev)

-- `notePhase`
unfoldable pub note_phase : Server → ℕ → Text → Event → Server
unfolding cancel_install
note_phase s now mac phase = record s {
  tracker = note_wired s.tracker s.fleet now mac phase;
  pending = if event_eq phase installer_done then cancel_wired s.pending now mac else s.pending;
}

-- The switch over the phase of a request.
unfoldable pub phase_event : Text → Option Event
phase_event phase =
    if is_empty phase || is_text phase "installer-done" || is_text phase "done"
    then some installer_done
    else if is_text phase "installer-failed" || is_text phase "failed"
    then some installer_failed
    else none

unfoldable pub note_event : Server → ℕ → Text → Option Event → Server × Response
unfolding note_phase
note_event s now mac none = (s, refused 400 action_invalid)
note_event s now mac (some ev) = (note_phase s now mac ev, accepted)

unfoldable pub event_for : Server → ℕ → Text → Option Text → Server × Response
unfolding note_event phase_event
event_for s now phase none = (s, refused 400 mac_invalid)
event_for s now phase (some mac) = note_event s now mac (phase_event phase)

abbrev pub fleet_ready : Server → Bool
fleet_ready s = is_some s.fleet && is_some s.tracker

-- `handleInstallEvent`, with `extractMAC`
unfoldable pub handle_install_event : Server → ℕ → Text → Text → Server × Response
unfolding event_for
handle_install_event s now raw phase =
    if fleet_ready s
    then (if is_empty raw
        then (s, refused 400 mac_missing)
        else event_for s now phase (canonical_mac raw))
    else (s, refused 503 fleet_not_loaded)

-- The field "action" of the body of a request for an intent: missing, null, a text, or something
-- else. Decoding the body is the work of a library.
pub data ActionField : Type 0 where
  missing null not_text : ActionField
  text_action : Text → ActionField

abbrev stored : Server → Pending.Store × Option ℕ → Server × Response
stored s (p, none) = (s, refused 500 pending_failed)
stored s (p, some expires) = (record s { pending = some p }, accepted)

-- The switch over the action; the empty action cancels.
unfoldable pub set_action : Server → Pending.Store → ℕ → Text → Text → Server × Response
set_action s p now mac action =
    if is_text action "install"
    then stored s (Pending.install_machine p now mac)
    else if is_text action "rescue"
    then stored s (Pending.rescue_machine p now mac)
    else if is_empty action
    then (record s { pending = some (Pending.cancel p mac).0 }, accepted)
    else (s, refused 400 action_invalid)

unfoldable pub set_field :
    Server → Pending.Store → ℕ → Text → Option ActionField → Server × Response
unfolding set_action
set_field s p now mac none = (s, refused 400 body_invalid)
set_field s p now mac (some missing) = (s, refused 400 action_missing)
set_field s p now mac (some null) = set_action s p now mac []
set_field s p now mac (some not_text) = (s, refused 400 action_invalid)
set_field s p now mac (some (text_action action)) = set_action s p now mac action

-- `apiExtractFleetMAC`
unfoldable pub canonical_member : Fleet → Option Text → Result Response Text
canonical_member f none = err (refused 400 mac_invalid)
canonical_member f (some canon) =
    if is_empty (lookup_machine f canon).name then err (refused 404 mac_not_in_fleet) else ok canon

unfoldable pub fleet_member : Fleet → Text → Result Response Text
unfolding canonical_member
fleet_member f raw =
    if is_empty raw then err (refused 400 mac_missing) else canonical_member f (canonical_mac raw)

unfoldable pub intent_for :
    Server → Pending.Store → ℕ → Option ActionField → Result Response Text → Server × Response
unfolding set_field
intent_for s p now body (err refusal) = (s, refusal)
intent_for s p now body (ok mac) = set_field s p now mac body

unfoldable pub ready_intent :
    Server → ℕ → Text → Option ActionField → Option Fleet → Option Pending.Store → Server × Response
unfolding intent_for fleet_member
ready_intent s now raw body none p = (s, refused 503 fleet_not_loaded)
ready_intent s now raw body (some f) none = (s, refused 503 pending_not_configured)
ready_intent s now raw body (some f) (some p) = intent_for s p now body (fleet_member f raw)

-- `handleAPISetIntent`, with `apiReady`
unfoldable pub set_intent : Server → ℕ → Text → Option ActionField → Server × Response
unfolding ready_intent
set_intent s now raw body =
    if fleet_ready s
    then ready_intent s now raw body s.fleet s.pending
    else (s, refused 503 fleet_not_loaded)

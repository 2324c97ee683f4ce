-- ===== src/Httpd/Tests.antt =====
-- Requests to the server, and the theorems about them at concrete inputs.
use pxe_beacon.Base.{
  ◌≡◌, refl, true, false, none, some, Option, [], ◌∷◌, Text, bytes, pos, inr, arith, lookup, insert,
  delete, is_empty, trim_code, text_eq, Bool, ◌==◌, if◌then◌else◌,
}
use pxe_beacon.Mac.{canonical_mac, mac_code}
use pxe_beacon.Mac.Canonical.{names, spells}
use pxe_beacon.Pending as Pending
use pxe_beacon.Pending.{install, rescue, Status, Store, queue, cancel, status, is_pending}
use pxe_beacon.Fleet as Fleet
use pxe_beacon.Fleet.{
  Fleet, Profile, menu_profile, lookup_machine, resolved, profile_of, merge_params, overlay,
}
use pxe_beacon.Tracker.{new_tracker, stall_time}
use pxe_beacon.ProxyDhcp.{skip_already_deployed, Arch, efi_x86_64, discover, Request, Ip, Config}
use pxe_beacon.ProxyDhcp.Offer.{
  guard, machine_known, machine_name, build_offer, default_user_class, user_class_contains,
}
use pxe_beacon.ProxyDhcp.Gate.{IsUsable}
use pxe_beacon.Httpd.{
  cancel_install, handle_install_event, phase_event, text_action, null, set_intent,
}
use pxe_beacon.Httpd.Events.{wired, serving, done_not_answered}
use pxe_beacon.Httpd.Intents.{action_text}
use pxe_beacon.Httpd.Queued.{Shows, set_intent-get_intent}
use pxe_beacon.Httpd.Machines.{media_type, require_json}
use pxe_beacon.Httpd.Paging.{parse_paging, api_list}
use pxe_beacon.Httpd.Reading.{status_json, handle_event_body}
use pxe_beacon.Httpd.Reports.{page_of_report, api_list-status_json}
use pxe_beacon.Httpd.Bodies.{unread_event_not_answered}

server_code : Unit {0}
unfolding mac_code names spells lookup insert delete queue cancel status is_pending Pending.empty
    cancel_install lookup_machine resolved profile_of merge_params overlay Fleet.empty machine_known
    machine_name default_user_class user_class_contains phase_event new_tracker stall_time
    media_type require_json trim_code text_eq
server_code = tt

abbrev node : Text
node = bytes "52:54:00:00:00:01"

abbrev fleet : Fleet
fleet = record Fleet.empty {
  machines = (node, record menu_profile { name = bytes "kube"; is_default = false }) ∷ [];
}

-- An installation is pending since the time 5.
abbrev store : Store
store = (queue (Pending.empty (pos 100)) 5 node install).0

node_known : canonical_mac node ≡ some node
unfolding mac_code
node_known = refl

dashed_known : canonical_mac (bytes "52-54-00-00-00-01") ≡ some node
unfolding mac_code
dashed_known = refl

abbrev arch_string : Arch → Text
arch_string a = bytes "unknown"

abbrev copy : Request → Option Text
copy req = some (bytes "xid")

abbrev server_ip : Ip
server_ip = record { text = bytes "10.0.0.2"; v4 = some (bytes "10.0.0.2") }

abbrev config : Config
config = record {
  advertised_ip = some server_ip;
  http_port = pos 8080;
  ipxe_script_path = bytes "/boot.ipxe";
  ipxe_user_class = [];
  fleet = some fleet;
  pending = none;
  last_event = none;
  notes_sightings = true;
}

config-IsUsable : IsUsable config server_ip (bytes "10.0.0.2") 8079
config-IsUsable = record {
  address = refl;
  address_v4 = refl;
  port_given = refl;
  port_fits = omega arith;
}

abbrev firmware : Request
firmware = record {
  client_mac = node;
  class_identifier = bytes "PXEClient";
  user_class = [];
  client_arch = efi_x86_64 ∷ [];
  message_type = discover;
}

done_not_answered_example :
    (guard
        (wired config 30
          (handle_install_event
            (serving fleet (new_tracker (pos 9)) store)
            20
            node
            (bytes "done")).0)
        firmware
      ≡ some skip_already_deployed)
    × ((build_offer arch_string copy
          (wired config 30
            (handle_install_event
              (serving fleet (new_tracker (pos 9)) store)
              20
              node
              (bytes "done")).0)
          (some firmware)).reply
        ≡ none)
unfolding server_code
done_not_answered_example =
    done_not_answered arch_string copy config server_ip (bytes "10.0.0.2") 8079 fleet
      (new_tracker (pos 9)) store 20 30 node node (bytes "done") firmware config-IsUsable refl refl
      refl (omega arith) (inr refl) refl refl

abbrev is_closed : Text → Bool
is_closed [] = false
is_closed (b ∷ []) = b == b'}'
is_closed (b ∷ c ∷ t) = is_closed (c ∷ t)

-- A decoder that finds the phase of a report of a failure, but none in a text that is cut.
abbrev phase_in : Text → Text
phase_in t = if is_closed t then bytes "failed" else []

abbrev cut_report : Text
cut_report = bytes "{\"phase\": \"failed\", \"reason\": \"late_command"

event_is_json : require_json (bytes "application/json") ≡ true
unfolding server_code
event_is_json = refl

unread_event_not_answered_example :
    (guard
        (wired config 30
          (handle_event_body phase_in
            (serving fleet (new_tracker (pos 9)) store)
            20
            node
            (bytes "application/json")
            cut_report
            []).0)
        firmware
      ≡ some skip_already_deployed)
    × ((build_offer arch_string copy
          (wired config 30
            (handle_event_body phase_in
              (serving fleet (new_tracker (pos 9)) store)
              20
              node
              (bytes "application/json")
              cut_report
              []).0)
          (some firmware)).reply
        ≡ none)
unfolding server_code
unread_event_not_answered_example =
    unread_event_not_answered phase_in arch_string copy config server_ip (bytes "10.0.0.2") 8079
      fleet (new_tracker (pos 9)) store 20 30 node node (bytes "application/json") cut_report []
      firmware config-IsUsable refl refl event_is_json refl (omega arith) (inr refl) refl refl

kube_named : is_empty (lookup_machine fleet node).name ≡ false
unfolding server_code
kube_named = refl

set_intent-get_intent_example :
    Shows
      (set_intent
        (serving fleet (new_tracker (pos 9)) store)
        20
        (bytes "52-54-00-00-00-01")
        (some (text_action (action_text rescue)))).0
      30
      node
      node
      (some rescue)
    × Shows
        (set_intent
          (serving fleet (new_tracker (pos 9)) store)
          20
          (bytes "52-54-00-00-00-01")
          (some null)).0
        30
        node
        node
        none
unfolding server_code
set_intent-get_intent_example =
    set_intent-get_intent fleet (new_tracker (pos 9)) store 20 30 (bytes "52-54-00-00-00-01") node
      node rescue dashed_known node_known kube_named (inr (omega arith))

api_list-status_json_example :
    api_list (serving fleet (new_tracker (pos 9)) store) 20 (bytes "1") []
    ≡ page_of_report
        (status_json (bytes "10.0.0.2") (pos 8080) (serving fleet (new_tracker (pos 9)) store) 20)
        (parse_paging (bytes "1") [])
api_list-status_json_example =
    api_list-status_json (bytes "10.0.0.2") (pos 8080) (serving fleet (new_tracker (pos 9)) store)
      20 (bytes "1") []

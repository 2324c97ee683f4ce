-- ===== src/ProxyDhcp/Tests.antt =====
-- Requests and their outcomes, and the theorems about BuildOffer at concrete inputs.
use pxe_beacon.Base.{
  ◌≡◌, ◌↔◌, refl, true, false, none, some, Option, [], ◌∷◌, Text, bytes, pos, is_some, arith,
  lookup, has_prefix, join_with, decimal,
}
use pxe_beacon.Mac.{mac_code}
use pxe_beacon.Fleet.{
  Fleet, empty, menu_profile, lookup_machine, resolved, profile_of, merge_params, overlay,
}
use pxe_beacon.Tracker.{event_code, rank}
use pxe_beacon.ProxyDhcp.{Arch, efi_x86_64_http, discover, Request, Ip, Config, skip_no_pending}
use pxe_beacon.ProxyDhcp.Arches.{arch_table, lookup_arch, arch_label}
use pxe_beacon.ProxyDhcp.Offer.{
  default_user_class, is_pxe_vendor_class, user_class_contains, machine_name, machine_known, calls,
  was_installed, guard, parsed, base_reply, answer_type, script_url, sighting, transport_offer,
  arch_offer, firmware_offer, ipxe_offer, staged_offer, pxe_offer, typed_offer, port_offer,
  v4_offer, ip_offer, build_offer, boot_target, select_arch,
}
use pxe_beacon.ProxyDhcp.Gate.{IsUsable, IsAnswered, build_offer_iff}
use pxe_beacon.ProxyDhcp.Answer.{IsGood, build_offer-IsGood}
use pxe_beacon.ProxyDhcp.Sighted.{nameless_answered}

offer_code : Unit {0}
unfolding mac_code empty lookup_machine resolved profile_of merge_params overlay lookup has_prefix
    join_with decimal event_code rank arch_table lookup_arch arch_label default_user_class
    is_pxe_vendor_class user_class_contains machine_name machine_known calls was_installed guard
    parsed base_reply answer_type script_url sighting transport_offer arch_offer firmware_offer
    ipxe_offer staged_offer pxe_offer typed_offer port_offer v4_offer ip_offer build_offer
    boot_target select_arch
offer_code = tt

abbrev node : Text
node = bytes "52:54:00:00:00:01"

abbrev arch_string : Arch → Text
arch_string a = bytes "unknown"

abbrev copy : Request → Option Text
copy req = some (bytes "xid")

abbrev server : Ip
server = record { text = bytes "10.0.0.2"; v4 = some (bytes "10.0.0.2") }

abbrev fleet_of : Text → Fleet
fleet_of name = record empty {
  machines = (node, record menu_profile { name = name; is_default = false }) ∷ [];
}

-- Nothing is pending for any machine.
abbrev config : Text → Config
config name = record {
  advertised_ip = some server;
  http_port = pos 8080;
  ipxe_script_path = bytes "/boot.ipxe";
  ipxe_user_class = [];
  fleet = some (fleet_of name);
  pending = some (λ mac. false);
  last_event = none;
  notes_sightings = true;
}

config-IsUsable : (name : Text) → IsUsable (config name) server (bytes "10.0.0.2") 8079
config-IsUsable name = record {
  address = refl;
  address_v4 = refl;
  port_given = refl;
  port_fits = omega arith;
}

abbrev firmware : Request
firmware = record {
  client_mac = node;
  class_identifier = bytes "HTTPClient:Arch:00016";
  user_class = [];
  client_arch = efi_x86_64_http ∷ [];
  message_type = discover;
}

named_skipped :
    (build_offer arch_string copy (config (bytes "kube")) (some firmware)).decision.skip
    ≡ skip_no_pending
unfolding offer_code
named_skipped = refl

unnamed_file :
    (build_offer arch_string copy (config []) (some firmware)).decision.boot_file
    ≡ bytes "http://10.0.0.2:8080/snponly.efi"
unfolding offer_code
unnamed_file = refl

build_offer_iff_example :
    (is_some (build_offer arch_string copy (config []) (some firmware)).reply ≡ true)
    ↔ IsAnswered copy (config []) firmware
build_offer_iff_example =
    build_offer_iff arch_string copy (config []) server (bytes "10.0.0.2") 8079 firmware
      (config-IsUsable [])

build_offer-IsGood_example :
    IsGood
      (config [])
      server
      (bytes "10.0.0.2")
      8080
      firmware
      (build_offer arch_string copy (config []) (some firmware))
      (build_offer arch_string copy (config []) (some firmware)).reply
build_offer-IsGood_example =
    build_offer-IsGood arch_string copy (config []) server (bytes "10.0.0.2") 8079 firmware
      (config-IsUsable [])

nameless_answered_example :
    is_some (build_offer arch_string copy (config []) (some firmware)).reply ≡ true
unfolding offer_code
nameless_answered_example =
    nameless_answered arch_string copy (config []) server (bytes "10.0.0.2") 8079 firmware
      (fleet_of []) node (record menu_profile { name = []; is_default = false })
      (config-IsUsable []) refl refl refl refl refl refl refl
